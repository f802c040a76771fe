-- ===== src/Sdi12/Start.antt =====
-- The start of the SDI-12 thread.
use sense_firmware.Prelude.{◌≡◌, true, false, arith, is_ok, is_negative}
use sense_firmware.Sdi12.Thread.{Lines, Setup, configure, gpio_init, sdi12_thread_start}

-- If the loop of the thread starts, then all four pins were ready, none failed to be configured,
-- and the callback was set; the 12V supply is on then and the line is marked, with the transmitter
-- enabled and the receiver not.
pub sdi12_thread_start_lem :
    (r : Setup) (l : Lines)
    → (sdi12_thread_start r l).0 ≡ true
    → (r.space_ready ≡ true)
      × (r.tx_ready ≡ true)
      × (r.rx_ready ≡ true)
      × (r.power_ready ≡ true)
      × (is_negative r.power ≡ false)
      × (is_negative r.space ≡ false)
      × (is_negative r.tx ≡ false)
      × (is_negative r.rx ≡ false)
      × (is_ok r.callback_set ≡ true)
      × ((sdi12_thread_start r l).1
          ≡ record { ls_12v = true; space = false; tx_en = true; rx_en = false })
unfolding sdi12_thread_start gpio_init configure
sdi12_thread_start_lem r l h = ground arith
