-- ===== src/Board/Tests.antt =====
-- Tests of the start.
use sense_firmware.Prelude.{
  ◌≡◌, ◌≢◌, ◌⊎◌, List, [], ◌∷◌, true, false, if◌then◌else◌, none, pos, negsuc, eagain, is_ok,
}
use sense_firmware.Heartbeat.{at_rest}
use sense_firmware.Board.{
  Supplies, sense_core_init, ok, start_heartbeat, LteEvent, nw_reg_status, rrc_update,
  initialise_modem, lib_failed,
}
use sense_firmware.Board.Start.{sense_core_init_hides, start_heartbeat_hides, initialise_modem_lem}

-- Only the pin of the 5VH supply is ready.
abbrev last_ready : Supplies
last_ready = record {
  ls_sensors = false;
  ls_sdcard = false;
  ls_spiflash = false;
  ls_5vl = false;
  ls_5vh = true;
}

abbrev unpowered : Supplies
unpowered = record last_ready { ls_5vh = false }

sense_core_init_hides_example :
    (((sense_core_init last_ready unpowered).0 ≡ pos 0) × (last_ready.ls_5vh ≡ true))
    ⊎ (((sense_core_init last_ready unpowered).0 ≢ pos 0) × (last_ready.ls_5vh ≡ false))
sense_core_init_hides_example = sense_core_init_hides last_ready unpowered

start_heartbeat_hides_example :
    let (h, state') =
      start_heartbeat 500 false (pos 0) (at_rest 1000, record { heartbeat_state = ok }) in
    (h.timer ≡ none) × (state'.heartbeat_state ≡ ok)
start_heartbeat_hides_example =
    start_heartbeat_hides 1000 500 (pos 0) (record { heartbeat_state = ok })

abbrev arrivals : List LteEvent
arrivals = nw_reg_status false ∷ rrc_update ∷ nw_reg_status true ∷ []

initialise_modem_lem_example :
    let (ret, sem') = initialise_modem (negsuc 0) (pos 0) arrivals false in
    ((lib_failed (negsuc 0) ≡ true) × (ret ≡ negsuc 0) × (ret ≢ pos 0) × (sem' ≡ false))
    ⊎ ((lib_failed (negsuc 0) ≡ false) × (is_ok (pos 0) ≡ false) × (ret ≡ pos 0) × (sem' ≡ false))
    ⊎ ((lib_failed (negsuc 0) ≡ false)
        × (is_ok (pos 0) ≡ true)
        × (ret ≡ (if true then pos 0 else eagain))
        × (sem' ≡ false))
initialise_modem_lem_example = initialise_modem_lem (negsuc 0) (pos 0) arrivals false
