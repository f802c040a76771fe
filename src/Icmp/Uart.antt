-- ===== src/Icmp/Uart.antt =====
-- The whole of `icmp_uart_cb` in lib/icmp/icmp_phy_uart.c, over the server's state, the receive buffer
-- `icmp_rx_buf` and the link. The CRC16 and the result of `uart_rx_enable` are parameters.
pub mod Frames
mod Tests
use sense_firmware.Prelude.{ℕ, List, [], ◌∷◌, Option, none, some, memcpy, ℤ}
use sense_firmware.Kernel.{MsgQueue, MemSlab}
use sense_firmware.Uart.{
  UartEvent, tx_done, rx_rdy, rx_disabled, rx_stopped, rx_buf_request, rx_buf_released, other_event,
}
use sense_firmware.Icmp.Frame.{Frame}
use sense_firmware.Icmp.Server.{State, max_frames, queue_max_items}
use sense_firmware.Icmp.Thread.{uart_rx_released}
use sense_firmware.Icmp.Link.{Link, uart_rx_disabled}

-- What happens at the port: the driver stores the bytes that it received at the front of the buffer,
-- or calls the callback.
pub data Action : Type 0 where
  stores : List ℕ → Action
  calls : UartEvent → ℤ → Action

module _ (slab : MemSlab Frame max_frames) (queue : MsgQueue Frame queue_max_items)
    (crc16 : List ℕ → ℕ) where
  pub record Port : Type 0 where
    pub server : State slab queue
    pub icmp_rx_buf : List ℕ
    pub link : Link

  -- `icmp_uart_cb`; no result stands for a read outside the buffer.
  unfoldable pub icmp_uart_cb : UartEvent → ℤ → Port → Option Port
  icmp_uart_cb rx_disabled enable p = some (record p { link = uart_rx_disabled enable p.link })
  icmp_uart_cb rx_buf_released enable p =
      elim (uart_rx_released slab queue crc16 p.icmp_rx_buf p.server) [
        | none ↦ none
        | some (buf, s) ↦ some (record p { icmp_rx_buf = buf; server = s })
      ]
  icmp_uart_cb _ enable p = some p

  unfoldable pub act : Action → Port → Option Port
  unfolding icmp_uart_cb
  act (stores bytes) p = some (record p { icmp_rx_buf = memcpy p.icmp_rx_buf 0 bytes })
  act (calls event enable) p = icmp_uart_cb event enable p

  unfoldable pub run : List Action → Port → Option Port
  unfolding act
  run [] p = some p
  run (a ∷ actions) p = elim (act a p) [ none ↦ none | some q ↦ run actions q ]
