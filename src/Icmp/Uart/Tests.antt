-- ===== src/Icmp/Uart/Tests.antt =====
-- Tests of the UART callback.
use sense_firmware.Prelude.{refl, true, List, [], ◌∷◌, none, arith, replicate, pos}
use sense_firmware.Icmp.Frame.{max_frame_size}
use sense_firmware.Icmp.Frame.Wire.{wire}
use sense_firmware.Icmp.Inflight.{no_inflight}
use sense_firmware.Icmp.Thread.Delivery.{phy_uart_send-wire}
use sense_firmware.Icmp.Tests.{sum, ping, ping-IsValid}
use sense_firmware.Icmp.Fixtures.{slab, queue, no_inflight-IsValid, idle, idle-Inv}
use sense_firmware.Icmp.Uart.{Port, Action, stores, calls}
use sense_firmware.Uart.{rx_disabled, rx_buf_released, tx_done}
use sense_firmware.Icmp.Uart.Frames.{Carries, quiet, event, frame, Arrived, frames_arrive}

-- A port whose receiver is on, and two frames with other events around them.
abbrev port : Port slab queue sum
port = record {
  server = idle no_inflight;
  icmp_rx_buf = replicate max_frame_size 0;
  link = record { thread = true; inflight_timer = none; receives = true };
}

abbrev actions : List Action
actions =
    calls tx_done (pos 0)
    ∷ stores (wire sum ping)
    ∷ calls rx_buf_released (pos 0)
    ∷ calls rx_disabled (pos 0)
    ∷ stores (wire sum ping)
    ∷ calls rx_buf_released (pos 0)
    ∷ []

two_frames : Carries slab queue sum actions (ping ∷ ping ∷ [])
two_frames = event tx_done (pos 0) _ _ tt (
    frame ping (wire sum ping) (pos 0) _ _ ping-IsValid (phy_uart_send-wire sum ping ping-IsValid) (
      event rx_disabled (pos 0) _ _ refl (
        frame ping (wire sum ping) (pos 0) _ _ ping-IsValid
          (phy_uart_send-wire sum ping ping-IsValid) quiet)))

frames_arrive_example : Arrived slab queue sum actions (ping ∷ ping ∷ []) port
frames_arrive_example =
    frames_arrive slab queue sum actions (ping ∷ ping ∷ []) port two_frames (record {
      inv = idle-Inv no_inflight no_inflight-IsValid;
      room = omega arith;
      size = refl;
      receives = refl;
    })
