-- ===== src/Uart.antt =====
-- The events that Zephyr's UART driver reports to `icmp_uart_cb` (lib/icmp/icmp_phy_uart.c) and to
-- `sdi12_uart_cb` (cores/interface/src/sdi12/sdi12.c).

-- The cases of both switches, which are the same
pub data UartEvent : Type 0 where
  tx_done : UartEvent
  rx_rdy : UartEvent
  rx_disabled : UartEvent
  rx_stopped : UartEvent
  rx_buf_request : UartEvent
  rx_buf_released : UartEvent
  other_event : UartEvent
