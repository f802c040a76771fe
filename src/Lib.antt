-- ===== src/Lib.antt =====
-- The firmware of the SENSE board: two cores that talk over a UART, a modem, an SD card.
--
-- The control core and the interface core exchange frames of the Inter-Core Message Protocol
-- (lib/icmp). The control core collects datapoints, logs them on an SD card and posts them over the
-- cellular module (lib/cellular) as CoAP requests (lib/coap); it polls a server for remote commands.
--
-- Which file models what, by its path from the repository's root:
--   * Icmp.Frame: lib/icmp/icmp_frame.c, icmp_frame.h and the types of include/lib/icmp.h. `frame_pack`
--     and `frame_unpack` are icmp_frame_pack and icmp_frame_unpack. Icmp.Frame.Wire holds the layout
--     without buffers; Icmp.Frame.Equivalence has the messages and their encodings as two types.
--   * Icmp.Bitmap and Icmp.Inflight: the bitmap and the table of messages in flight in lib/icmp/icmp.c.
--     `claim_id` is the part of icmp_command under the mutex, `timeout_handler` is
--     icmp_inflight_timeout_handler. Icmp.Inflight.View reads bitmap and table as a map, and
--     Icmp.Inflight.Abstract is the quotient of the states by it.
--   * Icmp.Server: icmp_command, icmp_respond, icmp_notify, icmp_register_target (`command`,
--     `respond`, `notify`, `register_target`) with the queues of icmp_queue.h and the frame slab.
--   * Icmp.Thread: the halves of a round of icmp_thread_function (`transmit`, `receive`),
--     icmp_dispatch, icmp_dispatch_handler, and lib/icmp/icmp_phy_uart.c (`phy_uart_send`,
--     `uart_rx_released`). Icmp.Thread.Reach has the step relation of the server, Icmp.Thread.Answers
--     its runs with the commands that are issued and answered. Icmp.Link is the
--     start of the thread and of the PHY, Icmp.Uart the whole UART callback over the events of Uart.
--     Icmp.Exchange joins two servers by their UARTs.
--   * SdCard: cores/control/src/sd_card/sd_card.c. `submit_line` is sd_card_submit_line, `work_handler`
--     is sd_writer_work_handler, which SdCard.Worker cuts where lines may come in between.
--   * Coap: lib/coap/coap.c, coap_build_request as a chain of results (`build_request`); Coap.Calls
--     lists the calls that it makes.
--   * Cellular: lib/cellular/cellular.c, cellular_packet.c, cellular_queue.c. cellular_init is cut at
--     k_thread_create into `init_begin` and `init_end`, since the thread may run in between.
--     Cellular.Traffic cuts cellular_send_packet and a round of the thread where other threads may run.
--   * Requests: the pair of calls by which the clients build a request and hand it to the uplink.
--   * Remote: cores/control/src/remote_commands/remote_commands.c and include/common/command_types.h.
--   * Datapoint: cores/control/src/datapoint/datapoint.c, datapoint_helpers.c and datapoint_queue.c.
--     `thread_round` is a round of datapoint_thread; Datapoint.Queue has the functions that submit.
--     Datapoint.Pipeline joins both with the work item of the SD card.
--   * Sensors: cores/control/src/sensors but for gnss: the poll handlers under their names, adcs.c in
--     Sensors.Adc, sensors.c in Sensors.Start. Polling has the work items that all of them keep.
--   * Gnss: cores/control/src/sensors/gnss/gnss.c. The poll handler is cut at the tests of its loop
--     (`poll_begin`, `poll_iterate`); the events of the modem may come between those and before each
--     read of the frame. Gnss.Satellites
--     has what log_satellite_stats counts.
--   * Sdi12: cores/interface/src/sdi12. Sdi12.Thread cuts sdi12_thread where it waits and has its step
--     relation, with the events of the UART.
--   * Board: boards/skwort/sense_core/board.c and lib/cellular/cellular_backend_nrf.c; Board.Main has
--     cores/control/src/main.c and cores/interface/src/main.c.
--   * Heartbeat: lib/heartbeat/heartbeat.c.
--   * Prelude, Kernel: shared lists, integers and buffers; the contracts of Zephyr's message queues and
--     memory slabs, with Kernel.Reference as an instance for the tests.
--
-- How it is modelled. Bytes and machine integers are natural numbers with the wrap-around written out;
-- results are signed, an errno negative. A buffer is the list of the bytes that it has, and an access
-- outside it is a value (`none`, `out_of_bounds`). State is passed explicitly. The kernel's queues and
-- slabs, the CoAP packet functions, the CRC16, number printing, and the results of locks, drivers, file
-- system, sockets, clock and decoders are parameters. A frame from the slab is passed on by value,
-- where the code hands over its only pointer; a block that a slab hands out has a payload of full size.
--
-- Constants are those of the default configuration: payloads of 64 bytes, 8 frames in the slab and in
-- each queue, 5 targets, 8 messages in flight for at most 1000 ms, SD buffers of 1024 bytes, 8 uplink
-- packets of 256 bytes, 10 datapoints, 4 SDI-12 messages of 80 bytes. No definition runs on fuel:
-- every loop is bounded by its data or by the width of the bitmap, and the endless loops of the
-- threads are modelled round by round.
--
-- Not modelled: logging, and the test programs. fs_write of the SD card reads its buffer at one moment,
-- and the driver of a UART stores what it received at the front of the buffer; other threads act on the
-- ICMP state between steps, and on the inflight table while the work item does not hold the mutex. A
-- value of a GNSS frame is read at once. What the two functions that lock the state do is left to the
-- kernel's mutex, which the one caller takes without a time-out.
pub mod Prelude
pub mod Kernel
pub mod Icmp
pub mod SdCard
pub mod Coap
pub mod Cellular
pub mod Requests
pub mod Remote
pub mod Datapoint
pub mod Polling
pub mod Board
pub mod Sensors
pub mod Uart
pub mod Gnss
pub mod Sdi12
pub mod Heartbeat
