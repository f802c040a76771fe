-- ===== src/Board/Main.antt =====
-- Both main functions: cores/control/src/main.c and cores/interface/src/main.c. `icmp_test_cb` only
-- logs; it stands for a callback of either core. The interface core has a USB console where its
-- device tree chooses one.
pub mod Greeting
mod Tests
use sense_firmware.Prelude.{
  ℕ, List, [], ◌∷◌, ◌++◌, Bool, true, false, Option, none, some, if◌then◌else◌, ℤ, is_ok, codes,
}
use sense_firmware.Kernel.{MsgQueue, MemSlab}
use sense_firmware.Polling.{PollWork}
use sense_firmware.Heartbeat.{Heartbeat, init_start}
use sense_firmware.Cellular.{Module, cellular_init}
use sense_firmware.Remote.{remote_commands_init}
use sense_firmware.Sensors.Start.{Sensors, Devices, sensors_init}
use sense_firmware.Gnss.{Modem}
use sense_firmware.Icmp.Frame.{Frame}
use sense_firmware.Icmp.Server.{State, max_frames, queue_max_items, notify, register_target}
use sense_firmware.Icmp.Link.{Link, icmp_init}
use sense_firmware.Board.{SystemState, start_heartbeat}

-- The two payloads of six bytes
abbrev pub control_payload : List ℕ
control_payload = codes "nrf91" ++ 0 ∷ []

abbrev pub interface_payload : List ℕ
interface_payload = codes "nrf53" ++ 0 ∷ []

-- The test for the USB console of the interface core, where there is one: whether its device is ready,
-- and what `usb_enable` returns
abbrev pub usb_starts : Option (Bool × ℤ) → Bool
usb_starts none = true
usb_starts (some (ready, enable)) = if ready then is_ok enable else false

module _ (slab : MemSlab Frame max_frames) (queue : MsgQueue Frame queue_max_items) where
  -- What `main` of either core does with its ICMP server before its loop, by whether a PHY is selected
  unfoldable pub start_server : ℕ → Bool → State slab queue × Link → State slab queue × Link
  start_server icmp_test_cb selected (s, l) =
      let (_, s') = register_target slab queue 0 (some icmp_test_cb) s in
      let (_, l') = icmp_init selected l in (s', l')

  -- A round of the loop of `main`
  unfoldable pub main_round : List ℕ → State slab queue → State slab queue
  main_round payload s = (notify slab queue 0 payload s).1

  -- What the start of the control core works on
  pub record Control : Type 0 where
    pub heartbeat : Heartbeat
    pub state : SystemState
    pub sensors : Sensors
    pub cellular : Module
    pub remote : PollWork
    pub server : State slab queue
    pub link : Link

  -- The results that it meets
  pub record Results : Type 0 where
    pub heartbeat_ready : Bool
    pub heartbeat_configure : ℤ
    pub modem : Modem
    pub devices : Devices
    pub backend : Bool
    pub phy : Bool

  -- `main` of the control core up to its loop. `duration`, `timeout` and `interval` are configured; the
  -- two callbacks are `remote_commands_handle_packet` and `icmp_test_cb`. The cellular thread does not
  -- run before it returns; `sd_writer_init` only readies the mutex and the work item of the writer.
  unfoldable pub control_main : ℕ → ℕ → ℕ → ℕ → ℕ → Results → Control → Control
  control_main duration timeout interval handle_packet icmp_test_cb r c =
      let (heartbeat, state) =
        start_heartbeat duration r.heartbeat_ready r.heartbeat_configure (c.heartbeat, c.state) in
      let (server, link) = start_server icmp_test_cb r.phy (c.server, c.link) in
      record {
        heartbeat = heartbeat;
        state = state;
        sensors = sensors_init timeout interval r.modem r.devices c.sensors;
        cellular = (cellular_init (some handle_packet) r.backend c.cellular).1;
        remote = (remote_commands_init c.remote).1;
        server = server;
        link = link;
      }

  -- What `main` of the interface core works on, and the results that it meets: those of the USB
  -- console, where there is one, are whether its device is ready and what `usb_enable` returns.
  pub record Interface : Type 0 where
    pub server : State slab queue
    pub link : Link
    pub heartbeat : Heartbeat

  pub record InterfaceResults : Type 0 where
    pub phy : Bool
    pub heartbeat_ready : Bool
    pub heartbeat_configure : ℤ
    pub usb : Option (Bool × ℤ)

  -- `main` of the interface core up to its loop: whether that starts
  unfoldable pub interface_main : ℕ → ℕ → InterfaceResults → Interface → Bool × Interface
  interface_main duration icmp_test_cb r i =
      let (server, link) = start_server icmp_test_cb r.phy (i.server, i.link) in
      let (_, heartbeat) =
        init_start duration r.heartbeat_ready r.heartbeat_configure i.heartbeat in
      (usb_starts r.usb, record { server = server; link = link; heartbeat = heartbeat })
