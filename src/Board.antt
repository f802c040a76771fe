-- ===== src/Board.antt =====
-- The start of the control core: boards/skwort/sense_core/board.c, the heartbeat's part of
-- cores/control/src/main.c with state.h, and lib/cellular/cellular_backend_nrf.c. The results of
-- the GPIO driver and of the modem library are arguments.
pub mod Start
pub mod Main
mod Tests
use sense_firmware.Prelude.{
  ℕ, List, [], ◌∷◌, Bool, true, false, if◌then◌else◌, ℤ, pos, negsuc, is_ok, eagain,
}
use sense_firmware.Heartbeat.{Heartbeat, init_start}

-- `-ENODEV`
abbrev pub enodev : ℤ
enodev = negsuc 18

-- `set_supply`, by whether the pin is ready: its result, and the level of the pin
unfoldable pub set_supply : Bool → Bool → Bool → ℤ × Bool
set_supply ready value level = if ready then (pos 0, value) else (enodev, level)

-- A value for each supply that `sense_core_init` sets: the level of its pin, or whether that is ready.
pub record Supplies : Type 0 where
  pub ls_sensors : Bool
  pub ls_sdcard : Bool
  pub ls_spiflash : Bool
  pub ls_5vl : Bool
  pub ls_5vh : Bool

-- `sense_core_init` of the nRF9161, with all nodes in the device tree
unfoldable pub sense_core_init : Supplies → Supplies → ℤ × Supplies
unfolding set_supply
sense_core_init ready levels =
    let (rc1, sensors) = set_supply ready.ls_sensors true levels.ls_sensors in
    let (rc2, sdcard) = set_supply ready.ls_sdcard false levels.ls_sdcard in
    let (rc3, spiflash) = set_supply ready.ls_spiflash true levels.ls_spiflash in
    let (rc4, v5l) = set_supply ready.ls_5vl true levels.ls_5vl in
    let (rc, v5h) = set_supply ready.ls_5vh false levels.ls_5vh in
    (
      rc,
      record {
        ls_sensors = sensors;
        ls_sdcard = sdcard;
        ls_spiflash = spiflash;
        ls_5vl = v5l;
        ls_5vh = v5h;
      },
    )

-- `enum state_codes`
pub data StateCode : Type 0 where
  ok : StateCode
  init_failed : StateCode
  data_error : StateCode
  sleeping : StateCode

-- `struct state`
pub record SystemState : Type 0 where
  pub heartbeat_state : StateCode

-- The part of `main` under `state_lock`, with the heartbeat
unfoldable pub start_heartbeat : ℕ → Bool → ℤ → Heartbeat × SystemState → Heartbeat × SystemState
start_heartbeat duration ready configure (h, state) =
    let (ret, h') = init_start duration ready configure h in
    let state' = if is_ok ret then state else record state { heartbeat_state = init_failed } in
    (h', record state' { heartbeat_state = ok })

-- The events that `lte_event_handler` tells apart: the network's registration status, as whether it is
-- home or roaming, and the others, which are only logged.
pub data LteEvent : Type 0 where
  nw_reg_status : Bool → LteEvent
  rrc_update : LteEvent
  other : LteEvent

-- `lte_event_handler`, on whether `lte_connected_sem` can be taken
abbrev pub lte_event_handler : LteEvent → Bool → Bool
lte_event_handler (nw_reg_status registered) sem = if registered then true else sem
lte_event_handler _ sem = sem

abbrev pub lte_events : List LteEvent → Bool → Bool
lte_events [] sem = sem
lte_events (event ∷ later) sem = lte_events later (lte_event_handler event sem)

-- The test for an `err` of `nrf_modem_lib_init` that ends `initialise_modem`; -1 does not.
abbrev pub lib_failed : ℤ → Bool
lib_failed (pos n) = if is_ok (pos n) then false else true
lib_failed (negsuc n) = if is_ok (pos n) then false else true

-- `initialise_modem`, by the events that come before its wait is over
unfoldable pub initialise_modem : ℤ → ℤ → List LteEvent → Bool → ℤ × Bool
initialise_modem lib_init func_mode events sem =
    if lib_failed lib_init
    then (lib_init, sem)
    else (if is_ok func_mode
        then (if lte_events events sem then (pos 0, false) else (eagain, false))
        else (func_mode, sem))
