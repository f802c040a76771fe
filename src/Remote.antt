-- ===== src/Remote.antt =====
-- Remote commands of the control core: cores/control/src/remote_commands/remote_commands.c and
-- include/common/command_types.h. What the CoAP and CBOR decoders return is an argument; requests go
-- through lib/coap and lib/cellular.
mod Tests
pub mod Apply
pub mod Requests
use sense_firmware.Prelude.{
  ℕ, Bool, true, false, List, [], ◌∷◌, Option, none, some, ltb, ◌==◌, if◌then◌else◌, not, ℤ, pos,
  is_ok, to_size, codes,
}
use sense_firmware.Kernel.{MsgQueue, MemSlab}
use sense_firmware.Polling.{PollWork, schedule, set_poll_interval}
use sense_firmware.Requests.{send_built}
use sense_firmware.Coap.{
  CoapLib, Built, ok, err, build_request, result, method_get, method_delete, type_non_con,
}
use sense_firmware.Cellular.{CellularState, running, Packet, State, queue_max_items, send_packet}

-- `enum command_type`
abbrev pub none_available : ℕ
none_available = 0

abbrev pub set_poll_rate : ℕ
set_poll_rate = 1

abbrev pub set_rail_state : ℕ
set_rail_state = 2

abbrev pub type_unknown : ℕ
type_unknown = 3

-- `enum command_sensors`
abbrev pub sensor_adcs : ℕ
sensor_adcs = 0

abbrev pub sensor_lis3mdl : ℕ
sensor_lis3mdl = 1

abbrev pub sensor_lsm6dso : ℕ
sensor_lsm6dso = 2

abbrev pub sensor_sht4x : ℕ
sensor_sht4x = 3

abbrev pub sensor_unknown : ℕ
sensor_unknown = 4

-- `enum command_rails`
abbrev pub rail_5vh : ℕ
rail_5vh = 0

abbrev pub rail_unknown : ℕ
rail_unknown = 1

-- `cmd_is_valid_type`, `cmd_is_valid_sensor`, `cmd_is_valid_rail`, of unsigned values
abbrev pub is_valid_type : ℕ → Bool
is_valid_type val = ltb val type_unknown

abbrev pub is_valid_sensor : ℕ → Bool
is_valid_sensor val = ltb val sensor_unknown

abbrev pub is_valid_rail : ℕ → Bool
is_valid_rail val = ltb val rail_unknown

-- `struct command`, as the CBOR schema generates it
pub record Command : Type 0 where
  pub ty : ℕ
  pub ta : ℕ
  pub i : Option ℤ
  pub b : Option Bool

-- The `poll_interval_ms` of each sensor, and the 5VH switch. `delay` is the time until the poll work
-- that was rescheduled last, with its sensor.
pub record Settings : Type 0 where
  pub adcs : ℤ
  pub lis3mdl : ℤ
  pub lsm6dso : ℤ
  pub sht4x : ℤ
  pub rail : Bool
  pub rescheduled : Option (ℕ × ℤ)

-- `update_sensor_poll_rate`, with `adcs_set_poll_interval` and its likes
unfoldable pub update_sensor_poll_rate : ℕ → ℤ → Settings → Settings
update_sensor_poll_rate sensor val s =
    if sensor == sensor_adcs
    then record s { adcs = val; rescheduled = some (sensor, val) }
    else if sensor == sensor_lis3mdl
    then record s { lis3mdl = val; rescheduled = some (sensor, val) }
    else if sensor == sensor_lsm6dso
    then record s { lsm6dso = val; rescheduled = some (sensor, val) }
    else if sensor == sensor_sht4x
    then record s { sht4x = val; rescheduled = some (sensor, val) }
    else s

-- `update_voltage_rail_state`
unfoldable pub update_voltage_rail_state : ℕ → Bool → Settings → Settings
update_voltage_rail_state rail state s = if rail == rail_5vh then record s { rail = state } else s

-- The two commands that change something; `none` is an early return.
unfoldable pub apply_poll_rate : Command → Settings → Option Settings
unfolding update_sensor_poll_rate
apply_poll_rate cmd s = elim cmd.i [
  | none ↦ none
  | some val ↦ if is_valid_sensor cmd.ta then some (update_sensor_poll_rate cmd.ta val s) else none
]

unfoldable pub apply_rail_state : Command → Settings → Option Settings
unfolding update_voltage_rail_state
apply_rail_state cmd s = elim cmd.b [
  | none ↦ none
  | some state ↦
      if is_valid_rail cmd.ta then some (update_voltage_rail_state cmd.ta state s) else none
]

-- `process_remote_command` up to `issue_delete_request`
unfoldable pub apply_command : Command → Settings → Option Settings
unfolding apply_poll_rate apply_rail_state
apply_command cmd s =
    if not (is_valid_type cmd.ty)
    then none
    else if cmd.ty == none_available
    then none
    else if cmd.ty == set_poll_rate
    then apply_poll_rate cmd s
    else if cmd.ty == set_rail_state
    then apply_rail_state cmd s
    else none

-- `data_path`
abbrev pub data_path : List (List ℕ)
data_path = codes "ccd99122-3904-454a-95c7-9fb71f2c3fde" ∷ codes "commands" ∷ []

module _ (lib : CoapLib) (slab : MemSlab Packet queue_max_items)
    (queue : MsgQueue Packet queue_max_items) where
  -- A request for the commands, built in a buffer of `buf_len` bytes and sent.
  unfoldable pub send_request : ℕ → ℕ → State slab queue → ℤ × State slab queue
  send_request buf_len method s =
      send_built lib slab queue
        (build_request lib buf_len type_non_con method (some data_path) none) s

  -- `issue_delete_request`; what sending returns is only logged.
  unfoldable pub issue_delete_request : State slab queue → State slab queue
  unfolding send_request
  issue_delete_request s = (send_request 256 method_delete s).1

  -- `process_remote_command`
  unfoldable pub process_remote_command :
      Command → Settings × State slab queue → Settings × State slab queue
  process_remote_command cmd (c, s) = elim (apply_command cmd c) [
    | none ↦ (c, s)
    | some c' ↦ (c', issue_delete_request s)
  ]

  -- `remote_commands_handle_packet`, by the results of the parser, the payload and the CBOR decoder
  unfoldable pub handle_packet :
      ℤ
      → Option (List ℕ)
      → (List ℕ → Option Command)
      → Settings × State slab queue
      → Settings × State slab queue
  handle_packet parse payload decode n =
      if is_ok parse
      then elim payload [
        | none ↦ n
        | some bytes ↦ elim (decode bytes) [ none ↦ n | some cmd ↦ process_remote_command cmd n ]
      ]
      else n

  -- `remote_command_poll_work_handler`
  unfoldable pub poll_work_handler :
      CellularState → PollWork → State slab queue → State slab queue × PollWork
  unfolding send_request
  poll_work_handler running w s = ((send_request 512 method_get s).1, schedule w.poll_interval_ms w)
  poll_work_handler _ w s = (s, schedule w.poll_interval_ms w)

-- `remote_commands_init`
abbrev pub remote_commands_init : PollWork → ℤ × PollWork
remote_commands_init w = (pos 0, schedule (pos 0) w)

-- `remote_commands_set_poll_interval`
abbrev pub remote_commands_set_poll_interval : ℤ → PollWork → PollWork
remote_commands_set_poll_interval interval_ms w = set_poll_interval interval_ms w
