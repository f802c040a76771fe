-- ===== src/Icmp/Scenarios.antt =====
-- Tests of the server: runs over the reference queue and slab.
use sense_firmware.Prelude.{
  ℕ, zero, suc, ◌<◌, ◌≡◌, refl, true, false, [], ◌∷◌, ◌++◌, none, some, arith, replicate,
  if◌then◌else◌, ◌==◌, get_elem?, pos,
}
use sense_firmware.Icmp.Frame.{Frame, max_frame_size}
use sense_firmware.Icmp.Frame.Wire.{wire}
use sense_firmware.Icmp.Bitmap.{is_bit_set}
use sense_firmware.Icmp.Inflight.{Entry, Inflight, no_inflight, cleared, timeout_handler}
use sense_firmware.Icmp.Inflight.View.{IsValid, view, no_inflight-view}
use sense_firmware.Icmp.Inflight.Timeout.{keep_fresh, timeout_handler-view}
use sense_firmware.Icmp.Server.{State, notify, register_target}
use sense_firmware.Icmp.Server.Send.{Inv}
use sense_firmware.Icmp.Server.Command.{Commanded, command-Commanded}
use sense_firmware.Icmp.Server.Leak.{Leaked, command_leaks_id}
use sense_firmware.Icmp.Server.{command}
use sense_firmware.Icmp.Thread.{
  Event, alone, response_callback, dispatch_handler, receive, uart_rx_released, used_payload,
}
use sense_firmware.Icmp.Thread.Reach.{notifies, registers, Reach, here, next, Reach-Inv}
use sense_firmware.Icmp.Thread.Handler.{
  dispatch_handler_response, dispatch_handler_default, RunsTarget,
}
use sense_firmware.Icmp.Thread.Delivery.{bad_id_faults}
use sense_firmware.Icmp.Tests.{sum, ping}
use sense_firmware.Icmp.Fixtures.{
  slab, queue, storage, cleared_callback, no_inflight-IsValid, idle, idle-Inv,
}

abbrev pub in_flight_entry : Entry
in_flight_entry = record { timestamp = 500; callback = some 7; user_data = 42 }

abbrev pub one_inflight : Inflight
one_inflight = record { bitmap = 1; table = in_flight_entry ∷ replicate 7 cleared }

one_inflight_idle :
    (id : ℕ) (e : Entry)
    → is_bit_set 1 id ≡ false
    → get_elem? one_inflight.table id ≡ some e
    → e.callback ≡ none
unfolding is_bit_set
one_inflight_idle zero e b p = cc
one_inflight_idle (suc id) e b p = cleared_callback 7 id e p

pub one_inflight-IsValid : IsValid one_inflight
one_inflight-IsValid = record {
  width = omega arith;
  size = refl;
  idle = λ id e h b p. one_inflight_idle id e b p;
}

view_one : (id : ℕ) (e : Entry) → id < 8 → view one_inflight id ≡ some e → e.timestamp ≡ 500
unfolding view is_bit_set
view_one zero e h p = ground arith
view_one (suc zero) e h p = cc
view_one (suc (suc zero)) e h p = cc
view_one (suc (suc (suc zero))) e h p = cc
view_one (suc (suc (suc (suc zero)))) e h p = cc
view_one (suc (suc (suc (suc (suc zero))))) e h p = cc
view_one (suc (suc (suc (suc (suc (suc zero)))))) e h p = cc
view_one (suc (suc (suc (suc (suc (suc (suc zero))))))) e h p = cc
view_one (suc (suc (suc (suc (suc (suc (suc (suc id)))))))) e h p = absurd (omega arith)

pub view_first : view one_inflight 0 ≡ some in_flight_entry
unfolding view is_bit_set
view_first = refl

timeout_handler-view_example :
    IsValid (timeout_handler (pos 0) 2000 one_inflight)
    × ((j : ℕ)
        → j < 8
        → view (timeout_handler (pos 0) 2000 one_inflight) j
          ≡ keep_fresh 2000 (view one_inflight j))
timeout_handler-view_example =
    timeout_handler-view 2000 one_inflight (omega arith) one_inflight-IsValid
      (λ id e h p. omega (arith, view_one id e h p))

command-Commanded_example :
    Commanded slab queue 1
      (112 ∷ [])
      (some 7)
      42
      (idle no_inflight)
      (command slab queue (pos 0) 1 (112 ∷ []) (some 7) 42 (idle no_inflight))
command-Commanded_example =
    command-Commanded slab queue storage 1 (112 ∷ []) (some 7) 42 (idle no_inflight)
      (idle-Inv no_inflight no_inflight-IsValid) (omega arith) (omega arith) 0 (omega arith)
      (no_inflight-view 0 (omega arith))

-- A server whose slab is used up by eight frames that wait to be sent.
abbrev full : State slab queue
full = record (idle no_inflight) { frames = 8; tx = replicate 8 ping }

full-Inv : Inv slab queue full
full-Inv = record {
  inflight = no_inflight-IsValid;
  blocks = refl;
  limit = omega arith;
  sem = refl;
  work = λ h. cc;
  targets = refl;
}

command_leaks_id_example :
    Leaked slab queue 100
      (some 7)
      42
      full
      (command slab queue (pos 0) 1 (112 ∷ []) (some 7) 42 full)
command_leaks_id_example =
    command_leaks_id slab queue 100 1 (112 ∷ []) (some 7) 42 full full-Inv
      (λ id e h p. absurd (cc (no_inflight-view id h, p))) (omega arith) refl 0 (omega arith)
      (no_inflight-view 0 (omega arith))

-- A target is registered, then a frame queued.
abbrev registered : State slab queue
registered = record (idle no_inflight) { targets = none ∷ some 9 ∷ replicate 3 none }

abbrev notified : State slab queue
notified = (notify slab queue 1 (112 ∷ []) registered).1

registered_reached : Reach slab queue (idle no_inflight) registered
unfolding register_target
registered_reached = next here (registers 1 (some 9) registers_eq)
  where
    registers_eq : registered ≡ (register_target slab queue 1 (some 9) (idle no_inflight)).1
    registers_eq = refl

Reach-Inv_example : Inv slab queue notified
Reach-Inv_example =
    Reach-Inv slab queue (idle no_inflight) notified
      (next registered_reached (notifies 1 (112 ∷ []) refl))
      (idle-Inv no_inflight no_inflight-IsValid)

-- The work item of a received RESPONSE to the command in flight, and of a COMMAND.
abbrev pub answer : Frame
answer = record ping { type = 2; msg_id = 0 }

abbrev pub working : Frame → State slab queue
working f = record (idle one_inflight) {
  frames = 1;
  work_sem = false;
  work_ctx = record { frame = some f; icmp_cb = some 9 };
  submitted = true;
}

dispatch_handler_response_example :
    (t : State slab queue) × (dispatch_handler slab queue (pos 0) alone (working answer)
      ≡ some (response_callback 7 (used_payload answer) 42, t))
    × ((j : ℕ) → j < 8 → view t.inflight j ≡ (if 0 == j then none else view one_inflight j))
    × (t.frames ≡ 0)
    × (t.work_sem ≡ true)
dispatch_handler_response_example =
    dispatch_handler_response slab queue alone (working answer) answer in_flight_entry 7 refl refl
      (omega arith) view_first refl view_first one_inflight-IsValid

dispatch_handler_default_example :
    (event : Event) × (t : State slab queue) × (dispatch_handler slab queue
        (pos 0)
        alone
        (working ping)
      ≡ some (event, t))
    × RunsTarget slab queue ping (some 9) event
    × (t.frames ≡ 0)
    × (t.work_sem ≡ true)
    × (t.submitted ≡ false)
    × (t.inflight ≡ one_inflight)
    × (t.tx ≡ (working ping).tx)
    × (t.rx ≡ (working ping).rx)
    × (t.targets ≡ (working ping).targets)
dispatch_handler_default_example =
    dispatch_handler_default slab queue alone (working ping) ping refl one_inflight-IsValid
      (λ e. absurd (omega arith))

-- A RESPONSE with an id that no command can have.
abbrev stray : Frame
stray = record ping { type = 2; msg_id = 77 }

bad_id_faults_example :
    (t : State slab queue) × (u : State slab queue) × (uart_rx_released slab queue sum
        (wire sum stray ++ [])
        (idle one_inflight)
      ≡ some (replicate max_frame_size 0, t))
    × (receive slab queue t ≡ some u)
    × (dispatch_handler slab queue (pos 0) alone u ≡ none)
bad_id_faults_example =
    bad_id_faults slab queue sum stray [] alone (idle one_inflight)
      (record { known_type = omega arith; fits = omega arith; storage = refl })
      (idle-Inv one_inflight one_inflight-IsValid) (omega arith) refl refl (omega arith) refl
      (omega arith)
