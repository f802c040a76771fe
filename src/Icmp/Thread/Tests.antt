-- ===== src/Icmp/Thread/Tests.antt =====
-- A test of the runs of the server: a command is answered.
use sense_firmware.Prelude.{
  ℕ, ◌≡◌, ◌+◌, ◌≤◌, ◌==◌, refl, Bool, true, [], ◌∷◌, Option, some, arith, pos,
}
use sense_firmware.Icmp.Fixtures.{slab, queue}
use sense_firmware.Icmp.Inflight.Tally.{in_flight}
use sense_firmware.Icmp.Scenarios.{
  in_flight_entry, one_inflight-IsValid, view_first, answer, working,
}
use sense_firmware.Icmp.Server.{State}
use sense_firmware.Icmp.Server.Send.{Inv}
use sense_firmware.Icmp.Thread.{response_callback, used_payload, dispatch_handler}
use sense_firmware.Icmp.Thread.Handler.{dispatch_handler_response}
use sense_firmware.Icmp.Thread.Interim.{others, count}
use sense_firmware.Icmp.Thread.Answers.{Trace, here, handler_step, answered_at_most_once}

working-Inv : Inv slab queue (working answer)
working-Inv = record {
  inflight = one_inflight-IsValid;
  blocks = refl;
  limit = omega arith;
  sem = refl;
  work = λ h. (answer, refl);
  targets = refl;
}

-- What the handler leaves
handled :
    (t : State slab queue) × (dispatch_handler slab queue (pos 0) (others [] []) (working answer)
      ≡ some (response_callback 7 (used_payload answer) 42, t))
handled =
    let (t, e, _, _, _) =
      dispatch_handler_response slab queue (others [] []) (working answer) answer in_flight_entry 7
        refl refl (omega arith) view_first refl view_first one_inflight-IsValid in
    (t, e)

answer_run : Trace slab queue (working answer) [] ((some 7, 42) ∷ []) handled.0
answer_run = handler_step here (pos 0) [] [] refl handled.1

-- The commands with the data 42
abbrev asks : Option ℕ → ℕ → Bool
asks cb user_data = user_data == 42

answered_at_most_once_example :
    Inv slab queue handled.0
    × (count asks ((some 7, 42) ∷ []) + in_flight asks (λ j. true) handled.0.inflight
        ≤ count asks [] + in_flight asks (λ j. true) (working answer).inflight)
answered_at_most_once_example =
    answered_at_most_once slab queue asks (working answer) handled.0 [] ((some 7, 42) ∷ [])
      answer_run working-Inv
