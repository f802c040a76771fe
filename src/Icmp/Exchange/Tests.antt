-- ===== src/Icmp/Exchange/Tests.antt =====
-- A command and its response between two servers.
use sense_firmware.Prelude.{ℕ, ◌<◌, ◌≡◌, refl, [], ◌∷◌, none, some, arith, replicate, pos}
use sense_firmware.Icmp.Inflight.{no_inflight}
use sense_firmware.Icmp.Inflight.View.{view, no_inflight-view}
use sense_firmware.Icmp.Server.{State, command, respond}
use sense_firmware.Icmp.Thread.{response_callback, target_callback}
use sense_firmware.Icmp.Tests.{sum}
use sense_firmware.Icmp.Fixtures.{slab, queue, storage, idle, idle-Inv, no_inflight-IsValid}
use sense_firmware.Icmp.Exchange.{deliver, IsIdle}
use sense_firmware.Icmp.Exchange.Roundtrip.{command_answered}

-- A server with a callback for target 0.
abbrev serving : State slab queue
serving = record (idle no_inflight) { targets = some 9 ∷ replicate 4 none }

pub control_IsIdle : IsIdle slab queue sum (idle no_inflight)
control_IsIdle = record {
  inv = idle-Inv no_inflight no_inflight-IsValid;
  tx = refl;
  rx = refl;
  rests = refl;
}

serving-IsIdle : IsIdle slab queue sum serving
serving-IsIdle = record {
  inv = record {
    inflight = no_inflight-IsValid;
    blocks = refl;
    limit = omega arith;
    sem = refl;
    work = λ e. cc;
    targets = refl;
  };
  tx = refl;
  rx = refl;
  rests = refl;
}

command_answered_example :
    let (ret, a1) = command slab queue (pos 0) 0 (1 ∷ 2 ∷ []) (some 7) 42 (idle no_inflight) in
    (ret ≡ pos 0)
    × (id : ℕ) × (a2 b1 : State slab queue) × (deliver slab queue sum 500 [] a1 serving
        ≡ some (target_callback 9 (1 ∷ 2 ∷ []), a2, b1))
    × (b2 a3 : State slab queue) × (deliver slab queue sum 600
          (5 ∷ [])
          (respond slab queue 0 id (3 ∷ []) b1).1
          a2
        ≡ some (response_callback 7 (3 ∷ []) 42, b2, a3))
    × ((k : ℕ) → k < 8 → view a3.inflight k ≡ view no_inflight k)
command_answered_example =
    command_answered slab queue sum storage 500 600 [] (5 ∷ []) 0 (1 ∷ 2 ∷ []) (3 ∷ []) 7 42 9 0
      (idle no_inflight) serving control_IsIdle serving-IsIdle (omega arith) (omega arith) refl
      (omega arith) (no_inflight-view 0 (omega arith))
