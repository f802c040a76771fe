-- ===== src/SdCard/Worker/Bounds.antt =====
-- The buffers and the card in any interleaving of lines and steps of the work item.
use native.Mathlib.Decide.{dec_lt}
use sense_firmware.Prelude.{
  ℕ, zero, suc, ◌≤◌, ◌<◌, ◌≡◌, ◌+◌, refl, true, false, List, [], ◌∷◌, some, arith, length, ℤ, pos,
  is_ok, inl, inr, Bool-cases, ◌==◌,
}
use sense_firmware.SdCard.{Writer, Card, buffer_size, submit_line, strnlen}
use sense_firmware.SdCard.Lines.{IsValid, copy_line_lem, swap_buffers-IsValid, swap_room}
use sense_firmware.SdCard.Worker.{
  Phase, resting, opened, measured, Run, Action, comes, works, work_begin, work_measure, work_write,
  work_step, act, run, lines,
}

submit_line-IsValid :
    (line : List ℕ) (w : Writer)
    → IsValid w
    → length line < buffer_size
    → (w' : Writer) × (submit_line (pos 0) line (length line) w ≡ some (pos 0, w')) × IsValid w'
unfolding submit_line
submit_line-IsValid line w v h = elim (dec_lt (w.active_pos + length line) buffer_size) [
  | yes fits ↦ let (w', e, v', _, _, _) = copy_line_lem line w v fits in (w', ground (arith, e), v')
  | no over ↦
      let (w', e, v', _, _, _) =
        copy_line_lem line _ (swap_buffers-IsValid w v) (swap_room line w h) in
      (w', ground (arith, e, v.room), v')
]

strnlen-bound : (text : List ℕ) (n : ℕ) → strnlen text n ≤ n
unfolding strnlen
strnlen-bound text zero = omega arith
strnlen-bound [] (suc n) = omega arith
strnlen-bound (c ∷ text) (suc n) = elim (Bool-cases (c == 0)) [
  | inl e ↦ rw e (omega arith)
  | inr e ↦ rw e (omega (arith, strnlen-bound text n))
]

-- While the work item runs the card is on, and what it writes lies within the buffer.
abbrev pub Running : Phase → Card → Type 0
Running resting c = Unit {0}
Running opened c = c.powered ≡ true
Running (measured len) c = (c.powered ≡ true) × (len ≤ buffer_size)

pub record Sound (r : Run) : Type 0 where
  pub valid : IsValid r.writer
  pub running : Running r.phase r.card

work_begin-Sound : (mount open_file : ℤ) (r : Run) → Sound r → Sound (work_begin mount open_file r)
unfolding work_begin
work_begin-Sound mount open_file r v = record {
  valid = record {
    active_size = v.valid.active_size;
    flush_size = v.valid.flush_size;
    room = v.valid.room;
  };
  running = elim (Bool-cases (is_ok mount)) [
    | inr e ↦ rw e tt
    | inl e ↦ elim (Bool-cases (is_ok open_file)) [ inl f ↦ rw (e, f) refl | inr f ↦ rw (e, f) tt ]
  ];
}

-- The next step, by the phase
module _ (mount open_file write : ℤ) (r : Run) where
  pub step_rests :
      r.phase ≡ resting → r.writer.submitted ≡ false → work_step mount open_file write r ≡ r
  unfolding work_step
  step_rests e s = ground arith

  pub step_begins :
      r.phase ≡ resting
      → r.writer.submitted ≡ true
      → work_step mount open_file write r ≡ work_begin mount open_file r
  unfolding work_step
  step_begins e s = ground arith

  pub step_measures : r.phase ≡ opened → work_step mount open_file write r ≡ work_measure r
  unfolding work_step
  step_measures e = rw e refl

  pub step_writes :
      (len : ℕ)
      → r.phase ≡ measured len
      → work_step mount open_file write r ≡ work_write write len r
  unfolding work_step
  step_writes len e = rw e refl

  work_step-Sound :
      (phase : Phase) → r.phase ≡ phase → Sound r → Sound (work_step mount open_file write r)
  unfolding work_measure work_write
  work_step-Sound resting e v = elim (Bool-cases r.writer.submitted) [
    | inl s ↦ rw (step_begins e s) (work_begin-Sound mount open_file r v)
    | inr s ↦ rw (step_rests e s) v
  ]
  work_step-Sound opened e v =
      rw (step_measures e, work_measure)
        (record {
          valid = v.valid;
          running = (rw e at v.running, strnlen-bound r.writer.flush buffer_size);
        })
  work_step-Sound (measured len) e v =
      rw (step_writes len e, work_write) (record { valid = v.valid; running = tt })

-- Lines that are shorter than a buffer
abbrev pub Fitting : List (List ℕ) → Type 0
Fitting [] = Unit {0}
Fitting (line ∷ later) = (length line < buffer_size) × Fitting later

-- With whole buffers, and the card on if the work item already runs, lines that are shorter than a
-- buffer may come before, between and after the steps of the work item in any order, whatever the
-- file system returns and the lines hold: no access is outside a buffer, the buffers stay whole,
-- the card is on while the work item runs, and what it writes lies in its buffer.
pub run-Sound :
    (actions : List Action) (r : Run)
    → Sound r
    → Fitting (lines actions)
    → (t : Run) × (run actions r ≡ some t) × Sound t
unfolding run act
run-Sound [] r v h = (r, refl, v)
run-Sound (comes line ∷ actions) r v h =
    let (w, e, v') = submit_line-IsValid line r.writer v.valid h.0 in
    let (t, e', u) =
      run-Sound actions (record r { writer = w }) (record { valid = v'; running = v.running })
        h.1 in
    (t, rw (run, act, e) e', u)
run-Sound (works mount open_file write ∷ actions) r v h =
    run-Sound actions (work_step mount open_file write r)
      (work_step-Sound mount open_file write r r.phase refl v) h
