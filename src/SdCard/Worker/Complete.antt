-- ===== src/SdCard/Worker/Complete.antt =====
-- The log file, where lines come between the steps of the work item.
use sense_firmware.Prelude.{
  ℕ, ◌≡◌, ◌⊎◌, ◌∙◌, refl, ap, sym, subst, true, false, Bool, List, [], ◌∷◌, ◌++◌, append_assoc,
  append-nil, none, some, ℤ, inl, inr, Bool-cases,
}
use sense_firmware.SdCard.{Writer, Card, buffer_size, strnlen}
use sense_firmware.SdCard.Lines.{pending, flushed, take-take}
use sense_firmware.SdCard.Log.{concat}
use sense_firmware.SdCard.Worker.{
  Phase, resting, opened, measured, Run, Action, comes, works, work_begin, work_measure, work_write,
  work_step, act, run, lines,
}
use sense_firmware.SdCard.Worker.Bounds.{step_rests, step_begins, step_measures, step_writes}
use sense_firmware.SdCard.Worker.Held.{
  handed, held, Measured, Steady, CalmAction, Calm, handed_waits, comes_held,
}

handed_runs :
    (phase : Phase) (submitted : Bool) (w : Writer)
    → (phase ≡ opened) ⊎ ((len : ℕ) × (phase ≡ measured len))
    → handed phase submitted w ≡ flushed w
handed_runs phase submitted w (inl e) = rw e refl
handed_runs phase submitted w (inr (len, e)) = rw e refl

-- A state with the same writer, but for whether the work item was submitted, and the same text held
module _ (r : Run) (v : Steady r) where
  unsubmitted : Writer
  unsubmitted = record r.writer { submitted = false }

  steady :
      (c : Card) (phase : Phase)
      → Measured phase unsubmitted
      → Steady (record { writer = unsubmitted; card = c; phase = phase })
  unfolding unsubmitted
  steady c phase m = record {
    valid = record {
      active_size = v.valid.active_size;
      flush_size = v.valid.flush_size;
      room = v.valid.room;
    };
    text = v.text;
    measures = m;
  }

  module _ (mount open_file write : ℤ) (calm : CalmAction (works mount open_file write) r) where
    Kept : Run → Type 0
    Kept t = (work_step mount open_file write r ≡ t) × Steady t × (held t ≡ held r)

    work_begin-Kept : r.phase ≡ resting → r.writer.submitted ≡ true → (t : Run) × Kept t
    unfolding work_begin unsubmitted Kept
    work_begin-Kept e s = (
      record { writer = unsubmitted; card = record r.card { powered = true }; phase = opened },
      (
        step_begins mount open_file write r e s ∙ rw (calm.0, calm.1, work_begin) refl,
        steady (record r.card { powered = true }) opened refl,
        ap (λ l. (r.card.file ++ l) ++ pending r.writer) (sym (handed_waits r.phase r.writer e s)),
      ),
    )

    work_measure-Kept : r.phase ≡ opened → (t : Run) × Kept t
    unfolding work_measure Kept
    work_measure-Kept e = (
      record r { phase = measured (strnlen r.writer.flush buffer_size) },
      (
        step_measures mount open_file write r e,
        record {
          valid = v.valid;
          text = v.text;
          measures = (subst (λ phase. Measured phase r.writer) e v.measures, refl);
        },
        ap (λ l. (r.card.file ++ l) ++ pending r.writer)
            (sym (handed_runs r.phase r.writer.submitted r.writer (inl e))),
      ),
    )

    work_write-Kept : (len : ℕ) → r.phase ≡ measured len → (t : Run) × Kept t
    unfolding work_write Kept
    work_write-Kept len e =
        let (idle, n) = subst (λ phase. Measured phase r.writer) e v.measures in
        (
          record r {
            card = record r.card { powered = false; file = r.card.file ++ flushed r.writer };
            phase = resting;
          },
          (
            step_writes mount open_file write r len e ∙ rw (calm.2, n, work_write, take-take) refl,
            record { valid = v.valid; text = v.text; measures = tt },
            ap
                  (λ s.
                    ((r.card.file ++ flushed r.writer) ++ handed resting s r.writer)
                    ++ pending r.writer)
                  idle
                ∙ ap (λ l. l ++ pending r.writer) (append-nil (r.card.file ++ flushed r.writer))
                ∙ ap (λ l. (r.card.file ++ l) ++ pending r.writer)
                    (sym (handed_runs r.phase r.writer.submitted r.writer (inr (len, e)))),
          ),
        )

    -- A step of the work item changes nothing of what is held.
    works_held : (phase : Phase) → r.phase ≡ phase → (t : Run) × Kept t
    unfolding Kept
    works_held resting e = elim (Bool-cases r.writer.submitted) [
      | inl s ↦ work_begin-Kept e s
      | inr s ↦ (r, (step_rests mount open_file write r e s, v, refl))
    ]
    works_held opened e = work_measure-Kept e
    works_held (measured len) e = work_write-Kept len e

-- The same as a step of a run
pub works_act :
    (mount open_file write : ℤ) (r : Run)
    → Steady r
    → CalmAction (works mount open_file write) r
    → (t : Run) × (work_step mount open_file write r ≡ t) × Steady t × (held t ≡ held r)
unfolding Kept
works_act mount open_file write r v c =
    let (t, (e, u, h)) = works_held r v mount open_file write c r.phase refl in (t, e, u, h)

later :
    (actions : List Action) (a : Action) (r t : Run)
    → act a r ≡ some t
    → Calm (a ∷ actions) r
    → Calm actions t
later actions a r t e c =
    subst (λ o. elim o as (λ x. Type 0) [ none ↦ Unit {0} | some t ↦ Calm actions t ]) e c.1

-- If each line is shorter than a buffer, holds no null byte, and makes the writer change its
-- buffers only while the work item rests, then lines and steps of the work item in any order never
-- fault. The log file, the text that the work item still has to write and the text that waits
-- behind it are together what they were, followed by the lines in their order, where no file
-- operation fails.
pub run_complete :
    (actions : List Action) (r : Run)
    → Steady r
    → Calm actions r
    → (t : Run) × (run actions r ≡ some t) × (held t ≡ held r ++ concat (lines actions))
unfolding run act
run_complete [] r v c = (r, refl, sym (append-nil (held r)))
run_complete (comes line ∷ actions) r v c =
    let (t, e, u, h) = comes_held line r v c.0 in
    let (t', e', h') = run_complete actions t u (later actions (comes line) r t e c) in
    (
      t',
      rw (e, run) e',
      h'
          ∙ ap (λ l. l ++ concat (lines actions)) h
          ∙ append_assoc (held r) line (concat (lines actions)),
    )
run_complete (works mount open_file write ∷ actions) r v c =
    let (t, e, u, h) = works_act mount open_file write r v c.0 in
    let (t', e', h') =
      run_complete actions t u (later actions (works mount open_file write) r t (ap some e) c) in
    (t', rw (run, act, e) e', h' ∙ ap (λ l. l ++ concat (lines actions)) h)
