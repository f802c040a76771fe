-- ===== src/SdCard/Worker/Held.antt =====
-- What the log file, the work item and the writer hold together, and a line that is added to it.
use sense_firmware.Prelude.{
  ℕ, ◌+◌, ◌<◌, ◌≡◌, ◌⊎◌, ◌∙◌, refl, ap, sym, subst, true, false, Bool, List, [], ◌∷◌, ◌++◌,
  append_assoc, append-nil, none, some, arith, length, take, pos, inl, inr,
}
use sense_firmware.SdCard.{Writer, buffer_size, strnlen}
use sense_firmware.SdCard.Lines.{IsValid, IsText, IsText-append, pending, flushed, submit_line_lem}
use sense_firmware.SdCard.Worker.{Phase, resting, opened, measured, Run, Action, comes, works, act}

-- The text that the work item still has to write
abbrev pub handed : Phase → Bool → Writer → List ℕ
handed resting false w = []
handed resting true w = flushed w
handed _ submitted w = flushed w

-- The log file, the text that the work item still has to write, and what waits behind it
abbrev pub held : Run → List ℕ
held r = (r.card.file ++ handed r.phase r.writer.submitted r.writer) ++ pending r.writer

-- A work item that runs was not submitted again, and has measured the text that it will write.
abbrev pub Measured : Phase → Writer → Type 0
Measured resting w = Unit {0}
Measured opened w = w.submitted ≡ false
Measured (measured len) w = (w.submitted ≡ false) × (len ≡ strnlen w.flush buffer_size)

pub record Steady (r : Run) : Type 0 where
  pub valid : IsValid r.writer
  pub text : IsText (pending r.writer)
  pub measures : Measured r.phase r.writer

-- A line that is shorter than a buffer and has no null byte, and that fits behind the waiting text
-- unless the work item rests; a step of the work item that does not fail and writes all of the text.
abbrev pub CalmAction : Action → Run → Type 0
CalmAction (comes line) r =
    (length line < buffer_size)
    × IsText line
    × ((r.writer.active_pos + length line < buffer_size)
        ⊎ ((r.phase ≡ resting) × (r.writer.submitted ≡ false)))
CalmAction (works mount open_file write) r =
    (mount ≡ pos 0) × (open_file ≡ pos 0) × (write ≡ pos (strnlen r.writer.flush buffer_size))

abbrev pub Calm : List Action → Run → Type 0
Calm [] r = Unit {0}
Calm (a ∷ actions) r =
    CalmAction a r × (elim (act a r) as (λ o. Type 0) [ none ↦ Unit {0} | some t ↦ Calm actions t ])

handed_same :
    (phase : Phase) (submitted : Bool) (w w' : Writer)
    → w'.flush ≡ w.flush
    → handed phase submitted w' ≡ handed phase submitted w
handed_same resting false w w' f = refl
handed_same resting true w w' f = ap (λ l. take (strnlen l buffer_size) l) f
handed_same opened submitted w w' f = ap (λ l. take (strnlen l buffer_size) l) f
handed_same (measured len) submitted w w' f = ap (λ l. take (strnlen l buffer_size) l) f

Measured-same :
    (phase : Phase) (w w' : Writer)
    → w'.flush ≡ w.flush
    → w'.submitted ≡ w.submitted
    → Measured phase w
    → Measured phase w'
Measured-same resting w w' f b m = tt
Measured-same opened w w' f b m = b ∙ m
Measured-same (measured len) w w' f b m = (b ∙ m.0, m.1 ∙ ap (λ l. strnlen l buffer_size) (sym f))

-- The text handed over by a writer whose work item rests
handed_rests :
    (r : Run)
    → r.phase ≡ resting
    → r.writer.submitted ≡ false
    → handed r.phase r.writer.submitted r.writer ≡ []
handed_rests r e s = rw (e, s) refl

pub handed_waits :
    (phase : Phase) (w : Writer)
    → phase ≡ resting
    → w.submitted ≡ true
    → handed phase w.submitted w ≡ flushed w
handed_waits phase w e s = rw (e, s) refl

-- A line is added to what is held.
pub comes_held :
    (line : List ℕ) (r : Run)
    → Steady r
    → CalmAction (comes line) r
    → (t : Run) × (act (comes line) r ≡ some t) × Steady t × (held t ≡ held r ++ line)
unfolding act
comes_held line r v (short, text, calm) =
    let (w', e, v', outcome) = submit_line_lem line r.writer v.valid v.text short in
    elim outcome [
      | inl (p, q, f, b) ↦ (
        record r { writer = w' },
        rw (act, e) refl,
        record {
          valid = v';
          text = subst IsText (sym q) (IsText-append (pending r.writer) line v.text text);
          measures = Measured-same r.phase r.writer w' f b v.measures;
        },
        ap (λ l. (r.card.file ++ handed r.phase w'.submitted w') ++ l) q
            ∙ ap (λ s. (r.card.file ++ handed r.phase s w') ++ (pending r.writer ++ line)) b
            ∙ ap (λ l. (r.card.file ++ l) ++ (pending r.writer ++ line))
                (handed_same r.phase r.writer.submitted r.writer w' f)
            ∙ sym (append_assoc _ (pending r.writer) line),
      )
      | inr (p, q, f, b) ↦ elim calm [
        | inl fits ↦ absurd (omega arith)
        | inr (rests, idle) ↦ (
          record r { writer = w' },
          rw (act, e) refl,
          record {
            valid = v';
            text = subst IsText (sym q) text;
            measures = subst (λ phase. Measured phase w') (sym rests) tt;
          },
          ap (λ l. (r.card.file ++ handed r.phase w'.submitted w') ++ l) q
              ∙ ap (λ l. (r.card.file ++ l) ++ line) (handed_waits r.phase w' rests b ∙ f)
              ∙ ap (λ l. (l ++ pending r.writer) ++ line)
                  (sym (append-nil r.card.file)
                    ∙ ap (λ l. r.card.file ++ l) (sym (handed_rests r rests idle))),
        )
      ]
    ]
