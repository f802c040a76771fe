-- ===== src/SdCard/Log.antt =====
-- A run of the writer: lines, the work items between them, and `log.csv`.
use sense_firmware.Prelude.{
  inl, inr, ℕ, ◌<◌, ◌≡◌, refl, ap, sym, ◌∙◌, false, List, [], ◌∷◌, ◌++◌, append_assoc, append-nil,
  some, arith, length, pos, subst,
}
use sense_firmware.SdCard.{Writer, Card, buffer_size, strnlen, work_handler, log_line, log_lines}
use sense_firmware.SdCard.Lines.{
  IsValid, IsText, pending, flushed, submit_line_lem, IsText-append, take-take,
}

abbrev pub concat : List (List ℕ) → List ℕ
concat [] = []
concat (line ∷ lines) = line ++ concat lines

-- Lines that fit a buffer and hold no null byte.
abbrev pub Loggable : List (List ℕ) → Type 0
Loggable [] = Unit {0}
Loggable (line ∷ lines) = (length line < buffer_size) × IsText line × Loggable lines

pub record Ready (w : Writer) : Type 0 where
  pub valid : IsValid w
  pub text : IsText (pending w)
  pub idle : w.submitted ≡ false

-- What is in the file or waits for it.
abbrev pub logged : Writer × Card → List ℕ
logged (w, c) = c.file ++ pending w

pub handler_writes :
    (w : Writer) (c : Card)
    → work_handler (pos 0) (pos 0) (pos (strnlen w.flush buffer_size)) w c
      ≡ (record w { submitted = false }, record c { powered = false; file = c.file ++ flushed w })
unfolding work_handler
handler_writes w c = rw take-take

pub log_line_lem :
    (line : List ℕ) (w : Writer) (c : Card)
    → Ready w
    → length line < buffer_size
    → IsText line
    → (s' : Writer × Card) × (log_line line (w, c) ≡ some s')
      × Ready s'.0
      × (logged s' ≡ logged (w, c) ++ line)
unfolding log_line
log_line_lem line w c r h t =
    let (w', e, v', outcome) = submit_line_lem line w r.valid r.text h in
    elim outcome [
      | inl (p, q, f, b) ↦ (
        (w', c),
        ground (arith, e, b, r.idle),
        record {
          valid = v';
          text = subst IsText (sym q) (IsText-append (pending w) line r.text t);
          idle = b ∙ r.idle;
        },
        ap (λ l. c.file ++ l) q ∙ sym (append_assoc c.file (pending w) line),
      )
      | inr (p, q, f, b) ↦ (
        (
          record w' { submitted = false },
          record c { powered = false; file = c.file ++ flushed w' },
        ),
        ground (arith, e, b, handler_writes w' c),
        record {
          valid = record {
            active_size = v'.active_size;
            flush_size = v'.flush_size;
            room = v'.room;
          };
          text = subst IsText (sym q) t;
          idle = refl;
        },
        ap (λ a. (c.file ++ a) ++ pending w') f ∙ ap (λ b. (c.file ++ pending w) ++ b) q,
      )
    ]

-- From a writer with no work item under way and no null byte in the waiting text, any sequence of
-- lines, each shorter than a buffer and free of null bytes, is stored without a fault, and the log
-- file followed by the text that still waits is what it was, followed by the lines in their order,
-- where each work item runs before the next line and the file system stores what it is given.
pub log_lines_complete :
    (lines : List (List ℕ)) (w : Writer) (c : Card)
    → Ready w
    → Loggable lines
    → (s' : Writer × Card) × (log_lines lines (w, c) ≡ some s')
      × (logged s' ≡ logged (w, c) ++ concat lines)
unfolding log_lines
log_lines_complete [] w c r l = ((w, c), refl, sym (append-nil (logged (w, c))))
log_lines_complete (line ∷ lines) w c r l =
    let ((w', c'), e, r', q) = log_line_lem line w c r l.0 l.1 in
    let (s', e', q') = log_lines_complete lines w' c' r' l.2 in
    (
      s',
      rw (e, log_lines) e',
      q' ∙ ap (λ a. a ++ concat lines) q ∙ append_assoc (logged (w, c)) line (concat lines),
    )
