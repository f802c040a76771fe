-- ===== src/SdCard/Race.antt =====
-- Lines that come faster than the work item runs.
use sense_firmware.Prelude.{
  ℕ, ◌+◌, ◌≤◌, ◌<◌, ◌≡◌, ◌∙◌, ap, subst, sym, inl, inr, List, ◌++◌, some, arith, length, pos,
}
use sense_firmware.SdCard.{Writer, Card, buffer_size, strnlen, submit_line, work_handler}
use sense_firmware.SdCard.Lines.{IsValid, IsText, pending, flushed, submit_line_lem, length-pending}
use sense_firmware.SdCard.Log.{logged, handler_writes}

swaps :
    (line : List ℕ) (w : Writer)
    → IsValid w
    → IsText (pending w)
    → length line < buffer_size
    → buffer_size ≤ length (pending w) + length line
    → (w' : Writer) × (submit_line (pos 0) line (length line) w ≡ some (pos 0, w'))
      × IsValid w'
      × (pending w' ≡ line)
      × (flushed w' ≡ pending w)
swaps line w v t h k =
    let (w', e, v', outcome) = submit_line_lem line w v t h in
    elim outcome [
      | inl (p, _, _, _) ↦ absurd (omega (arith, length-pending w v))
      | inr (_, q, f, _) ↦ (w', e, v', q, f)
    ]

-- The mutex is free, the writer valid, no null byte in the waiting text and the first line, and
-- both lines are shorter than a buffer. If then the lines each make the writer change its buffers
-- before the work item runs, the text that waited at first is lost: both lines are accepted, and
-- after the work item, of which no file operation fails, log.csv followed by the waiting text is
-- the old file followed by the two lines only.
pub text_lost :
    (first second : List ℕ) (w : Writer) (c : Card)
    → IsValid w
    → IsText (pending w)
    → IsText first
    → length first < buffer_size
    → length second < buffer_size
    → buffer_size ≤ length (pending w) + length first
    → buffer_size ≤ length first + length second
    → (w1 w2 : Writer) × (submit_line (pos 0) first (length first) w ≡ some (pos 0, w1))
      × (submit_line (pos 0) second (length second) w1 ≡ some (pos 0, w2))
      × (logged (work_handler (pos 0) (pos 0) (pos (strnlen w2.flush buffer_size)) w2 c)
          ≡ (c.file ++ first) ++ second)
text_lost first second w c v t t1 h h1 k k1 =
    let (w1, e1, v1, p1, f1) = swaps first w v t h k in
    let (w2, e2, v2, p2, f2) =
      swaps second w1 v1 (subst IsText (sym p1) t1) h1
        (subst (λ l. buffer_size ≤ length l + length second) (sym p1) k1) in
    (
      w1,
      w2,
      e1,
      e2,
      ap logged (handler_writes w2 c)
          ∙ ap (λ l. (c.file ++ l) ++ pending w2) (f2 ∙ p1)
          ∙ ap (λ l. (c.file ++ first) ++ l) p2,
    )
