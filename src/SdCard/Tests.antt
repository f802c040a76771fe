-- ===== src/SdCard/Tests.antt =====
-- Tests of the SD card writer.
use sense_firmware.Prelude.{
  ℕ, ◌≡◌, inl, inr, replicate, refl, false, List, [], ◌∷◌, ◌++◌, some, arith, pos,
}
use sense_firmware.SdCard.{Writer, Card, fresh, submit_line, strnlen}
use sense_firmware.SdCard.Lines.{IsValid, IsText, replicate-IsText}
use sense_firmware.SdCard.Worker.{
  Run, resting, Action, comes, works, work_step, work_begin, work_measure, work_write, act, run,
  lines,
}
use sense_firmware.SdCard.Worker.Bounds.{Sound, run-Sound}
use sense_firmware.SdCard.Worker.Held.{Calm, held}
use sense_firmware.SdCard.Worker.Complete.{run_complete}
use sense_firmware.SdCard.Log.{concat}

abbrev line : List ℕ
line = 97 ∷ 44 ∷ 49 ∷ 10 ∷ []

line-IsText : IsText line
line-IsText =
    ((λ e. omega arith), ((λ e. omega arith), ((λ e. omega arith), ((λ e. omega arith), tt))))

fresh-IsValid : IsValid fresh
fresh-IsValid = record { active_size = refl; flush_size = refl; room = omega arith }

abbrev empty_card : Card
empty_card = record { powered = false; file = [] }

abbrev long_line : List ℕ
long_line = replicate 600 97

-- A writer in which a long line waits.
abbrev filled : Writer
filled = record fresh { active = long_line ++ replicate 424 0; active_pos = 600 }

filled-IsValid : IsValid filled
filled-IsValid = record { active_size = refl; flush_size = refl; room = omega arith }

long_line-IsText : IsText long_line
long_line-IsText = replicate-IsText 600 97 (λ e. omega arith)

-- A run in which a line makes the writer change its buffers, and another comes while the file is open.
abbrev started : Run
started = record { writer = filled; card = empty_card; phase = resting }

abbrev goes_on : Action
goes_on = works (pos 0) (pos 0) (pos 600)

abbrev actions : List Action
actions = comes long_line ∷ goes_on ∷ goes_on ∷ comes line ∷ goes_on ∷ []

run-Sound_example : (t : Run) × (run actions started ≡ some t) × Sound t
run-Sound_example =
    run-Sound actions started (record { valid = filled-IsValid; running = tt })
      (omega arith, (omega arith, tt))

actions_Calm : Calm actions started
unfolding act submit_line work_step work_begin work_measure work_write strnlen
actions_Calm = (
  (omega arith, long_line-IsText, inr (refl, refl)),
  (
    (refl, refl, refl),
    ((refl, refl, refl), ((omega arith, line-IsText, inl (omega arith)), ((refl, refl, refl), tt))),
  ),
)

run_complete_example :
    (t : Run) × (run actions started ≡ some t) × (held t ≡ held started ++ concat (lines actions))
run_complete_example =
    run_complete actions started
      (record { valid = filled-IsValid; text = long_line-IsText; measures = tt }) actions_Calm
