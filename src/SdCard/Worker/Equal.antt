-- ===== src/SdCard/Worker/Equal.antt =====
-- The steps of the work item against `sd_writer_work_handler` as a whole.
use sense_firmware.Prelude.{◌≡◌, true, arith, ℤ, is_ok, inl, inr, Bool-cases}
use sense_firmware.SdCard.{Writer, Card, work_handler}
use sense_firmware.SdCard.Worker.{resting, work_step}

-- If nothing comes in between, three steps of a submitted work item do what the handler does in
-- one, for all results of the file system, and the handler has ended then.
pub work_step-work_handler :
    (mount open_file write : ℤ) (w : Writer) (c : Card)
    → w.submitted ≡ true
    → let step = work_step mount open_file write in
      let (w', c') = work_handler mount open_file write w c in
      step (step (step (record { writer = w; card = c; phase = resting })))
      ≡ record { writer = w'; card = c'; phase = resting }
unfolding work_step work_handler
work_step-work_handler mount open_file write w c h = elim (Bool-cases (is_ok mount)) [
  | inr e ↦ ground arith
  | inl e ↦ elim (Bool-cases (is_ok open_file)) [ inl f ↦ ground arith | inr f ↦ ground arith ]
]
