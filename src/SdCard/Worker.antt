-- ===== src/SdCard/Worker.antt =====
-- The work item of `sd_card.c` cut where lines may come in between: before the file is open, between
-- `strnlen` and `fs_write`, and after it. Both read the pointer `flush_buf` on their own.
pub mod Bounds
pub mod Held
pub mod Complete
pub mod Equal
use sense_firmware.Prelude.{
  ℕ, true, false, List, [], ◌∷◌, Option, none, some, if◌then◌else◌, length, take, ℤ, pos, is_ok,
}
use sense_firmware.SdCard.{Writer, Card, buffer_size, strnlen, append_file, submit_line}

-- Where `sd_writer_work_handler` is: not running, the file open, or the length of the text measured
pub data Phase : Type 0 where
  resting : Phase
  opened : Phase
  measured : ℕ → Phase

pub record Run : Type 0 where
  pub writer : Writer
  pub card : Card
  pub phase : Phase

-- Up to `fs_open`, by the results of `fs_mount` and `fs_open`; a work item that starts can be submitted
-- again.
unfoldable pub work_begin : ℤ → ℤ → Run → Run
work_begin mount open_file r = record {
  writer = record r.writer { submitted = false };
  card = record r.card {
    powered = if is_ok mount then (if is_ok open_file then true else false) else true;
  };
  phase = if is_ok mount then (if is_ok open_file then opened else resting) else resting;
}

-- `strnlen`
unfoldable pub work_measure : Run → Run
unfolding strnlen
work_measure r = record r { phase = measured (strnlen r.writer.flush buffer_size) }

-- From `fs_write`, by its result, to the end, for the length `len`
unfoldable pub work_write : ℤ → ℕ → Run → Run
work_write write len r = record r {
  card = record (append_file write (take len r.writer.flush) r.card) { powered = false };
  phase = resting;
}

-- The next step of the work item, by the results of `fs_mount`, `fs_open` and `fs_write`: it starts
-- when it was submitted.
unfoldable pub work_step : ℤ → ℤ → ℤ → Run → Run
unfolding work_begin work_measure work_write
work_step mount open_file write r = elim r.phase [
  | resting ↦ if r.writer.submitted then work_begin mount open_file r else r
  | opened ↦ work_measure r
  | measured len ↦ work_write write len r
]

-- What happens next: a line comes from another thread, with the mutex taken, or the work item goes on.
pub data Action : Type 0 where
  comes : List ℕ → Action
  works : ℤ → ℤ → ℤ → Action

-- No result stands for an access outside a buffer.
unfoldable pub act : Action → Run → Option Run
unfolding work_step
act (comes line) r = elim (submit_line (pos 0) line (length line) r.writer) [
  | none ↦ none
  | some (ret, w) ↦ some (record r { writer = w })
]
act (works mount open_file write) r = some (work_step mount open_file write r)

unfoldable pub run : List Action → Run → Option Run
run [] r = some r
run (a ∷ actions) r = elim (act a r) [ none ↦ none | some t ↦ run actions t ]

abbrev pub lines : List Action → List (List ℕ)
lines [] = []
lines (comes line ∷ actions) = line ∷ lines actions
lines (works mount open_file write ∷ actions) = lines actions
