-- ===== src/SdCard.antt =====
-- The SD card writer: cores/control/src/sd_card/sd_card.c. `active` and `flush` are the buffers that
-- `active_buf` and `flush_buf` point to; swapping the pointers swaps the fields. Results of the kernel,
-- of the GPIO driver and of the file system are arguments.
mod Tests
pub mod Lines
pub mod Log
pub mod Faults
pub mod Race
pub mod Worker
use sense_firmware.Prelude.{
  ℕ, zero, suc, ◌+◌, ◌%◌, ◌^◌, Bool, true, false, List, [], ◌∷◌, ◌++◌, Option, none, some, ltb, leb,
  ◌==◌, if◌then◌else◌, length, set, take, memcpy, replicate, ℤ, pos, negsuc, is_ok,
}

abbrev pub buffer_size : ℕ
buffer_size = 1024

pub record Writer : Type 0 where
  pub active : List ℕ
  pub flush : List ℕ
  pub active_pos : ℕ
  -- Whether `sd_card_writer_work` waits on the system workqueue
  pub submitted : Bool

-- The static buffers are zeroed; `sd_writer_init` adds no more than the mutex and the work item.
abbrev pub fresh : Writer
fresh = record {
  active = replicate buffer_size 0;
  flush = replicate buffer_size 0;
  active_pos = 0;
  submitted = false;
}

-- The active buffer gets its null byte, the buffers change places and the work item is submitted.
unfoldable pub swap_buffers : Writer → Writer
swap_buffers w = record {
  active = w.flush;
  flush = set w.active w.active_pos 0;
  active_pos = 0;
  submitted = true;
}

-- The copy of `line_len` bytes; `none` is an access outside the buffer or outside the line.
unfoldable pub copy_line : List ℕ → ℕ → Writer → Option Writer
copy_line line line_len w =
    if ltb (length line) line_len
    then none
    else if ltb buffer_size (w.active_pos + line_len)
    then none
    else some (record w {
      active = memcpy w.active w.active_pos (take line_len line);
      active_pos = w.active_pos + line_len;
    })

unfoldable pub store_line : List ℕ → ℕ → Writer → Option Writer
unfolding swap_buffers copy_line
store_line line line_len w =
    copy_line line line_len
      (if leb buffer_size ((w.active_pos + line_len) % 2 ^ 32) then swap_buffers w else w)

-- `sd_card_submit_line`; `size_t` has 32 bits.
unfoldable pub submit_line : ℤ → List ℕ → ℕ → Writer → Option (ℤ × Writer)
unfolding store_line
submit_line lock line line_len w =
    if is_ok lock
    then elim (store_line line line_len w) [ none ↦ none | some w' ↦ some (pos 0, w') ]
    else some (lock, w)

unfoldable pub strnlen : List ℕ → ℕ → ℕ
strnlen text zero = 0
strnlen [] (suc n) = 0
strnlen (c ∷ text) (suc n) = if c == 0 then 0 else suc (strnlen text n)

-- The card: its power switch `ls_sdcard` and the bytes of `log.csv`.
pub record Card : Type 0 where
  pub powered : Bool
  pub file : List ℕ

-- What `fs_write` stores: as many bytes as it reports.
abbrev pub append_file : ℤ → List ℕ → Card → Card
append_file (pos n) text c = record c { file = c.file ++ take n text }
append_file (negsuc n) text c = c

-- `sd_writer_work_handler`, by the results of `fs_mount`, `fs_open` and `fs_write`; what `fs_close` and
-- `fs_unmount` return is only logged.
unfoldable pub work_handler : ℤ → ℤ → ℤ → Writer → Card → Writer × Card
unfolding strnlen
work_handler mount open_file write w c =
    let done = record w { submitted = false } in
    let text = take (strnlen w.flush buffer_size) w.flush in
    if is_ok mount
    then (
      done,
      record (if is_ok open_file then append_file write text c else c) { powered = false },
    )
    else (done, record c { powered = true })

-- A submitted line, and the work item's run before the next one: nothing fails, and `fs_write` stores
-- the whole text.
unfoldable pub log_line : List ℕ → Writer × Card → Option (Writer × Card)
unfolding submit_line work_handler
log_line line (w, c) = elim (submit_line (pos 0) line (length line) w) [
  | none ↦ none
  | some (ret, w') ↦ some (
      if w'.submitted
      then work_handler (pos 0) (pos 0) (pos (strnlen w'.flush buffer_size)) w' c
      else (w', c))
]

unfoldable pub log_lines : List (List ℕ) → Writer × Card → Option (Writer × Card)
log_lines [] s = some s
log_lines (line ∷ lines) s = elim (log_line line s) [ none ↦ none | some s' ↦ log_lines lines s' ]
