-- ===== src/SdCard/Faults.antt =====
-- The lengths that `sd_card_submit_line` does not check.
use sense_firmware.Prelude.{ℕ, ◌^◌, ◌<◌, ◌≡◌, List, none, arith, pos, negsuc, to_size}
use sense_firmware.SdCard.{Writer, buffer_size, submit_line}

-- A length of a buffer's size or more, up to the width of `size_t`, makes the copy run over the end of
-- the buffer, whatever waits in it: also where the sum with the write position wraps.
pub submit_line_overruns :
    (line : List ℕ) (line_len : ℕ) (w : Writer)
    → buffer_size < line_len
    → submit_line (pos 0) line line_len w ≡ none
unfolding submit_line
submit_line_overruns line line_len w h = ground arith

-- So a negative result of `datapoint_to_csv`, passed on as the length of the line, corrupts memory.
pub submit_line_negative :
    (line : List ℕ) (n : ℕ) (w : Writer)
    → n < 2 ^ 31
    → submit_line (pos 0) line (to_size (negsuc n)) w ≡ none
submit_line_negative line n w h = submit_line_overruns line (to_size (negsuc n)) w (omega arith)
