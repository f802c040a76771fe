-- ===== src/Sdi12/Format.antt =====
-- The command that reaches the queue.
use sense_firmware.Prelude.{
  ℕ, ◌+◌, ◌-◌, ◌<◌, ◌≤◌, ◌≡◌, ◌⊎◌, List, [], ◌∷◌, ◌++◌, length, take, drop, replicate,
}
use sense_firmware.Sdi12.{sdi12_msg_len}

abbrev pub zeros : List ℕ
zeros = replicate sdi12_msg_len 0

-- A text in the buffer: whole, with a null byte behind it, or its first 79 characters.
abbrev pub Stored : List ℕ → List ℕ → Type 0
Stored text buf =
    ((length text < sdi12_msg_len) × (buf ≡ text ++ 0 ∷ drop (length text + 1) zeros))
    ⊎ ((sdi12_msg_len ≤ length text) × (buf ≡ take (sdi12_msg_len - 1) text ++ 0 ∷ []))
