-- ===== src/SdCard/Lines.antt =====
-- Lines and the double buffer of `sd_card.c`, at the level of the text that they hold.
use native.Mathlib.Decide.{dec_lt}
use sense_firmware.Prelude.{
  replicate, ◌⊎◌, inl, inr, ℕ, zero, suc, ◌+◌, ◌≤◌, ◌<◌, ◌≡◌, ◌≢◌, refl, ap, ◌∙◌, true, inl, inr,
  List, [], ◌∷◌, ◌++◌, append_assoc, some, arith, length, length-set, length-memcpy, length-take,
  take, drop, set, memcpy, memcpy_append, take-append, take-append-drop, length-append, length-drop,
  pos,
}
use sense_firmware.SdCard.{Writer, buffer_size, swap_buffers, copy_line, submit_line, strnlen}

pub record IsValid (w : Writer) : Type 0 where
  pub active_size : length w.active ≡ buffer_size
  pub flush_size : length w.flush ≡ buffer_size
  pub room : w.active_pos < buffer_size

-- The text that waits in the active buffer, and that the work handler will write.
abbrev pub pending : Writer → List ℕ
pending w = take w.active_pos w.active

abbrev pub flushed : Writer → List ℕ
flushed w = take (strnlen w.flush buffer_size) w.flush

-- A text with no null byte.
abbrev pub IsText : List ℕ → Type 0
IsText [] = Unit {0}
IsText (c ∷ text) = (c ≢ 0) × IsText text

pub length-pending : (w : Writer) → IsValid w → length (pending w) ≡ w.active_pos
length-pending w v = omega (arith, length-take w.active_pos w.active, v.active_size, v.room)

pub take-full : (n : ℕ) (xs : List ℕ) → length xs ≡ n → take n xs ≡ xs
take-full zero [] h = refl
take-full zero (x ∷ xs) h = absurd (omega arith)
take-full (suc n) [] h = refl
take-full (suc n) (x ∷ xs) h = ap (λ l. x ∷ l) (take-full n xs (omega arith))

pub take-take : (n : ℕ) (xs : List ℕ) → take n (take n xs) ≡ take n xs
take-take zero xs = refl
take-take (suc n) [] = refl
take-take (suc n) (x ∷ xs) = ap (λ l. x ∷ l) (take-take n xs)

copied-append :
    (a b line : List ℕ)
    → length line ≤ length b
    → take (length a + length line) (memcpy (a ++ b) (length a) line) ≡ a ++ line
copied-append a b line h =
    rw
      (
        memcpy_append a b line h,
        ← append_assoc a line (drop (length line) b),
        ← length-append a line,
      )
      (take-append (a ++ line) (drop (length line) b))

copied :
    (xs : List ℕ) (n : ℕ) (line : List ℕ)
    → n + length line ≤ length xs
    → take (n + length line) (memcpy xs n line) ≡ take n xs ++ line
copied xs n line h =
    rw (take-append-drop n xs, front) at
      (copied-append (take n xs) (drop n xs) line (omega (arith, length-drop n xs)))
  where
    front : length (take n xs) ≡ n
    front = omega (arith, length-take n xs)

pub copy_line_lem :
    (line : List ℕ) (w : Writer)
    → IsValid w
    → w.active_pos + length line < buffer_size
    → (w' : Writer) × (copy_line line (length line) w ≡ some w')
      × IsValid w'
      × (pending w' ≡ pending w ++ line)
      × (w'.flush ≡ w.flush)
      × (w'.submitted ≡ w.submitted)
unfolding copy_line
copy_line_lem line w v h = (
  record w { active = memcpy w.active w.active_pos line; active_pos = w.active_pos + length line },
  ground (arith, take-full (length line) line),
  record {
    active_size = length-memcpy w.active w.active_pos line ∙ v.active_size;
    flush_size = v.flush_size;
    room = h;
  },
  copied w.active w.active_pos line (omega (arith, v.active_size)),
  refl,
  refl,
)

-- A text and its null byte are read back by `strnlen`.
strnlen-set :
    (n m : ℕ) (xs : List ℕ)
    → IsText (take n xs)
    → n < length xs
    → n < m
    → strnlen (set xs n 0) m ≡ n
unfolding strnlen
strnlen-set n zero xs t h k = absurd (omega arith)
strnlen-set n (suc m) [] t h k = absurd (omega arith)
strnlen-set zero (suc m) (x ∷ xs) t h k = refl
strnlen-set (suc n) (suc m) (x ∷ xs) t h k =
    ground (arith, strnlen-set n m xs t.1 (omega arith) (omega arith), t.0)

take-set : (n : ℕ) (xs : List ℕ) (a : ℕ) → take n (set xs n a) ≡ take n xs
take-set zero xs a = refl
take-set (suc n) [] a = refl
take-set (suc n) (x ∷ xs) a = ap (λ l. x ∷ l) (take-set n xs a)

pub IsText-append : (xs ys : List ℕ) → IsText xs → IsText ys → IsText (xs ++ ys)
IsText-append [] ys hx hy = hy
IsText-append (x ∷ xs) ys hx hy = (hx.0, IsText-append xs ys hx.1 hy)

pub replicate-IsText : (n c : ℕ) → c ≢ 0 → IsText (replicate n c)
replicate-IsText zero c h = tt
replicate-IsText (suc n) c h = (h, replicate-IsText n c h)

pub swap_buffers-IsValid : (w : Writer) → IsValid w → IsValid (swap_buffers w)
unfolding swap_buffers
swap_buffers-IsValid w v = record {
  active_size = v.flush_size;
  flush_size = length-set w.active w.active_pos 0 ∙ v.active_size;
  room = omega arith;
}

-- Swapping empties the active buffer and hands its text over whole.
swap_buffers_lem :
    (w : Writer)
    → IsValid w
    → IsText (pending w)
    → IsValid (swap_buffers w)
      × (pending (swap_buffers w) ≡ [])
      × (flushed (swap_buffers w) ≡ pending w)
unfolding swap_buffers
swap_buffers_lem w v t = (
  swap_buffers-IsValid w v,
  refl,
  rw (strnlen-set w.active_pos buffer_size w.active t (omega (arith, v.active_size, v.room)) v.room)
      (take-set w.active_pos w.active 0),
)

swap_submitted : (w : Writer) → (swap_buffers w).submitted ≡ true
unfolding swap_buffers
swap_submitted w = refl

pub swap_room :
    (line : List ℕ) (w : Writer)
    → length line < buffer_size
    → (swap_buffers w).active_pos + length line < buffer_size
unfolding swap_buffers
swap_room line w h = omega arith

-- What `sd_card_submit_line` does, with the mutex taken and waiting text without null bytes, with a
-- line that is shorter than a buffer: it stays within the buffer and returns 0. If the line fits
-- behind the waiting text, it is added to that. If not, the waiting text is handed to the work item,
-- which is submitted, and the line starts the other buffer.
pub submit_line_lem :
    (line : List ℕ) (w : Writer)
    → IsValid w
    → IsText (pending w)
    → length line < buffer_size
    → (w' : Writer) × (submit_line (pos 0) line (length line) w ≡ some (pos 0, w'))
      × IsValid w'
      × (((w.active_pos + length line < buffer_size)
            × (pending w' ≡ pending w ++ line)
            × (w'.flush ≡ w.flush)
            × (w'.submitted ≡ w.submitted))
          ⊎ ((buffer_size ≤ w.active_pos + length line)
              × (pending w' ≡ line)
              × (flushed w' ≡ pending w)
              × (w'.submitted ≡ true)))
unfolding submit_line
submit_line_lem line w v t h = elim (dec_lt (w.active_pos + length line) buffer_size) [
  | yes fits ↦
      let (w', e, v', p, f, b) = copy_line_lem line w v fits in
      (w', ground (arith, e), v', inl (fits, p, f, b))
  | no over ↦
      let (sv, empty, text) = swap_buffers_lem w v t in
      let (w', e, v', p, f, b) = copy_line_lem line (swap_buffers w) sv (swap_room line w h) in
      (
        w',
        ground (arith, e, v.room),
        v',
        inr (
          omega arith,
          p ∙ ap (λ l. l ++ line) empty,
          ap (λ l. take (strnlen l buffer_size) l) f ∙ text,
          b ∙ swap_submitted w,
        ),
      )
]
