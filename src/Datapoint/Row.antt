-- ===== src/Datapoint/Row.antt =====
-- The CSV row that `datapoint_to_csv` writes.
use native.Mathlib.Decide.{dec_le}
use sense_firmware.Prelude.{
  ne→==, ◌⊎◌, inl, inr, ℕ, zero, suc, ◌+◌, ◌-◌, ◌≤◌, ◌<◌, ◌≡◌, refl, ap, sym, ◌∙◌, List, [], ◌∷◌,
  ◌++◌, append_assoc, append-nil, some, arith, leb, length, length-append, length-drop, take, drop,
  memcpy_append, ℤ, pos, enomem, false,
}
use sense_firmware.SdCard.Log.{concat}
use sense_firmware.Datapoint.{Datapoint, snprintf_at, put_fields, fields, datapoint_to_csv}

take_long : (n : ℕ) (xs : List ℕ) → length xs ≤ n → take n xs ≡ xs
take_long zero [] h = refl
take_long zero (x ∷ xs) h = absurd (omega arith)
take_long (suc n) [] h = refl
take_long (suc n) (x ∷ xs) h = ap (λ l. x ∷ l) (take_long n xs (omega arith))

-- A text that fits is printed behind what the buffer holds, and a null byte behind it.
pub printed :
    (done rest text : List ℕ)
    → length text < length rest
    → snprintf_at (length done) (length rest) text (done ++ rest)
      ≡ (done ++ text) ++ 0 ∷ drop (length text + 1) rest
unfolding snprintf_at
printed done rest text h =
    rw
      (
        ne→== (length rest) 0 (λ e. omega arith),
        take_long (length rest - 1) text (omega arith),
        memcpy_append done rest (text ++ 0 ∷ []) (omega (arith, length-append text (0 ∷ []))),
        length-append text (0 ∷ []),
        append_assoc text (0 ∷ []) (drop (length text + 1) rest),
      )
      (sym (append_assoc done text (0 ∷ drop (length text + 1) rest)))

fields_fit :
    (texts : List (List ℕ)) (size offset : ℕ) (done rest : List ℕ)
    → offset ≡ length done
    → size ≡ offset + length rest
    → length (concat texts) < length rest
    → (tail : List ℕ) × (put_fields size texts offset (done ++ rest)
        ≡ (pos (offset + length (concat texts)), (done ++ concat texts) ++ tail))
unfolding put_fields
fields_fit [] size offset done rest e k h = (
  rest,
  ap (λ n. (pos n, done ++ rest)) {x = offset} {y = offset + 0} (omega arith)
      ∙ ap (λ l. (pos (offset + 0), l ++ rest)) (sym (append-nil done)),
)
fields_fit (text ∷ texts) size offset done rest e k h =
    let (tail, p) =
      fields_fit texts size (offset + length text) (done ++ text) (0 ∷ drop (length text + 1) rest)
        (omega (arith, length-append done text))
        (omega (arith, short, length-drop (length text + 1) rest))
        (omega (arith, length-append text (concat texts), length-drop (length text + 1) rest)) in
    (
      tail,
      rw (fits, prints)
          (p
            ∙ ap (λ n. (pos n, ((done ++ text) ++ concat texts) ++ tail))
                {x = (offset + length text) + length (concat texts)}
                {y = offset + length (text ++ concat texts)}
                (omega (arith, length-append text (concat texts)))
            ∙ ap (λ l. (pos (offset + length (text ++ concat texts)), l ++ tail))
                (append_assoc done text (concat texts))),
    )
  where
    short : length text < length rest
    short = omega (arith, length-append text (concat texts))

    fits : leb (size - offset) (length text) ≡ false
    fits = ground (arith, short)

    prints :
        snprintf_at offset (size - offset) text (done ++ rest)
        ≡ (done ++ text) ++ 0 ∷ drop (length text + 1) rest
    prints =
        ap (λ o. snprintf_at o (size - offset) text (done ++ rest)) e
        ∙ ap (λ r. snprintf_at (length done) r text (done ++ rest)) {x = size - offset}
            {y = length rest} (omega arith)
        ∙ printed done rest text short

overflow :
    (texts : List (List ℕ)) (size offset : ℕ) (buf : List ℕ)
    → offset < size
    → size ≤ offset + length (concat texts)
    → (put_fields size texts offset buf).0 ≡ enomem
unfolding put_fields
overflow [] size offset buf h k = absurd (omega arith)
overflow (text ∷ texts) size offset buf h k = elim (dec_le (size - offset) (length text)) [
  | yes p ↦ ground arith
  | no p ↦ ground (
    arith,
    overflow texts size (offset + length text) (snprintf_at offset (size - offset) text buf)
        (omega arith) (omega (arith, length-append text (concat texts))),
  )
]

-- The row of a datapoint, without the null byte.
abbrev pub row : (ℤ → List ℕ) → (ℕ → List ℕ) → Datapoint → List ℕ
row print_int print_double dp = concat (fields print_int print_double dp)

-- If the row of a datapoint is shorter than the buffer, `datapoint_to_csv` returns its length and the
-- buffer begins with it; if not, it returns -ENOMEM.
pub datapoint_to_csv-row :
    (print_int : ℤ → List ℕ) (print_double : ℕ → List ℕ) (dp : Datapoint) (buf : List ℕ)
    → 0 < length buf
    → let text = row print_int print_double dp in
      let (ret, buf') = datapoint_to_csv print_int print_double (some dp) (some buf) (length buf) in
      ((length text < length buf)
        × (ret ≡ pos (length text))
        × (tail : List ℕ) × (buf' ≡ some (text ++ tail)))
      ⊎ ((length buf ≤ length text) × (ret ≡ enomem) × (rest : List ℕ) × (buf' ≡ some rest))
unfolding datapoint_to_csv
datapoint_to_csv-row print_int print_double dp buf h =
    elim (dec_le (length buf) (length (row print_int print_double dp))) [
      | yes p ↦ inr (
        p,
        overflow (fields print_int print_double dp) (length buf) 0 buf h (omega arith),
        _,
        refl,
      )
      | no p ↦
          let (tail, e) =
            fields_fit (fields print_int print_double dp) (length buf) 0 [] buf refl (omega arith)
              (omega arith) in
          inl (
            omega arith,
            ap (λ r. r.0) e
                ∙ ap pos {x = 0 + length (row print_int print_double dp)}
                    {y = length (row print_int print_double dp)} (omega arith),
            tail,
            ap (λ r. some r.1) e,
          )
    ]
