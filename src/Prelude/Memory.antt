-- ===== src/Prelude/Memory.antt =====
-- Byte buffers as lists: `memcpy` into a buffer at an offset.
use Prim.Native.Nat.{ℕ, zero, suc, ◌≤◌}
use mathlib.Core.Path.{◌≡◌, refl, ap}
use mathlib.Core.List.{List, [], ◌∷◌, ◌++◌}
use native.Mathlib.Omega.{arith}
use sense_firmware.Prelude.Lists.{length, drop}

module _ {ℓ} {A : Type ℓ} where
  -- Overwrites the front of `dst` by `src`; what lies past the end of `dst` is not stored.
  pub overwrite : List A → List A → List A
  overwrite dst [] = dst
  overwrite [] (x ∷ src) = []
  overwrite (d ∷ dst) (x ∷ src) = x ∷ overwrite dst src

  -- `memcpy(&dst[offset], src, length src)`
  unfoldable pub memcpy : List A → ℕ → List A → List A
  unfolding overwrite
  memcpy dst zero src = overwrite dst src
  memcpy [] (suc offset) src = []
  memcpy (d ∷ dst) (suc offset) src = d ∷ memcpy dst offset src

  overwrite_lem :
      (dst src : List A)
      → length src ≤ length dst
      → overwrite dst src ≡ src ++ drop (length src) dst
  unfolding overwrite
  overwrite_lem dst [] h = refl
  overwrite_lem [] (x ∷ src) h = absurd (omega arith)
  overwrite_lem (d ∷ dst) (x ∷ src) h = ap (λ l. x ∷ l) (overwrite_lem dst src (omega arith))

  -- A copy to the end of a written part extends that part.
  pub memcpy_append :
      (xs ys src : List A)
      → length src ≤ length ys
      → memcpy (xs ++ ys) (length xs) src ≡ xs ++ (src ++ drop (length src) ys)
  unfolding memcpy
  memcpy_append [] ys src h = overwrite_lem ys src h
  memcpy_append (x ∷ xs) ys src h = ap (λ l. x ∷ l) (memcpy_append xs ys src h)

  length-overwrite : (dst src : List A) → length (overwrite dst src) ≡ length dst
  unfolding overwrite
  length-overwrite dst [] = refl
  length-overwrite [] (x ∷ src) = refl
  length-overwrite (d ∷ dst) (x ∷ src) = ap suc (length-overwrite dst src)

  pub length-memcpy :
      (dst : List A) (offset : ℕ) (src : List A) → length (memcpy dst offset src) ≡ length dst
  unfolding memcpy
  length-memcpy dst zero src = length-overwrite dst src
  length-memcpy [] (suc offset) src = refl
  length-memcpy (d ∷ dst) (suc offset) src = ap suc (length-memcpy dst offset src)
