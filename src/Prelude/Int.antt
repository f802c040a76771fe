-- ===== src/Prelude/Int.antt =====
-- Signed results of C functions: zero or a count on success, a negative errno on failure.
use Prim.Native.Nat.{ℕ, zero, suc, ◌-◌, ◌^◌, ◌%◌}
use mathlib.Core.Bool.{Bool, true, false}

-- `negsuc n` is -(n + 1).
pub data ℤ : Type 0 where
  pos : ℕ → ℤ
  negsuc : ℕ → ℤ

-- The errno values of the C library, negated as the source returns them.
abbrev pub enoent : ℤ
enoent = negsuc 1

abbrev pub eio : ℤ
eio = negsuc 4

abbrev pub eagain : ℤ
eagain = negsuc 10

abbrev pub enomem : ℤ
enomem = negsuc 11

abbrev pub ebusy : ℤ
ebusy = negsuc 15

abbrev pub einval : ℤ
einval = negsuc 21

abbrev pub enomsg : ℤ
enomsg = negsuc 34

abbrev pub enobufs : ℤ
enobufs = negsuc 104

-- The test `ret == 0`.
abbrev pub is_ok : ℤ → Bool
is_ok (pos n) = elim n [ zero ↦ true | suc m ↦ false ]
is_ok (negsuc n) = false

-- The test `ret < 0`.
abbrev pub is_negative : ℤ → Bool
is_negative (pos n) = false
is_negative (negsuc n) = true

-- An `int` passed where a 32-bit `size_t` is expected.
abbrev pub to_size : ℤ → ℕ
to_size (pos n) = n % 2 ^ 32
to_size (negsuc n) = (2 ^ 32 - 1 - n) % 2 ^ 32
