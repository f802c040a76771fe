-- ===== src/Icmp/Bitmap.antt =====
-- `inflight_bitmap` of lib/icmp/icmp.c, a `uint8_t`: the default `CONFIG_ICMP_MAX_INFLIGHT_MSGS_8`.
-- A bitmap is a number below 256; the laws are checked on every bitmap and every bit.
use sense_firmware.Prelude.{
  ℕ, zero, suc, ◌-◌, ◌%◌, ◌^◌, ◌<◌, ◌+◌, ◌≡◌, refl, Bool, true, false, ◌&&◌, ◌||◌, not, bit_and,
  bit_or, arith, ltb, ◌==◌, if◌then◌else◌, ℤ, pos, negsuc, eagain, ◌/◌, ◌≤◌, subst,
}

abbrev pub max_inflight : ℕ
max_inflight = 8

-- `IS_BIT_SET(bitmap, bit_num)`
unfoldable pub is_bit_set : ℕ → ℕ → Bool
is_bit_set bitmap bit = not (bit_and bitmap (2 ^ bit) == 0)

-- `inflight_bitmap |= (1 << bit)`
unfoldable pub set_bit : ℕ → ℕ → ℕ
set_bit bitmap bit = bit_or bitmap (2 ^ bit) % 256

-- `inflight_bitmap &= ~(1 << bit)`
unfoldable pub clear_bit : ℕ → ℕ → ℕ
clear_bit bitmap bit = bit_and bitmap (2 ^ 32 - 1 - 2 ^ bit) % 256

-- The loop of `allocate_msg_id`, over the rounds left.
unfoldable pub allocate_from : ℕ → ℕ → ℕ → ℤ
allocate_from zero bitmap bit = eagain
allocate_from (suc rounds) bitmap bit =
    let next = allocate_from rounds (bitmap / 2) (bit + 1) in
    if bit_and bitmap 1 == 0 then pos bit else next

unfoldable pub allocate_msg_id : ℕ → ℕ → ℤ
unfolding allocate_from
allocate_msg_id bitmap bitmap_len = allocate_from bitmap_len bitmap 0

-- A test of every number under a limit, by evaluation.
every_below : ℕ → (ℕ → Bool) → Bool
every_below zero test = true
every_below (suc limit) test = every_below limit test && test limit

every_below-true :
    (limit : ℕ) (test : ℕ → Bool) (value : ℕ)
    → every_below limit test ≡ true
    → value < limit
    → test value ≡ true
unfolding every_below
every_below-true zero test value passed bound = absurd (omega arith)
every_below-true (suc limit) test value passed bound =
    ground (arith, every_below-true limit test value)

same : Bool → Bool → Bool
same true b = b
same false b = not b

same_sound : (a b : Bool) → same a b ≡ true → a ≡ b
unfolding same
same_sound a b h = ground arith

check_pair : (ℕ → ℕ → Bool) → Bool
check_pair p = every_below 256 (λ b. every_below 8 (p b))

check_pair_sound :
    (p : ℕ → ℕ → Bool) (b i : ℕ) → check_pair p ≡ true → b < 256 → i < 8 → p b i ≡ true
unfolding check_pair
check_pair_sound p b i h hb hi =
    every_below-true 8 (p b) i (every_below-true 256 (λ b. every_below 8 (p b)) b h hb) hi

set_table :
    check_pair
      (λ b i. every_below 8 (λ j. same (is_bit_set (set_bit b i) j) ((i == j) || is_bit_set b j)))
    ≡ true
unfolding check_pair every_below same is_bit_set set_bit
set_table = refl

clear_table :
    check_pair (λ b i.
      every_below 8 (λ j. same (is_bit_set (clear_bit b i) j) (not (i == j) && is_bit_set b j)))
    ≡ true
unfolding check_pair every_below same is_bit_set clear_bit
clear_table = refl

-- A copy of the bitmap after `bit` rounds of `bitmap >>= 1`.
unfoldable pub shifted : ℕ → ℕ → ℕ
shifted bitmap zero = bitmap
shifted bitmap (suc bit) = shifted bitmap bit / 2

shift_table : check_pair (λ b i. same (bit_and (shifted b i) 1 == 0) (not (is_bit_set b i))) ≡ true
unfolding check_pair every_below same is_bit_set shifted
shift_table = refl

high_table : every_below 256 (λ b. every_below 24 (λ k. not (is_bit_set b (8 + k)))) ≡ true
unfolding every_below is_bit_set
high_table = refl

zero_table : every_below 8 (λ j. not (is_bit_set 0 j)) ≡ true
unfolding every_below is_bit_set
zero_table = refl

-- The first free bit, with those below it taken, or -EAGAIN with all taken.
allocated : ℕ → ℤ → Bool
allocated b (pos id) = ltb id 8 && (not (is_bit_set b id) && every_below id (is_bit_set b))
allocated b (negsuc n) = (n == 10) && every_below 8 (is_bit_set b)

allocate_table : every_below 256 (λ b. allocated b (allocate_msg_id b 8)) ≡ true
unfolding every_below allocated allocate_msg_id is_bit_set
allocate_table = refl

module _ (b i : ℕ) (hb : b < 256) (hi : i < 8) where
  -- What each operation leaves at bit `j`.
  pub is_bit_set-set_bit :
      (j : ℕ) → j < 8 → is_bit_set (set_bit b i) j ≡ ((i == j) || is_bit_set b j)
  is_bit_set-set_bit j hj =
      same_sound _ _ (every_below-true 8 _ j (check_pair_sound _ b i set_table hb hi) hj)

  pub is_bit_set-clear_bit :
      (j : ℕ) → j < 8 → is_bit_set (clear_bit b i) j ≡ (not (i == j) && is_bit_set b j)
  is_bit_set-clear_bit j hj =
      same_sound _ _ (every_below-true 8 _ j (check_pair_sound _ b i clear_table hb hi) hj)

  -- The bit that a loop over a shifted copy tests.
  pub bit_and-shifted : (bit_and (shifted b i) 1 == 0) ≡ not (is_bit_set b i)
  bit_and-shifted = same_sound _ _ (check_pair_sound _ b i shift_table hb hi)

pub set_bit-lt : (b i : ℕ) → set_bit b i < 256
unfolding set_bit
set_bit-lt b i = omega arith

pub clear_bit-lt : (b i : ℕ) → clear_bit b i < 256
unfolding clear_bit
clear_bit-lt b i = omega arith

pub is_bit_set_high : (b k : ℕ) → b < 256 → 8 ≤ k → k < 32 → is_bit_set b k ≡ false
is_bit_set_high b k hb lo hi =
    let e : 8 + (k - 8) ≡ k = omega arith in
    not_true (
      subst (λ n. not (is_bit_set b n) ≡ true) e
        (every_below-true 24 _ (k - 8) (every_below-true 256 _ b high_table hb) (omega arith)))
  where
    not_true : not (is_bit_set b k) ≡ true → is_bit_set b k ≡ false
    not_true h = ground arith

pub is_bit_set-zero : (j : ℕ) → j < 8 → is_bit_set 0 j ≡ false
is_bit_set-zero j hj = ground (arith, zero_bit)
  where
    zero_bit : not (is_bit_set 0 j) ≡ true
    zero_bit = every_below-true 8 (λ j. not (is_bit_set 0 j)) j zero_table hj

-- What a result of the allocation says of the bitmap: the lowest free id, or -EAGAIN and no free id.
abbrev pub Allocated : ℕ → ℤ → Type 0
Allocated b (pos id) =
    (id < max_inflight) × (is_bit_set b id ≡ false) × ((j : ℕ) → j < id → is_bit_set b j ≡ true)
Allocated b (negsuc n) = (negsuc n ≡ eagain) × ((j : ℕ) → j < max_inflight → is_bit_set b j ≡ true)

allocated_sound : (b : ℕ) (r : ℤ) → allocated b r ≡ true → Allocated b r
unfolding allocated
allocated_sound b (pos id) t =
    (ground arith, ground arith, λ j h. every_below-true id (is_bit_set b) j (ground arith) h)
allocated_sound b (negsuc n) t =
    (ground arith, λ j h. every_below-true 8 (is_bit_set b) j (ground arith) h)

-- For every bitmap, `allocate_msg_id` returns the lowest id whose bit is clear; where it returns an
-- error instead, that is -EAGAIN and the bit of every id is set.
pub allocate_msg_id-Allocated : (b : ℕ) → b < 256 → Allocated b (allocate_msg_id b max_inflight)
allocate_msg_id-Allocated b hb =
    allocated_sound b (allocate_msg_id b 8) (every_below-true 256 _ b allocate_table hb)
