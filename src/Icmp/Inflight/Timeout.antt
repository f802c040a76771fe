-- ===== src/Icmp/Inflight/Timeout.antt =====
-- `icmp_inflight_timeout_handler`, as an update of the map of inflight entries.
use sense_firmware.Prelude.{
  ℕ, zero, suc, ◌+◌, ◌^◌, ◌/◌, ◌≤◌, ◌<◌, ◌≡◌, ◌≢◌, ◌⊎◌, refl, ◌∙◌, Option, none, some, Bool, not,
  ◌&&◌, arith, ltb, ◌==◌, if◌then◌else◌, get_elem?-lt, pos, ℤ, Bool-cases, inl, inr, bit_and,
}
use sense_firmware.Icmp.Bitmap.{
  max_inflight, is_bit_set, is_bit_set-clear_bit, shifted, bit_and-shifted, is_bit_set-zero,
}
use sense_firmware.Icmp.Inflight.{
  Entry, Inflight, drop_entry, expire_slot, expire_from, timeout_handler,
}
use sense_firmware.Icmp.Inflight.View.{view, IsValid, view-drop_entry, drop_entry-IsValid}

-- An entry whose command was sent longer ago than the greatest age.
abbrev pub stale : ℕ → Entry → Bool
stale uptime e = not (e.timestamp == 0) && ltb (e.timestamp + 1000) uptime

abbrev pub keep_fresh : ℕ → Option Entry → Option Entry
keep_fresh uptime none = none
keep_fresh uptime (some e) = if stale uptime e then none else some e

-- No entry was sent in the future.
abbrev pub SentBefore : ℕ → Inflight → Type 0
SentBefore uptime st =
    (id : ℕ) (e : Entry) → id < max_inflight → view st id ≡ some e → e.timestamp ≤ uptime

-- What the scan has done when it stops, started at bit `i`.
record Scanned (uptime i : ℕ) (st out : Inflight) : Type 0 where
  valid : IsValid out
  entries :
      (j : ℕ)
      → j < max_inflight
      → view out j ≡ (if ltb j i then view st j else keep_fresh uptime (view st j))

pub expire_slot_cases :
    (copy i uptime : ℕ) (st : Inflight)
    → (expire_slot copy i uptime st ≡ st) ⊎ (expire_slot copy i uptime st ≡ drop_entry i st)
unfolding expire_slot
expire_slot_cases copy i uptime st = ground arith

pub expire_slot-IsValid :
    (copy i uptime : ℕ) (st : Inflight)
    → i < max_inflight
    → IsValid st
    → IsValid (expire_slot copy i uptime st)
expire_slot-IsValid copy i uptime st hi v = elim (expire_slot_cases copy i uptime st) [
  | inl e ↦ rw e v
  | inr e ↦ rw e (drop_entry-IsValid st v i hi)
]

expire_from-IsValid :
    (rounds copy i uptime : ℕ) (st : Inflight)
    → rounds + i ≡ max_inflight
    → IsValid st
    → IsValid (expire_from rounds copy i uptime st)
unfolding expire_from
expire_from-IsValid zero copy i uptime st end v = v
expire_from-IsValid (suc rounds) copy i uptime st end v =
    expire_from-IsValid rounds (copy / 2) (suc i) uptime (expire_slot copy i uptime st)
      (omega arith) (expire_slot-IsValid copy i uptime st (omega arith) v)

pub timeout_handler-IsValid :
    (lock : ℤ) (uptime : ℕ) (st : Inflight) → IsValid st → IsValid (timeout_handler lock uptime st)
unfolding timeout_handler
timeout_handler-IsValid lock uptime st v =
    ground (arith, expire_from-IsValid max_inflight st.bitmap 0 uptime st refl v)

module _ (uptime : ℕ) (small : uptime < 2 ^ 64) (copy : ℕ) where
  -- The scan's round for bit `i`, where the copy still agrees with the bitmap at that bit.
  module _ (st : Inflight) (v : IsValid st) (sent : SentBefore uptime st) (i : ℕ)
      (hi : i < max_inflight) (agrees : (bit_and copy 1 == 0) ≡ not (is_bit_set st.bitmap i)) where
    view-expire_slot :
        (j : ℕ)
        → j < max_inflight
        → view (expire_slot copy i uptime st) j
          ≡ (if i == j then keep_fresh uptime (view st j) else view st j)
    unfolding expire_slot view
    view-expire_slot j hj =
        let (e, p) = get_elem?-lt st.table i (omega (arith, v.size)) in
        ground (arith, p, agrees, sent i e hi, view-drop_entry st v i j hi hj)

    bits-drop_entry :
        (j : ℕ)
        → j < max_inflight
        → i ≢ j
        → is_bit_set (drop_entry i st).bitmap j ≡ is_bit_set st.bitmap j
    unfolding drop_entry
    bits-drop_entry j hj ne = ground (arith, is_bit_set-clear_bit st.bitmap i v.width hi j hj)

    bits-expire_slot :
        (j : ℕ)
        → j < max_inflight
        → i ≢ j
        → is_bit_set (expire_slot copy i uptime st).bitmap j ≡ is_bit_set st.bitmap j
    bits-expire_slot j hj ne = elim (expire_slot_cases copy i uptime st) [
      | inl e ↦ rw e
      | inr e ↦ rw e (bits-drop_entry j hj ne)
    ]

    sent-expire_slot : SentBefore uptime (expire_slot copy i uptime st)
    sent-expire_slot j e hj at = ground (arith, view-expire_slot j hj, sent j e hj)

    step-Scanned :
        (out : Inflight)
        → Scanned uptime (suc i) (expire_slot copy i uptime st) out
        → Scanned uptime i st out
    step-Scanned out rest = record {
      valid = rest.valid;
      entries = λ j hj. ground (arith, rest.entries j hj, view-expire_slot j hj);
    }

module _ (uptime : ℕ) (small : uptime < 2 ^ 64) (bitmap : ℕ) (narrow : bitmap < 256) where
  expire_from-Scanned :
      (rounds i : ℕ) (st : Inflight)
      → rounds + i ≡ max_inflight
      → IsValid st
      → SentBefore uptime st
      → ((k : ℕ) → i ≤ k → k < max_inflight → is_bit_set st.bitmap k ≡ is_bit_set bitmap k)
      → Scanned uptime i st (expire_from rounds (shifted bitmap i) i uptime st)
  unfolding expire_from shifted
  expire_from-Scanned zero i st end v sent same = record {
    valid = v;
    entries = λ j hj. ground arith;
  }
  expire_from-Scanned (suc rounds) i st end v sent same =
      step-Scanned uptime small copy st v sent i hi agrees _ (
        expire_from-Scanned rounds (suc i) next (omega arith)
          (expire_slot-IsValid copy i uptime st hi v)
          (sent-expire_slot uptime small copy st v sent i hi agrees) kept)
    where
      copy : ℕ
      copy = shifted bitmap i

      hi : i < max_inflight
      hi = omega arith

      agrees : (bit_and copy 1 == 0) ≡ not (is_bit_set st.bitmap i)
      agrees = rw (same i (omega arith) hi) (bit_and-shifted bitmap i narrow hi)

      next : Inflight
      next = expire_slot copy i uptime st

      kept : (k : ℕ) → suc i ≤ k → k < max_inflight → is_bit_set next.bitmap k ≡ is_bit_set bitmap k
      kept k above hk =
          bits-expire_slot uptime small copy st v sent i hi agrees k hk (omega arith)
          ∙ same k (omega arith) hk

view-empty : (st : Inflight) (j : ℕ) → st.bitmap ≡ 0 → j < max_inflight → view st j ≡ none
unfolding view
view-empty st j e hj = ground (arith, is_bit_set-zero j hj)

-- With the mutex taken, in a valid inflight state whose messages were sent at the uptime of the
-- sweep or before it, a sweep drops the entry of each message that was sent more than the greatest
-- age ago, and keeps every other entry as it is, those that wait to be sent among them. The state
-- stays valid.
pub timeout_handler-view :
    (uptime : ℕ) (st : Inflight)
    → uptime < 2 ^ 64
    → IsValid st
    → SentBefore uptime st
    → IsValid (timeout_handler (pos 0) uptime st)
      × ((j : ℕ)
          → j < max_inflight
          → view (timeout_handler (pos 0) uptime st) j ≡ keep_fresh uptime (view st j))
unfolding timeout_handler shifted
timeout_handler-view uptime st small v sent = elim (Bool-cases (st.bitmap == 0)) [
  | inl e ↦ rw e (v, λ j hj. ground (arith, view-empty st j (ground arith) hj))
  | inr e ↦ rw e (scan.valid, λ j hj. ground (arith, scan.entries j hj))
]
  where
    scan : Scanned uptime 0 st (expire_from max_inflight st.bitmap 0 uptime st)
    scan =
        expire_from-Scanned uptime small st.bitmap v.width max_inflight 0 st (omega arith) v sent
          (λ k lo hi. refl)
