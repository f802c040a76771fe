-- ===== src/Icmp/Inflight/Claim.antt =====
-- Allocating a message id in `icmp_command`, as an update of the map of inflight entries.
use sense_firmware.Prelude.{
  ℕ, ◌<◌, ◌≡◌, ◌≢◌, refl, Option, none, some, true, false, arith, ◌==◌, if◌then◌else◌, get_elem?-lt,
  pos, negsuc, eagain, ℤ,
}
use sense_firmware.Icmp.Bitmap.{
  max_inflight, is_bit_set, allocate_msg_id, Allocated, allocate_msg_id-Allocated,
}
use sense_firmware.Icmp.Inflight.{Entry, Inflight, send_pending, claim_id}
use sense_firmware.Icmp.Inflight.View.{view, IsValid, view-claim_bit, claim_bit-IsValid}

-- An entry that waits for its command to be sent.
abbrev pub pending : Option ℕ → ℕ → Entry
pending callback user_data = record {
  timestamp = send_pending;
  callback = callback;
  user_data = user_data;
}

-- A successful claim adds a pending entry under an id that was free, the lowest such id, and
-- changes no other; a failed one returns -EAGAIN, with every id in flight, and changes nothing.
abbrev pub Claimed : Option ℕ → ℕ → Inflight → ℤ × Inflight → Type 0
Claimed callback user_data st (pos id, st') =
    (id < max_inflight)
    × (view st id ≡ none)
    × ((j : ℕ) → j < id → view st j ≢ none)
    × ((j : ℕ)
        → j < max_inflight
        → view st' j ≡ (if id == j then some (pending callback user_data) else view st j))
    × IsValid st'
Claimed callback user_data st (negsuc n, st') =
    (negsuc n ≡ eagain) × ((j : ℕ) → j < max_inflight → view st j ≢ none) × (st' ≡ st)

module _ (st : Inflight) (v : IsValid st) where
  view-set : (j : ℕ) → j < max_inflight → is_bit_set st.bitmap j ≡ true → view st j ≢ none
  unfolding view
  view-set j hj set e =
      let (x, p) = get_elem?-lt st.table j (omega (arith, v.size)) in ground (arith, p)

  view-clear : (j : ℕ) → is_bit_set st.bitmap j ≡ false → view st j ≡ none
  unfolding view
  view-clear j clear = ground arith

  claimed :
      (callback : Option ℕ) (user_data : ℕ) (r : ℤ)
      → allocate_msg_id st.bitmap max_inflight ≡ r
      → Allocated st.bitmap r
      → Claimed callback user_data st (claim_id callback user_data st)
  unfolding claim_id
  claimed callback user_data (pos id) e a =
      rw (e, claim_id)
        (
          a.0,
          view-clear id a.1,
          (λ j h. view-set j (omega (arith, a.0)) (a.2 j h)),
          (λ j h. view-claim_bit st v callback user_data id j a.0 h),
          claim_bit-IsValid st v callback user_data id a.0,
        )
  claimed callback user_data (negsuc n) e a =
      rw (e, claim_id) (a.0, (λ j h. view-set j h (a.1 j h)), refl)

-- Under the mutex `icmp_command` claims the lowest free message id with a pending entry that holds
-- the caller's callback and data, and touches no other entry; with all ids in flight it returns
-- -EAGAIN and changes nothing.
pub claim_id-Claimed :
    (callback : Option ℕ) (user_data : ℕ) (st : Inflight)
    → IsValid st
    → Claimed callback user_data st (claim_id callback user_data st)
claim_id-Claimed callback user_data st v =
    claimed st v callback user_data (allocate_msg_id st.bitmap max_inflight) refl
      (allocate_msg_id-Allocated st.bitmap v.width)
