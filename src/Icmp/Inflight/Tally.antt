-- ===== src/Icmp/Inflight/Tally.antt =====
-- How many of the messages in flight pass a test of their callback and data, and how the changes of the
-- inflight state change that number.
use sense_firmware.Prelude.{
  ℕ, zero, suc, ◌+◌, ◌/◌, ◌≤◌, ◌<◌, ◌≡◌, ◌⊎◌, ◌∙◌, refl, ap, Bool, true, false, not, Option, none,
  some, arith, leb, ◌==◌, if◌then◌else◌, ℤ, pos, negsuc, Bool-cases, inl, inr, get_elem?,
  get_elem?-ge,
}
use mathlib.Core.Option
use native.Mathlib.Decide.{dec_lt}
use sense_firmware.Icmp.Bitmap.{max_inflight}
use sense_firmware.Icmp.Inflight.{
  Entry, Inflight, claim_id, drop_entry, stamp, expire_slot, expire_from, timeout_handler,
}
use sense_firmware.Icmp.Inflight.View.{view, IsValid, view-drop_entry, view-stamp, restamp}
use sense_firmware.Icmp.Inflight.Claim.{Claimed, claim_id-Claimed, pending}
use sense_firmware.Icmp.Inflight.Timeout.{expire_slot_cases, expire_slot-IsValid}

-- Entries that are left as they are, or dropped
abbrev pub Shrinks : Inflight → Inflight → Type 0
Shrinks st out = (j : ℕ) → j < max_inflight → (view out j ≡ view st j) ⊎ (view out j ≡ none)

-- A test that does not look at the time
module _ (test : Option ℕ → ℕ → Bool) where
  abbrev pub weight : Option Entry → ℕ
  weight none = 0
  weight (some e) = if test e.callback e.user_data then 1 else 0

  weight-restamp :
      (b : Bool) (uptime : ℕ) (o : Option Entry)
      → weight (if b then Option.map (restamp uptime) o else o) ≤ weight o
  weight-restamp false uptime o = omega arith
  weight-restamp true uptime none = omega arith
  weight-restamp true uptime (some e) = omega arith

  -- The sum over the ids below `n` that a mask lets through
  abbrev pub tally : ℕ → (ℕ → Bool) → (ℕ → Option Entry) → ℕ
  tally zero mask f = 0
  tally (suc n) mask f = (if mask n then weight (f n) else 0) + tally n mask f

  pub tally_le :
      (n : ℕ) (mask : ℕ → Bool) (f g : ℕ → Option Entry)
      → ((j : ℕ) → j < n → weight (g j) ≤ weight (f j))
      → tally n mask g ≤ tally n mask f
  tally_le zero mask f g h = omega arith
  tally_le (suc n) mask f g h =
      let rest = tally_le n mask f g (λ j hj. h j (omega arith)) in
      elim (Bool-cases (mask n)) [
        | inl e ↦ rw e (omega (arith, rest, h n (omega arith)))
        | inr e ↦ rw e (omega (arith, rest))
      ]

  -- One more entry counts at most its own weight.
  pub tally-claim :
      (n id : ℕ) (mask : ℕ → Bool) (f g : ℕ → Option Entry) (e : Option Entry)
      → ((j : ℕ) → j < n → g j ≡ (if id == j then e else f j))
      → tally n mask g ≤ tally n mask f + (if leb n id then 0 else weight e)
  tally-claim zero id mask f g e h = omega arith
  tally-claim (suc n) id mask f g e h =
      let rest = tally-claim n id mask f g e (λ j hj. h j (omega arith)) in
      ground (arith, rest, h n)

  pub tally-drop :
      (n id : ℕ) (f g : ℕ → Option Entry)
      → ((j : ℕ) → j < n → g j ≡ (if id == j then none else f j))
      → tally n (λ j. true) g ≤ tally n (λ j. not (id == j)) f
  tally-drop zero id f g h = omega arith
  tally-drop (suc n) id f g h =
      let rest = tally-drop n id f g (λ j hj. h j (omega arith)) in ground (arith, rest, h n)

  tally_mask :
      (n : ℕ) (mask : ℕ → Bool) (f : ℕ → Option Entry) → tally n mask f ≤ tally n (λ j. true) f
  tally_mask zero mask f = omega arith
  tally_mask (suc n) mask f = let rest = tally_mask n mask f in ground (arith, rest)

  pub tally-without :
      (n id : ℕ) (f : ℕ → Option Entry)
      → id < n
      → tally n (λ j. not (id == j)) f + weight (f id) ≤ tally n (λ j. true) f
  tally-without zero id f h = omega arith
  tally-without (suc n) id f h = elim (Bool-cases (id == n)) [
    | inl e ↦ let m = tally_mask n (λ j. not (id == j)) f in ground (arith, m)
    | inr e ↦ let rest = tally-without n id f (ground arith) in ground (arith, rest)
  ]

  -- The messages in flight that pass the test, but for those that the mask leaves out
  abbrev pub in_flight : (ℕ → Bool) → Inflight → ℕ
  in_flight mask st = tally max_inflight mask (view st)

  pub in_flight-Shrinks :
      (mask : ℕ → Bool) (st out : Inflight)
      → Shrinks st out
      → in_flight mask out ≤ in_flight mask st
  in_flight-Shrinks mask st out h =
      tally_le max_inflight mask (view st) (view out)
        (λ j hj. elim (h j hj) [ inl e ↦ rw e (omega arith) | inr e ↦ rw e (omega arith) ])

  pub in_flight-claim_id :
      (mask : ℕ → Bool) (callback : Option ℕ) (user_data : ℕ) (st : Inflight)
      → IsValid st
      → in_flight mask (claim_id callback user_data st).1
        ≤ in_flight mask st + (if test callback user_data then 1 else 0)
  in_flight-claim_id mask callback user_data st v =
      claimed (claim_id callback user_data st) (claim_id-Claimed callback user_data st v)
    where
      claimed :
          (r : ℤ × Inflight)
          → Claimed callback user_data st r
          → in_flight mask r.1 ≤ in_flight mask st + (if test callback user_data then 1 else 0)
      claimed (pos id, out) (h, free, low, entries, w) =
          let c =
            tally-claim max_inflight id mask (view st) (view out)
              (some (pending callback user_data)) entries in
          ground (arith, c)
      claimed (negsuc n, out) (e, all, same) = rw same (omega arith)

  pub in_flight-stamp :
      (mask : ℕ → Bool) (id uptime : ℕ) (st : Inflight)
      → IsValid st
      → in_flight mask (stamp id uptime st) ≤ in_flight mask st
  unfolding stamp
  in_flight-stamp mask id uptime st v = elim (dec_lt id max_inflight) [
    | no h ↦ outside (get_elem?-ge st.table id (omega (arith, v.size)))
    | yes h ↦ tally_le max_inflight mask (view st) (view (stamp id uptime st)) (λ j hj.
        stamped (view st j) (view (stamp id uptime st) j) id j (view-stamp st v id uptime j h hj))
  ]
    where
      outside :
          get_elem? st.table id ≡ none → in_flight mask (stamp id uptime st) ≤ in_flight mask st
      outside e = rw (e, stamp) (omega arith)

      stamped :
          (o o' : Option Entry) (i j : ℕ)
          → o' ≡ (if i == j then Option.map (restamp uptime) o else o)
          → weight o' ≤ weight o
      stamped o o' i j e = rw e (weight-restamp (i == j) uptime o)

  -- Dropping an entry that passes the test takes it off.
  pub in_flight-drop_entry :
      (id : ℕ) (st : Inflight)
      → IsValid st
      → id < max_inflight
      → in_flight (λ j. true) (drop_entry id st) ≤ in_flight (λ j. not (id == j)) st
  in_flight-drop_entry id st v h =
      tally-drop max_inflight id (view st) (view (drop_entry id st))
        (λ j hj. view-drop_entry st v id j h hj)

drop_entry-Shrinks :
    (id : ℕ) (st : Inflight) → IsValid st → id < max_inflight → Shrinks st (drop_entry id st)
drop_entry-Shrinks id st v h j hj = ground (arith, view-drop_entry st v id j h hj)

expire_from-Shrinks :
    (rounds copy i uptime : ℕ) (st : Inflight)
    → rounds + i ≡ max_inflight
    → IsValid st
    → Shrinks st (expire_from rounds copy i uptime st)
unfolding expire_from
expire_from-Shrinks zero copy i uptime st end v j hj = inl refl
expire_from-Shrinks (suc rounds) copy i uptime st end v j hj =
    let next = expire_slot copy i uptime st in
    let rest =
      expire_from-Shrinks rounds (copy / 2) (suc i) uptime next (omega arith)
        (expire_slot-IsValid copy i uptime st (omega arith) v) j hj in
    elim (expire_slot_cases copy i uptime st) [
      | inl e ↦ elim rest [ inl r ↦ inl (r ∙ ap (λ s. view s j) e) | inr r ↦ inr r ]
      | inr e ↦ elim rest [
        | inr r ↦ inr r
        | inl r ↦ elim (drop_entry-Shrinks i st v (omega arith) j hj) [
          | inl d ↦ inl (r ∙ ap (λ s. view s j) e ∙ d)
          | inr d ↦ inr (r ∙ ap (λ s. view s j) e ∙ d)
        ]
      ]
    ]

pub timeout_handler-Shrinks :
    (lock : ℤ) (uptime : ℕ) (st : Inflight)
    → IsValid st
    → Shrinks st (timeout_handler lock uptime st)
unfolding timeout_handler
timeout_handler-Shrinks lock uptime st v j hj =
    ground (arith, expire_from-Shrinks max_inflight st.bitmap 0 uptime st refl v j hj)
