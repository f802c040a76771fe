-- ===== src/Icmp/Inflight/Abstract.antt =====
-- The inflight state as the rest of the code can tell it apart: what the table holds under an id
-- that is not in flight is forgotten.
use mathlib.Core.Quot
use mathlib.Core.Quot.{Quot, Quot-set}
use native.Mathlib.Bridge.{le_prop}
use native.Mathlib.Decide.{dec_lt}
use sense_firmware.Prelude.{
  ℕ, ◌<◌, ◌≡◌, ◌∙◌, refl, sym, subst, ap, Option, none, some, arith, ◌==◌, if◌then◌else◌, ℤ, pos,
  negsuc, eagain,
}
use sense_firmware.Icmp.Bitmap.{max_inflight}
use sense_firmware.Icmp.Inflight.{Entry, Inflight, claim_id, drop_entry}
use sense_firmware.Icmp.Inflight.View.{view, IsValid, view-drop_entry, drop_entry-IsValid}
use sense_firmware.Icmp.Inflight.Claim.{Claimed, claim_id-Claimed, pending}

abbrev pub ValidState : Type 0
ValidState = (st : Inflight) × IsValid st

-- Two states with the same messages in flight
abbrev pub SameView : ValidState → ValidState → Type 0
SameView a b = (id : ℕ) → id < max_inflight → view a.0 id ≡ view b.0 id

abbrev pub Pending : Type 0
Pending = Quot SameView

pub lookup : (id : ℕ) → id < max_inflight → Pending → Option Entry
lookup id h = Quot.lift (hlevel) (λ a. view a.0 id) (λ a b e. e id h)

pub release : (id : ℕ) → id < max_inflight → Pending → Pending
release id h =
    Quot.lift Quot-set (λ a. Quot.mk (drop_entry id a.0, drop_entry-IsValid a.0 a.1 id h))
      (λ a b e. Quot.sound (λ j hj.
        view-drop_entry a.0 a.1 id j h hj
        ∙ ap (λ o. if id == j then none else o) (e j hj)
        ∙ sym (view-drop_entry b.0 b.1 id j h hj)))

module _ (callback : Option ℕ) (user_data : ℕ) where
  claimed-IsValid :
      (st : Inflight) (r : ℤ × Inflight)
      → Claimed callback user_data st r
      → IsValid st
      → IsValid r.1
  claimed-IsValid st (pos id, st') (_, _, _, _, w) v = w
  claimed-IsValid st (negsuc n, st') (_, _, e) v = subst IsValid (sym e) v

  -- The lowest free id is the same in states with the same messages in flight.
  same_id :
      (a b : ValidState) (id id' : ℕ) (sa sb : Inflight)
      → SameView a b
      → Claimed callback user_data a.0 (pos id, sa)
      → Claimed callback user_data b.0 (pos id', sb)
      → id ≡ id'
  same_id a b id id' sa sb e (h, free, low, _, _) (h', free', low', _, _) = elim (dec_lt id id') [
    | yes l ↦ absurd (low' id l (sym (e id h) ∙ free))
    | no l ↦ elim (dec_lt id' id) [
      | yes m ↦ absurd (low id' m (e id' h' ∙ free'))
      | no m ↦ omega arith
    ]
  ]

  SameResult : ℤ × Inflight → ℤ × Inflight → Type 0
  SameResult ra rb = (ra.0 ≡ rb.0) × ((j : ℕ) → j < max_inflight → view ra.1 j ≡ view rb.1 j)

  same_claim :
      (a b : ValidState) (ra rb : ℤ × Inflight)
      → SameView a b
      → Claimed callback user_data a.0 ra
      → Claimed callback user_data b.0 rb
      → SameResult ra rb
  unfolding SameResult
  same_claim a b (pos id, sa) (pos id', sb) e ca cb =
      let same : id ≡ id' = same_id a b id id' sa sb e ca cb in
      (
        ap pos same,
        λ j hj.
            ca.3 j hj
            ∙ ap (λ o. if id == j then some (pending callback user_data) else o) (e j hj)
            ∙ ap (λ i. if i == j then some (pending callback user_data) else view b.0 j) same
            ∙ sym (cb.3 j hj),
      )
  same_claim a b (pos id, sa) (negsuc n, sb) e ca cb =
      absurd (cb.1 id ca.0 (sym (e id ca.0) ∙ ca.1))
  same_claim a b (negsuc n, sa) (pos id, sb) e ca cb = absurd (ca.1 id cb.0 (e id cb.0 ∙ cb.1))
  same_claim a b (negsuc n, sa) (negsuc m, sb) e ca cb =
      (ca.0 ∙ sym (cb.0), λ j hj. ap (λ s. view s j) ca.2 ∙ e j hj ∙ ap (λ s. view s j) (sym cb.2))

  abbrev claimed_state : ValidState → ValidState
  claimed_state a = (
    (claim_id callback user_data a.0).1,
    claimed-IsValid a.0 (claim_id callback user_data a.0)
        (claim_id-Claimed callback user_data a.0 a.1) a.1,
  )

  -- The id that is claimed, or the error
  pub claim_result : Pending → ℤ
  unfolding SameResult
  claim_result =
      Quot.lift (hlevel) (λ a. (claim_id callback user_data a.0).0)
        (λ a b e.
          (same_claim a b _ _ e (claim_id-Claimed callback user_data a.0 a.1)
            (claim_id-Claimed callback user_data b.0 b.1)).0)

  pub claim : Pending → Pending
  unfolding SameResult
  claim =
      Quot.lift Quot-set (λ a. Quot.mk (claimed_state a))
        (λ a b e.
          Quot.sound
            (same_claim a b _ _ e (claim_id-Claimed callback user_data a.0 a.1)
              (claim_id-Claimed callback user_data b.0 b.1)).1)

  -- What a claim and a later release of its id leave
  abbrev pub Restored : Pending → ℤ → Type 0
  Restored p (pos id) =
      (h : id < max_inflight) × (lookup id h p ≡ none)
      × (lookup id h (claim p) ≡ some (pending callback user_data))
      × (release id h (claim p) ≡ p)
  Restored p (negsuc n) = (negsuc n ≡ eagain) × (claim p ≡ p)

  Restored-prop : (p : Pending) (r : ℤ) → IsProp (Restored p r)
  Restored-prop p (pos id) = hlevel (Quot-set, le_prop)
  Restored-prop p (negsuc n) = hlevel Quot-set

  dropped_claim :
      (o e : Option Entry) (id j : ℕ)
      → (id ≡ j → o ≡ none)
      → (if id == j then none else (if id == j then e else o)) ≡ o
  dropped_claim o e id j h = ground arith

  restored :
      (a : ValidState) (r : ℤ × Inflight)
      → claim_id callback user_data a.0 ≡ r
      → Claimed callback user_data a.0 r
      → Restored (Quot.mk a) r.0
  unfolding lookup release claim
  restored a (pos id, st') e (h, free, low, entries, w) =
      let view_claimed : (j : ℕ)
          → j < max_inflight
          → view (claimed_state a).0 j
            ≡ (if id == j then some (pending callback user_data) else view a.0 j) =
        λ j hj. ap (λ r. view r.1 j) e ∙ entries j hj in
      (
        h,
        free,
        view_claimed id h ∙ ground arith,
        Quot.sound (λ j hj.
            view-drop_entry (claimed_state a).0 (claimed_state a).1 id j h hj
            ∙ ap (λ o. if id == j then none else o) (view_claimed j hj)
            ∙ dropped_claim (view a.0 j) (some (pending callback user_data)) id j
                (λ q. ap (λ i. view a.0 i) (sym q) ∙ free)),
      )
  restored a (negsuc n, st') e (n_eq, low, s) =
      (n_eq, Quot.sound (λ j hj. ap (λ r. view r.1 j) e ∙ ap (λ s. view s j) s))

  -- For every table of messages in flight, a claim takes an id that is not in flight, under which the
  -- caller's callback and data wait, and releasing that id gives back the very same table; or the claim
  -- fails with -EAGAIN and changes nothing. Tables are equal if the same messages are in flight,
  -- whatever else the array holds.
  pub claim-release : (p : Pending) → Restored p (claim_result p)
  unfolding claim_result
  claim-release =
      Quot.ind (λ p. Restored-prop p (claim_result p))
        (λ a.
          restored a (claim_id callback user_data a.0) refl
            (claim_id-Claimed callback user_data a.0 a.1))

pub Pending-ext :
    (p q : Pending) → ((id : ℕ) (h : id < max_inflight) → lookup id h p ≡ lookup id h q) → p ≡ q
unfolding lookup
Pending-ext =
    Quot.ind (λ p. hlevel Quot-set) (λ a. Quot.ind (λ q. hlevel Quot-set) (λ b e. Quot.sound e))
