-- ===== src/Icmp/Thread/Interim.antt =====
-- What other threads do to the inflight state while a response callback runs, and the number of
-- messages in flight.
use sense_firmware.Prelude.{
  ◌<◌, get_elem?, Option-cases, Bool-cases, inl, inr, ℕ, ◌+◌, ◌≤◌, ◌≡◌, ap, sym, subst, ◌∙◌, Bool,
  true, not, List, [], ◌∷◌, ◌++◌, Option, some, arith, ◌==◌, if◌then◌else◌, ℤ, pos, negsuc,
}
use sense_firmware.Icmp.Frame.{Frame}
use sense_firmware.Icmp.Bitmap.{is_bit_set, max_inflight}
use sense_firmware.Icmp.Inflight.{Entry, Inflight, claim_id, drop_entry, timeout_handler}
use sense_firmware.Icmp.Inflight.View.{IsValid, view}
use sense_firmware.Icmp.Inflight.Claim.{Claimed, claim_id-Claimed}
use sense_firmware.Icmp.Inflight.Timeout.{timeout_handler-IsValid}
use sense_firmware.Icmp.Inflight.Tally.{
  weight, in_flight, in_flight-Shrinks, in_flight-claim_id, in_flight-drop_entry, tally-without,
  timeout_handler-Shrinks,
}
use sense_firmware.Icmp.Thread.{Others, copied_entry, Event, response_callback, entry}

-- A response callback and the caller's data
abbrev pub Command : Type 0
Command = Option ℕ × ℕ

-- What other threads do to the inflight state while the work item does not hold the mutex: sweeps,
-- and the part of `icmp_command` under the mutex
pub data Interim : Type 0 where
  sweep : ℤ → ℕ → Interim
  claim : Option ℕ → ℕ → Interim

abbrev pub interim : List Interim → Inflight → Inflight
interim [] st = st
interim (sweep lock uptime ∷ ops) st = interim ops (timeout_handler lock uptime st)
interim (claim cb user_data ∷ ops) st = interim ops (claim_id cb user_data st).1

-- What they do before the handler copies the entry, and then
abbrev pub others : List Interim → List Interim → Others
others first next_ops = record { before_copy = interim first; during_call = interim next_ops }

abbrev pub claims : List Interim → List Command
claims [] = []
claims (sweep lock uptime ∷ ops) = claims ops
claims (claim cb user_data ∷ ops) = (cb, user_data) ∷ claims ops

-- The command that an event answers, and those that are issued meanwhile
abbrev pub answers : Event → List Command
answers (response_callback cb payload user_data) = (some cb, user_data) ∷ []
answers _ = []

abbrev pub meanwhile : Event → List Interim → List Interim → List Command
meanwhile (response_callback cb payload user_data) first ops = claims first ++ claims ops
meanwhile _ first ops = []

abbrev pub count : (Option ℕ → ℕ → Bool) → List Command → ℕ
count test [] = 0
count test ((cb, user_data) ∷ issued) = (if test cb user_data then 1 else 0) + count test issued

pub count-append :
    (test : Option ℕ → ℕ → Bool) (xs ys : List Command)
    → count test (xs ++ ys) ≡ count test xs + count test ys
count-append test [] ys = omega arith
count-append test ((cb, d) ∷ xs) ys = omega (arith, count-append test xs ys)

claim_id-IsValid :
    (cb : Option ℕ) (user_data : ℕ) (st : Inflight)
    → IsValid st
    → IsValid (claim_id cb user_data st).1
claim_id-IsValid cb user_data st v =
    kept (claim_id cb user_data st) (claim_id-Claimed cb user_data st v)
  where
    kept : (r : ℤ × Inflight) → Claimed cb user_data st r → IsValid r.1
    kept (pos id, out) (_, _, _, _, w) = w
    kept (negsuc n, out) (_, _, e) = subst IsValid (sym e) v

pub interim-IsValid : (ops : List Interim) (st : Inflight) → IsValid st → IsValid (interim ops st)
interim-IsValid [] st v = v
interim-IsValid (sweep lock uptime ∷ ops) st v =
    interim-IsValid ops (timeout_handler lock uptime st) (timeout_handler-IsValid lock uptime st v)
interim-IsValid (claim cb user_data ∷ ops) st v =
    interim-IsValid ops (claim_id cb user_data st).1 (claim_id-IsValid cb user_data st v)

module _ (test : Option ℕ → ℕ → Bool) where
  in_flight-interim :
      (mask : ℕ → Bool) (ops : List Interim) (st : Inflight)
      → IsValid st
      → in_flight test mask (interim ops st) ≤ in_flight test mask st + count test (claims ops)
  in_flight-interim mask [] st v = omega arith
  in_flight-interim mask (sweep lock uptime ∷ ops) st v =
      let out = timeout_handler lock uptime st in
      omega (
        arith,
        in_flight-Shrinks test mask st out (timeout_handler-Shrinks lock uptime st v),
        in_flight-interim mask ops out (timeout_handler-IsValid lock uptime st v),
      )
  in_flight-interim mask (claim cb user_data ∷ ops) st v = omega (
    arith,
    in_flight-claim_id test mask cb user_data st v,
    in_flight-interim mask ops (claim_id cb user_data st).1 (claim_id-IsValid cb user_data st v),
  )

  -- An answered command is taken off, whatever happens from the copy of its entry on.
  answered_copy :
      (ops : List Interim) (id : ℕ) (st : Inflight) (e : Entry) (cb : ℕ)
      → IsValid st
      → id < max_inflight
      → view st id ≡ some e
      → e.callback ≡ some cb
      → count test ((some cb, e.user_data) ∷ [])
          + in_flight test (λ j. true) (drop_entry id (interim ops st))
        ≤ count test (claims ops) + in_flight test (λ j. true) st
  answered_copy ops id st e cb v small at calls =
      let left : weight test (view st id) ≡ (if test (some cb) e.user_data then 1 else 0) =
        ap (weight test) at ∙ ap (λ c. if test c e.user_data then 1 else 0) calls in
      omega (
        arith,
        left,
        in_flight-drop_entry test id (interim ops st) (interim-IsValid ops st v) small,
        in_flight-interim (λ j. not (id == j)) ops st v,
        tally-without test max_inflight id (view st) small,
      )

  -- The same over both stretches without the mutex: the entry that is copied may be a later one.
  pub answered :
      (first ops : List Interim) (id : ℕ) (st : Inflight) (e : Entry) (cb : ℕ)
      → IsValid st
      → id < max_inflight
      → view (interim first st) id ≡ some e
      → e.callback ≡ some cb
      → count test ((some cb, e.user_data) ∷ [])
          + in_flight test (λ j. true) (drop_entry id (interim ops (interim first st)))
        ≤ count test (claims first ++ claims ops) + in_flight test (λ j. true) st
  answered first ops id st e cb v small at calls =
      le_sum _ _ _ _ _
        (answered_copy ops id (interim first st) e cb (interim-IsValid first st v) small at calls)
        (in_flight-interim (λ j. true) first st v) (count-append test (claims first) (claims ops))
    where
      le_sum : (a b c d k : ℕ) {n : ℕ} → a ≤ b + c → c ≤ d + k → n ≡ k + b → a ≤ n + d
      le_sum a b c d k h l e = omega arith

-- The entry that the handler copies is in flight.
pub copied_entry-entry :
    (f : Frame) (st : Inflight) (e : Entry) (cb : ℕ)
    → IsValid st
    → f.msg_id < max_inflight
    → copied_entry f st ≡ entry e cb
    → (view st f.msg_id ≡ some e) × (e.callback ≡ some cb)
unfolding copied_entry view
copied_entry-entry f st e cb v small h = elim (Option-cases (get_elem? st.table f.msg_id)) [
  | inl n ↦ absurd (ground arith)
  | inr (x, p) ↦ elim (Bool-cases (is_bit_set st.bitmap f.msg_id)) [
    | inl b ↦ (ground arith, ground arith)
    | inr b ↦ absurd (ground (arith, v.idle f.msg_id x small b p))
  ]
]
