-- ===== src/Icmp/Thread/Counts.antt =====
-- What each operation of the server does to the number of messages in flight.
use sense_firmware.Prelude.{
  ℕ, ◌+◌, ◌≤◌, ◌<◌, ◌≡◌, ◌∙◌, refl, ap, subst, Bool, true, List, [], ◌∷◌, Option, none, some, arith,
  ◌==◌, if◌then◌else◌, ℤ, pos, negsuc, is_ok, Bool-cases, Option-cases, inl, inr, ltb, length,
}
use sense_firmware.Kernel.{MsgQueue, MemSlab}
use sense_firmware.Icmp.Frame.{Frame, max_payload_size, type_command}
use sense_firmware.Icmp.Bitmap.{max_inflight}
use sense_firmware.Icmp.Inflight.{Inflight, claim_id}
use sense_firmware.Icmp.Inflight.View.{IsValid}
use sense_firmware.Icmp.Inflight.Tally.{
  in_flight, in_flight-Shrinks, in_flight-claim_id, timeout_handler-Shrinks, in_flight-stamp,
}
use sense_firmware.Icmp.Server.{
  State, max_frames, queue_max_items, send_frame, send_claimed, command,
}
use sense_firmware.Icmp.Server.Send.{Inv}
use sense_firmware.Icmp.Thread.{
  call_copied, copied_entry, Event, Found, entry, no_entry, undefined, find_entry, target_event,
  run_callback, dispatch_handler, transmit, update_inflight_timestamp, finish,
}
use sense_firmware.Icmp.Thread.Untouched.{
  send_frame-inflight, receive-inflight, arrives-inflight, respond-inflight, notify-inflight,
  register_target-inflight,
}
use sense_firmware.Icmp.Thread.Invariant.{Holds, find_entry-entry}
use sense_firmware.Icmp.Thread.Interim.{
  others, copied_entry-entry, Interim, interim, answers, meanwhile, count, interim-IsValid,
  answered,
}
use sense_firmware.Icmp.Thread.Reach.{
  Step, commands, responds, notifies, registers, transmits, receives, handles, sweeps, arrives,
}

module _ (slab : MemSlab Frame max_frames) (queue : MsgQueue Frame queue_max_items) where
  -- A step that issues no command and runs no work item
  abbrev pub IsOther : {s t : State slab queue} → Step slab queue s t → Type 0
  IsOther (commands lock target_id payload cb user_data e) = ⊥
  IsOther (handles lock during x k busy e) = ⊥
  IsOther _ = Unit {0}

  module _ (test : Option ℕ → ℕ → Bool) where
    abbrev pub all : State slab queue → ℕ
    all s = in_flight test (λ j. true) s.inflight

    same_all : (s t : State slab queue) → t.inflight ≡ s.inflight → all t ≤ all s
    same_all s t e = rw (ap (in_flight test (λ j. true)) e) (omega arith)

    pub all-command :
        (lock : ℤ) (target_id : ℕ) (payload : List ℕ) (cb : Option ℕ) (user_data : ℕ)
        (s : State slab queue)
        → Inv slab queue s
        → all (command slab queue lock target_id payload cb user_data s).1
          ≤ all s + count test ((cb, user_data) ∷ [])
    unfolding command
    all-command lock target_id payload cb user_data s v =
        elim (Bool-cases (ltb max_payload_size (length payload))) [
          | inl e ↦ rw e (omega arith)
          | inr e ↦ rw e (elim (Bool-cases (is_ok lock)) [
            | inr o ↦ rw o (omega arith)
            | inl o ↦ rw o (
                claimed (claim_id cb user_data s.inflight)
                  (in_flight-claim_id test (λ j. true) cb user_data s.inflight v.inflight))
          ])
        ]
      where
        claimed :
            (r : ℤ × Inflight)
            → in_flight test (λ j. true) r.1
              ≤ in_flight test (λ j. true) s.inflight + (if test cb user_data then 1 else 0)
            → all (send_claimed slab queue target_id payload s r).1
              ≤ all s + count test ((cb, user_data) ∷ [])
        claimed (negsuc n, st) h = omega arith
        claimed (pos id, st) h =
            let e =
              same_all (record s { inflight = st })
                (send_frame slab queue type_command id target_id payload
                  (record s { inflight = st })).1
                (send_frame-inflight slab queue type_command id target_id payload
                  (record s { inflight = st })) in
            omega (arith, e, h)

    abbrev pub Counted :
        List Interim → List Interim → State slab queue → Event × State slab queue → Type 0
    Counted first ops s (e, t) =
        count test (answers e) + all t ≤ count test (meanwhile e first ops) + all s

    all-call_copied :
        (r : Found) (f : Frame) (first ops : List Interim) (s : State slab queue)
        → copied_entry f (interim first s.inflight) ≡ r
        → f.msg_id < max_inflight
        → Inv slab queue s
        → Holds (Counted first ops s) (
            call_copied slab queue r
              (interim ops)
              f
              (record s { inflight = interim first s.inflight }))
    unfolding call_copied
    all-call_copied undefined f first ops s e small v = tt
    all-call_copied no_entry f first ops s e small v = tt
    all-call_copied (entry x cb) f first ops s e small v =
        let (at, calls) =
          copied_entry-entry f (interim first s.inflight) x cb
            (interim-IsValid first s.inflight v.inflight) small e in
        answered test first ops f.msg_id s.inflight x cb v.inflight small at calls

    all-run_callback :
        (r : Found) (f : Frame) (first ops : List Interim) (s : State slab queue)
        → find_entry f s.inflight ≡ r
        → Inv slab queue s
        → Holds (Counted first ops s) (run_callback slab queue r (others first ops) f s)
    unfolding run_callback
    all-run_callback undefined f first ops s e v = tt
    all-run_callback no_entry f first ops s e v = none_answers s.work_ctx.icmp_cb
      where
        none_answers :
            (cb : Option ℕ)
            → count test (answers (target_event f cb)) + all (finish slab queue s)
              ≤ count test (meanwhile (target_event f cb) first ops) + all s
        none_answers none = omega arith
        none_answers (some cb) = omega arith
    all-run_callback (entry x cb) f first ops s e v =
        all-call_copied (copied_entry f (interim first s.inflight)) f first ops s refl
          (find_entry-entry f s.inflight x cb v.inflight e).0 v

    pub all-dispatch_handler :
        (lock : ℤ) (first ops : List Interim) (s : State slab queue)
        → Inv slab queue s
        → Holds (Counted first ops s) (dispatch_handler slab queue lock (others first ops) s)
    unfolding dispatch_handler
    all-dispatch_handler lock first ops s v = elim (Option-cases s.work_ctx.frame) [
      | inl n ↦ rw (dispatch_handler, n) (omega arith)
      | inr (f, p) ↦ elim (Bool-cases (is_ok lock)) [
        | inr o ↦ rw (dispatch_handler, p, o) (omega arith)
        | inl o ↦
            rw (dispatch_handler, p, o)
              (all-run_callback (find_entry f s.inflight) f first ops s refl v)
      ]
    ]

    all-update_inflight_timestamp :
        (f : Frame) (uptime : ℕ) (st : Inflight)
        → IsValid st
        → in_flight test (λ j. true) (update_inflight_timestamp f uptime st)
          ≤ in_flight test (λ j. true) st
    unfolding update_inflight_timestamp
    all-update_inflight_timestamp f uptime st v = elim (Bool-cases (f.type == type_command)) [
      | inl e ↦ rw e (in_flight-stamp test (λ j. true) f.msg_id uptime st v)
      | inr e ↦ rw e (omega arith)
    ]

    all-transmit :
        (uptime : ℕ) (s : State slab queue)
        → Inv slab queue s
        → all (transmit slab queue uptime s).1 ≤ all s
    unfolding transmit
    all-transmit uptime s v = elim (Option-cases (queue.get s.tx)) [
      | inl n ↦ rw (transmit, n) (omega arith)
      | inr ((f, q), p) ↦
          rw (transmit, p) (all-update_inflight_timestamp f uptime s.inflight v.inflight)
    ]

    pub other_all :
        (s t : State slab queue) (st : Step slab queue s t)
        → IsOther st
        → Inv slab queue s
        → all t ≤ all s
    other_all s t (commands lock target_id payload cb user_data e) o v = elim o [ ]
    other_all s t (handles lock during x k busy e) o v = elim o [ ]
    other_all s t (responds target_id msg_id payload e) o v =
        same_all s t
          (ap (λ x. x.inflight) e ∙ respond-inflight slab queue target_id msg_id payload s)
    other_all s t (notifies target_id payload e) o v =
        same_all s t (ap (λ x. x.inflight) e ∙ notify-inflight slab queue target_id payload s)
    other_all s t (registers target_id cb e) o v =
        same_all s t (ap (λ x. x.inflight) e ∙ register_target-inflight slab queue target_id cb s)
    other_all s t (transmits uptime e) o v = rw e (all-transmit uptime s v)
    other_all s t (receives e) o v = same_all s t (
        subst (Holds (λ (t : State slab queue). t.inflight ≡ s.inflight)) e
          (receive-inflight slab queue s))
    other_all s t (sweeps lock uptime e) o v = rw e (
        in_flight-Shrinks test (λ j. true) s.inflight _
          (timeout_handler-Shrinks lock uptime s.inflight v.inflight))
    other_all s t (arrives crc16 buf buf' e) o v = same_all s t (
        subst (Holds (λ (o : List ℕ × State slab queue). o.1.inflight ≡ s.inflight)) e
          (arrives-inflight slab queue crc16 buf s))
