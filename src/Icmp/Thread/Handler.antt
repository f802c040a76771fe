-- ===== src/Icmp/Thread/Handler.antt =====
-- Which callback `icmp_dispatch_handler` runs, and what it leaves of the inflight table.
use native.Mathlib.Decide.{dec_lt}
use sense_firmware.Prelude.{
  ℕ, ◌≤◌, ◌<◌, ◌≡◌, refl, true, Option, none, some, arith, get_elem?-lt, pos, if◌then◌else◌, ◌==◌,
  Bool-cases, inl, inr, ◌⊎◌, false, take,
}
use sense_firmware.Kernel.{MsgQueue, MemSlab}
use sense_firmware.Icmp.Frame.{Frame, type_response}
use sense_firmware.Icmp.Bitmap.{max_inflight, is_bit_set_high}
use sense_firmware.Icmp.Inflight.{Entry, Inflight, drop_entry}
use sense_firmware.Icmp.Inflight.View.{IsValid, view, view-drop_entry}
use sense_firmware.Icmp.Server.{State, max_frames, queue_max_items}
use sense_firmware.Icmp.Thread.{
  Others, copied_entry, call_copied, entry, no_entry, find_entry, response_callback, used_payload,
  target_event, target_callback, no_callback, Event, finish, dispatch_handler,
}

-- The response callback of a frame: that of the entry in flight under its message id.
abbrev pub callback_of : Option Entry → Option ℕ
callback_of none = none
callback_of (some e) = e.callback

find_entry_response :
    (f : Frame) (st : Inflight) (e : Entry) (cb : ℕ)
    → f.type ≡ type_response
    → f.msg_id < max_inflight
    → view st f.msg_id ≡ some e
    → e.callback ≡ some cb
    → find_entry f st ≡ entry e cb
unfolding find_entry view
find_entry_response f st e cb t h at c = ground arith

copied_entry_kept :
    (f : Frame) (st : Inflight) (e : Entry) (cb : ℕ)
    → view st f.msg_id ≡ some e
    → e.callback ≡ some cb
    → copied_entry f st ≡ entry e cb
unfolding copied_entry view
copied_entry_kept f st e cb at c = ground arith

-- A RESPONSE with no response callback: its id is in the bitmap's reach, and no callback is stored.
abbrev pub NoResponse : Frame → Inflight → Type 0
NoResponse f st =
    (f.msg_id < 32) × (f.msg_id < max_inflight → callback_of (view st f.msg_id) ≡ none)

find_entry_none :
    (f : Frame) (st : Inflight)
    → IsValid st
    → (f.type ≡ type_response → NoResponse f st)
    → find_entry f st ≡ no_entry
unfolding find_entry view
find_entry_none f st v h = elim (Bool-cases (f.type == type_response)) [
  | inr t ↦ rw t
  | inl t ↦ response (ground arith) (h (ground arith))
]
  where
    response : f.type ≡ type_response → NoResponse f st → find_entry f st ≡ no_entry
    response t q = elim (dec_lt f.msg_id max_inflight) [
      | no p ↦ ground (arith, q.0, is_bit_set_high st.bitmap f.msg_id v.width)
      | yes p ↦
          let (e, at) = get_elem?-lt st.table f.msg_id (omega (arith, v.size)) in
          ground (arith, at, q.0, q.1 p)
    ]

module _ (slab : MemSlab Frame max_frames) (queue : MsgQueue Frame queue_max_items) where
  -- With the mutex taken, a RESPONSE whose message id is in flight with a callback runs that
  -- callback on the frame's payload and the data given with the command, if that entry is still
  -- there when it is copied. If what happens to the inflight state until the callback returned
  -- keeps it valid, then that id is free when the handler ends, every other entry is as it was left
  -- meanwhile, the frame is freed and the semaphore is given.
  pub dispatch_handler_response :
      (others : Others) (s : State slab queue) (f : Frame) (e : Entry) (cb : ℕ)
      → s.work_ctx.frame ≡ some f
      → f.type ≡ type_response
      → f.msg_id < max_inflight
      → view s.inflight f.msg_id ≡ some e
      → e.callback ≡ some cb
      → let st = others.before_copy s.inflight in
        view st f.msg_id ≡ some e
        → IsValid (others.during_call st)
        → (t : State slab queue) × (dispatch_handler slab queue (pos 0) others s
            ≡ some (response_callback cb (used_payload f) e.user_data, t))
          × ((j : ℕ)
              → j < max_inflight
              → view t.inflight j
                ≡ (if f.msg_id == j then none else view (others.during_call st) j))
          × (t.frames ≡ slab.free s.frames)
          × (t.work_sem ≡ true)
  unfolding dispatch_handler call_copied
  dispatch_handler_response others s f e cb h t p at c kept v =
      let st = others.during_call (others.before_copy s.inflight) in
      (
        finish slab queue (record s { inflight = drop_entry f.msg_id st }),
        ground (
          arith,
          find_entry_response f s.inflight e cb,
          copied_entry_kept f (others.before_copy s.inflight) e cb kept c,
        ),
        (λ j hj. view-drop_entry st v f.msg_id j p hj),
        refl,
        refl,
      )

  dispatch_no_entry :
      (during : Others) (s : State slab queue) (f : Frame)
      → s.work_ctx.frame ≡ some f
      → find_entry f s.inflight ≡ no_entry
      → dispatch_handler slab queue (pos 0) during s
        ≡ some (target_event f s.work_ctx.icmp_cb, finish slab queue s)
  unfolding dispatch_handler
  dispatch_no_entry during s f h e = ground arith

  pub dispatch_to_target :
      (during : Others) (s : State slab queue) (f : Frame)
      → s.work_ctx.frame ≡ some f
      → IsValid s.inflight
      → (f.type ≡ type_response → NoResponse f s.inflight)
      → dispatch_handler slab queue (pos 0) during s
        ≡ some (target_event f s.work_ctx.icmp_cb, finish slab queue s)
  dispatch_to_target during s f h v q =
      dispatch_no_entry during s f h (find_entry_none f s.inflight v q)

  -- The call of the callback of a target on the used part of the payload, if there is a callback.
  abbrev pub RunsTarget : Frame → Option ℕ → Event → Type 0
  RunsTarget f icmp_cb event =
      ((cb : ℕ) × (icmp_cb ≡ some cb) × (event ≡ target_callback cb (take f.len f.payload)))
      ⊎ ((icmp_cb ≡ none) × (event ≡ no_callback))

  -- With the mutex taken and a valid inflight state, any frame but a RESPONSE that has a response
  -- callback or an id of 32 or more runs the callback that its target had when it was dispatched on the
  -- used part of the payload, if there was one, and nothing else. The frame is freed, the semaphore
  -- given and the work item at rest; the inflight table, both queues and the targets are left alone.
  pub dispatch_handler_default :
      (during : Others) (s : State slab queue) (f : Frame)
      → s.work_ctx.frame ≡ some f
      → IsValid s.inflight
      → (f.type ≡ type_response → NoResponse f s.inflight)
      → (event : Event) × (t : State slab queue) × (dispatch_handler slab queue (pos 0) during s
          ≡ some (event, t))
        × RunsTarget f s.work_ctx.icmp_cb event
        × (t.frames ≡ slab.free s.frames)
        × (t.work_sem ≡ true)
        × (t.submitted ≡ false)
        × (t.inflight ≡ s.inflight)
        × (t.tx ≡ s.tx)
        × (t.rx ≡ s.rx)
        × (t.targets ≡ s.targets)
  dispatch_handler_default during s f h v q = (
    target_event f s.work_ctx.icmp_cb,
    finish slab queue s,
    dispatch_to_target during s f h v q,
    runs s.work_ctx.icmp_cb,
    refl,
    refl,
    refl,
    refl,
    refl,
    refl,
    refl,
  )
    where
      runs : (icmp_cb : Option ℕ) → RunsTarget f icmp_cb (target_event f icmp_cb)
      runs none = inr (refl, refl)
      runs (some cb) = inl (cb, refl, refl)

  -- With the mutex taken, a RESPONSE with a message id of 32 or more makes the handler shift by the
  -- width of the type or more, whatever is in flight.
  pub dispatch_handler_bad_shift :
      (during : Others) (s : State slab queue) (f : Frame)
      → s.work_ctx.frame ≡ some f
      → f.type ≡ type_response
      → 32 ≤ f.msg_id
      → dispatch_handler slab queue (pos 0) during s ≡ none
  unfolding dispatch_handler
  dispatch_handler_bad_shift during s f h t p = ground arith
