-- ===== src/Icmp/Thread/Invariant.antt =====
-- The server invariant and the operations of the thread and the work item.
use native.Mathlib.Decide.{dec_lt}
use sense_firmware.Prelude.{
  ℕ, ◌<◌, ◌≡◌, refl, ap, sym, ◌∙◌, ◌⊎◌, true, false, List, [], ◌∷◌, Option, none, some, arith,
  length, length-set, get_elem?, ℤ, is_ok, leb, ◌==◌, Bool-cases, Option-cases, inl, inr,
}
use sense_firmware.Kernel.{MsgQueue, MemSlab}
use sense_firmware.Icmp.Frame.{Frame, type_command}
use sense_firmware.Icmp.Bitmap.{max_inflight, is_bit_set_high}
use sense_firmware.Icmp.Inflight.{Entry, Inflight, drop_entry}
use sense_firmware.Icmp.Inflight.View.{IsValid, view, stamp-IsValid, drop_entry-IsValid}
use sense_firmware.Icmp.Server.{State, max_frames, queue_max_items, max_targets, register_target}
use sense_firmware.Icmp.Server.Send.{Inv, count}
use sense_firmware.Icmp.Thread.{
  Event, Found, entry, no_entry, undefined, find_entry, update_inflight_timestamp, transmit, Others,
  copied_entry, call_copied, dispatch, receive, finish, run_callback, dispatch_handler,
}

-- An entry that the handler finds is in flight under the frame's id.
pub find_entry-entry :
    (f : Frame) (st : Inflight) (e : Entry) (cb : ℕ)
    → IsValid st
    → find_entry f st ≡ entry e cb
    → (f.msg_id < max_inflight) × (view st f.msg_id ≡ some e) × (e.callback ≡ some cb)
unfolding find_entry view
find_entry-entry f st e cb v h = elim (dec_lt f.msg_id max_inflight) [
  | yes p ↦ (p, ground arith, ground arith)
  | no p ↦ absurd (ground (arith, is_bit_set_high st.bitmap f.msg_id v.width))
]

-- A property of the value of an option, where there is one.
abbrev pub Holds {ℓ κ} : {A : Type ℓ} → (A → Type κ) → Option A → Type κ
Holds P none = Unit
Holds P (some a) = P a

module _ (slab : MemSlab Frame max_frames) (queue : MsgQueue Frame queue_max_items) where
  open slab use {num_used, alloc, free, alloc_room, alloc_full, free_used}
  open queue use {items, put, get, put_room, get_empty, get_first}

  -- A queue yields its first item, or is empty.
  get_cases :
      (q : queue.Queue)
      → ((get q ≡ none) × (items q ≡ []))
        ⊎ ((f : Frame) × (q' : queue.Queue) × (get q ≡ some (f, q')) × (items q ≡ f ∷ items q'))
  get_cases q = split (items q) refl
    where
      split :
          (l : List Frame)
          → items q ≡ l
          → ((get q ≡ none) × (items q ≡ []))
            ⊎ ((f : Frame) × (q' : queue.Queue) × (get q ≡ some (f, q')) × (items q ≡ f ∷ items q'))
      split [] e = inl (get_empty q e, e)
      split (f ∷ rest) e =
          let (q', p, r) = get_first q f rest e in inr (f, q', p, e ∙ ap (λ l. f ∷ l) (sym r))

  stamped :
      (f : Frame) (uptime : ℕ) (st : Inflight)
      → IsValid st
      → IsValid (update_inflight_timestamp f uptime st)
  unfolding update_inflight_timestamp
  stamped f uptime st v = elim (Bool-cases (f.type == type_command)) [
    | inl e ↦ rw e (stamp-IsValid st v f.msg_id uptime)
    | inr e ↦ rw e v
  ]

  pub transmit-Inv :
      (uptime : ℕ) (s : State slab queue)
      → Inv slab queue s
      → Inv slab queue (transmit slab queue uptime s).1
  unfolding transmit
  transmit-Inv uptime s v = elim (get_cases s.tx) [
    | inl (e, _) ↦ rw (e, transmit) v
    | inr (f, q', e, p) ↦
        rw (e, transmit)
          (record {
            inflight = stamped f uptime s.inflight v.inflight;
            blocks = omega (arith, v.blocks, free_used s.frames, ap length p);
            limit = omega (arith, v.limit, free_used s.frames);
            sem = v.sem;
            work = v.work;
            targets = v.targets;
          })
  ]

  dispatch-Inv :
      (f : Frame) (rx : queue.Queue) (s : State slab queue)
      → Inv slab queue s
      → items s.rx ≡ f ∷ items rx
      → s.submitted ≡ false
      → Holds (Inv slab queue) (dispatch slab queue f (record s { rx = rx; work_sem = false }))
  unfolding dispatch
  dispatch-Inv f rx s v p idle = elim (Option-cases (get_elem? s.targets f.target)) [
    | inl e ↦ rw (e, dispatch) tt
    | inr (cb, e) ↦
        rw (e, dispatch)
          (record {
            inflight = v.inflight;
            blocks = omega (arith, v.blocks, ap length p, ap count idle);
            limit = v.limit;
            sem = refl;
            work = λ _. (f, refl);
            targets = v.targets;
          })
  ]

  receive_busy : (s : State slab queue) → s.work_sem ≡ false → receive slab queue s ≡ some s
  unfolding receive
  receive_busy s e = rw (e, receive)

  pub receive-Inv :
      (s : State slab queue) → Inv slab queue s → Holds (Inv slab queue) (receive slab queue s)
  unfolding receive
  receive-Inv s v = elim (Bool-cases s.work_sem) [
    | inr e ↦ rw (receive_busy s e) v
    | inl e ↦ elim (get_cases s.rx) [
      | inl (g, _) ↦ rw (e, g, receive) v
      | inr (f, q', g, p) ↦ rw (e, g, receive) (dispatch-Inv f q' s v p (ground (arith, v.sem)))
    ]
  ]

  finish-Inv :
      (s : State slab queue) (st : Inflight)
      → Inv slab queue s
      → s.submitted ≡ true
      → IsValid st
      → Inv slab queue (finish slab queue (record s { inflight = st }))
  finish-Inv s st v busy w = record {
    inflight = w;
    blocks = omega (arith, v.blocks, free_used s.frames, ap count busy);
    limit = omega (arith, v.limit, free_used s.frames);
    sem = refl;
    work = λ h. cc;
    targets = v.targets;
  }

  -- Others that keep the inflight state valid
  abbrev pub Keeps : Others → Type 0
  Keeps others =
      ((st : Inflight) → IsValid st → IsValid (others.before_copy st))
      × ((st : Inflight) → IsValid st → IsValid (others.during_call st))

  call_copied-Inv :
      (r : Found) (during : Inflight → Inflight) (f : Frame) (s : State slab queue)
      → f.msg_id < max_inflight
      → ((st : Inflight) → IsValid st → IsValid (during st))
      → Inv slab queue s
      → s.submitted ≡ true
      → Holds
          (λ (o : Event × State slab queue). Inv slab queue o.1)
          (call_copied slab queue r during f s)
  unfolding call_copied
  call_copied-Inv undefined during f s h k v busy = tt
  call_copied-Inv no_entry during f s h k v busy = tt
  call_copied-Inv (entry x cb) during f s h k v busy =
      finish-Inv s (drop_entry f.msg_id (during s.inflight)) v busy
        (drop_entry-IsValid (during s.inflight) (k s.inflight v.inflight) f.msg_id h)

  run_callback-Inv :
      (r : Found) (others : Others) (f : Frame) (s : State slab queue)
      → find_entry f s.inflight ≡ r
      → Keeps others
      → Inv slab queue s
      → s.submitted ≡ true
      → Holds
          (λ (o : Event × State slab queue). Inv slab queue o.1)
          (run_callback slab queue r others f s)
  unfolding run_callback
  run_callback-Inv undefined others f s e k v busy = tt
  run_callback-Inv no_entry others f s e k v busy = finish-Inv s s.inflight v busy v.inflight
  run_callback-Inv (entry x cb) others f s e k v busy =
      call_copied-Inv (copied_entry f (others.before_copy s.inflight)) others.during_call f
        (record s { inflight = others.before_copy s.inflight })
        (find_entry-entry f s.inflight x cb v.inflight e).0 k.1
        (record {
          inflight = k.0 s.inflight v.inflight;
          blocks = v.blocks;
          limit = v.limit;
          sem = v.sem;
          work = v.work;
          targets = v.targets;
        })
        busy

  pub dispatch_handler-Inv :
      (lock : ℤ) (during : Others) (s : State slab queue)
      → Keeps during
      → Inv slab queue s
      → s.submitted ≡ true
      → Holds
          (λ (o : Event × State slab queue). Inv slab queue o.1)
          (dispatch_handler slab queue lock during s)
  unfolding dispatch_handler
  dispatch_handler-Inv lock during s k v busy = handled (v.work busy)
    where
      handled :
          (f : Frame) × (s.work_ctx.frame ≡ some f)
          → Holds
              (λ (o : Event × State slab queue). Inv slab queue o.1)
              (dispatch_handler slab queue lock during s)
      handled (f, e) = elim (Bool-cases (is_ok lock)) [
        | inl o ↦
            rw (e, o, dispatch_handler)
              (run_callback-Inv (find_entry f s.inflight) during f s refl k v busy)
        | inr o ↦ rw (e, o, dispatch_handler) (finish-Inv s s.inflight v busy v.inflight)
      ]

  pub register_target-Inv :
      (target_id : ℕ) (cb : Option ℕ) (s : State slab queue)
      → Inv slab queue s
      → Inv slab queue (register_target slab queue target_id cb s).1
  unfolding register_target
  register_target-Inv target_id none s v = v
  register_target-Inv target_id (some cb) s v = elim (Bool-cases (leb max_targets target_id)) [
    | inl e ↦ rw e v
    | inr e ↦ rw e (record {
      inflight = v.inflight;
      blocks = v.blocks;
      limit = v.limit;
      sem = v.sem;
      work = v.work;
      targets = length-set s.targets target_id (some cb) ∙ v.targets;
    })
  ]
