-- ===== src/Icmp/Server/Command.antt =====
-- The public API of the server: `icmp_command`, `icmp_respond`, `icmp_notify`.
use sense_firmware.Prelude.{
  ℕ, ◌≤◌, ◌<◌, ◌≡◌, refl, List, [], ◌∷◌, ◌++◌, Option, none, some, length, ge→ltb, ℤ, pos, negsuc,
  is_ok, if◌then◌else◌, ltb, ◌==◌, Bool-cases, inl, inr,
}
use sense_firmware.Kernel.{MsgQueue, MemSlab}
use sense_firmware.Icmp.Frame.{Frame, max_payload_size, type_command, type_response, type_notify}
use sense_firmware.Icmp.Bitmap.{max_inflight}
use sense_firmware.Icmp.Inflight.{Inflight, claim_id}
use sense_firmware.Icmp.Inflight.View.{IsValid, view}
use sense_firmware.Icmp.Inflight.Claim.{pending, Claimed, claim_id-Claimed}
use sense_firmware.Icmp.Server.{
  State, max_frames, queue_max_items, fill_frame, send_claimed, command, respond, notify, notify_id,
}
use sense_firmware.Icmp.Server.Send.{
  Inv, Carries, send_frame_room, items-sent, send_frame-Inv, fill_frame-Carries,
}

module _ (slab : MemSlab Frame max_frames) (queue : MsgQueue Frame queue_max_items) where
  open slab use {num_used, alloc}
  open queue use {items}

  Inv-claimed :
      (s : State slab queue) (st : Inflight)
      → Inv slab queue s
      → IsValid st
      → Inv slab queue (record s { inflight = st })
  Inv-claimed s st v w = record {
    inflight = w;
    blocks = v.blocks;
    limit = v.limit;
    sem = v.sem;
    work = v.work;
    targets = v.targets;
  }

  send_claimed-Inv :
      (target_id : ℕ) (payload : List ℕ) (cb : Option ℕ) (user_data : ℕ) (s : State slab queue)
      (r : ℤ × Inflight)
      → Inv slab queue s
      → Claimed cb user_data s.inflight r
      → Inv slab queue (send_claimed slab queue target_id payload s r).1
  unfolding send_claimed
  send_claimed-Inv target_id payload cb user_data s (negsuc n, st) v c = v
  send_claimed-Inv target_id payload cb user_data s (pos id, st) v c =
      send_frame-Inv slab queue (record s { inflight = st }) (Inv-claimed s st v c.4) type_command
        id target_id payload

  pub command-Inv :
      (lock : ℤ) (target_id : ℕ) (payload : List ℕ) (cb : Option ℕ) (user_data : ℕ)
      (s : State slab queue)
      → Inv slab queue s
      → Inv slab queue (command slab queue lock target_id payload cb user_data s).1
  unfolding command
  command-Inv lock target_id payload cb user_data s v =
      elim (Bool-cases (ltb max_payload_size (length payload))) [
        | inl e ↦ rw e v
        | inr e ↦ rw e (elim (Bool-cases (is_ok lock)) [
          | inl o ↦ rw o (
              send_claimed-Inv target_id payload cb user_data s (claim_id cb user_data s.inflight) v
                (claim_id-Claimed cb user_data s.inflight v.inflight))
          | inr o ↦ rw o v
        ])
      ]

  pub respond-Inv :
      (target_id msg_id : ℕ) (payload : List ℕ) (s : State slab queue)
      → Inv slab queue s
      → Inv slab queue (respond slab queue target_id msg_id payload s).1
  unfolding respond
  respond-Inv target_id msg_id payload s v =
      elim (Bool-cases (ltb max_payload_size (length payload))) [
        | inl e ↦ rw e v
        | inr e ↦ rw e (send_frame-Inv slab queue s v type_response msg_id target_id payload)
      ]

  pub notify-Inv :
      (target_id : ℕ) (payload : List ℕ) (s : State slab queue)
      → Inv slab queue s
      → Inv slab queue (notify slab queue target_id payload s).1
  unfolding notify
  notify-Inv target_id payload s v = elim (Bool-cases (ltb max_payload_size (length payload))) [
    | inl e ↦ rw e v
    | inr e ↦ rw e (send_frame-Inv slab queue s v type_notify notify_id target_id payload)
  ]

  -- What a call that sends a command leaves: a queued frame that carries it, and a pending entry.
  abbrev pub Commanded :
      ℕ → List ℕ → Option ℕ → ℕ → State slab queue → ℤ × State slab queue → Type 0
  Commanded target_id payload cb user_data s (ret, s') =
      (ret ≡ pos 0)
      × (id : ℕ) × (f : Frame) × (id < max_inflight)
      × (view s.inflight id ≡ none)
      × (items s'.tx ≡ items s.tx ++ f ∷ [])
      × Carries type_command id target_id payload f
      × ((j : ℕ)
          → j < max_inflight
          → view s'.inflight j
            ≡ (if id == j then some (pending cb user_data) else view s.inflight j))

  module _ (storage : (x : slab.Slab) → length (alloc x).1.payload ≡ max_payload_size) where
    commanded :
        (target_id : ℕ) (payload : List ℕ) (cb : Option ℕ) (user_data : ℕ) (s : State slab queue)
        (r : ℤ × Inflight)
        → Inv slab queue s
        → Claimed cb user_data s.inflight r
        → length payload ≤ max_payload_size
        → num_used s.frames < max_frames
        → (j : ℕ) → j < max_inflight
        → view s.inflight j ≡ none
        → Commanded target_id payload cb user_data s (send_claimed slab queue target_id payload s r)
    unfolding send_claimed
    commanded target_id payload cb user_data s (negsuc n, st) v c h u j hj free =
        absurd (c.1 j hj free)
    commanded target_id payload cb user_data s (pos id, st) v c h u j hj free =
        rw
          (send_frame_room slab queue (record s { inflight = st }) (Inv-claimed s st v c.4)
            type_command id target_id payload u)
          (
            refl,
            id,
            fill_frame slab queue (alloc s.frames).1 type_command id target_id payload,
            c.0,
            c.1,
            items-sent slab queue (record s { inflight = st }) (Inv-claimed s st v c.4) type_command
                id target_id payload u,
            fill_frame-Carries slab queue (alloc s.frames).1 type_command id target_id payload h
                (storage s.frames),
            c.3,
          )

    -- In a state with the invariant, with a free block and a free message id, the mutex taken and a
    -- payload of at most the largest size, `icmp_command` succeeds: a COMMAND frame with the
    -- caller's target and payload is queued last for transmission under an id that was free, and the
    -- inflight table gains exactly the pending entry of that id.
    pub command-Commanded :
        (target_id : ℕ) (payload : List ℕ) (cb : Option ℕ) (user_data : ℕ) (s : State slab queue)
        → Inv slab queue s
        → length payload ≤ max_payload_size
        → num_used s.frames < max_frames
        → (j : ℕ) → j < max_inflight
        → view s.inflight j ≡ none
        → Commanded target_id payload cb user_data s
            (command slab queue (pos 0) target_id payload cb user_data s)
    unfolding command
    command-Commanded target_id payload cb user_data s v h u j hj free =
        rw (ge→ltb max_payload_size (length payload) h) (
          commanded target_id payload cb user_data s (claim_id cb user_data s.inflight) v
            (claim_id-Claimed cb user_data s.inflight v.inflight) h u j hj free)
