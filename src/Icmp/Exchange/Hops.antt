-- ===== src/Icmp/Exchange/Hops.antt =====
-- What a hop does with a frame for a target and with a RESPONSE frame.

use sense_firmware.Prelude.{
  ℕ, ◌<◌, ◌≤◌, ◌≡◌, ◌≢◌, ◌++◌, ◌∙◌, refl, ap, sym, subst, Bool-cases, inl, inr, List, [], ◌∷◌,
  Option, none, some, arith, length, take, get_elem?, get_elem?-lt, ge→ltb, ◌==◌, if◌then◌else◌, ℤ,
  pos, negsuc, is_ok, Option-cases, memcpy,
}
use sense_firmware.Kernel.{MsgQueue, MemSlab}
use sense_firmware.Icmp.Frame.{
  Frame, zeroed, max_payload_size, type_command, type_response, type_invalid,
}
use sense_firmware.Icmp.Frame.Wire
use sense_firmware.Icmp.Frame.Unpack.{received}
use sense_firmware.Icmp.Bitmap.{max_inflight}
use sense_firmware.Icmp.Inflight.{Entry, Inflight, stamp, claim_id}
use sense_firmware.Icmp.Inflight.View.{view}
use sense_firmware.Icmp.Server.{
  State, max_frames, queue_max_items, fill_frame, send_frame, send_claimed, command,
}
use sense_firmware.Icmp.Server.Send.{Carries, used, send_frame_room, items-sent, fill_frame-Carries}
use sense_firmware.Icmp.Thread.{
  alone, response_callback, target_callback, used_payload, finish, transmit,
  update_inflight_timestamp,
}
use sense_firmware.Icmp.Thread.Handler.{dispatch_handler_response, dispatch_to_target}
use sense_firmware.Icmp.Exchange.{handled_lem, deliver, IsIdle, arrived, hop}

Carries-IsValid :
    (type msg_id target_id : ℕ) (payload : List ℕ) (f : Frame)
    → Carries type msg_id target_id payload f
    → type < type_invalid
    → length payload ≤ max_payload_size
    → Wire.IsValid f
Carries-IsValid type msg_id target_id payload f c h k = record {
  known_type = ground (arith, c.type_eq);
  fits = ground (arith, c.len_eq);
  storage = c.storage;
}

-- What a callback sees of a received frame.
used_payload-received :
    (type msg_id target_id : ℕ) (payload : List ℕ) (f : Frame)
    → Carries type msg_id target_id payload f
    → length payload ≤ max_payload_size
    → used_payload (received f) ≡ payload
used_payload-received type msg_id target_id payload f c h =
    ap (λ p. take f.len (memcpy zeroed.payload 0 p)) c.payload_eq
    ∙ ap (λ n. take n (memcpy zeroed.payload 0 payload)) c.len_eq
    ∙ used zeroed.payload payload h

module _ (slab : MemSlab Frame max_frames) (queue : MsgQueue Frame queue_max_items) where
  open slab use {num_used, alloc, alloc_room, free, free_used}
  open queue use {items, get_first}

  -- What sending does not touch.
  abbrev pub Keeps : State slab queue → State slab queue → Type 0
  Keeps s t = (t.rx ≡ s.rx) × (t.submitted ≡ s.submitted) × (t.targets ≡ s.targets)

  send_frame-Keeps :
      (type msg_id target_id : ℕ) (payload : List ℕ) (s : State slab queue)
      → Keeps s (send_frame slab queue type msg_id target_id payload s).1
  unfolding send_frame
  send_frame-Keeps type msg_id target_id payload s = elim (Bool-cases (is_ok (alloc s.frames).0)) [
    | inl e ↦ (rw e refl, rw e refl, rw e refl)
    | inr e ↦ (rw e refl, rw e refl, rw e refl)
  ]

  pub command-Keeps :
      (target_id : ℕ) (payload : List ℕ) (cb : Option ℕ) (user_data : ℕ) (s : State slab queue)
      → length payload ≤ max_payload_size
      → Keeps s (command slab queue (pos 0) target_id payload cb user_data s).1
  unfolding command send_claimed
  command-Keeps target_id payload cb user_data s h =
      rw (ge→ltb max_payload_size (length payload) h) (kept (claim_id cb user_data s.inflight))
    where
      kept : (r : ℤ × Inflight) → Keeps s (send_claimed slab queue target_id payload s r).1
      kept (negsuc n, st) = (refl, refl, refl)
      kept (pos id, st) =
          send_frame-Keeps type_command id target_id payload (record s { inflight = st })

  pub transmit-Keeps :
      (uptime : ℕ) (s : State slab queue) → Keeps s (transmit slab queue uptime s).1
  unfolding transmit
  transmit-Keeps uptime s = elim (Option-cases (queue.get s.tx)) [
    | inl e ↦ rw (transmit, e) (refl, refl, refl)
    | inr (_, e) ↦ rw (transmit, e) (refl, refl, refl)
  ]

  pub view-transmit :
      (uptime : ℕ) (s : State slab queue) (f : Frame)
      → items s.tx ≡ f ∷ []
      → f.type ≡ type_command
      → (transmit slab queue uptime s).1.inflight ≡ stamp f.msg_id uptime s.inflight
  unfolding transmit update_inflight_timestamp
  view-transmit uptime s f i c = let (tx, g, _) = get_first s.tx f [] i in ground (arith, g)

  module _ (crc16 : List ℕ → ℕ) where
    pub idle_blocks : (s : State slab queue) → IsIdle slab queue crc16 s → num_used s.frames ≡ 0
    idle_blocks s v = ground (arith, v.inv.blocks, v.tx, v.rx, v.rests)

    -- The frame that an idle server queues.
    pub send_frame_queued :
        (storage : (x : slab.Slab) → length (alloc x).1.payload ≡ max_payload_size)
        (type id target_id : ℕ) (payload : List ℕ) (b : State slab queue)
        → IsIdle slab queue crc16 b
        → length payload ≤ max_payload_size
        → (g : Frame) × Carries type id target_id payload g
          × (items (send_frame slab queue type id target_id payload b).1.tx ≡ g ∷ [])
    send_frame_queued storage type id target_id payload b v h = (
      fill_frame slab queue (alloc b.frames).1 type id target_id payload,
      fill_frame-Carries slab queue (alloc b.frames).1 type id target_id payload h
          (storage b.frames),
      rw
            (send_frame_room slab queue b v.inv type id target_id payload
              (omega (arith, idle_blocks b v)))
            (items-sent slab queue b v.inv type id target_id payload
              (omega (arith, idle_blocks b v)))
          ∙ ap (λ l. l ++ fill_frame slab queue (alloc b.frames).1 type id target_id payload ∷ [])
              v.tx,
    )

    -- The receiver after the target's callback ran
    served :
        (b : State slab queue) (f : Frame) (rx : queue.Queue) (cb : Option ℕ)
        → IsIdle slab queue crc16 b
        → items rx ≡ []
        → IsIdle slab queue crc16 (finish slab queue (arrived slab queue crc16 b f rx cb))
    served b f rx cb v i = record {
      inv = record {
        inflight = v.inv.inflight;
        blocks = omega (
          arith,
          free_used (alloc b.frames).2,
          alloc_room b.frames (omega (arith, idle_blocks b v)),
          idle_blocks b v,
          ap length v.tx,
          ap length i,
        );
        limit = omega (
          arith,
          free_used (alloc b.frames).2,
          alloc_room b.frames (omega (arith, idle_blocks b v)),
          idle_blocks b v,
        );
        sem = refl;
        work = λ e. cc;
        targets = v.inv.targets;
      };
      tx = v.tx;
      rx = i;
      rests = refl;
    }

    -- A frame that asks for the callback of its target, in one hop
    pub request_hop :
        (uptime type id target_id callee : ℕ) (payload rest : List ℕ) (f : Frame)
        (a b : State slab queue)
        → type < type_invalid
        → type ≢ type_response
        → Carries type id target_id payload f
        → length payload ≤ max_payload_size
        → items a.tx ≡ f ∷ []
        → IsIdle slab queue crc16 b
        → get_elem? b.targets target_id ≡ some (some callee)
        → (b' : State slab queue) × (deliver slab queue crc16 uptime rest a b
            ≡ some (target_callback callee payload, (transmit slab queue uptime a).1, b'))
          × IsIdle slab queue crc16 b'
    request_hop uptime type id target_id callee payload rest f a b known other c h i v t =
        let (rx, j, e) =
          hop slab queue crc16 uptime f rest a b (some callee)
            (Carries-IsValid type id target_id payload f c known h) i v
            (ap (get_elem? b.targets) c.target_eq ∙ t) in
        let ran =
          dispatch_to_target slab queue alone (arrived slab queue crc16 b f rx (some callee))
            (received f) refl v.inv.inflight (λ q. absurd (other (sym c.type_eq ∙ q))) in
        (
          finish slab queue (arrived slab queue crc16 b f rx (some callee)),
          e
              ∙ handled_lem slab queue (transmit slab queue uptime a).1 _ _ _ ran
              ∙ ap
                  (λ p. some (
                    target_callback callee p,
                    (transmit slab queue uptime a).1,
                    finish slab queue (arrived slab queue crc16 b f rx (some callee)),
                  ))
                  (used_payload-received type id target_id payload f c h),
          served b f rx (some callee) v j,
        )

    -- A RESPONSE frame in one hop, to a message in flight
    pub response_hop :
        (uptime id target_id cb : ℕ) (payload rest : List ℕ) (g : Frame) (x : Entry)
        (b a : State slab queue)
        → Carries type_response id target_id payload g
        → length payload ≤ max_payload_size
        → items b.tx ≡ g ∷ []
        → IsIdle slab queue crc16 a
        → target_id < length a.targets
        → id < max_inflight
        → view a.inflight id ≡ some x
        → x.callback ≡ some cb
        → (b' a' : State slab queue) × (deliver slab queue crc16 uptime rest b a
            ≡ some (response_callback cb payload x.user_data, b', a'))
          × ((k : ℕ)
              → k < max_inflight
              → view a'.inflight k ≡ (if id == k then none else view a.inflight k))
    response_hop uptime id target_id cb payload rest g x b a c h i v t l at y =
        let (reg, r) = get_elem?-lt a.targets target_id t in
        let (rx, j, e) =
          hop slab queue crc16 uptime g rest b a reg
            (Carries-IsValid type_response id target_id payload g c (omega arith) h) i v
            (ap (get_elem? a.targets) c.target_eq ∙ r) in
        let (a', ran, freed, _, _) =
          dispatch_handler_response slab queue alone (arrived slab queue crc16 a g rx reg)
            (received g) x cb refl c.type_eq (subst (λ n. n < max_inflight) (sym c.msg_id_eq) l)
            (ap (view a.inflight) c.msg_id_eq ∙ at) y (ap (view a.inflight) c.msg_id_eq ∙ at)
            v.inv.inflight in
        (
          (transmit slab queue uptime b).1,
          a',
          e
              ∙ handled_lem slab queue (transmit slab queue uptime b).1 _ _ _ ran
              ∙ ap
                  (λ p.
                    some (response_callback cb p x.user_data, (transmit slab queue uptime b).1, a'))
                  (used_payload-received type_response id target_id payload g c h),
          λ k hk. freed k hk ∙ ap (λ n. if n == k then none else view a.inflight k) c.msg_id_eq,
        )
