-- ===== src/Icmp/Exchange/Roundtrip.antt =====
-- A command, its handling on the other core, the response and its callback.

use native.Mathlib.Decide.{dec_lt}
use sense_firmware.Prelude.{
  ℕ, ◌<◌, ◌≤◌, ◌≡◌, ◌∙◌, refl, ap, sym, false, Bool-cases, inl, inr, List, [], ◌∷◌, ◌++◌, Option,
  none, some, arith, length, get_elem?, ge→ltb, ◌==◌, if◌then◌else◌, ==_iff, pos, get_elem?-ge,
}
use sense_firmware.Kernel.{MsgQueue, MemSlab}
use sense_firmware.Icmp.Frame.{Frame, max_payload_size, type_command, type_response}
use sense_firmware.Icmp.Bitmap.{max_inflight}
use sense_firmware.Icmp.Inflight.{Entry, Inflight, stamp}
use sense_firmware.Icmp.Inflight.View.{IsValid, view, view-stamp, restamp}
use sense_firmware.Icmp.Inflight.Claim.{pending}
use sense_firmware.Icmp.Server.{State, max_frames, queue_max_items, max_targets, command, respond}
use sense_firmware.Icmp.Server.Send.{Inv, Carries}
use sense_firmware.Icmp.Server.Command.{command-Inv, command-Commanded}
use sense_firmware.Icmp.Thread.{response_callback, target_callback, transmit}
use sense_firmware.Icmp.Thread.Invariant.{transmit-Inv}
use sense_firmware.Icmp.Exchange.Hops.{
  idle_blocks, request_hop, send_frame_queued, response_hop, command-Keeps, transmit-Keeps,
  view-transmit,
}
use sense_firmware.Icmp.Exchange.{deliver, IsIdle}

-- The inflight state before a command, with its pending entry, and after its frame was sent.
module _ (before claimed : Inflight) (v : IsValid claimed) (id uptime : ℕ) (e : Entry)
    (hid : id < max_inflight)
    (entries : (k : ℕ)
      → k < max_inflight
      → view claimed k ≡ (if id == k then some e else view before k)) where
  sent_entry : view (stamp id uptime claimed) id ≡ some (restamp uptime e)
  sent_entry = ground (arith, view-stamp claimed v id uptime id hid hid, entries id hid)

  dropped_entry :
      (k : ℕ)
      → k < max_inflight
      → view before id ≡ none
      → (if id == k then none else view (stamp id uptime claimed) k) ≡ view before k
  dropped_entry k hk fresh = elim (Bool-cases (id == k)) [
    | inl p ↦ rw p (sym (ap (view before) (sym ((==_iff id k).0 p)) ∙ fresh))
    | inr p ↦ rw p (ground (arith, p, view-stamp claimed v id uptime k hid hk, entries k hk))
  ]

module _ (slab : MemSlab Frame max_frames) (queue : MsgQueue Frame queue_max_items) where
  open slab use {num_used, alloc}
  open queue use {items, get_first}

  module _ (crc16 : List ℕ → ℕ)
      (storage : (x : slab.Slab) → length (alloc x).1.payload ≡ max_payload_size) where
    -- The answer that a server with an empty transmit queue and a free block queues.
    response_queued :
        (id target_id : ℕ) (reply : List ℕ) (b : State slab queue)
        → IsIdle slab queue crc16 b
        → length reply ≤ max_payload_size
        → (g : Frame) × Carries type_response id target_id reply g
          × (items (respond slab queue target_id id reply b).1.tx ≡ g ∷ [])
    unfolding respond
    response_queued id target_id reply b v h =
        rw (ge→ltb max_payload_size (length reply) h)
          (send_frame_queued slab queue crc16 storage type_response id target_id reply b v h)

    -- The sender after its round
    sender-IsIdle :
        (uptime : ℕ) (s : State slab queue) (f : Frame)
        → Inv slab queue s
        → items s.tx ≡ f ∷ []
        → items s.rx ≡ []
        → s.submitted ≡ false
        → IsIdle slab queue crc16 (transmit slab queue uptime s).1
    unfolding transmit
    sender-IsIdle uptime s f v i j k =
        let (tx, g, e) = get_first s.tx f [] i in
        let (r, b, _) = transmit-Keeps slab queue uptime s in
        record {
          inv = transmit-Inv slab queue uptime s v;
          tx = rw (transmit, g) e;
          rx = ap items r ∙ j;
          rests = b ∙ k;
        }

    in_table :
        (target_id n : ℕ) (cb : Option ℕ) (xs ys : List (Option ℕ))
        → length xs ≡ n
        → length ys ≡ n
        → get_elem? xs target_id ≡ some cb
        → target_id < length ys
    in_table target_id n cb xs ys h k e = elim (dec_lt target_id (length xs)) [
      | yes p ↦ omega arith
      | no p ↦ absurd (ground (arith, get_elem?-ge xs target_id (omega arith), e))
    ]

    -- Payload and reply have at most the largest size. On two idle servers, of which the second has
    -- a callback for the target and the first a free message id, a command is answered:
    -- `icmp_command` succeeds, one hop runs the target's callback on the payload, and if the second
    -- server then responds under the message id of the frame, the next hop runs the command's
    -- callback on the reply and on the data given with the command. After that the same messages
    -- are in flight as before, whatever the receive buffers held behind the frames. The mutex is
    -- free, nothing is lost on the line, and no sweep runs in between.
    pub command_answered :
        (uptime uptime' : ℕ) (rest rest' : List ℕ) (target_id : ℕ) (payload reply : List ℕ)
        (cb user_data callee j : ℕ) (a b : State slab queue)
        → IsIdle slab queue crc16 a
        → IsIdle slab queue crc16 b
        → length payload ≤ max_payload_size
        → length reply ≤ max_payload_size
        → get_elem? b.targets target_id ≡ some (some callee)
        → j < max_inflight
        → view a.inflight j ≡ none
        → let (ret, a1) = command slab queue (pos 0) target_id payload (some cb) user_data a in
          (ret ≡ pos 0)
          × (id : ℕ) × (a2 b1 : State slab queue) × (deliver slab queue crc16 uptime rest a1 b
              ≡ some (target_callback callee payload, a2, b1))
          × (b2 a3 : State slab queue) × (deliver slab queue crc16 uptime' rest'
                (respond slab queue target_id id reply b1).1
                a2
              ≡ some (response_callback cb reply user_data, b2, a3))
          × ((k : ℕ) → k < max_inflight → view a3.inflight k ≡ view a.inflight k)
    command_answered uptime uptime' rest rest' target_id payload reply cb user_data callee j a b va
          vb h h' t hj free =
        let (ret, id, f, hid, fresh, queued, carries, entries) =
          command-Commanded slab queue storage target_id payload (some cb) user_data a va.inv h
            (omega (arith, idle_blocks slab queue crc16 a va)) j hj free in
        let a1 = (command slab queue (pos 0) target_id payload (some cb) user_data a).1 in
        let v1 = command-Inv slab queue (pos 0) target_id payload (some cb) user_data a va.inv in
        let (k1, k2, k3) = command-Keeps slab queue target_id payload (some cb) user_data a h in
        let waiting = queued ∙ ap (λ l. l ++ f ∷ []) va.tx in
        let a2 = (transmit slab queue uptime a1).1 in
        let v2 = sender-IsIdle uptime a1 f v1 waiting (ap items k1 ∙ va.rx) (k2 ∙ va.rests) in
        let (b1, e1, w1) =
          request_hop slab queue crc16 uptime type_command id target_id callee payload rest f a1 b
            (omega arith) (λ e. omega arith) carries h waiting vb t in
        let (g, answer, queued') = response_queued id target_id reply b1 w1 h' in
        let sent =
          view-transmit slab queue uptime a1 f waiting carries.type_eq
          ∙ ap (λ n. stamp n uptime a1.inflight) carries.msg_id_eq in
        let (b2, a3, e2, after) =
          response_hop slab queue crc16 uptime' id target_id cb reply rest' g
            (restamp uptime (pending (some cb) user_data))
            (respond slab queue target_id id reply b1).1 a2 answer h' queued' v2
            (in_table target_id max_targets (some callee) b.targets a2.targets vb.inv.targets
              v2.inv.targets t)
            hid
            (ap (λ st. view st id) sent
              ∙ sent_entry a.inflight a1.inflight v1.inflight id uptime
                  (pending (some cb) user_data) hid entries)
            refl in
        (
          ret,
          id,
          a2,
          b1,
          e1,
          b2,
          a3,
          e2,
          λ k hk.
              after k hk
              ∙ ap (λ st. if id == k then none else view st k) sent
              ∙ dropped_entry a.inflight a1.inflight v1.inflight id uptime
                  (pending (some cb) user_data) hid entries k hk fresh,
        )
