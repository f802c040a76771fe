-- ===== src/Icmp/Thread/Untouched.antt =====
-- The operations of the server that leave the messages in flight as they are.
use sense_firmware.Prelude.{
  ℕ, ◌≡◌, refl, List, Option, none, some, arith, is_ok, Bool-cases, inl, inr, ltb, leb, length,
}
use sense_firmware.Kernel.{MsgQueue, MemSlab}
use sense_firmware.Icmp.Frame.{Frame, max_payload_size, type_response, type_notify}
use sense_firmware.Icmp.Server.{
  State, max_frames, queue_max_items, max_targets, send_frame, tx_enqueue, respond, notify,
  notify_id, register_target,
}
use sense_firmware.Icmp.Thread.{dispatch, receive, uart_rx_released, receive_unpacked}
use sense_firmware.Icmp.Thread.Invariant.{Holds}

module _ (slab : MemSlab Frame max_frames) (queue : MsgQueue Frame queue_max_items) where
  pub send_frame-inflight :
      (type msg_id target_id : ℕ) (payload : List ℕ) (s : State slab queue)
      → (send_frame slab queue type msg_id target_id payload s).1.inflight ≡ s.inflight
  unfolding send_frame tx_enqueue
  send_frame-inflight type msg_id target_id payload s =
      elim (Bool-cases (is_ok (slab.alloc s.frames).0)) [ inl e ↦ rw e refl | inr e ↦ rw e refl ]

  pub receive-inflight :
      (s : State slab queue)
      → Holds (λ (t : State slab queue). t.inflight ≡ s.inflight) (receive slab queue s)
  unfolding receive dispatch
  receive-inflight s = ground arith

  pub arrives-inflight :
      (crc16 : List ℕ → ℕ) (buf : List ℕ) (s : State slab queue)
      → Holds
          (λ (o : List ℕ × State slab queue). o.1.inflight ≡ s.inflight)
          (uart_rx_released slab queue crc16 buf s)
  unfolding uart_rx_released receive_unpacked
  arrives-inflight crc16 buf s = ground arith

  pub respond-inflight :
      (target_id msg_id : ℕ) (payload : List ℕ) (s : State slab queue)
      → (respond slab queue target_id msg_id payload s).1.inflight ≡ s.inflight
  unfolding respond
  respond-inflight target_id msg_id payload s =
      elim (Bool-cases (ltb max_payload_size (length payload))) [
        | inl e ↦ rw e refl
        | inr e ↦ rw e (send_frame-inflight type_response msg_id target_id payload s)
      ]

  pub notify-inflight :
      (target_id : ℕ) (payload : List ℕ) (s : State slab queue)
      → (notify slab queue target_id payload s).1.inflight ≡ s.inflight
  unfolding notify
  notify-inflight target_id payload s = elim (Bool-cases (ltb max_payload_size (length payload))) [
    | inl e ↦ rw e refl
    | inr e ↦ rw e (send_frame-inflight type_notify notify_id target_id payload s)
  ]

  pub register_target-inflight :
      (target_id : ℕ) (cb : Option ℕ) (s : State slab queue)
      → (register_target slab queue target_id cb s).1.inflight ≡ s.inflight
  unfolding register_target
  register_target-inflight target_id none s = refl
  register_target-inflight target_id (some cb) s = elim (Bool-cases (leb max_targets target_id)) [
    | inl e ↦ rw e refl
    | inr e ↦ rw e refl
  ]
