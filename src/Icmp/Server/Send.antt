-- ===== src/Icmp/Server/Send.antt =====
-- Sending: what `icmp_send_frame` does with the slab and the transmit queue.
use native.Mathlib.Decide.{dec_lt}
use sense_firmware.Prelude.{
  ℕ, ◌+◌, ◌%◌, ◌≤◌, ◌<◌, ◌≡◌, refl, ap, ◌∙◌, Bool, true, false, List, [], ◌∷◌, ◌++◌, some, arith,
  length, take, drop, length-append, take-append, memcpy_append, length-memcpy, memcpy, pos, enomem,
  if◌then◌else◌,
}
use sense_firmware.Kernel.{MsgQueue, MemSlab}
use sense_firmware.Icmp.Frame.{Frame, max_payload_size}
use sense_firmware.Icmp.Inflight.View.{IsValid}
use sense_firmware.Icmp.Server.{
  State, max_frames, queue_max_items, max_targets, fill_frame, send_frame,
}

abbrev pub count : Bool → ℕ
count true = 1
count false = 0

module _ (slab : MemSlab Frame max_frames) (queue : MsgQueue Frame queue_max_items) where
  open slab use {num_used, alloc, alloc_room, alloc_full}
  open queue use {items, put, put_room}

  -- Each block in use is held by one queue or by the work item, and the semaphore is free exactly
  -- when no work item waits.
  pub record Inv (s : State slab queue) : Type 0 where
    pub inflight : IsValid s.inflight
    pub blocks : num_used s.frames ≡ length (items s.tx) + length (items s.rx) + count s.submitted
    pub limit : num_used s.frames ≤ max_frames
    pub sem : s.work_sem ≡ (if s.submitted then false else true)
    pub work : s.submitted ≡ true → (f : Frame) × (s.work_ctx.frame ≡ some f)
    pub targets : length s.targets ≡ max_targets

  module _ (s : State slab queue) (v : Inv s) (type msg_id target_id : ℕ) (payload : List ℕ) where
    abbrev block : Frame
    block = (alloc s.frames).1

    abbrev new_frame : Frame
    new_frame = fill_frame slab queue block type msg_id target_id payload

    -- The state after a frame was queued.
    abbrev sent : State slab queue
    sent = record s { frames = (alloc s.frames).2; tx = (put s.tx new_frame).1 }

    pub send_frame_room :
        num_used s.frames < max_frames
        → send_frame slab queue type msg_id target_id payload s ≡ (pos 0, sent)
    unfolding send_frame
    send_frame_room h = ground (arith, alloc_room s.frames h, v.blocks, put_room s.tx new_frame)

    pub items-sent : num_used s.frames < max_frames → items sent.tx ≡ items s.tx ++ new_frame ∷ []
    items-sent h = ground (arith, v.blocks, put_room s.tx new_frame)

    sent-Inv : num_used s.frames < max_frames → Inv sent
    sent-Inv h = record {
      inflight = v.inflight;
      blocks = omega (
        arith,
        v.blocks,
        alloc_room s.frames h,
        ap length (items-sent h),
        length-append (items s.tx) (new_frame ∷ []),
      );
      limit = omega (arith, alloc_room s.frames h);
      sem = v.sem;
      work = v.work;
      targets = v.targets;
    }

    pub send_frame_full :
        num_used s.frames ≡ max_frames
        → send_frame slab queue type msg_id target_id payload s ≡ (enomem, s)
    unfolding send_frame
    send_frame_full h = ground (arith, alloc_full s.frames)

    pub send_frame-Inv : Inv (send_frame slab queue type msg_id target_id payload s).1
    send_frame-Inv = elim (dec_lt (num_used s.frames) max_frames) [
      | yes h ↦ rw (send_frame_room h) (sent-Inv h)
      | no h ↦ rw (send_frame_full (omega (arith, v.limit))) v
    ]

-- A frame with these fields, whose used payload is `payload`.
pub record Carries (type msg_id target_id : ℕ) (payload : List ℕ) (f : Frame) : Type 0 where
  pub type_eq : f.type ≡ type
  pub msg_id_eq : f.msg_id ≡ msg_id
  pub target_eq : f.target ≡ target_id
  pub len_eq : f.len ≡ length payload
  pub payload_eq : take f.len f.payload ≡ payload
  pub storage : length f.payload ≡ max_payload_size

pub used :
    (stale payload : List ℕ)
    → length payload ≤ length stale
    → take (length payload) (memcpy stale 0 payload) ≡ payload
used stale payload h =
    rw (memcpy_append [] stale payload h) (take-append payload (drop (length payload) stale))

pub fill_frame-Carries :
    (slab : MemSlab Frame max_frames) (queue : MsgQueue Frame queue_max_items) (block : Frame)
    (type msg_id target_id : ℕ) (payload : List ℕ)
    → length payload ≤ max_payload_size
    → length block.payload ≡ max_payload_size
    → Carries type msg_id target_id payload
        (fill_frame slab queue block type msg_id target_id payload)
fill_frame-Carries slab queue block type msg_id target_id payload h storage = record {
  type_eq = refl;
  msg_id_eq = refl;
  target_eq = refl;
  len_eq = omega arith;
  payload_eq = rw short (used block.payload payload (omega arith));
  storage = length-memcpy block.payload 0 payload ∙ storage;
}
  where
    short : length payload % 256 ≡ length payload
    short = omega arith
