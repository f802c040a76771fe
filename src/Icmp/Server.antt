-- ===== src/Icmp/Server.antt =====
-- The server of lib/icmp/icmp.c: the public API, the server thread and the dispatch of received
-- frames, with the queues of icmp_queue.h and the slab of icmp_frame.c.
-- A frame that the slab handed out is passed on by value, as the code hands over its only pointer.
pub mod Send
pub mod Command
pub mod Leak
use sense_firmware.Prelude.{
  ℕ, ◌+◌, ◌-◌, ◌%◌, ◌<◌, Bool, true, false, ◌&&◌, List, [], ◌∷◌, Option, none, some, ltb, leb, ◌==◌,
  if◌then◌else◌, length, get_elem?, set, take, memcpy, ℤ, pos, negsuc, einval, is_ok,
}
use sense_firmware.Kernel.{MsgQueue, MemSlab}
use sense_firmware.Icmp.Frame.{Frame, max_payload_size, type_command, type_response, type_notify}
use sense_firmware.Icmp.Bitmap.{is_bit_set}
use sense_firmware.Icmp.Inflight.{Entry, Inflight, claim_id, drop_entry, stamp}

-- `CONFIG_ICMP_MAX_MEM_SLAB_FRAMES`, at its default
abbrev pub max_frames : ℕ
max_frames = 8

-- `ICMP_QUEUE_MAX_ITEMS`
abbrev pub queue_max_items : ℕ
queue_max_items = 8

-- `CONFIG_ICMP_MAX_TARGETS`, at its default
abbrev pub max_targets : ℕ
max_targets = 5

-- The dummy message id of NOTIFY frames
abbrev pub notify_id : ℕ
notify_id = 255

-- `struct icmp_work_ctx`, less its work item
pub record WorkCtx : Type 0 where
  pub frame : Option Frame
  pub icmp_cb : Option ℕ

pub record Server (Slab Queue : Type 0) : Type 0 where
  pub inflight : Inflight
  pub targets : List (Option ℕ)
  pub frames : Slab
  pub tx : Queue
  pub rx : Queue
  -- The count of `icmp_work_sem`, which is 0 or 1
  pub work_sem : Bool
  pub work_ctx : WorkCtx
  -- Whether the work item waits on the system workqueue
  pub submitted : Bool

module _ (slab : MemSlab Frame max_frames) (queue : MsgQueue Frame queue_max_items) where
  abbrev pub State : Type 0
  State = Server slab.Slab queue.Queue

  -- The fields that `icmp_send_frame` writes into a new block; the length field is a byte.
  abbrev pub fill_frame : Frame → ℕ → ℕ → ℕ → List ℕ → Frame
  fill_frame block type msg_id target_id payload = record {
    type = type;
    msg_id = msg_id;
    target = target_id;
    len = length payload % 256;
    payload = memcpy block.payload 0 payload;
  }

  -- `icmp_tx_enqueue`
  unfoldable pub tx_enqueue : Frame → State → ℤ × State
  tx_enqueue f s = let (ret, tx) = queue.put s.tx f in (ret, record s { tx = tx })

  -- `icmp_send_frame`
  unfoldable pub send_frame : ℕ → ℕ → ℕ → List ℕ → State → ℤ × State
  unfolding tx_enqueue
  send_frame type msg_id target_id payload s =
      let (ret, block, frames) = slab.alloc s.frames in
      if is_ok ret
      then tx_enqueue (fill_frame block type msg_id target_id payload)
          (record s { frames = frames })
      else (ret, record s { frames = frames })

  -- `icmp_command` after the mutex is given back
  unfoldable pub send_claimed : ℕ → List ℕ → State → ℤ × Inflight → ℤ × State
  send_claimed target_id payload s (negsuc n, st) = (negsuc n, s)
  send_claimed target_id payload s (pos id, st) =
      send_frame type_command id target_id payload (record s { inflight = st })

  -- `icmp_command`; `lock` is what `k_mutex_lock` returned.
  unfoldable pub command : ℤ → ℕ → List ℕ → Option ℕ → ℕ → State → ℤ × State
  unfolding send_claimed
  command lock target_id payload cb user_data s =
      if ltb max_payload_size (length payload)
      then (einval, s)
      else if is_ok lock
      then send_claimed target_id payload s (claim_id cb user_data s.inflight)
      else (lock, s)

  -- `icmp_respond`
  unfoldable pub respond : ℕ → ℕ → List ℕ → State → ℤ × State
  respond target_id msg_id payload s =
      if ltb max_payload_size (length payload)
      then (einval, s)
      else send_frame type_response msg_id target_id payload s

  -- `icmp_notify`
  unfoldable pub notify : ℕ → List ℕ → State → ℤ × State
  notify target_id payload s =
      if ltb max_payload_size (length payload)
      then (einval, s)
      else send_frame type_notify notify_id target_id payload s

  -- `icmp_register_target`; `target_id < 0` cannot hold of a `uint8_t`.
  unfoldable pub register_target : ℕ → Option ℕ → State → ℤ × State
  register_target target_id none s = (einval, s)
  register_target target_id (some cb) s =
      if leb max_targets target_id
      then (einval, s)
      else (pos 0, record s { targets = set s.targets target_id (some cb) })
