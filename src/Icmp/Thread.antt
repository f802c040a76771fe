-- ===== src/Icmp/Thread.antt =====
-- The server thread, the dispatch of received frames and the UART PHY: lib/icmp/icmp.c from
-- `icmp_work_ctx` on, and lib/icmp/icmp_phy_uart.c. The CRC16 is a parameter, as are the results of
-- `k_mutex_lock`, `k_uptime_get` and `uart_tx`.
pub mod Invariant
pub mod Arrival
pub mod Reach
pub mod Delivery
pub mod Handler
pub mod Interim
pub mod Untouched
pub mod Counts
pub mod Answers
mod Tests
use sense_firmware.Prelude.{
  ℕ, ◌+◌, ◌-◌, ◌%◌, ◌<◌, Bool, true, false, ◌&&◌, List, [], ◌∷◌, Option, none, some, ltb, leb, ◌==◌,
  if◌then◌else◌, length, get_elem?, set, take, memcpy, replicate, ℤ, pos, negsuc, einval, is_ok,
}
use sense_firmware.Kernel.{MsgQueue, MemSlab}
use sense_firmware.Icmp.Frame.{
  Frame, Unpacked, returns, no_frame, out_of_bounds, max_frame_size, type_command, type_response,
  frame_unpack, frame_pack,
}
use sense_firmware.Icmp.Bitmap.{is_bit_set}
use sense_firmware.Icmp.Inflight.{Entry, Inflight, drop_entry, stamp}
use sense_firmware.Icmp.Server.{Server, State, WorkCtx, max_frames, queue_max_items}

-- The callback that the dispatch handler ran, with its arguments.
pub data Event : Type 0 where
  no_callback : Event
  response_callback : ℕ → List ℕ → ℕ → Event
  target_callback : ℕ → List ℕ → Event

-- What the handler finds for a frame: an entry with its response callback, none, or undefined
-- behaviour: a shift `1U << msg_id` by the width of the type or more, a read outside the table, a
-- null call.
pub data Found : Type 0 where
  entry : Entry → ℕ → Found
  no_entry : Found
  undefined : Found

-- The payload of a frame as a callback sees it.
abbrev pub used_payload : Frame → List ℕ
used_payload f = take f.len f.payload

-- The test of `icmp_dispatch_handler` for a response callback.
unfoldable pub found_callback : Entry → Found
found_callback e = elim e.callback [ none ↦ no_entry | some cb ↦ entry e cb ]

unfoldable pub find_entry : Frame → Inflight → Found
unfolding found_callback
find_entry f st =
    if f.type == type_response
    then if ltb f.msg_id 32
      then if is_bit_set st.bitmap f.msg_id
        then elim (get_elem? st.table f.msg_id) [ none ↦ undefined | some e ↦ found_callback e ]
        else no_entry
      else undefined
    else no_entry

-- The copy of the table entry, made when the mutex was given back: a null callback is called.
unfoldable pub copied_entry : Frame → Inflight → Found
copied_entry f st = elim (get_elem? st.table f.msg_id) [
  | none ↦ undefined
  | some e ↦ elim e.callback [ none ↦ undefined | some cb ↦ entry e cb ]
]

-- What other threads do to the inflight state while the mutex is free in `icmp_dispatch_handler`:
-- before the copy, and from then until the callback returned
pub record Others : Type 0 where
  pub before_copy : Inflight → Inflight
  pub during_call : Inflight → Inflight

abbrev pub alone : Others
alone = record { before_copy = λ st. st; during_call = λ st. st }

-- `uart_tx` is called with this buffer and length, if the frame could be packed.
abbrev pub Sent : Type 0
Sent = Option (List ℕ)

-- The test `frame_len < 1`
sent_bytes : ℤ × Option (List ℕ) → Sent
sent_bytes (pos n, some buf) = if ltb n 1 then none else some (take n buf)
sent_bytes _ = none

module _ (crc16 : List ℕ → ℕ) where
  -- `icmp_phy_uart_send`, up to `uart_tx`: the bytes that it is asked to send
  unfoldable pub phy_uart_send : Frame → Sent
  unfolding sent_bytes
  phy_uart_send f =
      sent_bytes (frame_pack crc16 (some f) (some (replicate max_frame_size 0)) max_frame_size)

-- The default callback of the target
abbrev pub target_event : Frame → Option ℕ → Event
target_event f none = no_callback
target_event f (some cb) = target_callback cb (used_payload f)

-- `update_inflight_timestamp`
unfoldable pub update_inflight_timestamp : Frame → ℕ → Inflight → Inflight
update_inflight_timestamp f uptime st =
    if f.type == type_command then stamp f.msg_id uptime st else st

module _ (slab : MemSlab Frame max_frames) (queue : MsgQueue Frame queue_max_items) where
  -- The transmitting half of a round of `icmp_thread_function`: the frame that went to the PHY. What
  -- the PHY returns is only logged.
  unfoldable pub transmit : ℕ → State slab queue → Option Frame × State slab queue
  unfolding update_inflight_timestamp
  transmit uptime s = elim (queue.get s.tx) [
    | none ↦ (none, s)
    | some (f, tx) ↦ (
      some f,
      record s {
        inflight = update_inflight_timestamp f uptime s.inflight;
        tx = tx;
        frames = slab.free s.frames;
      },
    )
  ]

  -- `icmp_dispatch`; `none` is a read outside `rx_dispatch_cb`.
  unfoldable pub dispatch : Frame → State slab queue → Option (State slab queue)
  dispatch f s = elim (get_elem? s.targets f.target) [
    | none ↦ none
    | some cb ↦
        some (record s { work_ctx = record { frame = some f; icmp_cb = cb }; submitted = true })
  ]

  -- The receiving half of a round: a frame is dispatched if the semaphore can be taken.
  unfoldable pub receive : State slab queue → Option (State slab queue)
  unfolding dispatch
  receive s =
      if s.work_sem
      then elim (queue.get s.rx) [
        | none ↦ some s
        | some (f, rx) ↦ dispatch f (record s { rx = rx; work_sem = false })
      ]
      else some s

  -- The end of the handler: the frame is freed and the semaphore given.
  abbrev pub finish : State slab queue → State slab queue
  finish s = record s { frames = slab.free s.frames; work_sem = true; submitted = false }

  -- The call of the callback that was copied, and what follows it; the mutex is free during the call.
  unfoldable pub call_copied :
      Found → (Inflight → Inflight) → Frame → State slab queue → Option (Event × State slab queue)
  call_copied (entry e cb) during f s = some (
    response_callback cb (used_payload f) e.user_data,
    finish (record s { inflight = drop_entry f.msg_id (during s.inflight) }),
  )
  call_copied _ during f s = none

  unfoldable pub run_callback :
      Found → Others → Frame → State slab queue → Option (Event × State slab queue)
  unfolding call_copied copied_entry
  run_callback undefined others f s = none
  run_callback no_entry others f s = some (target_event f s.work_ctx.icmp_cb, finish s)
  run_callback (entry e cb) others f s =
      let st = others.before_copy s.inflight in
      call_copied (copied_entry f st) others.during_call f (record s { inflight = st })

  -- `icmp_dispatch_handler`. `none` is undefined behaviour.
  unfoldable pub dispatch_handler :
      ℤ → Others → State slab queue → Option (Event × State slab queue)
  unfolding run_callback find_entry
  dispatch_handler lock others s = elim s.work_ctx.frame [
    | none ↦ some (no_callback, record s { work_sem = true; submitted = false })
    | some f ↦
        if is_ok lock
        then run_callback (find_entry f s.inflight) others f s
        else some (no_callback, finish s)
  ]

  -- The `UART_RX_BUF_RELEASED` case of `icmp_uart_cb`, over the receive buffer; `none` is a read
  -- outside it.
  module _ (crc16 : List ℕ → ℕ) where
    unfoldable pub receive_unpacked :
        List ℕ → State slab queue → Unpacked → Option (List ℕ × State slab queue)
    receive_unpacked buf s (returns ret f) =
        if is_ok ret
        then some (replicate max_frame_size 0, record s { rx = (queue.put s.rx f).1 })
        else some (buf, record s { frames = slab.free s.frames })
    receive_unpacked buf s (no_frame ret) = some (buf, record s { frames = slab.free s.frames })
    receive_unpacked buf s out_of_bounds = none

    unfoldable pub uart_rx_released : List ℕ → State slab queue → Option (List ℕ × State slab queue)
    unfolding receive_unpacked
    uart_rx_released buf s =
        let (ret, block, frames) = slab.alloc s.frames in
        if is_ok ret
        then receive_unpacked buf (record s { frames = frames })
            (frame_unpack crc16 (some block) (some buf) max_frame_size)
        else some (buf, record s { frames = frames })
