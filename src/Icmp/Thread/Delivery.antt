-- ===== src/Icmp/Thread/Delivery.antt =====
-- A frame from the transmit queue of one core to the receive queue and the dispatch of the other.
use sense_firmware.Prelude.{
  ℕ, refl, pos, ◌≤◌, ◌<◌, ◌≡◌, ap, true, false, List, [], ◌∷◌, ◌++◌, none, some, arith, length,
  length-append, replicate, take-append, get_elem?-lt, get_elem?-ge, ge→ltb,
}
use sense_firmware.Kernel.{MsgQueue, MemSlab}
use sense_firmware.Icmp.Frame.{Frame, max_frame_size, frame_size, type_response}
use sense_firmware.Icmp.Frame.Wire.{IsValid, wire, body, length-body, checksum}
use sense_firmware.Icmp.Frame.Pack.{frame_pack-wire}
use sense_firmware.Icmp.Frame.Unpack.{frame_unpack-wire, received}
use sense_firmware.Icmp.Server.{State, max_frames, queue_max_items, max_targets}
use sense_firmware.Icmp.Server.Send.{Inv}
use sense_firmware.Icmp.Thread.{
  Others, phy_uart_send, receive, dispatch, uart_rx_released, dispatch_handler,
}
use sense_firmware.Icmp.Thread.Handler.{dispatch_handler_bad_shift}

pub length-wire :
    (crc16 : List ℕ → ℕ) (f : Frame) → IsValid f → length (wire crc16 f) ≡ frame_size f.len
unfolding wire
length-wire crc16 f v =
    omega (arith, length-append (body f) (checksum crc16 (body f)), length-body f v)

-- The UART PHY sends exactly the wire layout of a valid frame.
pub phy_uart_send-wire :
    (crc16 : List ℕ → ℕ) (f : Frame) → IsValid f → phy_uart_send crc16 f ≡ some (wire crc16 f)
unfolding phy_uart_send
phy_uart_send-wire crc16 f v =
    rw
      (
        frame_pack-wire crc16 f (replicate max_frame_size 0) max_frame_size v
            (omega (arith, v.fits)) (omega arith),
        ge→ltb (frame_size f.len) 1 (omega arith),
        ← length-wire crc16 f v,
      )
      (ap some (take-append (wire crc16 f) _))

module _ (slab : MemSlab Frame max_frames) (queue : MsgQueue Frame queue_max_items) where
  open slab use {num_used, alloc, alloc_room}
  open queue use {items, put, put_room, get_first}

  pub uart_rx_released-wire :
      (crc16 : List ℕ → ℕ) (f : Frame) (rest : List ℕ) (s : State slab queue)
      → IsValid f
      → Inv slab queue s
      → num_used s.frames < max_frames
      → (t : State slab queue) × (uart_rx_released slab queue crc16 (wire crc16 f ++ rest) s
          ≡ some (replicate max_frame_size 0, t))
        × (items t.rx ≡ items s.rx ++ received f ∷ [])
  unfolding uart_rx_released
  uart_rx_released-wire crc16 f rest s v w h = (
    record s { frames = (alloc s.frames).2; rx = (put s.rx (received f)).1 },
    ground (
      arith,
      alloc_room s.frames h,
      frame_unpack-wire crc16 f (alloc s.frames).1 rest max_frame_size v,
    ),
    ground (arith, w.blocks, put_room s.rx (received f)),
  )

  -- A valid frame that one core's PHY sends reaches the other core's receive queue, if that core
  -- has a free block: the bytes sent are the wire layout, and a receive buffer that begins with
  -- them, whatever follows, adds exactly that frame, its payload padded by zeros, at the end of the
  -- queue and is cleared.
  pub frame_delivered :
      (crc16 : List ℕ → ℕ) (f : Frame) (s : State slab queue)
      → IsValid f
      → Inv slab queue s
      → num_used s.frames < max_frames
      → (bytes : List ℕ) × (phy_uart_send crc16 f ≡ some bytes)
        × ((rest : List ℕ)
            → (t : State slab queue) × (uart_rx_released slab queue crc16 (bytes ++ rest) s
                ≡ some (replicate max_frame_size 0, t))
              × (items t.rx ≡ items s.rx ++ received f ∷ []))
  frame_delivered crc16 f s v w h = (
    wire crc16 f,
    phy_uart_send-wire crc16 f v,
    λ rest. uart_rx_released-wire crc16 f rest s v w h,
  )

  -- `icmp_frame_unpack` accepts a frame for any target, and `icmp_dispatch` does not check it: a valid
  -- frame for a target of CONFIG_ICMP_MAX_TARGETS or more that arrives at an idle server with an empty
  -- receive queue makes its next round read outside `rx_dispatch_cb`.
  pub unknown_target_faults :
      (crc16 : List ℕ → ℕ) (f : Frame) (rest : List ℕ) (s : State slab queue)
      → IsValid f
      → Inv slab queue s
      → num_used s.frames < max_frames
      → items s.rx ≡ []
      → s.submitted ≡ false
      → max_targets ≤ f.target
      → (t : State slab queue) × (uart_rx_released slab queue crc16 (wire crc16 f ++ rest) s
          ≡ some (replicate max_frame_size 0, t))
        × (receive slab queue t ≡ none)
  unfolding receive dispatch uart_rx_released
  unknown_target_faults crc16 f rest s v w h empty idle far =
      let t : State slab queue = record s {
        frames = (alloc s.frames).2;
        rx = (put s.rx (received f)).1;
      } in
      let (q', e, _) =
        get_first t.rx (received f) [] (ground (arith, w.blocks, put_room s.rx (received f))) in
      (
        t,
        ground (
          arith,
          alloc_room s.frames h,
          frame_unpack-wire crc16 f (alloc s.frames).1 rest max_frame_size v,
        ),
        ground (arith, e, w.sem, get_elem?-ge s.targets f.target, w.targets),
      )

  -- `icmp_frame_unpack` accepts every message id, and `icmp_dispatch_handler` does not check it: a
  -- valid RESPONSE with an id of 32 or more for an existing target that arrives at an idle server
  -- with an empty receive queue is dispatched by its next round, and with the mutex taken the work
  -- item then shifts by the width of the type or more, whatever is in flight.
  pub bad_id_faults :
      (crc16 : List ℕ → ℕ) (f : Frame) (rest : List ℕ) (during : Others) (s : State slab queue)
      → IsValid f
      → Inv slab queue s
      → num_used s.frames < max_frames
      → items s.rx ≡ []
      → s.submitted ≡ false
      → f.target < max_targets
      → f.type ≡ type_response
      → 32 ≤ f.msg_id
      → (t : State slab queue) × (u : State slab queue) × (uart_rx_released slab queue crc16
            (wire crc16 f ++ rest)
            s
          ≡ some (replicate max_frame_size 0, t))
        × (receive slab queue t ≡ some u)
        × (dispatch_handler slab queue (pos 0) during u ≡ none)
  unfolding receive dispatch uart_rx_released
  bad_id_faults crc16 f rest during s v w h empty idle near response high =
      let t : State slab queue = record s {
        frames = (alloc s.frames).2;
        rx = (put s.rx (received f)).1;
      } in
      let (q', e, _) =
        get_first t.rx (received f) [] (ground (arith, w.blocks, put_room s.rx (received f))) in
      let (cb, g) = get_elem?-lt s.targets f.target (omega (arith, near, w.targets)) in
      let u : State slab queue = record t {
        rx = q';
        work_sem = false;
        work_ctx = record { frame = some (received f); icmp_cb = cb };
        submitted = true;
      } in
      (
        t,
        u,
        ground (
          arith,
          alloc_room s.frames h,
          frame_unpack-wire crc16 f (alloc s.frames).1 rest max_frame_size v,
        ),
        ground (arith, e, w.sem, g),
        dispatch_handler_bad_shift slab queue during u (received f) refl response high,
      )
