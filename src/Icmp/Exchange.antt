-- ===== src/Icmp/Exchange.antt =====
-- Two servers of lib/icmp that talk over their UARTs: one hop of a frame.
pub mod Hops
pub mod Roundtrip
pub mod Tests
use sense_firmware.Prelude.{
  ℕ, ◌+◌, ◌-◌, ◌<◌, ◌≤◌, ◌≡◌, ◌∙◌, refl, ap, true, false, List, [], ◌∷◌, ◌++◌, Option, none, some,
  arith, length, get_elem?, replicate, pos,
}
use sense_firmware.Kernel.{MsgQueue, MemSlab}
use sense_firmware.Icmp.Frame.{Frame, max_frame_size}
use sense_firmware.Icmp.Frame.Wire.{IsValid, wire}
use sense_firmware.Icmp.Frame.Unpack.{frame_unpack-wire, received}
use sense_firmware.Icmp.Server.{State, max_frames, queue_max_items}
use sense_firmware.Icmp.Server.Send.{Inv}
use sense_firmware.Icmp.Thread.{
  alone, Event, transmit, phy_uart_send, uart_rx_released, receive, dispatch, dispatch_handler,
}
use sense_firmware.Icmp.Thread.Delivery.{phy_uart_send-wire}

module _ (slab : MemSlab Frame max_frames) (queue : MsgQueue Frame queue_max_items) where
  open slab use {num_used, alloc, alloc_room}
  open queue use {items, get, put, put_room, get_first}

  -- The receiver's work item, with its mutex free and nothing else at work
  abbrev pub handled :
      State slab queue → State slab queue → Option (Event × State slab queue × State slab queue)
  handled a b = elim (dispatch_handler slab queue (pos 0) alone b) [
    | none ↦ none
    | some (event, b') ↦ some (event, a, b')
  ]

  pub handled_lem :
      (a b b' : State slab queue) (event : Event)
      → dispatch_handler slab queue (pos 0) alone b ≡ some (event, b')
      → handled a b ≡ some (event, a, b')
  handled_lem a b b' event e = rw (handled, e) refl

  module _ (crc16 : List ℕ → ℕ) where
    -- The receiver's part of a hop, for the bytes that its buffer holds: the event of the PHY, a round
    -- of the thread and the work item
    unfoldable pub arrives :
        List ℕ
        → State slab queue
        → State slab queue
        → Option (Event × State slab queue × State slab queue)
    arrives buf a b = elim (uart_rx_released slab queue crc16 buf b) [
      | none ↦ none
      | some (buf', b') ↦ elim (receive slab queue b') [ none ↦ none | some b2 ↦ handled a b2 ]
    ]

    -- A round of the sender's thread and what it makes the receiver do, where `rest` is what the
    -- receive buffer holds behind the bytes that were sent. The result is the callback that ran, and
    -- both servers.
    unfoldable pub deliver :
        ℕ
        → List ℕ
        → State slab queue
        → State slab queue
        → Option (Event × State slab queue × State slab queue)
    deliver uptime rest a b =
        let (out, a') = transmit slab queue uptime a in
        elim out [
          | none ↦ none
          | some f ↦ elim (phy_uart_send crc16 f) [
            | none ↦ none
            | some sent ↦ arrives (sent ++ rest) a' b
          ]
        ]

    -- A server with nothing under way.
    pub record IsIdle (s : State slab queue) : Type 0 where
      pub inv : Inv slab queue s
      pub tx : items s.tx ≡ []
      pub rx : items s.rx ≡ []
      pub rests : s.submitted ≡ false

    -- The receiver when its work item is to run
    abbrev pub arrived : State slab queue → Frame → queue.Queue → Option ℕ → State slab queue
    arrived b f rx cb = record b {
      frames = (alloc b.frames).2;
      rx = rx;
      work_sem = false;
      work_ctx = record { frame = some (received f); icmp_cb = cb };
      submitted = true;
    }

    arrives_lem :
        (a b : State slab queue) (buf buf' : List ℕ) (b1 b2 : State slab queue)
        → uart_rx_released slab queue crc16 buf b ≡ some (buf', b1)
        → receive slab queue b1 ≡ some b2
        → arrives buf a b ≡ handled a b2
    unfolding arrives
    arrives_lem a b buf buf' b1 b2 e f = rw (arrives, e, f) refl

    hop_rx :
        (f : Frame) (rest : List ℕ) (a b : State slab queue) (cb : Option ℕ)
        → IsValid f
        → IsIdle b
        → get_elem? b.targets f.target ≡ some cb
        → (rx : queue.Queue) × (items rx ≡ [])
          × (arrives (wire crc16 f ++ rest) a b ≡ handled a (arrived b f rx cb))
    unfolding uart_rx_released receive dispatch
    hop_rx f rest a b cb v w t =
        let (rx, e, i) =
          get_first (put b.rx (received f)).1 (received f) []
            (ground (arith, w.inv.blocks, w.tx, w.rx, put_room b.rx (received f))) in
        (rx, i, arrives_lem a b (wire crc16 f ++ rest) _ t1 _ released (dispatched rx e))
      where
        t1 : State slab queue
        t1 = record b { frames = (alloc b.frames).2; rx = (put b.rx (received f)).1 }

        idle : num_used b.frames ≡ 0
        idle = ground (arith, w.inv.blocks, w.tx, w.rx, w.rests)

        released :
            uart_rx_released slab queue crc16 (wire crc16 f ++ rest) b
            ≡ some (replicate max_frame_size 0, t1)
        released = ground (
          arith,
          idle,
          alloc_room b.frames,
          frame_unpack-wire crc16 f (alloc b.frames).1 rest max_frame_size v,
        )

        dispatched :
            (rx : queue.Queue)
            → get (put b.rx (received f)).1 ≡ some (received f, rx)
            → receive slab queue t1 ≡ some (arrived b f rx cb)
        dispatched rx e = ground (arith, e, w.inv.sem, w.rests, t)

    transmitted :
        (uptime : ℕ) (f : Frame) (a : State slab queue) (tx : queue.Queue)
        → get a.tx ≡ some (f, tx)
        → (transmit slab queue uptime a).0 ≡ some f
    unfolding transmit
    transmitted uptime f a tx g = rw (transmit, g) refl

    -- A valid frame that a server is to send, to an idle one that has a target for it, reaches the
    -- work item of that one in one hop.
    pub hop :
        (uptime : ℕ) (f : Frame) (rest : List ℕ) (a b : State slab queue) (cb : Option ℕ)
        → IsValid f
        → items a.tx ≡ f ∷ []
        → IsIdle b
        → get_elem? b.targets f.target ≡ some cb
        → (rx : queue.Queue) × (items rx ≡ [])
          × (deliver uptime rest a b ≡ handled (transmit slab queue uptime a).1 (arrived b f rx cb))
    unfolding deliver
    hop uptime f rest a b cb v i w t =
        let (rx, j, e) = hop_rx f rest (transmit slab queue uptime a).1 b cb v w t in
        let (tx, g, _) = get_first a.tx f [] i in
        (rx, j, rw (deliver, transmitted uptime f a tx g, phy_uart_send-wire crc16 f v) e)
