-- ===== src/Icmp/Uart/Frames.antt =====
-- Frames that come through the UART callback, one after another.
use sense_firmware.Prelude.{
  ℕ, ◌+◌, ◌≤◌, ◌<◌, ◌≡◌, ◌∙◌, refl, ap, sym, true, List, [], ◌∷◌, ◌++◌, append_assoc, append-nil,
  some, arith, length, length-append, replicate, memcpy, memcpy_append, drop, ℤ, pos,
}
use sense_firmware.Kernel.{MsgQueue, MemSlab}
use sense_firmware.Icmp.Frame.{Frame, max_frame_size}
use sense_firmware.Icmp.Frame.Wire.{IsValid, wire}
use sense_firmware.Icmp.Frame.Unpack.{frame_unpack-wire, received}
use sense_firmware.Icmp.Server.{State, max_frames, queue_max_items}
use sense_firmware.Icmp.Server.Send.{Inv}
use sense_firmware.Icmp.Thread.{phy_uart_send, uart_rx_released}
use sense_firmware.Icmp.Thread.Delivery.{phy_uart_send-wire, length-wire}
use sense_firmware.Icmp.Link.{Link, uart_rx_disabled}
use sense_firmware.Uart.{
  UartEvent, tx_done, rx_rdy, rx_disabled, rx_stopped, rx_buf_request, rx_buf_released, other_event,
}
use sense_firmware.Icmp.Uart.{Port, Action, stores, calls, icmp_uart_cb, act, run}

abbrev pub received_all : List Frame → List Frame
received_all [] = []
received_all (f ∷ fs) = received f ∷ received_all fs

-- An event that releases no buffer, and after which the receiver is on if it was: if the driver
-- disabled it, it can be enabled again.
abbrev pub Idle : UartEvent → ℤ → Type 0
Idle rx_disabled enable = enable ≡ pos 0
Idle rx_buf_released enable = ⊥
Idle _ enable = Unit {0}

module _ (slab : MemSlab Frame max_frames) (queue : MsgQueue Frame queue_max_items)
    (crc16 : List ℕ → ℕ) where
  open slab use {num_used, alloc, alloc_room}
  open queue use {items, put, put_room}

  -- What happens at the port while these valid frames arrive: for each the driver stores the bytes that
  -- the other core's PHY sends for it at the front of the buffer and releases that; events that release
  -- no buffer come before and after.
  pub data Carries : List Action → List Frame → Type 0 where
    quiet : Carries [] []
    event :
        (e : UartEvent) (enable : ℤ) (actions : List Action) (fs : List Frame)
        → Idle e enable
        → Carries actions fs
        → Carries (calls e enable ∷ actions) fs
    frame :
        (f : Frame) (bytes : List ℕ) (enable : ℤ) (actions : List Action) (fs : List Frame)
        → IsValid f
        → phy_uart_send crc16 f ≡ some bytes
        → Carries actions fs
        → Carries (stores bytes ∷ calls rx_buf_released enable ∷ actions) (f ∷ fs)

  released_frame :
      (f : Frame) (rest : List ℕ) (s : State slab queue)
      → IsValid f
      → Inv slab queue s
      → num_used s.frames < max_frames
      → (t : State slab queue) × (uart_rx_released slab queue crc16 (wire crc16 f ++ rest) s
          ≡ some (replicate max_frame_size 0, t))
        × (items t.rx ≡ items s.rx ++ received f ∷ [])
        × (num_used t.frames ≡ num_used s.frames + 1)
        × Inv slab queue t
  unfolding uart_rx_released
  released_frame f rest s v w h =
      let q = put_room s.rx (received f) (omega (arith, w.blocks)) in
      let a = alloc_room s.frames h in
      (
        record s { frames = (alloc s.frames).2; rx = (put s.rx (received f)).1 },
        ground (arith, a, frame_unpack-wire crc16 f (alloc s.frames).1 rest max_frame_size v),
        q.1,
        a.1,
        record {
          inflight = w.inflight;
          blocks =
              omega
                (arith, w.blocks, a.1, ap length q.1, length-append (items s.rx) (received f ∷ []));
          limit = omega (arith, a.1);
          sem = w.sem;
          work = w.work;
          targets = w.targets;
        },
      )

  icmp_uart_cb_receives :
      (e : UartEvent) (enable : ℤ) (p : Port slab queue crc16)
      → Idle e enable
      → p.link.receives ≡ true
      → (l : Link) × (icmp_uart_cb slab queue crc16 e enable p ≡ some (record p { link = l }))
        × (l.receives ≡ true)
  unfolding icmp_uart_cb uart_rx_disabled
  icmp_uart_cb_receives tx_done enable p h r = (p.link, refl, r)
  icmp_uart_cb_receives rx_rdy enable p h r = (p.link, refl, r)
  icmp_uart_cb_receives rx_disabled enable p h r =
      (uart_rx_disabled enable p.link, refl, ground arith)
  icmp_uart_cb_receives rx_stopped enable p h r = (p.link, refl, r)
  icmp_uart_cb_receives rx_buf_request enable p h r = (p.link, refl, r)
  icmp_uart_cb_receives rx_buf_released enable p h r = absurd h
  icmp_uart_cb_receives other_event enable p h r = (p.link, refl, r)

  -- A state in which all is ready for `n` more frames
  pub record Ready (n : ℕ) (p : Port slab queue crc16) : Type 0 where
    pub inv : Inv slab queue p.server
    pub room : num_used p.server.frames + n ≤ max_frames
    pub size : length p.icmp_rx_buf ≡ max_frame_size
    pub receives : p.link.receives ≡ true

  -- What these frames leave at the port
  abbrev pub Arrived : List Action → List Frame → Port slab queue crc16 → Type 0
  Arrived actions fs p =
      (q : Port slab queue crc16) × (run slab queue crc16 actions p ≡ some q)
      × (items q.server.rx ≡ items p.server.rx ++ received_all fs)
      × (q.link.receives ≡ true)
      × Inv slab queue q.server

  sent_wire :
      (f : Frame) (bytes : List ℕ)
      → IsValid f
      → phy_uart_send crc16 f ≡ some bytes
      → bytes ≡ wire crc16 f
  sent_wire f bytes v e = ground (arith, phy_uart_send-wire crc16 f v)

  stored_wire :
      (f : Frame) (bytes buf : List ℕ)
      → IsValid f
      → phy_uart_send crc16 f ≡ some bytes
      → length buf ≡ max_frame_size
      → memcpy buf 0 bytes ≡ wire crc16 f ++ drop (length (wire crc16 f)) buf
  stored_wire f bytes buf v send size =
      ap (λ b. memcpy buf 0 b) (sent_wire f bytes v send)
      ∙ memcpy_append [] buf (wire crc16 f) (omega (arith, length-wire crc16 f v, v.fits))

  -- Valid frames that the other core's PHY sends arrive in order at the end of the receive queue,
  -- whatever events that release no buffer come in between, if the server's state is consistent,
  -- the slab has a free block for each, and the receiver is on; it is on afterwards and the state
  -- consistent. The driver stores each frame at the front of the buffer and can be enabled again
  -- when it was disabled.
  pub frames_arrive :
      (actions : List Action) (fs : List Frame) (p : Port slab queue crc16)
      → Carries actions fs
      → Ready (length fs) p
      → Arrived actions fs p
  unfolding run act icmp_uart_cb
  frames_arrive actions fs p quiet r =
      (p, refl, sym (append-nil (items p.server.rx)), r.receives, r.inv)
  frames_arrive actions fs p (event e enable later fs' idle c) r =
      let (l, eq, on) = icmp_uart_cb_receives e enable p idle r.receives in
      let (q, g, i, o, v) =
        frames_arrive later fs (record p { link = l }) c
          (record { inv = r.inv; room = r.room; size = r.size; receives = on }) in
      (q, rw (run, act, eq) g, i, o, v)
  frames_arrive actions fs p (frame f bytes enable later fs' v send c) r =
      let stored = stored_wire f bytes p.icmp_rx_buf v send r.size in
      let rest = drop (length (wire crc16 f)) p.icmp_rx_buf in
      let (t, e, i, n, w) = released_frame f rest p.server v r.inv (omega (arith, r.room)) in
      let (q, g, k, o, u) =
        frames_arrive later fs' (record p { server = t; icmp_rx_buf = replicate max_frame_size 0 })
          c
          (record {
            inv = w;
            room = omega (arith, r.room, n);
            size = refl;
            receives = r.receives;
          }) in
      (
        q,
        rw (stored, e, run, act, icmp_uart_cb) g,
        k
            ∙ ap (λ l. l ++ received_all fs') i
            ∙ append_assoc (items p.server.rx) (received f ∷ []) (received_all fs'),
        o,
        u,
      )
