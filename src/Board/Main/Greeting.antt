-- ===== src/Board/Main/Greeting.antt =====
-- What the loops of both main functions exchange.
use sense_firmware.Prelude.{
  ℕ, ◌≤◌, ◌≡◌, List, Bool, true, ◌&&◌, if◌then◌else◌, ℤ, is_ok, Option, refl, some, arith, length,
  get_elem?, get_elem?-set_self, ge→ltb,
}
use sense_firmware.Kernel.{MsgQueue, MemSlab}
use sense_firmware.Icmp.Frame.{Frame, max_payload_size, type_notify}
use sense_firmware.Icmp.Server.{
  State, max_frames, queue_max_items, notify, notify_id, register_target,
}
use sense_firmware.Icmp.Thread.{Event, no_callback, target_callback, transmit}
use sense_firmware.Icmp.Thread.Invariant.{register_target-Inv}
use sense_firmware.Icmp.Link.{Link, icmp_init, server_thread, thread_begin, phy_uart_init}
use sense_firmware.Icmp.Exchange.{IsIdle, deliver}
use sense_firmware.Icmp.Exchange.Hops.{request_hop, send_frame_queued}
use sense_firmware.Board.Main.{
  start_server, main_round, Control, Results, control_main, Interface, InterfaceResults,
  interface_main, usb_starts, control_payload, interface_payload,
}

module _ (slab : MemSlab Frame max_frames) (queue : MsgQueue Frame queue_max_items)
    (crc16 : List ℕ → ℕ)
    (storage : (x : slab.Slab) → length (slab.alloc x).1.payload ≡ max_payload_size) where
  start_server-IsIdle :
      (cb : ℕ) (selected : Bool) (s : State slab queue) (l : Link)
      → IsIdle slab queue crc16 s
      → IsIdle slab queue crc16 (start_server slab queue cb selected (s, l)).0
  unfolding start_server register_target
  start_server-IsIdle cb selected s l v = record {
    inv = register_target-Inv slab queue 0 (some cb) s v.inv;
    tx = v.tx;
    rx = v.rx;
    rests = v.rests;
  }

  registered :
      (cb : ℕ) (selected : Bool) (s : State slab queue) (l : Link)
      → IsIdle slab queue crc16 s
      → get_elem? (start_server slab queue cb selected (s, l)).0.targets 0 ≡ some (some cb)
  unfolding start_server register_target
  registered cb selected s l v =
      get_elem?-set_self s.targets 0 (some cb) (omega (arith, v.inv.targets))

  -- Whether the server thread of a core is in its loop and its receiver is enabled, by the results of
  -- setting the UART's callback and of enabling its receiver
  abbrev pub serves : ℕ → ℤ × ℤ → Link → Bool
  serves period (callback_set, enable) l =
      let (runs, l') = server_thread period callback_set enable l in runs && l'.receives

  -- What becomes of a frame that waits in the transmit queue of `a`: nothing if its thread does not
  -- run; it goes to the UART, and is only handled if the other thread runs and receives.
  abbrev pub exchange :
      Bool
      → Bool
      → ℕ
      → List ℕ
      → State slab queue
      → State slab queue
      → Option (Event × State slab queue × State slab queue)
  exchange from to uptime rest a b =
      if from
      then (if to
          then deliver slab queue crc16 uptime rest a b
          else some (no_callback, (transmit slab queue uptime a).1, b))
      else some (no_callback, a, b)

  -- A round of one core's loop reaches the callback that the other has registered.
  abbrev pub Greeted :
      Bool → Bool → ℕ → List ℕ → ℕ → List ℕ → State slab queue → State slab queue → Type 0
  Greeted from to uptime rest cb payload a b =
      (a' b' : State slab queue) × (exchange from to uptime rest (main_round slab queue payload a) b
        ≡ some (target_callback cb payload, a', b'))
      × IsIdle slab queue crc16 b'

  started :
      (cb period : ℕ) (selected : Bool) (uart : ℤ × ℤ) (s : State slab queue) (l : Link)
      → selected ≡ true
      → is_ok uart.0 ≡ true
      → is_ok uart.1 ≡ true
      → serves period uart (start_server slab queue cb selected (s, l)).1 ≡ true
  unfolding start_server icmp_init server_thread thread_begin phy_uart_init
  started cb period selected (callback_set, enable) s l p c e = rw (p, c, e) refl

  greets :
      (uptime : ℕ) (rest : List ℕ) (cb : ℕ) (payload : List ℕ) (a b : State slab queue)
      → IsIdle slab queue crc16 a
      → IsIdle slab queue crc16 b
      → length payload ≤ max_payload_size
      → get_elem? b.targets 0 ≡ some (some cb)
      → (a' b' : State slab queue) × (deliver slab queue crc16 uptime rest
            (main_round slab queue payload a)
            b
          ≡ some (target_callback cb payload, a', b'))
        × IsIdle slab queue crc16 b'
  unfolding main_round notify
  greets uptime rest cb payload a b v w h t =
      let (g, c, i) =
        send_frame_queued slab queue crc16 storage type_notify notify_id 0 payload a v h in
      let (b', e, x) =
        request_hop slab queue crc16 uptime type_notify notify_id 0 cb payload rest g
          (main_round slab queue payload a) b (omega arith) (λ q. omega arith) c h
          (rw (main_round, notify, ge→ltb max_payload_size (length payload) h) i) w t in
      (_, b', e, x)

  -- With a PHY selected on both cores, whose UART takes the callback and whose receiver is enabled,
  -- and with idle servers: once both main functions are at their loops, both server threads are in
  -- theirs, and a round of the loop of either `main` makes the other core run the callback that its
  -- own `main` registered, on the six bytes "nrf91" and "nrf53" with their null bytes, and leaves
  -- the receiving server idle. This holds whatever the initialisers of the other parts meet, and
  -- whatever the receive buffers held; whether the loop of the interface core starts depends on its
  -- USB console only, and it does where there is none.
  pub mains_greet :
      (duration timeout interval handle_packet period uptime cb cb' : ℕ) (rest : List ℕ)
      (r : Results slab queue) (c : Control slab queue) (uart : ℤ × ℤ)
      (r' : InterfaceResults slab queue) (i : Interface slab queue) (uart' : ℤ × ℤ)
      → IsIdle slab queue crc16 c.server
      → IsIdle slab queue crc16 i.server
      → r.phy ≡ true
      → is_ok uart.0 ≡ true
      → is_ok uart.1 ≡ true
      → r'.phy ≡ true
      → is_ok uart'.0 ≡ true
      → is_ok uart'.1 ≡ true
      → let control = control_main slab queue duration timeout interval handle_packet cb r c in
        let (starts, interface) = interface_main slab queue duration cb' r' i in
        let runs = serves period uart control.link in
        let runs' = serves period uart' interface.link in
        (runs ≡ true)
        × (runs' ≡ true)
        × Greeted runs runs' uptime rest cb' control_payload control.server interface.server
        × Greeted runs' runs uptime rest cb interface_payload interface.server control.server
        × (starts ≡ usb_starts r'.usb)
  unfolding control_main interface_main
  mains_greet duration timeout interval handle_packet period uptime cb cb' rest r c uart r' i uart'
        v w p o e p' o' e' =
      let on = started cb period r.phy uart c.server c.link p o e in
      let on' = started cb' period r'.phy uart' i.server i.link p' o' e' in
      let idle = start_server-IsIdle cb r.phy c.server c.link v in
      let idle' = start_server-IsIdle cb' r'.phy i.server i.link w in
      (
        on,
        on',
        rw (on, on')
            (greets uptime rest cb' control_payload _ _ idle idle' (omega arith)
              (registered cb' r'.phy i.server i.link w)),
        rw (on, on')
            (greets uptime rest cb interface_payload _ _ idle' idle (omega arith)
              (registered cb r.phy c.server c.link v)),
        refl,
      )
