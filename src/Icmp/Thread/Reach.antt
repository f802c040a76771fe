-- ===== src/Icmp/Thread/Reach.antt =====
-- The runs of the server: its operations in any order.
use sense_firmware.Prelude.{ℕ, ◌≡◌, subst, true, List, Option, some, ℤ}
use sense_firmware.Kernel.{MsgQueue, MemSlab}
use sense_firmware.Icmp.Frame.{Frame}
use sense_firmware.Icmp.Inflight.{timeout_handler}
use sense_firmware.Icmp.Inflight.Timeout.{timeout_handler-IsValid}
use sense_firmware.Icmp.Server.{
  State, max_frames, queue_max_items, command, respond, notify, register_target,
}
use sense_firmware.Icmp.Server.Send.{Inv}
use sense_firmware.Icmp.Server.Command.{command-Inv, respond-Inv, notify-Inv}
use sense_firmware.Icmp.Thread.{
  Event, Others, transmit, receive, dispatch_handler, uart_rx_released,
}
use sense_firmware.Icmp.Thread.Invariant.{
  Holds, Keeps, transmit-Inv, receive-Inv, dispatch_handler-Inv, register_target-Inv,
}
use sense_firmware.Icmp.Thread.Arrival.{uart_rx_released-Inv}

module _ (slab : MemSlab Frame max_frames) (queue : MsgQueue Frame queue_max_items) where
  -- One operation of the server: a call of its API, a half of a round of its thread, its work item,
  -- the timer's sweep, or a buffer that the UART received.
  pub data Step (s t : State slab queue) : Type 0 where
    commands :
        (lock : ℤ) (target_id : ℕ) (payload : List ℕ) (cb : Option ℕ) (user_data : ℕ)
        → t ≡ (command slab queue lock target_id payload cb user_data s).1
        → Step s t
    responds :
        (target_id msg_id : ℕ) (payload : List ℕ)
        → t ≡ (respond slab queue target_id msg_id payload s).1
        → Step s t
    notifies :
        (target_id : ℕ) (payload : List ℕ)
        → t ≡ (notify slab queue target_id payload s).1
        → Step s t
    registers :
        (target_id : ℕ) (cb : Option ℕ)
        → t ≡ (register_target slab queue target_id cb s).1
        → Step s t
    transmits : (uptime : ℕ) → t ≡ (transmit slab queue uptime s).1 → Step s t
    receives : receive slab queue s ≡ some t → Step s t
    handles :
        (lock : ℤ) (during : Others) (e : Event)
        → Keeps slab queue during
        → s.submitted ≡ true
        → dispatch_handler slab queue lock during s ≡ some (e, t)
        → Step s t
    sweeps :
        (lock : ℤ) (uptime : ℕ)
        → t ≡ record s { inflight = timeout_handler lock uptime s.inflight }
        → Step s t
    arrives :
        (crc16 : List ℕ → ℕ) (buf buf' : List ℕ)
        → uart_rx_released slab queue crc16 buf s ≡ some (buf', t)
        → Step s t

  pub data Reach (s : State slab queue) : State slab queue → Type 0 where
    here : Reach s s
    next : {t u : State slab queue} → Reach s t → Step t u → Reach s u

  pub Step-Inv : (s t : State slab queue) → Step s t → Inv slab queue s → Inv slab queue t
  Step-Inv s t (commands lock target_id payload cb user_data e) v =
      rw e (command-Inv slab queue lock target_id payload cb user_data s v)
  Step-Inv s t (responds target_id msg_id payload e) v =
      rw e (respond-Inv slab queue target_id msg_id payload s v)
  Step-Inv s t (notifies target_id payload e) v = rw e (notify-Inv slab queue target_id payload s v)
  Step-Inv s t (registers target_id cb e) v = rw e (register_target-Inv slab queue target_id cb s v)
  Step-Inv s t (transmits uptime e) v = rw e (transmit-Inv slab queue uptime s v)
  Step-Inv s t (receives e) v = subst (Holds (Inv slab queue)) e (receive-Inv slab queue s v)
  Step-Inv s t (handles lock during x k busy e) v =
      subst (Holds (λ (o : Event × State slab queue). Inv slab queue o.1)) e
        (dispatch_handler-Inv slab queue lock during s k v busy)
  Step-Inv s t (sweeps lock uptime e) v = rw e (record {
    inflight = timeout_handler-IsValid lock uptime s.inflight v.inflight;
    blocks = v.blocks;
    limit = v.limit;
    sem = v.sem;
    work = v.work;
    targets = v.targets;
  })
  Step-Inv s t (arrives crc16 buf buf' e) v =
      subst (Holds (λ (o : List ℕ × State slab queue). Inv slab queue o.1)) e
        (uart_rx_released-Inv slab queue crc16 buf s v)

  -- In every state that the server reaches from a valid one, by any interleaving of its operations,
  -- each block of the slab in use is in the transmit queue, in the receive queue or with the work
  -- item, and at most one work item waits, which is when the semaphore is taken.
  pub Reach-Inv : (s t : State slab queue) → Reach s t → Inv slab queue s → Inv slab queue t
  Reach-Inv s t here v = v
  Reach-Inv s t (next {t = u} r st) v = Step-Inv u t st (Reach-Inv s u r v)
