-- ===== src/Sdi12/Thread.antt =====
-- The thread that exchanges SDI-12 messages: cores/interface/src/sdi12/sdi12.c. It is cut where it
-- waits: for a command, for the end of a transmission, for a reply, and for its receiver to stop.
-- The results of the drivers are arguments. A transmission that `uart_tx` started ends once, and a
-- receiver that was enabled releases its buffer once; an event during the pulse on the line counts
-- as one after it.
use sense_firmware.Prelude.{
  ◌≡◌, ℕ, List, [], ◌∷◌, ◌&&◌, ◌||◌, Bool, true, false, if◌then◌else◌, replicate, memcpy, ℤ, pos,
  is_ok, is_negative,
}
use sense_firmware.Kernel.{MsgQueue}
use sense_firmware.Uart.{UartEvent, tx_done, rx_buf_released}
use sense_firmware.Heartbeat.{enxio}
use sense_firmware.Sdi12.{sdi12_msg_len, sdi12_queue_size, enqueue}

-- The levels of the four output pins.
pub record Lines : Type 0 where
  pub ls_12v : Bool
  pub space : Bool
  pub tx_en : Bool
  pub rx_en : Bool

-- The pins that `sdi12_gpio_init` configures, one after the other until a call fails: each with what
-- configuring it returns, and the lines then
unfoldable pub configure : List (ℤ × (Lines → Lines)) → Lines → ℤ × Lines
configure [] l = (pos 0, l)
configure ((err, drive) ∷ rest) l =
    let later = configure rest (drive l) in if is_negative err then (err, l) else later

-- `sdi12_gpio_init`, by whether the four pins are ready, and what configuring each returns
unfoldable pub gpio_init : Bool → Bool → Bool → Bool → ℤ → ℤ → ℤ → ℤ → Lines → ℤ × Lines
unfolding configure
gpio_init space_ready tx_ready rx_ready power_ready power space tx rx l =
    if space_ready && tx_ready && rx_ready && power_ready
    then configure
        ((power, λ m. record m { ls_12v = true })
          ∷ (space, λ m. record m { space = false })
          ∷ (tx, λ m. record m { tx_en = true })
          ∷ (rx, λ m. record m { rx_en = false })
          ∷ [])
        l
    else (enxio, l)

-- What `sdi12_thread` finds before its loop: which pins are ready, what configuring each of them
-- returns, and what `uart_callback_set` does
pub record Setup : Type 0 where
  pub space_ready : Bool
  pub tx_ready : Bool
  pub rx_ready : Bool
  pub power_ready : Bool
  pub power : ℤ
  pub space : ℤ
  pub tx : ℤ
  pub rx : ℤ
  pub callback_set : ℤ

-- `sdi12_thread` up to its loop: whether that starts, and the lines then
unfoldable pub sdi12_thread_start : Setup → Lines → Bool × Lines
unfolding gpio_init
sdi12_thread_start r l =
    let (err, l') =
      gpio_init r.space_ready r.tx_ready r.rx_ready r.power_ready r.power r.space r.tx r.rx l in
    (if is_ok err then is_ok r.callback_set else false, l')

-- Where `sdi12_thread` waits: in `sdi12_command_dequeue`, in the `k_sem_take` of `tx_sem`, and in
-- the first and the second `k_sem_take` of `rx_sem`. `msg_in_flight` is true in the last two.
pub data Phase : Type 0 where
  idle : Phase
  sending : Phase
  listening : Phase
  closing : Phase

module _ (queue : MsgQueue (List ℕ) sdi12_queue_size) where
  -- The static state, the driver's: whether it transmits and receives, and the queue of responses.
  pub record Sdi12 : Type 0 where
    pub phase : Phase
    pub lines : Lines
    pub tx_sem : Bool
    pub rx_sem : Bool
    pub recv_buffer : List ℕ
    pub send_buffer : List ℕ
    pub transmits : Bool
    pub receives : Bool
    pub responses : queue.Queue

  -- `sdi12_thread` from the command that it dequeued to the next wait, by whether `uart_rx_enable`
  -- succeeds, which it does not look at, and what `uart_tx` returns. The pulse on the line is over.
  unfoldable pub send : List ℕ → Bool → ℤ → Sdi12 → Sdi12
  send msg enabled tx s =
      let s' = record s {
        send_buffer = msg;
        lines = record s.lines { tx_en = true; rx_en = false; space = false };
        recv_buffer = replicate sdi12_msg_len 0;
        receives = s.receives || enabled;
      } in
      if is_ok tx then record s' { transmits = true; phase = sending } else s'

  -- The wait for the end of the transmission
  unfoldable pub sent : Sdi12 → Sdi12
  sent s = if s.tx_sem then record s { tx_sem = false; phase = listening } else s

  -- The wait for a reply, if the semaphore is given in time
  unfoldable pub reply : Sdi12 → Sdi12
  reply s =
      if s.rx_sem
      then record s {
        rx_sem = false;
        phase = idle;
        responses = (enqueue queue s.recv_buffer s.responses).1;
        send_buffer = replicate sdi12_msg_len 0;
      }
      else s

  -- The same wait, if it times out. `uart_rx_disable` makes the driver release its buffer later.
  unfoldable pub time_out : Sdi12 → Sdi12
  time_out s = if s.rx_sem then s else record s { phase = closing }

  -- The wait after a time-out
  unfoldable pub closed : Sdi12 → Sdi12
  closed s = if s.rx_sem then record s { rx_sem = false; phase = idle } else s

  -- The cases of `sdi12_uart_cb` that do something
  abbrev pub uart_tx_done : Sdi12 → Sdi12
  uart_tx_done s = record s {
    tx_sem = true;
    lines = record s.lines { tx_en = false; rx_en = true };
    transmits = false;
  }

  abbrev pub uart_rx_buf_released : Sdi12 → Sdi12
  uart_rx_buf_released s = record s { rx_sem = true; receives = false }

  -- `sdi12_uart_cb`
  abbrev pub sdi12_uart_cb : UartEvent → Sdi12 → Sdi12
  sdi12_uart_cb tx_done s = uart_tx_done s
  sdi12_uart_cb rx_buf_released s = uart_rx_buf_released s
  sdi12_uart_cb _ s = s

  -- The driver stores what it received.
  abbrev pub store : ℕ → List ℕ → Sdi12 → Sdi12
  store offset data_bytes s = record s { recv_buffer = memcpy s.recv_buffer offset data_bytes }

  -- What may happen next; the thread's own steps are those of the wait that it is in.
  pub data Step (s : Sdi12) : Sdi12 → Type 0 where
    sends :
        (msg : List ℕ) (enabled : Bool) (tx : ℤ) → s.phase ≡ idle → Step s (send msg enabled tx s)
    sents : s.phase ≡ sending → Step s (sent s)
    replies : s.phase ≡ listening → Step s (reply s)
    times_out : s.phase ≡ listening → Step s (time_out s)
    closes : s.phase ≡ closing → Step s (closed s)
    transmitted : s.transmits ≡ true → Step s (sdi12_uart_cb tx_done s)
    stores :
        (offset : ℕ) (data_bytes : List ℕ) → s.receives ≡ true → Step s (store offset data_bytes s)
    released : s.receives ≡ true → Step s (sdi12_uart_cb rx_buf_released s)

  pub data Reach (s : Sdi12) : Sdi12 → Type 0 where
    here : Reach s s
    next : {t u : Sdi12} → Reach s t → Step t u → Reach s u
