-- ===== src/Sdi12/Exchange.antt =====
-- A command and its reply, and a command that is given the reply to none.
use sense_firmware.Prelude.{
  ℕ, ◌<◌, ◌≤◌, ◌≡◌, ◌∙◌, refl, ap, List, [], ◌∷◌, ◌++◌, Bool, true, false, length, drop,
  memcpy_append, pos, eio,
}
use sense_firmware.Kernel.{MsgQueue}
use sense_firmware.Sdi12.{sdi12_msg_len, sdi12_queue_size, enqueue}
use sense_firmware.Sdi12.Format.{zeros}
use sense_firmware.Sdi12.Thread.{
  idle, Sdi12, send, sent, reply, uart_tx_done, uart_rx_buf_released, store,
}

module _ (queue : MsgQueue (List ℕ) sdi12_queue_size) where
  -- The thread waits for a command, with nothing under way.
  pub record Rests (s : Sdi12 queue) : Type 0 where
    pub waits : s.phase ≡ idle
    pub tx_down : s.tx_sem ≡ false
    pub rx_down : s.rx_sem ≡ false
    pub no_tx : s.transmits ≡ false
    pub no_rx : s.receives ≡ false

  -- A command that is transmitted, and answered by `data_bytes` in time.
  abbrev pub exchange : List ℕ → List ℕ → Sdi12 queue → Sdi12 queue
  exchange msg data_bytes s = reply queue (
      uart_rx_buf_released queue (
        store queue 0 data_bytes (sent queue (uart_tx_done queue (send queue msg true (pos 0) s)))))

  -- If the thread rests, the queue of responses has room and the reply fits the buffer, a command that
  -- is transmitted and answered puts the reply, filled up with null bytes, last into that queue; the
  -- thread rests again, with its send buffer cleared.
  pub exchange_replies :
      (msg data_bytes : List ℕ) (s : Sdi12 queue)
      → Rests s
      → length data_bytes ≤ sdi12_msg_len
      → length (queue.items s.responses) < sdi12_queue_size
      → let s' = exchange msg data_bytes s in
        Rests s'
        × (s'.send_buffer ≡ zeros)
        × (queue.items s'.responses
            ≡ queue.items s.responses ++ (data_bytes ++ drop (length data_bytes) zeros) ∷ [])
  unfolding send sent reply enqueue
  exchange_replies msg data_bytes s v h k = (
    record { waits = refl; tx_down = refl; rx_down = refl; no_tx = refl; no_rx = refl },
    refl,
    ap (λ b. queue.items (queue.put s.responses b).1) (memcpy_append [] zeros data_bytes h)
        ∙ (queue.put_room s.responses (data_bytes ++ drop (length data_bytes) zeros) k).1,
  )

  -- Two commands: of the first, `uart_tx` fails, and the receiver, which stays enabled, releases its
  -- buffer; the second is transmitted.
  abbrev pub after_failure : List ℕ → List ℕ → Bool → Sdi12 queue → Sdi12 queue
  after_failure first second enabled s = reply queue (
      sent queue (
        uart_tx_done queue (
          send queue second enabled (pos 0)
            (uart_rx_buf_released queue (send queue first true eio s)))))

  -- If `uart_tx` fails for a command that was waited for, the semaphore that the receiver gives
  -- later is taken for the reply to the next command: with nothing received, a message of null
  -- bytes is put into the queue of responses, if that has room, and the thread does not wait for
  -- the reply.
  pub stale_reply :
      (first second : List ℕ) (enabled : Bool) (s : Sdi12 queue)
      → s.phase ≡ idle
      → length (queue.items s.responses) < sdi12_queue_size
      → let s' = after_failure first second enabled s in
        (s'.phase ≡ idle) × (queue.items s'.responses ≡ queue.items s.responses ++ zeros ∷ [])
  unfolding send sent reply enqueue
  stale_reply first second enabled s p k = (refl, (queue.put_room s.responses zeros k).1)
