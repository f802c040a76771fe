-- ===== src/Sdi12/Waits.antt =====
-- What the waits of the SDI-12 thread wait for, in every run.
use sense_firmware.Prelude.{
  ℕ, ◌≡◌, ◌≢◌, ◌∙◌, refl, ◌⊎◌, inl, inr, List, Bool, true, false, Bool-cases, ℤ, pos, is_ok,
}
use sense_firmware.Kernel.{MsgQueue}
use sense_firmware.Sdi12.{sdi12_queue_size}
use sense_firmware.Sdi12.Thread.{
  Phase, idle, sending, closing, Sdi12, send, sent, reply, time_out, closed, uart_tx_done, Step,
  sends, sents, replies, times_out, closes, transmitted, stores, released, Reach, here, next,
}

module _ (queue : MsgQueue (List ℕ) sdi12_queue_size) where
  -- While the thread waits for the end of a transmission, either one goes on or its semaphore was
  -- given; at any other time neither holds.
  abbrev pub Paired : Sdi12 queue → Type 0
  Paired s =
      ((s.phase ≡ sending)
        × (((s.transmits ≡ true) × (s.tx_sem ≡ false))
            ⊎ ((s.transmits ≡ false) × (s.tx_sem ≡ true))))
      ⊎ ((s.phase ≢ sending) × (s.transmits ≡ false) × (s.tx_sem ≡ false))

  send-Paired :
      (msg : List ℕ) (enabled : Bool) (tx : ℤ) (s : Sdi12 queue)
      → s.phase ≡ idle
      → Paired s
      → Paired (send queue msg enabled tx s)
  unfolding send
  send-Paired msg enabled tx s p (inl (q, _)) = cc
  send-Paired msg enabled tx s p (inr (q, t, m)) = elim (Bool-cases (is_ok tx)) [
    | inl e ↦ rw e (inl (refl, inl (refl, m)))
    | inr e ↦ rw e (inr (q, t, m))
  ]

  sent-Paired : (s : Sdi12 queue) → s.phase ≡ sending → Paired s → Paired (sent queue s)
  unfolding sent
  sent-Paired s p (inl (q, inl (t, m))) = rw m (inl (q, inl (t, refl)))
  sent-Paired s p (inl (q, inr (t, m))) = rw m (inr ((λ e. cc), t, refl))
  sent-Paired s p (inr (q, _, _)) = absurd (q p)

  -- A step to a phase that waits for something else
  settled :
      (s : Sdi12 queue) (phase : Phase)
      → s.phase ≢ sending
      → phase ≢ sending
      → Paired s
      → Paired (record s { phase = phase })
  settled s phase h k (inl (q, _)) = absurd (h q)
  settled s phase h k (inr (_, t, m)) = inr (k, t, m)

  done-Paired : (s : Sdi12 queue) → s.transmits ≡ true → Paired s → Paired (uart_tx_done queue s)
  done-Paired s e (inl (q, _)) = inl (q, inr (refl, refl))
  done-Paired s e (inr (_, t, _)) = cc

  Step-Paired : (s t : Sdi12 queue) → Step queue s t → Paired s → Paired t
  unfolding reply time_out closed
  Step-Paired s t (sends msg enabled tx p) v = send-Paired msg enabled tx s p v
  Step-Paired s t (sents p) v = sent-Paired s p v
  Step-Paired s t (replies p) v = elim (Bool-cases s.rx_sem) [
    | inl e ↦ rw e (settled s idle (λ q. cc) (λ q. cc) v)
    | inr e ↦ rw e v
  ]
  Step-Paired s t (times_out p) v = elim (Bool-cases s.rx_sem) [
    | inl e ↦ rw e v
    | inr e ↦ rw e (settled s closing (λ q. cc) (λ q. cc) v)
  ]
  Step-Paired s t (closes p) v = elim (Bool-cases s.rx_sem) [
    | inl e ↦ rw e (settled s idle (λ q. cc) (λ q. cc) v)
    | inr e ↦ rw e v
  ]
  Step-Paired s t (transmitted e) v = done-Paired s e v
  Step-Paired s t (stores offset data_bytes e) v = v
  Step-Paired s t (released e) v = v

  -- In every run from a state where this holds, whatever the drivers return, the wait of the thread for
  -- a transmission is for the one that it started: either that goes on or its end was signalled, and in
  -- no other phase does one go on or is a signal left behind.
  pub Reach-Paired : (s t : Sdi12 queue) → Reach queue s t → Paired s → Paired t
  Reach-Paired s t here v = v
  Reach-Paired s u (next {t = t} r k) v = Step-Paired t u k (Reach-Paired s t r v)

  -- No reply can come any more: the thread waits, but its receiver does not run, and its semaphore is
  -- down.
  pub record IsDeaf (responses : queue.Queue) (s : Sdi12 queue) : Type 0 where
    pub busy : s.phase ≢ idle
    pub no_rx : s.receives ≡ false
    pub rx_down : s.rx_sem ≡ false
    pub unanswered : s.responses ≡ responses

  kept :
      (responses : queue.Queue) (s t : Sdi12 queue)
      → t.phase ≢ idle
      → t.receives ≡ s.receives
      → t.rx_sem ≡ false
      → t.responses ≡ s.responses
      → IsDeaf responses s
      → IsDeaf responses t
  kept responses s t h i j k v = record {
    busy = h;
    no_rx = i ∙ v.no_rx;
    rx_down = j;
    unanswered = k ∙ v.unanswered;
  }

  Step-IsDeaf :
      (responses : queue.Queue) (s t : Sdi12 queue)
      → Step queue s t
      → IsDeaf responses s
      → IsDeaf responses t
  unfolding sent reply time_out closed
  Step-IsDeaf responses s t (sends msg enabled tx p) v = absurd (v.busy p)
  Step-IsDeaf responses s t (sents p) v = elim (Bool-cases s.tx_sem) [
    | inl e ↦ kept responses s t (rw e (λ q. cc)) (rw e refl) (rw e v.rx_down) (rw e refl) v
    | inr e ↦ kept responses s t (rw e v.busy) (rw e refl) (rw e v.rx_down) (rw e refl) v
  ]
  Step-IsDeaf responses s t (replies p) v =
      kept responses s t (rw v.rx_down v.busy) (rw v.rx_down refl) (rw v.rx_down refl)
        (rw v.rx_down refl) v
  Step-IsDeaf responses s t (times_out p) v =
      kept responses s t (rw v.rx_down (λ q. cc)) (rw v.rx_down refl) (rw v.rx_down refl)
        (rw v.rx_down refl) v
  Step-IsDeaf responses s t (closes p) v =
      kept responses s t (rw v.rx_down v.busy) (rw v.rx_down refl) (rw v.rx_down refl)
        (rw v.rx_down refl) v
  Step-IsDeaf responses s t (transmitted e) v = kept responses s t v.busy refl v.rx_down refl v
  Step-IsDeaf responses s t (stores offset data_bytes e) v = cc (v.no_rx)
  Step-IsDeaf responses s t (released e) v = cc (v.no_rx)

  Reach-IsDeaf :
      (responses : queue.Queue) (s t : Sdi12 queue)
      → Reach queue s t
      → IsDeaf responses s
      → IsDeaf responses t
  Reach-IsDeaf responses s t here v = v
  Reach-IsDeaf responses s u (next {t = t} r k) v =
      Step-IsDeaf responses t u k (Reach-IsDeaf responses s t r v)

  -- If `uart_rx_enable` fails for a command whose transmission starts, from a state in which the
  -- receiver is off and its semaphore down, then in every run after it the thread never gets back to
  -- wait for a command, and never queues a response.
  pub enable_failure_hangs :
      (msg : List ℕ) (s t : Sdi12 queue)
      → s.receives ≡ false
      → s.rx_sem ≡ false
      → Reach queue (send queue msg false (pos 0) s) t
      → (t.phase ≢ idle) × (t.responses ≡ s.responses)
  unfolding send
  enable_failure_hangs msg s t p q r =
      let v =
        Reach-IsDeaf s.responses (send queue msg false (pos 0) s) t r
          (record { busy = λ e. cc; no_rx = rw p refl; rx_down = q; unanswered = refl }) in
      (v.busy, v.unanswered)
