-- ===== src/Cellular/Traffic/Exact.antt =====
-- The uplink in all its runs: each accepted packet is queued once, and sent once and in order.
use sense_firmware.Prelude.{
  ℕ, ◌+◌, ◌≡◌, inl, inr, Bool-cases, Option, none, some, Option-cases, ◌||◌, ltb, ◌==◌, is_ok, ℤ,
  refl, ap, sym, ◌∙◌, append_assoc, append-nil, Bool, List, [], ◌∷◌, ◌++◌, arith, length,
}
use sense_firmware.Kernel.{MsgQueue, MemSlab}
use sense_firmware.Cellular.{
  Packet, State, queue_packet, send_packet, uplink_round, queue_max_items, uplink_buffer_size,
}
use sense_firmware.Cellular.Uplink.{waiting, bytes_of}
use sense_firmware.Cellular.Traffic.{
  Action, Traffic, send_begin, send_end, uplink_take, uplink_free, act, run,
}
use sense_firmware.Cellular.Traffic.Delivered.{
  Consistent, sends, queues, gather, AllKept, act-Delivers,
}
use sense_firmware.Cellular.Traffic.Accepted.{
  starts, tally, tally-append, AllAnswer, in_hand, act-Answers, act-Tallies,
}

module _ (slab : MemSlab Packet queue_max_items) (queue : MsgQueue Packet queue_max_items) where
  abbrev resumed : ℤ × Option Packet × State slab queue → ℤ × State slab queue
  resumed (ret, none, s) = (ret, s)
  resumed (ret, some p, s) = send_end slab queue p s

  -- A call during which nothing else happens is `cellular_send_packet`.
  send_packet-send_begin :
      (bytes : Option (List ℕ)) (data_len : ℕ) (s : State slab queue)
      → send_packet slab queue bytes data_len s ≡ resumed (send_begin slab queue bytes data_len s)
  unfolding send_packet send_begin send_end
  send_packet-send_begin none n s = refl
  send_packet-send_begin (some bytes) n s =
      elim (Bool-cases ((n == 0) || ltb uplink_buffer_size n)) [
        | inl e ↦ rw e refl
        | inr e ↦ elim (Bool-cases (is_ok (slab.alloc s.packets).0)) [
          | inl k ↦ rw (e, queue_packet, k) refl
          | inr k ↦ rw (e, queue_packet, k) refl
        ]
      ]

  abbrev freed : Option Packet × State slab queue → Option (List ℕ) × State slab queue
  freed (none, s) = (none, s)
  freed (some p, s) = (some (bytes_of p), uplink_free slab queue s)

  -- Likewise a round of the thread.
  uplink_round-uplink_take :
      (s : State slab queue) → uplink_round slab queue s ≡ freed (uplink_take slab queue s)
  unfolding uplink_round uplink_take uplink_free
  uplink_round-uplink_take s = elim (Option-cases (queue.get s.uplink)) [
    | inl e ↦ rw (uplink_round, uplink_take, e) refl
    | inr ((p, q), e) ↦ rw (uplink_round, uplink_take, e) refl
  ]

  -- From a consistent state, in any order of what the callers of `cellular_send_packet` and the
  -- cellular thread do: the state stays consistent, so that no block is lost; no caller that got a
  -- block fails to queue its packet; and the byte strings given to `send`, followed by those that
  -- wait, are those that waited at first, followed by those that were queued, in order.
  run_delivers :
      (actions : List Action) (t : Traffic slab queue)
      → Consistent slab queue t
      → let (events, t') = run slab queue actions t in
        Consistent slab queue t'
        × AllKept events
        × (gather sends events ++ waiting slab queue t'.state
            ≡ waiting slab queue t.state ++ gather queues events)
  unfolding run
  run_delivers [] t c = (c, tt, sym (append-nil (waiting slab queue t.state)))
  run_delivers (a ∷ actions) t c =
      let t1 = (act slab queue a t).1 in
      let event = (act slab queue a t).0 in
      let later = (run slab queue actions t1).0 in
      let (c1, k, d) = act-Delivers slab queue a t c in
      let (c2, ks, ds) = run_delivers actions t1 c1 in
      (
        c2,
        (k, ks),
        append_assoc (sends event) (gather sends later)
              (waiting slab queue (run slab queue actions t1).1.state)
            ∙ ap (λ l. sends event ++ l) ds
            ∙ sym (append_assoc (sends event) (waiting slab queue t1.state) (gather queues later))
            ∙ ap (λ l. l ++ gather queues later) d
            ∙ append_assoc (waiting slab queue t.state) (queues event) (gather queues later),
      )

module _ (slab : MemSlab Packet queue_max_items) (queue : MsgQueue Packet queue_max_items)
    (storage : (x : slab.Slab) → length (slab.alloc x).1.buffer ≡ uplink_buffer_size) where
  run-AllAnswer :
      (actions : List Action) (t : Traffic slab queue)
      → Consistent slab queue t
      → AllAnswer actions (run slab queue actions t).0
  unfolding run
  run-AllAnswer [] t c = tt
  run-AllAnswer (a ∷ actions) t c = (
    act-Answers slab queue storage a t c,
    run-AllAnswer actions (act slab queue a t).1 (act-Delivers slab queue a t c).0,
  )

  run-tally :
      (test : List ℕ → Bool) (actions : List Action) (t : Traffic slab queue)
      → Consistent slab queue t
      → let (events, t') = run slab queue actions t in
        tally test (gather starts events) + tally test (in_hand t.callers)
        ≡ tally test (gather queues events) + tally test (in_hand t'.callers)
  unfolding run
  run-tally test [] t c = refl
  run-tally test (a ∷ actions) t c =
      let (event, t1) = act slab queue a t in
      let later = (run slab queue actions t1).0 in
      omega (
        arith,
        act-Tallies slab queue test a t c,
        run-tally test actions t1 (act-Delivers slab queue a t c).0,
        tally-append test (starts event) (gather starts later),
        tally-append test (queues event) (gather queues later),
      )

  -- The blocks of the slab have the size of an uplink buffer. From a consistent state, in any order of
  -- what any number of callers of `cellular_send_packet` and the cellular thread do: every block in use
  -- waits, or a caller or the thread holds it; a call whose arguments are refused returns -EINVAL, and
  -- any other gets a block with its bytes or returns -ENOMEM; no caller that got a block fails to queue
  -- it; for any test of a byte string, those that were started or in hand are as many as those that
  -- were queued or are in hand; and what is given to `send`, followed by what waits, is what waited at
  -- first, followed by what was queued.
  pub sent_once :
      (test : List ℕ → Bool) (actions : List Action) (t : Traffic slab queue)
      → Consistent slab queue t
      → let (events, t') = run slab queue actions t in
        Consistent slab queue t'
        × AllAnswer actions events
        × AllKept events
        × (tally test (gather starts events) + tally test (in_hand t.callers)
            ≡ tally test (gather queues events) + tally test (in_hand t'.callers))
        × (gather sends events ++ waiting slab queue t'.state
            ≡ waiting slab queue t.state ++ gather queues events)
  sent_once test actions t c =
      let (c', kept, order) = run_delivers slab queue actions t c in
      (c', run-AllAnswer actions t c, kept, run-tally test actions t c, order)
