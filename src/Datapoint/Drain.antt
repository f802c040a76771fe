-- ===== src/Datapoint/Drain.antt =====
-- The rounds of the datapoint thread and the log file.
use sense_firmware.Prelude.{
  ℕ, zero, suc, ◌<◌, ◌≡◌, ◌≢◌, ◌∙◌, refl, ap, sym, subst, List, [], ◌∷◌, ◌++◌, append_assoc,
  append-nil, Option, none, some, length, drop, drop-nil, take, Bool-cases, inl, inr, Option-cases,
  ◌==◌, arith, ℤ, pos,
}
use sense_firmware.Kernel.{MsgQueue, MemSlab}
use sense_firmware.Coap.{CoapLib}
use sense_firmware.Cellular.{Packet, State, queue_max_items}
use sense_firmware.SdCard.{Writer, Card, submit_line, strnlen, log_line}
use sense_firmware.SdCard.Lines.{IsText, IsText-append}
use sense_firmware.SdCard.Log.{concat, Ready, logged, log_line_lem}
use sense_firmware.Datapoint.{
  Datapoint, shown, optional, dp_sink_sd_card, dp_sink_cellular, comma, newline,
}
use sense_firmware.Datapoint.Queue.{datapoint_queue_max_items}
use sense_firmware.Datapoint.Row.{row}
use sense_firmware.Datapoint.Sinks.{dp_sink_sd_card-submit_line}
use sense_firmware.Datapoint.Thread.{Round, stamped, thread_round, write_back, thread_rounds, rows}

strnlen-IsText : (n : ℕ) (text : List ℕ) → IsText (take (strnlen text n) text)
unfolding strnlen
strnlen-IsText zero text = tt
strnlen-IsText (suc n) [] = tt
strnlen-IsText (suc n) (c ∷ text) = elim (Bool-cases (c == 0)) [
  | inl e ↦ rw e tt
  | inr e ↦ rw e ((λ z. cc), strnlen-IsText n text)
]

optional-IsText :
    {A : Type 0} (print : A → List ℕ)
    → ((a : A) → IsText (print a))
    → (o : Option A) → IsText (optional print o)
optional-IsText print h none = tt
optional-IsText print h (some a) = h a

-- Rows that are shorter than the line buffer.
abbrev pub Short : List (List ℕ) → Type 0
Short [] = Unit {0}
Short (text ∷ texts) = (length text < 256) × Short texts

separated :
    (text : List ℕ) (separator : ℕ) (rest : List ℕ)
    → separator ≢ 0
    → IsText text
    → IsText rest
    → IsText ((text ++ separator ∷ []) ++ rest)
separated text separator rest h k t =
    IsText-append (text ++ separator ∷ []) rest (IsText-append text (separator ∷ []) k (h, tt)) t

module _ (lib : CoapLib) (slab : MemSlab Packet queue_max_items)
    (uplink : MsgQueue Packet queue_max_items) where
  -- What the uplink is after some rounds
  abbrev pub uplink_after : List Round → List Datapoint → State slab uplink → State slab uplink
  uplink_after rounds [] u = u
  uplink_after [] (dp ∷ dps) u = u
  uplink_after (r ∷ later) (dp ∷ dps) u =
      uplink_after later dps
        (dp_sink_cellular lib slab uplink r.cellular r.encode (stamped r.now dp) u)

module _ (print_int : ℤ → List ℕ) (print_double : ℕ → List ℕ)
    (int_text : (n : ℤ) → IsText (print_int n))
    (double_text : (x : ℕ) → IsText (print_double x)) where
  pub row-IsText : (dp : Datapoint) → IsText (row print_int print_double dp)
  row-IsText dp = separated (print_int dp.t) comma _ (omega arith) (int_text dp.t) (
      separated (shown dp.s) comma _ (omega arith) (strnlen-IsText (length dp.s) dp.s) (
        separated (optional print_int dp.n) comma _ (omega arith)
          (optional-IsText print_int int_text dp.n)
          (separated (optional print_double dp.f) comma _ (omega arith)
            (optional-IsText print_double double_text dp.f)
            (separated (optional shown dp.r) comma _ (omega arith)
              (optional-IsText shown (λ l. strnlen-IsText (length l) l) dp.r)
              (separated (optional shown dp.u) newline [] (omega arith)
                (optional-IsText shown (λ l. strnlen-IsText (length l) l) dp.u) tt)))))

  sink_logs :
      (dp : Datapoint) (w : Writer) (c : Card)
      → Ready w
      → length (row print_int print_double dp) < 256
      → (ret : ℤ) × (w' : Writer) × (dp_sink_sd_card print_int print_double (pos 0) dp w
          ≡ some (ret, w'))
        × Ready (write_back (w', c)).0
        × (logged (write_back (w', c)) ≡ logged (w, c) ++ row print_int print_double dp)
  unfolding log_line
  sink_logs dp w c v h =
      let text = row print_int print_double dp in
      let (s', e, r, l) = log_line_lem text w c v (omega (arith, h)) (row-IsText dp) in
      elim (Option-cases (submit_line (pos 0) text (length text) w)) [
        | inl n ↦ no_some (sym (rw (log_line, n) refl) ∙ e)
        | inr ((ret, w'), p) ↦
            let q = same_some {a = write_back (w', c)} {b = s'} (sym (rw (log_line, p) refl) ∙ e) in
            (
              ret,
              w',
              dp_sink_sd_card-submit_line print_int print_double dp w h ∙ p,
              subst (λ s. Ready s.0) (sym q) r,
              ap logged q ∙ l,
            )
      ]
    where
      no_some :
          {s : Writer × Card} {A : Type 0} → ◌≡◌ {A = Option (Writer × Card)} none (some s) → A
      no_some e = cc

      same_some : {a b : Writer × Card} → some a ≡ some b → a ≡ b
      same_some e = cc

  module _ (lib : CoapLib) (slab : MemSlab Packet queue_max_items)
      (uplink : MsgQueue Packet queue_max_items)
      (queue : MsgQueue Datapoint datapoint_queue_max_items) where
    -- What some rounds do with the datapoints `dps` that wait
    abbrev pub Logs :
        List Round → List Datapoint → queue.Queue → State slab uplink → Writer → Card → Type 0
    Logs rounds dps q u w c =
        (q' : queue.Queue) × (u' : State slab uplink) × (w' : Writer) × (c' : Card) × (thread_rounds
            print_int print_double lib slab uplink queue rounds (q, u, w) c
          ≡ some ((q', u', w'), c'))
        × (queue.items q' ≡ drop (length rounds) dps)
        × (logged (w', c') ≡ logged (w, c) ++ concat (rows print_int print_double rounds dps))

    -- What some rounds do, the uplink included
    abbrev pub Drains :
        List Round → List Datapoint → queue.Queue → State slab uplink → Writer → Card → Type 0
    Drains rounds dps q u w c =
        (q' : queue.Queue) × (w' : Writer) × (c' : Card) × (thread_rounds print_int print_double lib
            slab uplink queue rounds (q, u, w) c
          ≡ some ((q', uplink_after lib slab uplink rounds dps u, w'), c'))
        × (queue.items q' ≡ drop (length rounds) dps)
        × (logged (w', c') ≡ logged (w, c) ++ concat (rows print_int print_double rounds dps))

    idle_write_back : (w : Writer) (c : Card) → Ready w → write_back (w, c) ≡ (w, c)
    idle_write_back w c v = rw v.idle refl

    pub rounds_drain :
        (rounds : List Round) (dps : List Datapoint) (q : queue.Queue) (u : State slab uplink)
        (w : Writer) (c : Card)
        → queue.items q ≡ dps
        → Ready w
        → Short (rows print_int print_double rounds dps)
        → Drains rounds dps q u w c
    unfolding thread_rounds thread_round
    rounds_drain [] [] q u w c e v h = (q, w, c, refl, e, sym (append-nil (logged (w, c))))
    rounds_drain [] (dp ∷ dps) q u w c e v h = (q, w, c, refl, e, sym (append-nil (logged (w, c))))
    rounds_drain (r ∷ later) [] q u w c e v h =
        let (q', w', c', i, k, l) = rounds_drain later [] q u w c e v tt in
        (
          q',
          w',
          c',
          rw (thread_rounds, thread_round, queue.get_empty q e, idle_write_back w c v) i,
          k ∙ drop-nil (length later),
          l,
        )
    rounds_drain (r ∷ later) (dp ∷ dps) q u w c e v h =
        let (q1, g, f) = queue.get_first q dp dps e in
        let (ret, w1, b, v1, l1) = sink_logs (stamped r.now dp) w c v h.0 in
        let (q', w', c', i, k, l) =
          rounds_drain later dps q1
            (dp_sink_cellular lib slab uplink r.cellular r.encode (stamped r.now dp) u)
            (write_back (w1, c)).0 (write_back (w1, c)).1 f v1 h.1 in
        (
          q',
          w',
          c',
          rw (thread_rounds, thread_round, g, b) i,
          k,
          l
              ∙ ap (λ a. a ++ concat (rows print_int print_double later dps)) l1
              ∙ append_assoc (logged (w, c)) (row print_int print_double (stamped r.now dp))
                  (concat (rows print_int print_double later dps)),
        )

    -- If the writer is ready and the rows of the datapoints that the rounds find are shorter than the
    -- line buffer, no round fails: each round takes the oldest datapoint, and log.csv followed by the
    -- waiting text is what it was, followed by the rows of those datapoints in order, stamped with the
    -- clock's time. Whatever the cellular module and the encoder do does not matter. The conversions of
    -- numbers print no null byte, and the work item of the writer runs after each round, without
    -- failing.
    pub thread_rounds-logged :
        (rounds : List Round) (q : queue.Queue) (u : State slab uplink) (w : Writer) (c : Card)
        → Ready w
        → Short (rows print_int print_double rounds (queue.items q))
        → Logs rounds (queue.items q) q u w c
    thread_rounds-logged rounds q u w c v h =
        let (q', w', c', i, k, l) = rounds_drain rounds (queue.items q) q u w c refl v h in
        (q', uplink_after lib slab uplink rounds (queue.items q) u, w', c', i, k, l)
