-- ===== src/Datapoint/Pipeline/Logged.antt =====
-- Every interleaving of the path to log.csv behaves as the bounded queue and the log.
use mathlib.Core.Path.{ap₂}
use sense_firmware.Prelude.{
  ℕ, ◌+◌, ◌<◌, ◌≡◌, ◌⊎◌, ◌∙◌, refl, ap, sym, subst, List, [], ◌∷◌, ◌++◌, Option, none, some, arith,
  length, ℤ, pos, false, Option-cases, inl, inr,
}
use sense_firmware.Kernel.{MsgQueue, MemSlab}
use sense_firmware.Coap.{CoapLib}
use sense_firmware.Cellular.{Packet, queue_max_items}
use sense_firmware.SdCard.{Writer, buffer_size, submit_line}
use sense_firmware.SdCard.Lines.{IsText}
use sense_firmware.SdCard.Worker.{Run, resting, work_step, act}
use sense_firmware.SdCard.Worker
use sense_firmware.SdCard.Worker.Held.{Steady, held, CalmAction, comes_held}
use sense_firmware.SdCard.Worker.Complete.{works_act}
use sense_firmware.Datapoint.{Datapoint, dp_sink_sd_card, dp_sink_cellular}
use sense_firmware.Datapoint.Queue.{datapoint_queue_max_items, items-enqueue}
use sense_firmware.Datapoint.Row.{row}
use sense_firmware.Datapoint.Sinks.{dp_sink_sd_card-submit_line}
use sense_firmware.Datapoint.Thread.{Round, stamped, thread_round}
use sense_firmware.Datapoint.Drain.{row-IsText}
use sense_firmware.Datapoint.Pipeline.{
  Event, submits, rounds, works, Core, step, run, replay_event, replay,
}

module _ (print_int : ℤ → List ℕ) (print_double : ℕ → List ℕ) where
  -- The row of the oldest datapoint is shorter than the line buffer, and fits behind the text that
  -- waits in the writer unless the work item rests.
  abbrev pub CalmRound : Round → List Datapoint → Run → Type 0
  CalmRound r [] s = Unit {0}
  CalmRound r (dp ∷ dps) s =
      (length (row print_int print_double (stamped r.now dp)) < 256)
      × ((s.writer.active_pos + length (row print_int print_double (stamped r.now dp))
            < buffer_size)
          ⊎ ((s.phase ≡ resting) × (s.writer.submitted ≡ false)))

  module _ (lib : CoapLib) (slab : MemSlab Packet queue_max_items)
      (uplink : MsgQueue Packet queue_max_items)
      (queue : MsgQueue Datapoint datapoint_queue_max_items) where
    -- A step of the work item does not fail and writes all of its text.
    abbrev pub CalmEvent : Event → Core print_int print_double lib slab uplink queue → Type 0
    CalmEvent (submits dp) c = Unit {0}
    CalmEvent (rounds r) c = CalmRound r (queue.items c.datapoints) c.sd_card
    CalmEvent (works mount open_file write) c =
        CalmAction (Worker.works mount open_file write) c.sd_card

    abbrev pub CalmEvents : List Event → Core print_int print_double lib slab uplink queue → Type 0
    CalmEvents [] c = Unit {0}
    CalmEvents (e ∷ events) c =
        CalmEvent e c
        × (elim (step print_int print_double lib slab uplink queue e c) as (λ o. Type 0) [
          | none ↦ Unit {0}
          | some d ↦ CalmEvents events d
        ])

    abbrev pub view : Core print_int print_double lib slab uplink queue → List Datapoint × List ℕ
    view c = (queue.items c.datapoints, held c.sd_card)

    module _ (int_text : (n : ℤ) → IsText (print_int n))
        (double_text : (x : ℕ) → IsText (print_double x)) where
      -- What one event leaves
      abbrev Stepped : Event → Core print_int print_double lib slab uplink queue → Type 0
      Stepped e c =
          (d : Core print_int print_double lib slab uplink queue) × (step print_int print_double lib
              slab uplink queue e c
            ≡ some d)
          × Steady d.sd_card
          × (view d ≡ replay_event print_int print_double e (view c))

      no_some : {A : Type 0} {t : Run} → ◌≡◌ {A = Option Run} none (some t) → A
      no_some e = cc

      same_some : {a b : Run} → some a ≡ some b → a ≡ b
      same_some e = cc

      -- A row is added to what the writer holds.
      sink_held :
          (dp : Datapoint) (s : Run)
          → Steady s
          → length (row print_int print_double dp) < 256
          → (s.writer.active_pos + length (row print_int print_double dp) < buffer_size)
            ⊎ ((s.phase ≡ resting) × (s.writer.submitted ≡ false))
          → (ret : ℤ) × (w : Writer) × (dp_sink_sd_card print_int print_double (pos 0) dp s.writer
              ≡ some (ret, w))
            × Steady (record s { writer = w })
            × (held (record s { writer = w }) ≡ held s ++ row print_int print_double dp)
      unfolding act
      sink_held dp s v short calm =
          let line = row print_int print_double dp in
          let (t, e, u, h) =
            comes_held line s v
              (omega arith, row-IsText print_int print_double int_text double_text dp, calm) in
          elim (Option-cases (submit_line (pos 0) line (length line) s.writer)) [
            | inl n ↦ no_some (sym (rw (act, n) refl) ∙ e)
            | inr ((ret, w), p) ↦
                let q =
                  same_some {a = record s { writer = w }} {b = t} (sym (rw (act, p) refl) ∙ e) in
                (
                  ret,
                  w,
                  dp_sink_sd_card-submit_line print_int print_double dp s.writer short ∙ p,
                  subst Steady (sym q) u,
                  ap held q ∙ h,
                )
          ]

      round-Stepped :
          (r : Round) (dps : List Datapoint) (c : Core print_int print_double lib slab uplink queue)
          → queue.items c.datapoints ≡ dps
          → Steady c.sd_card
          → CalmRound r dps c.sd_card
          → Stepped (rounds r) c
      unfolding step thread_round
      round-Stepped r [] c e v calm = (
        c,
        rw (step, thread_round, queue.get_empty c.datapoints e) refl,
        v,
        subst
            (λ l.
              (l, held c.sd_card)
              ≡ replay_event print_int print_double (rounds r) (l, held c.sd_card))
            (sym e) (ap (λ l. (l, held c.sd_card)) refl),
      )
      round-Stepped r (dp ∷ dps) c e v calm =
          let (q, g, f) = queue.get_first c.datapoints dp dps e in
          let (ret, w, b, u, h) = sink_held (stamped r.now dp) c.sd_card v calm.0 calm.1 in
          (
            record {
              datapoints = q;
              uplink_state =
                  dp_sink_cellular lib slab uplink r.cellular r.encode (stamped r.now dp)
                    c.uplink_state;
              sd_card = record c.sd_card { writer = w };
            },
            rw (step, thread_round, g, b) refl,
            u,
            subst
                (λ l.
                  (queue.items q, held (record c.sd_card { writer = w }))
                  ≡ replay_event print_int print_double (rounds r) (l, held c.sd_card))
                (sym e) (ap₂ (λ a b. (a, b)) f h),
          )

      stepped :
          (e : Event) (c : Core print_int print_double lib slab uplink queue)
          → Steady c.sd_card
          → CalmEvent e c
          → Stepped e c
      unfolding step
      stepped (submits dp) c v calm =
          (_, refl, v, ap (λ l. (l, held c.sd_card)) (items-enqueue queue dp c.datapoints))
      stepped (rounds r) c v calm = round-Stepped r (queue.items c.datapoints) c refl v calm
      stepped (works mount open_file write) c v calm =
          let (t, e, u, h) = works_act mount open_file write c.sd_card v calm in
          (_, refl, subst Steady (sym e) u, ap (λ l. (queue.items c.datapoints, l)) (ap held e ∙ h))

      later :
          (e : Event) (events : List Event)
          (c d : Core print_int print_double lib slab uplink queue)
          → step print_int print_double lib slab uplink queue e c ≡ some d
          → (elim (step print_int print_double lib slab uplink queue e c) as (λ o. Type 0) [
            | none ↦ Unit {0}
            | some d ↦ CalmEvents events d
          ])
          → CalmEvents events d
      later e events c d p calm =
          subst (λ o. elim o as (λ x. Type 0) [ none ↦ Unit {0} | some d ↦ CalmEvents events d ]) p
            calm

      -- If the conversions of numbers print no null byte, and in the course of the run each row
      -- that is taken is shorter than the line buffer and makes the writer change its buffers only
      -- while the work item rests, and no file operation fails, then no event faults: in any order
      -- of submissions, rounds of the datapoint thread and steps of the work item, the queue and
      -- what log.csv, the work item and the writer hold behave as a queue that loses what comes
      -- while ten datapoints wait, and a log to which each round adds the stamped row of the oldest
      -- datapoint.
      pub run_replays :
          (events : List Event) (c : Core print_int print_double lib slab uplink queue)
          → Steady c.sd_card
          → CalmEvents events c
          → (d : Core print_int print_double lib slab uplink queue) × (run print_int print_double
                lib slab uplink queue events c
              ≡ some d)
            × (view d ≡ replay print_int print_double events (view c))
      unfolding run
      run_replays [] c v calm = (c, refl, refl)
      run_replays (e ∷ events) c v calm =
          let (d, p, u, h) = stepped e c v calm.0 in
          let (d', p', h') = run_replays events d u (later e events c d p calm.1) in
          (d', rw (p, run) p', h' ∙ ap (replay print_int print_double events) h)
