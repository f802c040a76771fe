-- ===== src/Gnss/Polls.antt =====
-- The poll handler of the GNSS receiver: that it ends, and what it misses.
use sense_firmware.Prelude.{
  ℕ, zero, suc, ◌+◌, ◌<◌, ◌≤◌, ◌≡◌, ◌∙◌, refl, ap, List, [], ◌∷◌, ◌++◌, length, length-append, sym,
  subst, replicate, Bool, true, false, Bool-cases, ◌⊎◌, inl, inr, none, some, if◌then◌else◌, arith,
}
use sense_firmware.Kernel.{MsgQueue}
use sense_firmware.Datapoint.{Datapoint}
use sense_firmware.Datapoint.Queue.{datapoint_queue_max_items, offer}
use sense_firmware.Sensors.{PollWork, set_poll_interval}
use sense_firmware.Gnss.{
  Pvt, Gnss, evt_pvt, evt_fix, evt_periodic_wakeup, evt_sleep_after_timeout, evt_sleep_after_fix,
  evt_other, read_pvt, event_handler, Interrupt, interrupts, State, process_fix_data, poll_begin,
  poll_iterate,
}
use sense_firmware.Gnss.Reports.{
  Action, happens, begins, iterates, iterates_on, sets, delivered, step, run,
}
use sense_firmware.Gnss.Interrupts.{
  framed, framed_all, length-framed_all, pending, Keeps, interrupts-Keeps, process_fix_data-Keeps,
  process_fix_data-Offers,
}
use sense_firmware.Gnss.Fix.{fix_datapoints}

-- How often the condition of the loop is tested, and how often the handler is started.
abbrev pub iterations : List Action → ℕ
iterations [] = 0
iterations (iterates during ∷ later) = suc (iterations later)
iterations (_ ∷ later) = iterations later

abbrev pub starts : List Action → ℕ
starts [] = 0
starts (begins ∷ later) = suc (starts later)
starts (_ ∷ later) = starts later

starts_later :
    (action : Action) (later : List Action) → starts (action ∷ later) ≡ 0 → starts later ≡ 0
starts_later (happens event read) later h = h
starts_later begins later h = absurd (omega arith)
starts_later (iterates during) later h = h
starts_later (sets interval_ms) later h = h

-- No interrupt comes.
abbrev pub quiet : ℕ → List Interrupt
quiet n = []

-- A fix, the sleep after it with `n` polls, and the first frame after it, without a fix.
abbrev pub missed : ℕ → Pvt → Pvt → List Action
missed n fix next =
    happens evt_fix (some fix)
    ∷ happens evt_sleep_after_fix none
    ∷ (replicate n begins
        ++ happens evt_periodic_wakeup none
          ∷ happens evt_pvt (some next)
          ∷ begins
          ∷ iterates quiet
          ∷ iterates quiet
          ∷ [])

module _ (queue : MsgQueue Datapoint datapoint_queue_max_items) where
  -- The handler ended, or its loop is tested often enough to end.
  abbrev Ends : State queue → List Action → Type 0
  Ends s actions =
      (s.0.polling ≡ false)
      ⊎ (length (pending s.0) + length (delivered actions) < iterations actions)

  delivers :
      (g h : Gnss) (actions : List Action) (pvt : Pvt)
      → h.polling ≡ g.polling
      → length (pending h) ≡ 1
      → (q : queue.Queue)
      → (g.polling ≡ false)
        ⊎ (length (pending g) + suc (length (delivered actions)) < iterations actions)
      → Ends (h, q) actions
  delivers g h actions pvt e k q (inl p) = inl (e ∙ p)
  delivers g h actions pvt e k q (inr p) = inr (omega arith)

  -- An iteration takes the frame that waits, and those that come during it may leave one.
  poll_iterate-Keeps :
      (during : ℕ → List Interrupt) (g : Gnss) (q : queue.Queue)
      → g.pvt_data ≡ true
      → let g' = (poll_iterate queue during (g, q)).0 in
        (g'.polling ≡ g.polling) × (length (pending g') ≤ length (framed_all during))
  unfolding poll_iterate
  poll_iterate-Keeps during g q f = rw f (either g'.last_pvt.fix_valid)
    where
      g' : Gnss
      g' = interrupts (during 0) (record g { pvt_data = false })

      begun : Keeps (length (framed (during 0))) (record g { pvt_data = false }) g'
      begun = interrupts-Keeps (during 0) (record g { pvt_data = false })

      either :
          (valid : Bool)
          → let h = (if valid then process_fix_data queue during (g', q) else (g', q)).0 in
            (h.polling ≡ g.polling) × (length (pending h) ≤ length (framed_all during))
      either false = (begun.0, omega (arith, begun.1, length-framed_all during))
      either true =
          let (e, k) = process_fix_data-Keeps queue during (g', q) in
          (e ∙ begun.0, omega (arith, k, begun.1, length-framed_all during))

  iterates-Ends :
      (during : ℕ → List Interrupt) (g : Gnss) (q : queue.Queue) (later : List Action)
      → (g.polling ≡ false)
        ⊎ (length (pending g) + length (framed_all during ++ delivered later)
            < suc (iterations later))
      → Ends (step queue (iterates during) (g, q)) later
  unfolding poll_iterate
  iterates-Ends during g q later (inl p) = inl (rw p refl)
  iterates-Ends during g q later (inr p) = elim (Bool-cases g.polling) [
    | inr e ↦ inl (rw e refl)
    | inl e ↦ elim (Bool-cases g.pvt_data) [
      | inr f ↦ inl (rw (e, f) refl)
      | inl f ↦
          subst (λ s. Ends s later) (sym (iterates_on queue during g q e))
            (let (_, k) = poll_iterate-Keeps during g q f in
              inr (ground (arith, f, k, p, length-append (framed_all during) (delivered later))))
    ]
  ]

  step-Ends :
      (action : Action) (g : Gnss) (q : queue.Queue) (later : List Action)
      → starts (action ∷ later) ≡ 0
      → Ends (g, q) (action ∷ later)
      → Ends (step queue action (g, q)) later
  unfolding event_handler read_pvt
  step-Ends (happens evt_pvt none) g q later h v = v
  step-Ends (happens evt_pvt (some pvt)) g q later h v =
      delivers g (step queue (happens evt_pvt (some pvt)) (g, q)).0 later pvt refl refl q v
  step-Ends (happens evt_fix none) g q later h v = v
  step-Ends (happens evt_fix (some pvt)) g q later h v =
      delivers g (step queue (happens evt_fix (some pvt)) (g, q)).0 later pvt refl refl q v
  step-Ends (happens evt_periodic_wakeup read) g q later h v = v
  step-Ends (happens evt_sleep_after_timeout read) g q later h v = v
  step-Ends (happens evt_sleep_after_fix read) g q later h v = v
  step-Ends (happens evt_other read) g q later h v = v
  step-Ends (sets interval_ms) g q later h v = v
  step-Ends begins g q later h v = absurd (omega arith)
  step-Ends (iterates during) g q later h v = iterates-Ends during g q later v

  run-Ends :
      (actions : List Action) (s : State queue)
      → starts actions ≡ 0
      → Ends s actions
      → (run queue actions s).0.polling ≡ false
  run-Ends [] s h (inl e) = e
  run-Ends [] s h (inr p) = absurd (omega arith)
  run-Ends (action ∷ later) (g, q) h v =
      run-Ends later (step queue action (g, q)) (starts_later action later h)
        (step-Ends action g q later h v)

  -- A poll that has begun ends: whatever events come meanwhile, once the condition of the loop has been
  -- tested at least two more times than frames were delivered, the handler is no longer in its loop, if
  -- it was not started again.
  pub poll_ends :
      (actions : List Action) (s : State queue)
      → starts actions ≡ 0
      → length (delivered actions) + 2 ≤ iterations actions
      → (run queue actions s).0.polling ≡ false
  poll_ends actions s h k = run-Ends actions s h (inr (ground (arith, k)))

  -- The rest of the handler after it took a frame and read its flags.
  pub rest_of_poll :
      (g : Gnss) (q : queue.Queue) (valid : Bool)
      → valid ≡ true
      → let h = record g { pvt_data = false; polling = true } in
        let (g', q') =
          step queue
            (iterates quiet)
            (if valid then process_fix_data queue quiet (h, q) else (h, q)) in
        (queue.items q' ≡ offer (queue.items q) (fix_datapoints g.last_pvt)) × (g'.polling ≡ false)
  unfolding process_fix_data poll_iterate
  rest_of_poll g q true e =
      let h = record g { pvt_data = false; polling = true } in
      ((process_fix_data-Offers queue quiet (h, q) (λ n. refl)).1, refl)
  rest_of_poll g q false e = cc

  -- A frame with a valid fix that is delivered to a receiver that is awake, while its handler does
  -- not run, and that is polled before anything else happens and without an interrupt, is offered
  -- to the queue with its five values, and the handler ends.
  pub fix_reported :
      (fix : Pvt) (g : Gnss) (q : queue.Queue)
      → g.polling ≡ false
      → g.sleeping ≡ false
      → fix.fix_valid ≡ true
      → let (g', q') =
          run queue
            (happens evt_fix (some fix) ∷ begins ∷ iterates quiet ∷ iterates quiet ∷ [])
            (g, q) in
        (queue.items q' ≡ offer (queue.items q) (fix_datapoints fix)) × (g'.polling ≡ false)
  unfolding event_handler read_pvt poll_begin poll_iterate
  fix_reported fix g q p s e =
      rw (p, s) (rest_of_poll (record g { last_pvt = fix; sleeping = false }) q fix.fix_valid e)

  -- Polls of a receiver that sleeps change its work item only.
  asleep_polls :
      (n : ℕ) (later : List Action) (g : Gnss) (q : queue.Queue)
      → (w : PollWork) × (run queue
            (replicate n begins ++ later)
            (record g { sleeping = true; polling = false }, q)
          ≡ run queue later (record g { sleeping = true; work = w; polling = false }, q))
  unfolding poll_begin
  asleep_polls zero later g q = (g.work, refl)
  asleep_polls (suc n) later g q =
      asleep_polls n later (record g { work = set_poll_interval g.work.poll_interval_ms g.work }) q

  wakes :
      (next : Pvt) (g : Gnss) (q : queue.Queue)
      → next.fix_valid ≡ false
      → (run queue
          (happens evt_periodic_wakeup none
            ∷ happens evt_pvt (some next)
            ∷ begins
            ∷ iterates quiet
            ∷ iterates quiet
            ∷ [])
          (record g { sleeping = true; polling = false }, q)).1
        ≡ q
  unfolding event_handler read_pvt poll_begin poll_iterate
  wakes next g q e = rw e refl

  -- A fix that comes while the handler does not run is lost if the receiver goes to sleep before
  -- the next poll: however often the handler polls during the sleep, and with a first frame after
  -- it that has no fix, nothing is added to the queue.
  pub fix_lost :
      (n : ℕ) (fix next : Pvt) (g : Gnss) (q : queue.Queue)
      → g.polling ≡ false
      → next.fix_valid ≡ false
      → (run queue (missed n fix next) (g, q)).1 ≡ q
  unfolding event_handler read_pvt
  fix_lost n fix next g q p e =
      let (w, a) =
        asleep_polls n
          (happens evt_periodic_wakeup none
            ∷ happens evt_pvt (some next)
            ∷ begins
            ∷ iterates quiet
            ∷ iterates quiet
            ∷ [])
          (record g { last_pvt = fix; pvt_data = true }) q in
      ap (λ b. (run queue (missed n fix next) (record g { polling = b }, q)).1) p
      ∙ ap (λ s. s.1) a
      ∙ wakes next (record g { last_pvt = fix; pvt_data = true; work = w }) q e
