-- ===== src/Gnss/Reports.antt =====
-- Which frames of the GNSS receiver become datapoints.
use sense_firmware.Prelude.{
  ℕ, ◌≡◌, ◌∙◌, ◌⊎◌, Bool, false, refl, ap, sym, subst, List, [], ◌∷◌, ◌++◌, true, Bool-cases, arith,
  inl, inr, Option, none, some, if◌then◌else◌, ℤ,
}
use sense_firmware.Kernel.{MsgQueue}
use sense_firmware.Datapoint.{Datapoint}
use sense_firmware.Datapoint.Queue.{datapoint_queue_max_items, offer, offer_none, offer-offer}
use sense_firmware.Gnss.Fix.{fix_datapoints}
use sense_firmware.Gnss.Interrupts.{
  frame, framed_all, pending, Calm, interrupts-Same, process_fix_data-Offers,
}
use sense_firmware.Gnss.{
  Pvt, Gnss, GnssEvent, evt_pvt, evt_fix, evt_periodic_wakeup, evt_sleep_after_timeout,
  evt_sleep_after_fix, evt_other, read_pvt, event_handler, Interrupt, interrupts, State,
  process_fix_data, poll_begin, poll_iterate, gnss_set_poll_interval,
}

-- Those of some fixes, in order.
abbrev pub fixes : List Pvt → List Datapoint
fixes [] = []
fixes (pvt ∷ later) = fix_datapoints pvt ++ fixes later

-- Some of the delivered frames, in order and each at most once, all with a valid fix.
pub data Reported : List Pvt → List Pvt → Type 0 where
  nothing : Reported [] []
  left_out :
      {reported delivered : List Pvt} {pvt : Pvt}
      → Reported reported delivered
      → Reported reported (pvt ∷ delivered)
  taken :
      {reported delivered : List Pvt} {pvt : Pvt}
      → pvt.fix_valid ≡ true
      → Reported reported delivered
      → Reported (pvt ∷ reported) (pvt ∷ delivered)

-- What may happen: an event, the start of the poll handler, a test of its loop's condition with the
-- iteration behind it and the interrupts that come during it, or a new interval. The handler is
-- started only when it does not run, and its loop goes on only when it does.
pub data Action : Type 0 where
  happens : GnssEvent → Option Pvt → Action
  begins : Action
  iterates : (ℕ → List Interrupt) → Action
  sets : ℤ → Action

abbrev pub frames : Action → List Pvt
frames (happens event read) = frame event read
frames (iterates during) = framed_all during
frames _ = []

abbrev pub delivered : List Action → List Pvt
delivered [] = []
delivered (action ∷ later) = frames action ++ delivered later

-- No frame comes during an iteration.
abbrev pub AllCalm : List Action → Type 0
AllCalm [] = Unit
AllCalm (iterates during ∷ later) = Calm during × AllCalm later
AllCalm (_ ∷ later) = AllCalm later

module _ (queue : MsgQueue Datapoint datapoint_queue_max_items) where
  abbrev pub step : Action → State queue → State queue
  step (happens event read) (g, q) = (event_handler event read g, q)
  step begins (g, q) = if g.polling then (g, q) else poll_begin queue (g, q)
  step (iterates during) (g, q) = if g.polling then poll_iterate queue during (g, q) else (g, q)
  step (sets interval_ms) (g, q) = (gnss_set_poll_interval interval_ms g, q)

  abbrev pub run : List Action → State queue → State queue
  run [] s = s
  run (action ∷ later) s = run later (step action s)

  -- What the rest of a run reports, of the frames that wait and are to come.
  abbrev Reports : State queue → List Pvt → State queue → Type 0
  Reports s to_come s' =
      (reported : List Pvt) × Reported reported to_come
      × (queue.items s'.1 ≡ offer (queue.items s.1) (fixes reported))

  not_pending :
      (g : Gnss) (q : queue.Queue) (to_come : List Pvt) (s' : State queue)
      → Reports (g, q) to_come s'
      → Reports (g, q) (pending g ++ to_come) s'
  not_pending g q to_come s' (reported, r, e) = elim (Bool-cases g.pvt_data) [
    | inl h ↦ (reported, rw h (left_out r), e)
    | inr h ↦ (reported, rw h r, e)
  ]

  -- A step that leaves both the frame that waits and the queue
  same :
      (s s1 : State queue) (to_come : List Pvt) (s' : State queue)
      → pending s1.0 ≡ pending s.0
      → s1.1 ≡ s.1
      → Reports s1 (pending s1.0 ++ to_come) s'
      → Reports s (pending s.0 ++ to_come) s'
  same s s1 to_come s' w i (reported, r, e) = (
    reported,
    subst (λ l. Reported reported (l ++ to_come)) w r,
    e ∙ ap (λ q. offer (queue.items q) (fixes reported)) i,
  )

  -- An iteration of the loop during which no frame comes: it takes the frame, and offers its values if
  -- it has a valid fix.
  abbrev Consumes : Gnss → queue.Queue → State queue → Type 0
  Consumes g q s1 =
      (pending s1.0 ≡ [])
      × (((g.last_pvt.fix_valid ≡ true)
            × (queue.items s1.1 ≡ offer (queue.items q) (fix_datapoints g.last_pvt)))
          ⊎ (queue.items s1.1 ≡ queue.items q))

  poll_iterate-Consumes :
      (during : ℕ → List Interrupt) (g : Gnss) (q : queue.Queue)
      → Calm during
      → g.pvt_data ≡ true
      → Consumes g q (poll_iterate queue during (g, q))
  unfolding poll_iterate
  poll_iterate-Consumes during g q calm f = rw f (either g'.last_pvt.fix_valid refl)
    where
      g' : Gnss
      g' = interrupts (during 0) (record g { pvt_data = false })

      same : (g'.last_pvt ≡ g.last_pvt) × (g'.pvt_data ≡ false) × (g'.polling ≡ g.polling)
      same = interrupts-Same (during 0) (record g { pvt_data = false }) (calm 0)

      either :
          (valid : Bool)
          → g'.last_pvt.fix_valid ≡ valid
          → Consumes g q (if valid then process_fix_data queue during (g', q) else (g', q))
      either false e = (rw same.1 refl, inr refl)
      either true e =
          let ((_, d, _), i) = process_fix_data-Offers queue during (g', q) calm in
          (
            rw (d, same.1) refl,
            inl (
              ap (λ f. f.fix_valid) (sym same.0) ∙ e,
              i ∙ ap (λ f. offer (queue.items q) (fix_datapoints f)) same.0,
            ),
          )

  consumed :
      (g : Gnss) (q : queue.Queue) (s1 : State queue) (to_come : List Pvt) (s' : State queue)
      → pending g ≡ g.last_pvt ∷ []
      → Consumes g q s1
      → Reports s1 (pending s1.0 ++ to_come) s'
      → Reports (g, q) (pending g ++ to_come) s'
  consumed g q s1 to_come s' w (u, inl (h, i)) (reported, r, e) = (
    g.last_pvt ∷ reported,
    rw w (taken h (subst (λ l. Reported reported (l ++ to_come)) u r)),
    e
        ∙ ap (λ l. offer l (fixes reported)) i
        ∙ offer-offer (queue.items q) (fix_datapoints g.last_pvt) (fixes reported),
  )
  consumed g q s1 to_come s' w (u, inr i) (reported, r, e) = (
    reported,
    rw w (left_out (subst (λ l. Reported reported (l ++ to_come)) u r)),
    e ∙ ap (λ l. offer l (fixes reported)) i,
  )

  pub iterates_on :
      (during : ℕ → List Interrupt) (g : Gnss) (q : queue.Queue)
      → g.polling ≡ true
      → step (iterates during) (g, q) ≡ poll_iterate queue during (g, q)
  iterates_on during g q e = ground (arith, e)

  iterates_reports :
      (during : ℕ → List Interrupt) (g : Gnss) (q : queue.Queue) (to_come : List Pvt)
      (s' : State queue)
      → Calm during
      → let s1 = step (iterates during) (g, q) in
        Reports s1 (pending s1.0 ++ to_come) s' → Reports (g, q) (pending g ++ to_come) s'
  unfolding poll_iterate
  iterates_reports during g q to_come s' calm ih = elim (Bool-cases g.polling) [
    | inr e ↦ same (g, q) (step (iterates during) (g, q)) to_come s' (rw e refl) (rw e refl) ih
    | inl e ↦ elim (Bool-cases g.pvt_data) [
      | inr f ↦
          same (g, q) (step (iterates during) (g, q)) to_come s' (rw (e, f) refl) (rw (e, f) refl)
            ih
      | inl f ↦
          consumed g q (step (iterates during) (g, q)) to_come s' (rw f refl)
            (subst (Consumes g q) (sym (iterates_on during g q e))
              (poll_iterate-Consumes during g q calm f))
            ih
    ]
  ]

  step_reports :
      (action : Action) (g : Gnss) (q : queue.Queue) (to_come : List Pvt) (s' : State queue)
      → AllCalm (action ∷ [])
      → let s1 = step action (g, q) in
        Reports s1 (pending s1.0 ++ to_come) s'
        → Reports (g, q) (pending g ++ (frames action ++ to_come)) s'
  unfolding event_handler read_pvt poll_begin
  step_reports (happens evt_pvt none) g q to_come s' calm ih = ih
  step_reports (happens evt_pvt (some pvt)) g q to_come s' calm ih =
      not_pending g q (pvt ∷ to_come) s' ih
  step_reports (happens evt_fix none) g q to_come s' calm ih = ih
  step_reports (happens evt_fix (some pvt)) g q to_come s' calm ih =
      not_pending g q (pvt ∷ to_come) s' ih
  step_reports (happens evt_periodic_wakeup read) g q to_come s' calm ih = ih
  step_reports (happens evt_sleep_after_timeout read) g q to_come s' calm ih = ih
  step_reports (happens evt_sleep_after_fix read) g q to_come s' calm ih = ih
  step_reports (happens evt_other read) g q to_come s' calm ih = ih
  step_reports (sets interval_ms) g q to_come s' calm ih = ih
  step_reports (iterates during) g q to_come s' (calm, _) ih =
      rw (calm 0, calm 1, calm 2, calm 3, calm 4, calm 5)
        (iterates_reports during g q to_come s' calm ih)
  step_reports begins g q to_come s' calm ih = elim (Bool-cases g.polling) [
    | inl e ↦ same (g, q) (step begins (g, q)) to_come s' (rw e refl) (rw e refl) ih
    | inr e ↦ elim (Bool-cases g.sleeping) [
      | inl f ↦ same (g, q) (step begins (g, q)) to_come s' (rw (e, f) refl) (rw (e, f) refl) ih
      | inr f ↦ same (g, q) (step begins (g, q)) to_come s' (rw (e, f) refl) (rw (e, f) refl) ih
    ]
  ]

  finally : (g : Gnss) (q : queue.Queue) → Reports (g, q) (pending g ++ []) (g, q)
  finally g q = not_pending g q [] (g, q) ([], nothing, sym (offer_none (queue.items q)))

  AllCalm-split :
      (action : Action) (later : List Action)
      → AllCalm (action ∷ later)
      → AllCalm (action ∷ []) × AllCalm later
  AllCalm-split (happens event read) later c = (tt, c)
  AllCalm-split begins later c = (tt, c)
  AllCalm-split (iterates during) later (calm, c) = ((calm, tt), c)
  AllCalm-split (sets interval_ms) later c = (tt, c)

  -- Whatever events come, in whatever order with the poll handler's start and its iterations, if no
  -- frame is delivered in the course of an iteration, from taking the semaphore to the last read of
  -- the frame, then what the receiver offers to the queue of datapoints is the five values of some
  -- frames: each was waiting at the start of the run or was delivered by an event, has a valid fix,
  -- and is reported at most once and in the order of delivery. Nothing else uses the queue
  -- meanwhile.
  pub run_reports :
      (actions : List Action) (s : State queue)
      → AllCalm actions
      → (reported : List Pvt) × Reported reported (pending s.0 ++ delivered actions)
        × (queue.items (run actions s).1 ≡ offer (queue.items s.1) (fixes reported))
  run_reports [] (g, q) c = finally g q
  run_reports (action ∷ later) (g, q) c =
      let (first, rest) = AllCalm-split action later c in
      step_reports action g q (delivered later) (run later (step action (g, q))) first
        (run_reports later (step action (g, q)) rest)
