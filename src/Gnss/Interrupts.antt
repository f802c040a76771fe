-- ===== src/Gnss/Interrupts.antt =====
-- What the interrupts of the modem change while the poll handler reads a frame.
use sense_firmware.Prelude.{
  ℕ, ◌+◌, ◌≤◌, ◌≡◌, ◌∙◌, refl, ap, subst, List, [], ◌∷◌, ◌++◌, length, length-append, true, false,
  none, some, if◌then◌else◌, arith, codes, Option,
}
use sense_firmware.Kernel.{MsgQueue}
use sense_firmware.Datapoint.{Datapoint, float_datapoint}
use sense_firmware.Datapoint.Queue.{
  datapoint_queue_max_items, offer, offer-offer, items-submit_float, submit_float_datapoint,
}
use sense_firmware.Gnss.{
  Pvt, Gnss, GnssEvent, evt_pvt, evt_fix, evt_periodic_wakeup, evt_sleep_after_timeout,
  evt_sleep_after_fix, evt_other, read_pvt, event_handler, Interrupt, interrupts, State,
  submit_value, process_fix_data,
}
use sense_firmware.Gnss.Fix.{fix_datapoints}

-- The frame that an event delivers, and those of some interrupts.
abbrev pub frame : GnssEvent → Option Pvt → List Pvt
frame evt_pvt (some pvt) = pvt ∷ []
frame evt_fix (some pvt) = pvt ∷ []
frame _ _ = []

abbrev pub framed : List Interrupt → List Pvt
framed [] = []
framed ((event, read) ∷ later) = frame event read ++ framed later

-- The frames that come during one iteration of the loop of the poll handler.
abbrev pub framed_all : (ℕ → List Interrupt) → List Pvt
framed_all during =
    framed (during 0)
    ++ (framed (during 1)
        ++ (framed (during 2) ++ (framed (during 3) ++ (framed (during 4) ++ framed (during 5)))))

pub length-framed_all :
    (during : ℕ → List Interrupt)
    → length (framed_all during)
      ≡ length (framed (during 0))
        + (length (framed (during 1))
            + (length (framed (during 2))
                + (length (framed (during 3))
                    + (length (framed (during 4)) + length (framed (during 5))))))
length-framed_all during =
    let e = framed (during 4) ++ framed (during 5) in
    let d = framed (during 3) ++ e in
    let c = framed (during 2) ++ d in
    let b = framed (during 1) ++ c in
    omega (
      arith,
      length-append (framed (during 0)) b,
      length-append (framed (during 1)) c,
      length-append (framed (during 2)) d,
      length-append (framed (during 3)) e,
      length-append (framed (during 4)) (framed (during 5)),
    )

-- A frame that waits for the loop of the handler.
abbrev pub pending : Gnss → List Pvt
pending g = if g.pvt_data then g.last_pvt ∷ [] else []

-- No frame comes during an iteration.
abbrev pub Calm : (ℕ → List Interrupt) → Type 0
Calm during = (n : ℕ) → framed (during n) ≡ []

-- The frame, the semaphore and whether the handler runs are as before.
abbrev pub Same : Gnss → Gnss → Type 0
Same g h = (h.last_pvt ≡ g.last_pvt) × (h.pvt_data ≡ g.pvt_data) × (h.polling ≡ g.polling)

pub interrupts-Same : (l : List Interrupt) (g : Gnss) → framed l ≡ [] → Same g (interrupts l g)
unfolding event_handler read_pvt
interrupts-Same [] g e = (refl, refl, refl)
interrupts-Same ((evt_pvt, none) ∷ l) g e = interrupts-Same l g e
interrupts-Same ((evt_pvt, some pvt) ∷ l) g e = cc
interrupts-Same ((evt_fix, none) ∷ l) g e = interrupts-Same l g e
interrupts-Same ((evt_fix, some pvt) ∷ l) g e = cc
interrupts-Same ((evt_periodic_wakeup, read) ∷ l) g e =
    interrupts-Same l (record g { sleeping = false }) e
interrupts-Same ((evt_sleep_after_timeout, read) ∷ l) g e =
    interrupts-Same l (record g { sleeping = true }) e
interrupts-Same ((evt_sleep_after_fix, read) ∷ l) g e =
    interrupts-Same l (record g { sleeping = true }) e
interrupts-Same ((evt_other, read) ∷ l) g e = interrupts-Same l g e

-- The handler runs as before, and at most `n` more frames wait.
abbrev pub Keeps : ℕ → Gnss → Gnss → Type 0
Keeps n g h = (h.polling ≡ g.polling) × (length (pending h) ≤ length (pending g) + n)

pub interrupts-Keeps :
    (l : List Interrupt) (g : Gnss) → Keeps (length (framed l)) g (interrupts l g)
unfolding event_handler read_pvt
interrupts-Keeps [] g = (refl, omega arith)
interrupts-Keeps ((evt_pvt, none) ∷ l) g = interrupts-Keeps l g
interrupts-Keeps ((evt_pvt, some pvt) ∷ l) g =
    let (e, k) = interrupts-Keeps l (record g { last_pvt = pvt; pvt_data = true }) in
    (e, omega arith)
interrupts-Keeps ((evt_fix, none) ∷ l) g = interrupts-Keeps l g
interrupts-Keeps ((evt_fix, some pvt) ∷ l) g =
    let (e, k) = interrupts-Keeps l (record g { last_pvt = pvt; pvt_data = true }) in
    (e, omega arith)
interrupts-Keeps ((evt_periodic_wakeup, read) ∷ l) g =
    interrupts-Keeps l (record g { sleeping = false })
interrupts-Keeps ((evt_sleep_after_timeout, read) ∷ l) g =
    interrupts-Keeps l (record g { sleeping = true })
interrupts-Keeps ((evt_sleep_after_fix, read) ∷ l) g =
    interrupts-Keeps l (record g { sleeping = true })
interrupts-Keeps ((evt_other, read) ∷ l) g = interrupts-Keeps l g

module _ (queue : MsgQueue Datapoint datapoint_queue_max_items) where
  pub process_fix_data-Keeps :
      (during : ℕ → List Interrupt) (s : State queue)
      → Keeps
          (length (framed (during 1))
            + (length (framed (during 2))
                + (length (framed (during 3))
                    + (length (framed (during 4)) + length (framed (during 5))))))
          s.0
          (process_fix_data queue during s).0
  unfolding process_fix_data
  process_fix_data-Keeps during (g, q) =
      let g1 = interrupts (during 1) g in
      let g2 = interrupts (during 2) g1 in
      let g3 = interrupts (during 3) g2 in
      let g4 = interrupts (during 4) g3 in
      let (e1, k1) = interrupts-Keeps (during 1) g in
      let (e2, k2) = interrupts-Keeps (during 2) g1 in
      let (e3, k3) = interrupts-Keeps (during 3) g2 in
      let (e4, k4) = interrupts-Keeps (during 4) g3 in
      let (e5, k5) = interrupts-Keeps (during 5) g4 in
      (e5 ∙ e4 ∙ e3 ∙ e2 ∙ e1, omega (arith, k1, k2, k3, k4, k5))

  -- What is offered to the queue while the frame stays as it is.
  abbrev pub Offers : State queue → List Datapoint → State queue → Type 0
  Offers s datapoints s' = Same s.0 s'.0 × (queue.items s'.1 ≡ offer (queue.items s.1) datapoints)

  Offers-Offers :
      (s s1 s2 : State queue) (first later : List Datapoint)
      → Offers s first s1
      → Offers s1 later s2
      → Offers s (first ++ later) s2
  Offers-Offers s s1 s2 first later ((a, b, c), i) ((a', b', c'), i') = (
    (a' ∙ a, b' ∙ b, c' ∙ c),
    i' ∙ ap (λ l. offer l later) i ∙ offer-offer (queue.items s.1) first later,
  )

  submit_value-Offers :
      (value : Pvt → ℕ) (label unit : List ℕ) (l : List Interrupt) (pvt : Pvt) (s : State queue)
      → framed l ≡ []
      → s.0.last_pvt ≡ pvt
      → Offers s
          (float_datapoint (value pvt) label unit ∷ [])
          (submit_value queue value label unit l s)
  submit_value-Offers value label unit l pvt (g, q) calm e =
      let same = interrupts-Same l g calm in
      (
        same,
        subst
            (λ f.
              queue.items
                (submit_float_datapoint queue (value (interrupts l g).last_pvt) label unit q).1
              ≡ offer (queue.items q) (float_datapoint (value f) label unit ∷ []))
            (same.0 ∙ e) (items-submit_float queue (value (interrupts l g).last_pvt) label unit q),
      )

  pub process_fix_data-Offers :
      (during : ℕ → List Interrupt) (s : State queue)
      → Calm during
      → Offers s (fix_datapoints s.0.last_pvt) (process_fix_data queue during s)
  unfolding process_fix_data
  process_fix_data-Offers during s calm =
      let pvt = s.0.last_pvt in
      let s1 = submit_value queue (λ f. f.latitude) (codes "gnss_lat") (codes "deg") (during 1) s in
      let o1 =
        submit_value-Offers (λ f. f.latitude) (codes "gnss_lat") (codes "deg") (during 1) pvt s
          (calm 1) refl in
      let s2 =
        submit_value queue (λ f. f.longitude) (codes "gnss_long") (codes "deg") (during 2) s1 in
      let o2 = Offers-Offers s s1 s2 _ _ o1 (
        submit_value-Offers (λ f. f.longitude) (codes "gnss_long") (codes "deg") (during 2) pvt s1
          (calm 2) o1.0.0) in
      let s3 =
        submit_value queue (λ f. f.accuracy) (codes "gnss_accuracy") (codes "m") (during 3) s2 in
      let o3 = Offers-Offers s s2 s3 _ _ o2 (
        submit_value-Offers (λ f. f.accuracy) (codes "gnss_accuracy") (codes "m") (during 3) pvt s2
          (calm 3) o2.0.0) in
      let s4 = submit_value queue (λ f. f.altitude) (codes "gnss_alt") (codes "m") (during 4) s3 in
      let o4 = Offers-Offers s s3 s4 _ _ o3 (
        submit_value-Offers (λ f. f.altitude) (codes "gnss_alt") (codes "m") (during 4) pvt s3
          (calm 4) o3.0.0) in
      Offers-Offers s s4 (process_fix_data queue during s) _ _ o4 (
        submit_value-Offers (λ f. f.altitude_accuracy) (codes "gnss_alt_accuracy") (codes "m")
          (during 5) pvt s4 (calm 5) o4.0.0)
