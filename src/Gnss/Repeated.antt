-- ===== src/Gnss/Repeated.antt =====
-- Frames that come between taking the semaphore and reading the frame.
use sense_firmware.Prelude.{
  ℕ, ◌≡◌, ◌∙◌, refl, ap, List, [], ◌∷◌, true, false, some, if◌then◌else◌, ◌==◌, Bool,
}
use sense_firmware.Kernel.{MsgQueue}
use sense_firmware.Datapoint.{Datapoint}
use sense_firmware.Datapoint.Queue.{datapoint_queue_max_items, offer, offer-offer}
use sense_firmware.Gnss.{
  Pvt, Gnss, evt_pvt, evt_fix, read_pvt, event_handler, Interrupt, process_fix_data, poll_begin,
  poll_iterate,
}
use sense_firmware.Gnss.Fix.{fix_datapoints}
use sense_firmware.Gnss.Interrupts.{process_fix_data-Offers}
use sense_firmware.Gnss.Reports.{happens, begins, iterates, fixes, run}
use sense_firmware.Gnss.Polls.{quiet, rest_of_poll}

-- A frame that comes before the flags are read.
abbrev pub meanwhile : Pvt → ℕ → List Interrupt
meanwhile pvt n = if n == 0 then (evt_fix, some pvt) ∷ [] else []

module _ (queue : MsgQueue Datapoint datapoint_queue_max_items) where
  second_round :
      (g : Gnss) (q : queue.Queue) (valid : Bool)
      → valid ≡ true
      → g.last_pvt.fix_valid ≡ true
      → let h = record g { pvt_data = true; polling = true } in
        let (g', q') =
          run queue
            (iterates quiet ∷ iterates quiet ∷ [])
            (if valid then process_fix_data queue quiet (h, q) else (h, q)) in
        (queue.items q' ≡ offer (queue.items q) (fixes (g.last_pvt ∷ g.last_pvt ∷ [])))
        × (g'.polling ≡ false)
  unfolding process_fix_data poll_iterate
  second_round g q true v e =
      let h = record g { pvt_data = true; polling = true } in
      let s1 = process_fix_data queue quiet (h, q) in
      let (i, p) = rest_of_poll queue h s1.1 g.last_pvt.fix_valid e in
      (
        i
            ∙ ap (λ l. offer l (fix_datapoints g.last_pvt))
                (process_fix_data-Offers queue quiet (h, q) (λ n. refl)).1
            ∙ offer-offer (queue.items q) (fix_datapoints g.last_pvt) (fix_datapoints g.last_pvt),
        p,
      )
  second_round g q false v e = cc

  -- A frame with a valid fix that comes while the handler handles an earlier one, after it took the
  -- semaphore and before it read the flags, is reported twice if nothing else happens: the
  -- iteration reads it instead of the earlier frame, which is not reported, and the semaphore that
  -- its event gave makes the next iteration read it again. The receiver is awake and its handler
  -- did not run before.
  pub fix_repeated :
      (first second : Pvt) (g : Gnss) (q : queue.Queue)
      → g.polling ≡ false
      → g.sleeping ≡ false
      → second.fix_valid ≡ true
      → let (g', q') =
          run queue
            (happens evt_pvt (some first)
              ∷ begins
              ∷ iterates (meanwhile second)
              ∷ iterates quiet
              ∷ iterates quiet
              ∷ [])
            (g, q) in
        (queue.items q' ≡ offer (queue.items q) (fixes (second ∷ second ∷ [])))
        × (g'.polling ≡ false)
  unfolding event_handler read_pvt poll_begin poll_iterate process_fix_data
  fix_repeated first second g q p s e =
      rw (p, s)
        (second_round (record g { last_pvt = second; sleeping = false }) q second.fix_valid e e)
