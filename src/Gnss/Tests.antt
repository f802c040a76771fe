-- ===== src/Gnss/Tests.antt =====
-- Tests of the GNSS receiver, with a queue that is a list.
use sense_firmware.Prelude.{◌≤◌, ◌==◌, ◌≡◌, List, [], ◌∷◌, arith, refl, true, false, some, pos}
use sense_firmware.Gnss.Satellites.{Sv, log_satellite_stats, log_satellite_stats-Counted}
use sense_firmware.Kernel.{MsgQueue}
use sense_firmware.Kernel.Reference.{list_queue}
use sense_firmware.Datapoint.{Datapoint}
use sense_firmware.Datapoint.Queue.{datapoint_queue_max_items, offer}
use sense_firmware.Sensors.{unscheduled}
use sense_firmware.Gnss.{Pvt, Gnss, evt_pvt, evt_fix}
use sense_firmware.Gnss.Reports.{
  Action, happens, begins, iterates, Reported, fixes, run, run_reports,
}
use sense_firmware.Gnss.Fix.{fix_datapoints}
use sense_firmware.Gnss.Polls.{quiet, poll_ends, fix_reported}
use sense_firmware.Gnss.Repeated.{meanwhile, fix_repeated}

abbrev queue : MsgQueue Datapoint datapoint_queue_max_items
queue = list_queue Datapoint datapoint_queue_max_items

abbrev position : Pvt
position = record {
  latitude = 1;
  longitude = 2;
  accuracy = 3;
  altitude = 4;
  altitude_accuracy = 5;
  fix_valid = true;
}

abbrev searching : Pvt
searching = record position { fix_valid = false }

abbrev pub receiver : Gnss
receiver = record {
  last_pvt = searching;
  sleeping = false;
  pvt_data = false;
  fix_retry_period = 60;
  fix_interval = 120;
  work = unscheduled (pos 500);
  polling = false;
}

-- A frame without a fix, which is overwritten by a fix before the loop looks at it.
abbrev actions : List Action
actions =
    happens evt_pvt (some searching)
    ∷ begins
    ∷ happens evt_fix (some position)
    ∷ iterates quiet
    ∷ iterates quiet
    ∷ []

run_reports_example :
    (reported : List Pvt) × Reported reported (searching ∷ position ∷ [])
    × (queue.items (run queue actions (receiver, [])).1 ≡ offer [] (fixes reported))
run_reports_example = run_reports queue actions (receiver, []) ((λ n. refl), ((λ n. refl), tt))

poll_ends_example :
    (run queue
      (happens evt_pvt (some searching) ∷ iterates quiet ∷ iterates quiet ∷ iterates quiet ∷ [])
      (record receiver { polling = true }, [])).0.polling
    ≡ false
poll_ends_example =
    poll_ends queue
      (happens evt_pvt (some searching) ∷ iterates quiet ∷ iterates quiet ∷ iterates quiet ∷ [])
      (record receiver { polling = true }, []) refl (omega arith)

fix_reported_example :
    let (g', q') =
      run queue
        (happens evt_fix (some position) ∷ begins ∷ iterates quiet ∷ iterates quiet ∷ [])
        (receiver, []) in
    (queue.items q' ≡ offer [] (fix_datapoints position)) × (g'.polling ≡ false)
fix_reported_example = fix_reported queue position receiver [] refl refl refl

fix_repeated_example :
    let (g', q') =
      run queue
        (happens evt_pvt (some searching)
          ∷ begins
          ∷ iterates (meanwhile position)
          ∷ iterates quiet
          ∷ iterates quiet
          ∷ [])
        (receiver, []) in
    (queue.items q' ≡ offer [] (fixes (position ∷ position ∷ []))) × (g'.polling ≡ false)
fix_repeated_example = fix_repeated queue searching position receiver [] refl refl refl

-- Three satellites, of which one is not named; flag 2 is for the fix, 8 for the health.
abbrev satellites : List Sv
satellites =
    record { sv = 5; flags = 2 } ∷ record { sv = 0; flags = 2 } ∷ record { sv = 9; flags = 8 } ∷ []

log_satellite_stats-Counted_example :
    let t = log_satellite_stats (λ f. f == 2) (λ f. f == 8) satellites in
    (t.tracked ≡ 2)
    × (t.in_fix ≡ 1)
    × (t.unhealthy ≡ 1)
    × (t.in_fix ≤ t.tracked)
    × (t.unhealthy ≤ t.tracked)
log_satellite_stats-Counted_example =
    log_satellite_stats-Counted (λ f. f == 2) (λ f. f == 8) satellites (omega arith)
