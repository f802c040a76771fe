-- ===== src/Datapoint/Pipeline/Tests.antt =====
-- A test of the path to log.csv: a reading comes while the work item writes what the last one
-- handed over.
use sense_firmware.Prelude.{
  ◌≡◌, memcpy, inl, inr, refl, List, [], ◌∷◌, ◌++◌, some, arith, replicate, pos,
}
use sense_firmware.Coap.Tests.{unlimited}
use sense_firmware.Cellular.Tests.{slab, queue, empty}
use sense_firmware.SdCard.{Writer, fresh, strnlen, submit_line}
use sense_firmware.SdCard.Lines.{replicate-IsText}
use sense_firmware.SdCard.Worker.{resting, work_step, work_begin, work_measure, work_write}
use sense_firmware.SdCard.Worker.Held.{Steady}
use sense_firmware.Datapoint.{
  dp_sink_sd_card, dp_sink_cellular, datapoint_to_csv, put_fields, snprintf_at,
}
use sense_firmware.Datapoint.Queue.{datapoint_enqueue}
use sense_firmware.Datapoint.Thread.{thread_round, stamped, to_seconds}
use sense_firmware.Datapoint.Tests.{
  tally, bits, tally-IsText, bits-IsText, reading, round, waiting, card,
}
use sense_firmware.Datapoint.Pipeline.{Event, submits, rounds, works, Core, step, run, replay}
use sense_firmware.Datapoint.Pipeline.Logged.{CalmEvents, view, run_replays}

-- A writer whose text leaves no room for a row
abbrev filled : Writer
filled = record fresh { active = replicate 1015 97 ++ replicate 9 0; active_pos = 1015 }

abbrev core : Core tally bits unlimited slab queue waiting
core = record {
  datapoints = [];
  uplink_state = empty;
  sd_card = record { writer = filled; card = card; phase = resting };
}

abbrev goes_on : Event
goes_on = works (pos 0) (pos 0) (pos 1015)

abbrev events : List Event
events =
    submits reading
    ∷ submits reading
    ∷ rounds round
    ∷ goes_on
    ∷ goes_on
    ∷ rounds round
    ∷ goes_on
    ∷ []

core_Steady : Steady core.sd_card
core_Steady = record {
  valid = record { active_size = refl; flush_size = refl; room = omega arith };
  text = replicate-IsText 1015 97 (λ e. omega arith);
  measures = tt;
}

events_Calm : CalmEvents tally bits unlimited slab queue waiting events core
unfolding step datapoint_enqueue thread_round dp_sink_sd_card dp_sink_cellular datapoint_to_csv
    put_fields snprintf_at memcpy submit_line stamped to_seconds strnlen work_step work_begin
    work_measure work_write
events_Calm = (
  tt,
  (
    tt,
    (
      (omega arith, inr (refl, refl)),
      (
        (refl, refl, refl),
        ((refl, refl, refl), ((omega arith, inl (omega arith)), ((refl, refl, refl), tt))),
      ),
    ),
  ),
)

run_replays_example :
    (d : Core tally bits unlimited slab queue waiting) × (run tally bits unlimited slab queue
        waiting events core
      ≡ some d)
    × (view tally bits unlimited slab queue waiting d
        ≡ replay tally bits events (view tally bits unlimited slab queue waiting core))
run_replays_example =
    run_replays tally bits unlimited slab queue waiting tally-IsText bits-IsText events core
      core_Steady events_Calm
