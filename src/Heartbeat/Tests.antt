-- ===== src/Heartbeat/Tests.antt =====
-- Tests of the heartbeat.
use sense_firmware.Prelude.{true, pos, eio}
use sense_firmware.Heartbeat.{Heartbeat, at_rest, init_start}
use sense_firmware.Heartbeat.Runs.{IsConsistent, starts, here, Reach-IsConsistent}

-- Of two calls the first fails to configure the GPIO.
abbrev begun : Heartbeat
begun = (init_start 500 true (pos 0) (init_start 700 true eio (at_rest 1000)).1).1

Reach-IsConsistent_example :
    IsConsistent (record { last = 500; initialised = true; started = true }) begun
Reach-IsConsistent_example =
    Reach-IsConsistent 1000 (record { last = 500; initialised = true; started = true }) begun
      (starts (starts here 700 true eio) 500 true (pos 0))
