-- ===== src/Polling.antt =====
-- The delayable work items that poll: those of cores/control/src/sensors and of remote_commands.c,
-- which keep the same state and set their intervals in the same way.
use sense_firmware.Prelude.{Option, none, some, ℤ}

-- `poll_interval_ms` and the delayable work item of a client: the delay in milliseconds that it was
-- scheduled with, until it runs.
pub record PollWork : Type 0 where
  pub poll_interval_ms : ℤ
  pub scheduled : Option ℤ

-- `k_work_schedule`, which leaves a scheduled item as it is.
abbrev pub schedule : ℤ → PollWork → PollWork
schedule delay w = elim w.scheduled [
  | none ↦ record w { scheduled = some delay }
  | some earlier ↦ w
]

-- The static state, where `default` is its first poll interval.
abbrev pub unscheduled : ℤ → PollWork
unscheduled default = record { poll_interval_ms = default; scheduled = none }

-- `lis3mdl_set_poll_interval`, and those of the other sensors and of remote_commands.c, which read the
-- same.
abbrev pub set_poll_interval : ℤ → PollWork → PollWork
set_poll_interval interval_ms w = record {
  poll_interval_ms = interval_ms;
  scheduled = some interval_ms;
}
