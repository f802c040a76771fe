-- ===== src/Heartbeat.antt =====
-- The heartbeat: lib/heartbeat/heartbeat.c. What the GPIO driver returns is an argument. A duration is
-- a number of kernel ticks; the timer runs with the period that it was started with last.
mod Tests
pub mod Runs
use sense_firmware.Prelude.{
  ℕ, Bool, true, false, Option, none, some, if◌then◌else◌, ℤ, pos, negsuc, is_negative, is_ok,
}

-- `timer_duration`, `timer_initialised`, and the period of `heartbeat_timer` while it runs.
pub record Heartbeat : Type 0 where
  pub duration : ℕ
  pub initialised : Bool
  pub timer : Option ℕ

-- The static state, where `default` is CONFIG_HEARTBEAT_DEFAULT_DURATION
abbrev pub at_rest : ℕ → Heartbeat
at_rest default = record { duration = default; initialised = false; timer = none }

-- `-ENXIO`
abbrev pub enxio : ℤ
enxio = negsuc 5

-- `k_timer_start(&heartbeat_timer, timer_duration, timer_duration)`
abbrev pub start : Heartbeat → Heartbeat
start h = record h { timer = some h.duration }

-- `heartbeat_trigger`, by the result of the toggle: whether the pin changed, and the state
unfoldable pub trigger : ℤ → Heartbeat → Bool × Heartbeat
trigger toggle h = if is_ok toggle then (true, start h) else (false, h)

-- The part of `heartbeat_init_start` for a timer that was not initialised
unfoldable pub init_first : Bool → ℤ → Heartbeat → ℤ × Heartbeat
init_first ready configure h =
    if ready
    then (if is_negative configure
        then (configure, h)
        else (pos 0, start (record h { initialised = true })))
    else (enxio, h)

-- `heartbeat_init_start`, by whether the GPIO is ready and the result of configuring it
unfoldable pub init_start : ℕ → Bool → ℤ → Heartbeat → ℤ × Heartbeat
unfolding init_first
init_start duration ready configure h =
    let h' = record h { duration = duration } in
    if h.initialised then (pos 0, start h') else init_first ready configure h'

-- `heartbeat_stop`
unfoldable pub stop : Heartbeat → Heartbeat
stop h = record h { timer = none }
