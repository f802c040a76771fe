-- ===== src/Sensors/Alive.antt =====
-- The work items of the sensors over time.
use sense_firmware.Prelude.{ℕ, ◌≡◌, refl, ap, Bool, true, false, if◌then◌else◌, none, some, ℤ, pos}
use sense_firmware.Kernel.{MsgQueue}
use sense_firmware.Datapoint.{Datapoint}
use sense_firmware.Datapoint.Queue.{datapoint_queue_max_items}
use sense_firmware.Sensors.{
  Channel, PollWork, Polled, unscheduled, set_poll_interval, init_sensor, lis3mdl_poll_work_handler,
  sht4x_poll_work_handler, lsm6dso_poll_work_handler,
}
use sense_firmware.Sensors.Adc.{Adc, adcs_poll_work_handler}

-- The work item as its handler finds it: it was scheduled, and is not any more.
abbrev pub begun : PollWork → PollWork
begun w = record w { scheduled = none }

-- The interval is the one that was set last, `last`; the item waits for as long, or for nothing if
-- it did not run and the interval was not set since it was started.
abbrev pub IsAlive : ℤ → Bool → PollWork → Type 0
IsAlive last used w =
    (w.poll_interval_ms ≡ last) × (w.scheduled ≡ some (if used then last else pos 0))

module _ (queue : MsgQueue Datapoint datapoint_queue_max_items) (samples : ℕ) where
  -- A run of a sensor that was started: its work item runs when its delay is over, the interval is set,
  -- or another user of the queue changes it. A handler and a call that sets the interval are one step
  -- each. The run has the interval that was set last, and whether the item ran or an interval was set.
  pub data Reach (default : ℤ) (start : queue.Queue) : ℤ → Bool → Polled queue → Type 0 where
    here : Reach default start default false ((init_sensor true (unscheduled default)).1, start)
    polls_lis3mdl :
        {last : ℤ} {used : Bool} {p : Polled queue}
        → Reach default start last used p
        → (delay fetch : ℤ) (channel_get : Channel → ℤ × ℕ) → p.0.scheduled ≡ some delay
        → Reach default start last true
            (lis3mdl_poll_work_handler queue fetch channel_get (begun p.0, p.1))
    polls_sht4x :
        {last : ℤ} {used : Bool} {p : Polled queue}
        → Reach default start last used p
        → (delay fetch : ℤ) (channel_get : Channel → ℤ × ℕ) → p.0.scheduled ≡ some delay
        → Reach default start last true
            (sht4x_poll_work_handler queue fetch channel_get (begun p.0, p.1))
    polls_lsm6dso :
        {last : ℤ} {used : Bool} {p : Polled queue}
        → Reach default start last used p
        → (delay accel gyro : ℤ) (channel_get : Channel → ℤ × ℕ) → p.0.scheduled ≡ some delay
        → Reach default start last true
            (lsm6dso_poll_work_handler queue accel gyro channel_get (begun p.0, p.1))
    polls_adcs :
        {last : ℤ} {used : Bool} {p : Polled queue}
        → Reach default start last used p
        → (delay : ℤ) (adc0 adc1 : Adc) → p.0.scheduled ≡ some delay
        → Reach default start last true
            (adcs_poll_work_handler queue samples adc0 adc1 (begun p.0, p.1))
    sets :
        {last : ℤ} {used : Bool} {p : Polled queue}
        → Reach default start last used p
        → (interval_ms : ℤ)
        → Reach default start interval_ms true (set_poll_interval interval_ms p.0, p.1)
    changes :
        {last : ℤ} {used : Bool} {p : Polled queue}
        → Reach default start last used p
        → (q : queue.Queue) → Reach default start last used (p.0, q)

  -- Once the initialiser of a sensor with a device that is ready returned, its work item stays
  -- scheduled whatever the driver returns: with no delay until it first runs or an interval is set, and
  -- from then on with the interval that the last call to set it was given, or the configured one. No
  -- failure of a fetch, a channel or a converter ends the polling.
  pub Reach-IsAlive :
      (default : ℤ) (start : queue.Queue) (last : ℤ) (used : Bool) (p : Polled queue)
      → Reach default start last used p
      → IsAlive last used p.0
  unfolding init_sensor lis3mdl_poll_work_handler sht4x_poll_work_handler lsm6dso_poll_work_handler
      adcs_poll_work_handler
  Reach-IsAlive default start last used p here = (refl, refl)
  Reach-IsAlive default start last used p (polls_lis3mdl {used = u} {p = o} r delay fetch get e) =
      let i = (Reach-IsAlive default start last u o r).0 in (i, ap some i)
  Reach-IsAlive default start last used p (polls_sht4x {used = u} {p = o} r delay fetch get e) =
      let i = (Reach-IsAlive default start last u o r).0 in (i, ap some i)
  Reach-IsAlive default start last used p (polls_lsm6dso {used = u} {p = o} r delay a g get e) =
      let i = (Reach-IsAlive default start last u o r).0 in (i, ap some i)
  Reach-IsAlive default start last used p (polls_adcs {used = u} {p = o} r delay adc0 adc1 e) =
      let i = (Reach-IsAlive default start last u o r).0 in (i, ap some i)
  Reach-IsAlive default start last used p (sets r interval_ms) = (refl, refl)
  Reach-IsAlive default start last used p (changes {p = o} r q) =
      Reach-IsAlive default start last used o r
