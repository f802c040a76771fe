-- ===== src/Gnss.antt =====
-- The GNSS receiver: cores/control/src/sensors/gnss/gnss.c. The calls of the modem library are
-- arguments, by what they return. A frame is stored only if `nrf_modem_gnss_read` succeeds. The events
-- come in an interrupt: before, after and between any two accesses of the poll handler to the frame.
pub mod Satellites
pub mod Fix
pub mod Interrupts
pub mod Repeated
pub mod Reports
pub mod Polls
pub mod Tests
use sense_firmware.Prelude.{
  ℕ, List, [], ◌∷◌, ◌++◌, Bool, true, false, Option, none, some, if◌then◌else◌, ℤ, pos, negsuc,
  is_ok, codes,
}
use sense_firmware.Kernel.{MsgQueue}
use sense_firmware.Datapoint.{Datapoint}
use sense_firmware.Datapoint.Queue.{datapoint_queue_max_items, submit_float_datapoint}
use sense_firmware.Board.{lib_failed}
use sense_firmware.Sensors.{PollWork, schedule, set_poll_interval}

-- What is used of `struct nrf_modem_gnss_pvt_data_frame`: five numbers, as doubles, and whether
-- NRF_MODEM_GNSS_PVT_FLAG_FIX_VALID is among its flags.
pub record Pvt : Type 0 where
  pub latitude : ℕ
  pub longitude : ℕ
  pub accuracy : ℕ
  pub altitude : ℕ
  pub altitude_accuracy : ℕ
  pub fix_valid : Bool

-- The static state of gnss.c: `gnss_internal_state` as whether it is GNSS_STATE_SLEEP, `pvt_data_sem`
-- as whether it can be taken, and the work item; `polling` while its handler is in its loop.
pub record Gnss : Type 0 where
  pub last_pvt : Pvt
  pub sleeping : Bool
  pub pvt_data : Bool
  pub fix_retry_period : ℕ
  pub fix_interval : ℕ
  pub work : PollWork
  pub polling : Bool

-- The events of the modem that `gnss_event_handler` tells apart
pub data GnssEvent : Type 0 where
  evt_pvt : GnssEvent
  evt_fix : GnssEvent
  evt_periodic_wakeup : GnssEvent
  evt_sleep_after_timeout : GnssEvent
  evt_sleep_after_fix : GnssEvent
  evt_other : GnssEvent

-- Reading a frame, and giving the semaphore if that succeeded
unfoldable pub read_pvt : Option Pvt → Gnss → Gnss
read_pvt none g = g
read_pvt (some pvt) g = record g { last_pvt = pvt; pvt_data = true }

-- `gnss_event_handler`, by the frame that the modem has
unfoldable pub event_handler : GnssEvent → Option Pvt → Gnss → Gnss
unfolding read_pvt
event_handler evt_pvt read g = read_pvt read g
event_handler evt_fix read g = read_pvt read g
event_handler evt_periodic_wakeup read g = record g { sleeping = false }
event_handler evt_sleep_after_timeout read g = record g { sleeping = true }
event_handler evt_sleep_after_fix read g = record g { sleeping = true }
event_handler evt_other read g = g

-- An event in an interrupt, with the frame that the modem has, and a sequence of them
abbrev pub Interrupt : Type 0
Interrupt = GnssEvent × Option Pvt

abbrev pub interrupts : List Interrupt → Gnss → Gnss
interrupts [] g = g
interrupts ((event, read) ∷ later) g = interrupts later (event_handler event read g)

-- What the calls of the modem library return in `gnss_init`
pub record Modem : Type 0 where
  pub lib_init : ℤ
  pub func_mode : ℤ
  pub handler_set : ℤ
  pub use_case : ℤ
  pub retry_set : ℤ
  pub interval_set : ℤ
  pub start : ℤ

-- `gnss_init_and_start`, with the configured timeout and fix interval. A failure of `use_case` is only
-- logged.
unfoldable pub init_and_start : ℕ → ℕ → Modem → Gnss → ℤ × Gnss
init_and_start timeout interval m g =
    let g' = record g { fix_retry_period = timeout; fix_interval = interval } in
    if is_ok m.func_mode
    then (if is_ok m.handler_set
        then (if is_ok m.retry_set
            then (if is_ok m.interval_set
                then (if is_ok m.start then (pos 0, g') else (negsuc 0, g'))
                else (negsuc 0, g'))
            else (negsuc 0, g'))
        else (negsuc 0, g))
    else (negsuc 0, g)

-- `gnss_init`
unfoldable pub init : ℕ → ℕ → Modem → Gnss → ℤ × Gnss
unfolding init_and_start
init timeout interval m g =
    let (err, g') = init_and_start timeout interval m g in
    if lib_failed m.lib_init
    then (m.lib_init, g)
    else (if is_ok err
        then (pos 0, record g' { work = schedule (pos 0) g'.work })
        else (negsuc 0, g'))

module _ (queue : MsgQueue Datapoint datapoint_queue_max_items) where
  -- The receiver and the queue of datapoints.
  abbrev pub State : Type 0
  State = Gnss × queue.Queue

  -- One submission of `process_fix_data`, of a value of the frame that is there when it is read
  abbrev pub submit_value : (Pvt → ℕ) → List ℕ → List ℕ → List Interrupt → State → State
  submit_value value label unit during (g, q) =
      let g' = interrupts during g in
      (g', (submit_float_datapoint queue (value g'.last_pvt) label unit q).1)

  -- `process_fix_data`, by the interrupts before each of its reads of `last_pvt`
  unfoldable pub process_fix_data : (ℕ → List Interrupt) → State → State
  process_fix_data during s =
      let s1 = submit_value (λ f. f.latitude) (codes "gnss_lat") (codes "deg") (during 1) s in
      let s2 = submit_value (λ f. f.longitude) (codes "gnss_long") (codes "deg") (during 2) s1 in
      let s3 = submit_value (λ f. f.accuracy) (codes "gnss_accuracy") (codes "m") (during 3) s2 in
      let s4 = submit_value (λ f. f.altitude) (codes "gnss_alt") (codes "m") (during 4) s3 in
      submit_value (λ f. f.altitude_accuracy) (codes "gnss_alt_accuracy") (codes "m") (during 5) s4

  -- The last statement of `gnss_poll_work_handler`
  abbrev end_poll : Gnss → Gnss
  end_poll g = record g { work = set_poll_interval g.work.poll_interval_ms g.work; polling = false }

  -- The start of `gnss_poll_work_handler`: it goes to the loop, or ends if the receiver sleeps.
  unfoldable pub poll_begin : State → State
  poll_begin (g, q) = if g.sleeping then (end_poll g, q) else (record g { polling = true }, q)

  -- One test of the condition of its loop: one iteration, or the end of the handler, by the interrupts
  -- between taking the semaphore and reading the flags of the frame, and before each later read.
  unfoldable pub poll_iterate : (ℕ → List Interrupt) → State → State
  poll_iterate during (g, q) =
      if g.pvt_data
      then (let g' = interrupts (during 0) (record g { pvt_data = false }) in
          if g'.last_pvt.fix_valid then process_fix_data during (g', q) else (g', q))
      else (end_poll g, q)

-- `gnss_set_poll_interval`
abbrev pub gnss_set_poll_interval : ℤ → Gnss → Gnss
gnss_set_poll_interval interval_ms g = record g { work = set_poll_interval interval_ms g.work }
