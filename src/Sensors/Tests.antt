-- ===== src/Sensors/Tests.antt =====
-- Tests of the sensors, with a queue that is a list.
use sense_firmware.Prelude.{ℕ, ◌+◌, ◌≡◌, [], ◌∷◌, ◌++◌, refl, true, none, some, ℤ, pos, eio, codes}
use sense_firmware.Kernel.{MsgQueue}
use sense_firmware.Kernel.Reference.{list_queue}
use sense_firmware.Datapoint.{Datapoint, float_datapoint}
use sense_firmware.Datapoint.Queue.{datapoint_queue_max_items, offer}
use sense_firmware.Sensors.{
  Channel, accel_y, unscheduled, set_poll_interval, init_sensor, Polled, lis3mdl_poll_work_handler,
  sht4x_poll_work_handler, lsm6dso_poll_work_handler,
}
use sense_firmware.Sensors.Adc.{Adc, adcs_poll_work_handler}
use sense_firmware.Sensors.Polled.{
  readings, fetched, sampled, magnetometer, accelerometer, gyroscope, climate,
  poll_work_handler-offer, adcs_poll_work_handler-offer,
}
use sense_firmware.Sensors.Alive.{here, sets, polls_lis3mdl, IsAlive, Reach-IsAlive}

abbrev queue : MsgQueue Datapoint datapoint_queue_max_items
queue = list_queue Datapoint datapoint_queue_max_items

abbrev idle : Polled queue
idle = (unscheduled (pos 3000), [])

-- A device of which the Y axis of the accelerometer fails.
abbrev flaky : Channel → ℤ × ℕ
flaky accel_y = (eio, 0)
flaky _ = (pos 0, 7)

poll_work_handler-offer_example :
    (queue.items (lis3mdl_poll_work_handler queue (pos 0) flaky idle).1
      ≡ offer [] (fetched (pos 0) (readings flaky magnetometer)))
    × (queue.items (sht4x_poll_work_handler queue (pos 0) flaky idle).1
        ≡ offer [] (fetched (pos 0) (readings flaky climate)))
    × (queue.items (lsm6dso_poll_work_handler queue (pos 0) eio flaky idle).1
        ≡ offer [] (
            fetched (pos 0) (readings flaky accelerometer)
            ++ fetched eio (readings flaky gyroscope)))
poll_work_handler-offer_example = poll_work_handler-offer queue (pos 0) eio flaky idle

-- The failed axis and the failed group are missing.
polled :
    (lsm6dso_poll_work_handler queue (pos 0) eio flaky idle).1
    ≡ float_datapoint 7 (codes "lsm6dso_accel_x") (codes "m/s^2")
      ∷ float_datapoint 7 (codes "lsm6dso_accel_z") (codes "m/s^2")
      ∷ []
polled = poll_work_handler-offer_example.2

abbrev converter : Adc
converter = record {
  channel_setup = λ chan. pos 0;
  ref_internal = λ chan. 2048;
  read = λ chan. pos 0;
  channel_reading = λ chan idx. idx + 5;
  raw_to_millivolts = λ ref raw. pos raw;
}

abbrev broken : Adc
broken = record {
  channel_setup = λ chan. eio;
  ref_internal = λ chan. 2048;
  read = λ chan. pos 0;
  channel_reading = λ chan idx. idx;
  raw_to_millivolts = λ ref raw. pos raw;
}

adcs_poll_work_handler-offer_example :
    queue.items (adcs_poll_work_handler queue 3 broken converter idle).1
    ≡ offer [] (sampled broken 0 3 ++ sampled converter 1 3)
adcs_poll_work_handler-offer_example = adcs_poll_work_handler-offer queue 3 broken converter idle

abbrev started : Polled queue
started = ((init_sensor true (unscheduled (pos 3000))).1, [])

started_scheduled : started.0.scheduled ≡ some (pos 0)
unfolding init_sensor
started_scheduled = refl

Reach-IsAlive_example : IsAlive (pos 200) true (
    set_poll_interval
      (pos 200)
      (lis3mdl_poll_work_handler queue eio flaky
        (record started.0 { scheduled = none }, started.1)).0)
Reach-IsAlive_example =
    Reach-IsAlive queue 3 (pos 3000) [] (pos 200) true _
      (sets (polls_lis3mdl here (pos 0) eio flaky started_scheduled) (pos 200))
