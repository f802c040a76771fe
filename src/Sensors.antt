-- ===== src/Sensors.antt =====
-- The polled sensors of the control core: cores/control/src/sensors, but for gnss. The drivers are
-- parameters, by what their calls return during one poll.
pub mod Adc
pub mod Polled
pub mod Alive
pub mod Start
mod Tests
pub use sense_firmware.Polling.{PollWork, schedule, unscheduled, set_poll_interval}
use sense_firmware.Prelude.{
  ℕ, ◌^◌, List, [], ◌∷◌, Bool, true, false, Option, none, some, if◌then◌else◌, ℤ, pos, is_ok, codes,
}
use sense_firmware.Kernel.{MsgQueue}
use sense_firmware.Datapoint.{Datapoint}
use sense_firmware.Datapoint.Queue.{datapoint_queue_max_items, get_and_submit_sensor_datapoint}

-- The channels of `enum sensor_channel` that are read.
pub data Channel : Type 0 where
  magn_x : Channel
  magn_y : Channel
  magn_z : Channel
  accel_x : Channel
  accel_y : Channel
  accel_z : Channel
  gyro_x : Channel
  gyro_y : Channel
  gyro_z : Channel
  ambient_temp : Channel
  humidity : Channel

-- `imu_lis3mdl_init` and `sht4x_init`, by whether the device is ready
unfoldable pub init_sensor : Bool → PollWork → ℤ × PollWork
init_sensor ready w = if ready then (pos 0, schedule (pos 0) w) else (pos 1, w)

abbrev pub imu_lis3mdl_init : Bool → PollWork → ℤ × PollWork
imu_lis3mdl_init ready w = init_sensor ready w

abbrev pub sht4x_init : Bool → PollWork → ℤ × PollWork
sht4x_init ready w = init_sensor ready w

-- The functions that set an interval read the same for each sensor.
abbrev pub lis3mdl_set_poll_interval : ℤ → PollWork → PollWork
lis3mdl_set_poll_interval interval_ms w = set_poll_interval interval_ms w

abbrev pub lsm6dso_set_poll_interval : ℤ → PollWork → PollWork
lsm6dso_set_poll_interval interval_ms w = set_poll_interval interval_ms w

abbrev pub sht4x_set_poll_interval : ℤ → PollWork → PollWork
sht4x_set_poll_interval interval_ms w = set_poll_interval interval_ms w

abbrev pub adcs_set_poll_interval : ℤ → PollWork → PollWork
adcs_set_poll_interval interval_ms w = set_poll_interval interval_ms w

-- The sampling frequencies that the LSM6DSO was given last, as doubles.
pub record Sampling : Type 0 where
  pub accel : Option ℕ
  pub gyro : Option ℕ

-- `lsm6dso_set_sampling_frequency`, by what `sensor_attr_set` returns for either group of channels
unfoldable pub lsm6dso_set_sampling_frequency : ℕ → ℤ → ℤ → Sampling → ℤ × Sampling
lsm6dso_set_sampling_frequency freq set_accel set_gyro f =
    let f' = record f { accel = some freq } in
    if is_ok set_accel
    then (if is_ok set_gyro then (pos 0, record f' { gyro = some freq }) else (set_gyro, f'))
    else (set_accel, f)

-- The double 2.0
abbrev pub two_hertz : ℕ
two_hertz = 2 ^ 62

-- `imu_lsm6dso_init`, which does not look at what setting the frequency returns
unfoldable pub imu_lsm6dso_init : Bool → ℤ → ℤ → PollWork → Sampling → ℤ × PollWork × Sampling
imu_lsm6dso_init ready set_accel set_gyro w f =
    let (err, f') = lsm6dso_set_sampling_frequency two_hertz set_accel set_gyro f in
    if ready then (pos 0, schedule (pos 0) w, f') else (pos 1, w, f)

-- `adcs_init`, by whether either device is ready
unfoldable pub adcs_init : Bool → Bool → PollWork → ℤ × PollWork
adcs_init ready0 ready1 w = if ready0 then init_sensor ready1 w else (pos 1, w)

module _ (queue : MsgQueue Datapoint datapoint_queue_max_items) where
  -- What a poll handler changes: the work item of its sensor, and the queue of datapoints.
  abbrev pub Polled : Type 0
  Polled = PollWork × queue.Queue

  -- The statement that ends each handler
  abbrev pub again : PollWork → PollWork
  again w = schedule w.poll_interval_ms w

  -- One call of `get_and_submit_sensor_datapoint`; the handlers only log its result.
  abbrev pub submit_channel :
      (Channel → ℤ × ℕ) → Channel → List ℕ → List ℕ → queue.Queue → queue.Queue
  submit_channel channel_get chan label unit q =
      (get_and_submit_sensor_datapoint queue (channel_get chan) label unit q).1

  -- `lis3mdl_poll_work_handler`, by the result of fetching a sample and those of getting its channels
  unfoldable pub lis3mdl_poll_work_handler : ℤ → (Channel → ℤ × ℕ) → Polled → Polled
  lis3mdl_poll_work_handler fetch channel_get (w, q) =
      let q1 = submit_channel channel_get magn_x (codes "lis3mdl_mag_x") (codes "G") q in
      let q2 = submit_channel channel_get magn_y (codes "lis3mdl_mag_y") (codes "G") q1 in
      let q3 = submit_channel channel_get magn_z (codes "lis3mdl_mag_z") (codes "G") q2 in
      (again w, if is_ok fetch then q3 else q)

  -- `sht4x_poll_work_handler`
  unfoldable pub sht4x_poll_work_handler : ℤ → (Channel → ℤ × ℕ) → Polled → Polled
  sht4x_poll_work_handler fetch channel_get (w, q) =
      let q1 = submit_channel channel_get ambient_temp (codes "sht4x_temp") (codes "deg C") q in
      let q2 = submit_channel channel_get humidity (codes "sht4x_hum") (codes "%") q1 in
      (again w, if is_ok fetch then q2 else q)

  -- `lsm6dso_poll_work_handler` up to the label `gyro`
  unfoldable pub poll_accel : ℤ → (Channel → ℤ × ℕ) → queue.Queue → queue.Queue
  poll_accel fetch channel_get q =
      let q1 = submit_channel channel_get accel_x (codes "lsm6dso_accel_x") (codes "m/s^2") q in
      let q2 = submit_channel channel_get accel_y (codes "lsm6dso_accel_y") (codes "m/s^2") q1 in
      let q3 = submit_channel channel_get accel_z (codes "lsm6dso_accel_z") (codes "m/s^2") q2 in
      if is_ok fetch then q3 else q

  -- The part from `gyro` to `reschedule`
  unfoldable pub poll_gyro : ℤ → (Channel → ℤ × ℕ) → queue.Queue → queue.Queue
  poll_gyro fetch channel_get q =
      let q1 = submit_channel channel_get gyro_x (codes "lsm6dso_gyro_x") (codes "rad/s") q in
      let q2 = submit_channel channel_get gyro_y (codes "lsm6dso_gyro_y") (codes "rad/s") q1 in
      let q3 = submit_channel channel_get gyro_z (codes "lsm6dso_gyro_z") (codes "rad/s") q2 in
      if is_ok fetch then q3 else q

  -- `lsm6dso_poll_work_handler`, by the results of fetching either of its two groups of channels
  unfoldable pub lsm6dso_poll_work_handler : ℤ → ℤ → (Channel → ℤ × ℕ) → Polled → Polled
  lsm6dso_poll_work_handler fetch_accel fetch_gyro channel_get (w, q) =
      (again w, poll_gyro fetch_gyro channel_get (poll_accel fetch_accel channel_get q))
