-- ===== src/Sensors/Start.antt =====
-- `sensors_init` in cores/control/src/sensors/sensors.c, with all sensors configured. The initialisers'
-- results are not looked at.
use sense_firmware.Prelude.{
  ℕ, ◌≡◌, refl, Bool, true, false, ◌&&◌, Option, none, some, if◌then◌else◌, ℤ, pos,
}
use sense_firmware.Polling.{PollWork}
use sense_firmware.Sensors.{
  Sampling, init_sensor, imu_lis3mdl_init, sht4x_init, imu_lsm6dso_init, adcs_init,
}
use sense_firmware.Gnss
use sense_firmware.Gnss.{Gnss, Modem}

-- The static state of the sensors.
pub record Sensors : Type 0 where
  pub gnss : Gnss
  pub lis3mdl : PollWork
  pub lsm6dso : PollWork
  pub sampling : Sampling
  pub sht4x : PollWork
  pub adcs : PollWork

-- Which devices are ready, and what setting either sampling frequency returns.
pub record Devices : Type 0 where
  pub lis3mdl_ready : Bool
  pub lsm6dso_ready : Bool
  pub set_accel : ℤ
  pub set_gyro : ℤ
  pub sht4x_ready : Bool
  pub adc0_ready : Bool
  pub adc1_ready : Bool

-- `sensors_init`
unfoldable pub sensors_init : ℕ → ℕ → Modem → Devices → Sensors → Sensors
sensors_init timeout interval m d s =
    let (_, lsm6dso, sampling) =
      imu_lsm6dso_init d.lsm6dso_ready d.set_accel d.set_gyro s.lsm6dso s.sampling in
    record {
      gnss = (Gnss.init timeout interval m s.gnss).1;
      lis3mdl = (imu_lis3mdl_init d.lis3mdl_ready s.lis3mdl).1;
      lsm6dso = lsm6dso;
      sampling = sampling;
      sht4x = (sht4x_init d.sht4x_ready s.sht4x).1;
      adcs = (adcs_init d.adc0_ready d.adc1_ready s.adcs).1;
    }

-- The delay of a work item that was started, if its device is ready.
abbrev pub started : Bool → Option ℤ
started ready = if ready then some (pos 0) else none

init_sensor_lem :
    (ready : Bool) (w : PollWork)
    → w.scheduled ≡ none
    → (init_sensor ready w).1.scheduled ≡ started ready
unfolding init_sensor
init_sensor_lem true w e = rw e refl
init_sensor_lem false w e = e

imu_lsm6dso_init_lem :
    (ready : Bool) (set_accel set_gyro : ℤ) (w : PollWork) (f : Sampling)
    → w.scheduled ≡ none
    → (imu_lsm6dso_init ready set_accel set_gyro w f).1.scheduled ≡ started ready
unfolding imu_lsm6dso_init
imu_lsm6dso_init_lem true set_accel set_gyro w f e = rw e refl
imu_lsm6dso_init_lem false set_accel set_gyro w f e = e

adcs_init_lem :
    (ready0 ready1 : Bool) (w : PollWork)
    → w.scheduled ≡ none
    → (adcs_init ready0 ready1 w).1.scheduled ≡ started (ready0 && ready1)
unfolding adcs_init
adcs_init_lem true ready1 w e = init_sensor_lem ready1 w e
adcs_init_lem false ready1 w e = e

-- Of sensors that were not started, each polled one starts exactly if its devices are ready, whatever
-- happens to the GNSS receiver and to the others.
pub sensors_init_lem :
    (timeout interval : ℕ) (m : Modem) (d : Devices) (s : Sensors)
    → s.lis3mdl.scheduled ≡ none
    → s.lsm6dso.scheduled ≡ none
    → s.sht4x.scheduled ≡ none
    → s.adcs.scheduled ≡ none
    → let s' = sensors_init timeout interval m d s in
      (s'.lis3mdl.scheduled ≡ started d.lis3mdl_ready)
      × (s'.lsm6dso.scheduled ≡ started d.lsm6dso_ready)
      × (s'.sht4x.scheduled ≡ started d.sht4x_ready)
      × (s'.adcs.scheduled ≡ started (d.adc0_ready && d.adc1_ready))
unfolding sensors_init
sensors_init_lem timeout interval m d s a b c e = (
  init_sensor_lem d.lis3mdl_ready s.lis3mdl a,
  imu_lsm6dso_init_lem d.lsm6dso_ready d.set_accel d.set_gyro s.lsm6dso s.sampling b,
  init_sensor_lem d.sht4x_ready s.sht4x c,
  adcs_init_lem d.adc0_ready d.adc1_ready s.adcs e,
)
