-- ===== src/Detection/Tenant.antt =====
-- CSensingTenant of the sensor module (app/backplane/sensor_module/src/c_sensing_tenant.cpp), with
-- UpdateSensorValue of include/f_core/device/sensor/c_sensor_device.h. What the devices give and the
-- uptime are arguments of a run.
pub mod Collecting
use backplane_flight_compute.Base.{
  Bool, true, false, not, ◌&&◌, ℕ, Option, some, none, List, [], ◌∷◌, if◌then◌else◌,
}
use backplane_flight_compute.Zephyr.{Code, is_nonzero}
use backplane_flight_compute.Flight.Controller.{Config, Effect}
use backplane_flight_compute.Detection.LinearFit.{Real}
use backplane_flight_compute.Detection.Handler.{
  Handler, SensorData, SensorWorkings, Acceleration, handle_data, continue_collecting,
}

-- A device: whether it was initialized, and what sensor_sample_fetch returns
pub record Fetch : Type 0 where
  pub is_initialized : Bool
  pub fetched : Code

abbrev pub update_sensor_value : Fetch → Bool
update_sensor_value f = f.is_initialized && not (is_nonzero f.fetched)

pub record Fetches : Type 0 where
  pub imu_accelerometer : Fetch
  pub primary_barometer : Fetch
  pub secondary_barometer : Fetch
  pub accelerometer : Fetch

abbrev pub workings : Fetches → SensorWorkings
workings f = record {
  primary_acc_ok = update_sensor_value f.imu_accelerometer;
  secondary_acc_ok = update_sensor_value f.accelerometer;
  primary_barometer_ok = update_sensor_value f.primary_barometer;
  secondary_barometer_ok = update_sensor_value f.secondary_barometer;
}

-- `NTypes::SensorData`; the handler reads `handled`.
pub record Readings (R : Type 0) : Type 0 where
  pub handled : SensorData R
  pub imu_gyroscope : Acceleration R
  pub magnetometer : Acceleration R
  pub primary_temperature : R
  pub secondary_temperature : R
  pub temperature : R

-- What a run sends: the same data to the broadcast and to the log
pub data Sent (R : Type 0) : Type 0 where
  to_broadcast to_log : Readings R → Sent R

module _ {R : Type 0} (num : Real R) (c : Config) where
  unfoldable pub run :
      Handler R → (uptime : ℕ) → Fetches → Readings R → Handler R × List Effect × List (Sent R)
  run h uptime fetches readings =
      let (h', effects) = handle_data num c h uptime readings.handled (workings fetches) in
      if not (continue_collecting num h)
      then (h, [], [])
      else (h', effects, to_broadcast readings ∷ to_log readings ∷ [])
