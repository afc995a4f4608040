-- ===== src/SensorUtils.antt =====
-- The readings of sensors as floating point numbers (lib/launch_core_classic/dev/sensor.c). A device is what
-- sensor_channel_get returns and leaves for each channel; `float` and its conversion are parameters.
mod Failures
pub mod Results
mod Tests
use backplane_flight_compute.Base.{ℕ, Bool, true, false, List, [], ◌∷◌, map, if◌then◌else◌, bit_or}
use backplane_flight_compute.Base.Int.{ℤ, sub_ℕ}
use backplane_flight_compute.Zephyr.{Code, is_nonzero}

pub data Channel : Type 0 where
  accel_x accel_y accel_z press ambient_temp magn_x magn_y magn_z : Channel
  gyro_x gyro_y gyro_z current voltage power : Channel

pub record AccelerometerData (F : Type 0) : Type 0 where
  pub accel_x : F
  pub accel_y : F
  pub accel_z : F

pub record BarometerData (F : Type 0) : Type 0 where
  pub pressure : F
  pub temperature : F

pub record GyroscopeData (F : Type 0) : Type 0 where
  pub gyro_x : F
  pub gyro_y : F
  pub gyro_z : F

pub record MagnetometerData (F : Type 0) : Type 0 where
  pub mag_x : F
  pub mag_y : F
  pub mag_z : F

pub record ShuntData (F : Type 0) : Type 0 where
  pub current : F
  pub voltage : F
  pub power : F

-- FLOAT_ERROR_VALUE is `error_value`.
pub record Device (V F : Type 0) : Type 0 where
  pub channel_get : Channel → Code × V
  pub to_float : V → F
  pub error_value : F

-- `-ret`
abbrev pub negated : ℕ → ℤ
negated ret = sub_ℕ 0 ret

module _ {V F : Type 0} (dev : Device V F) where
  open dev use {channel_get, to_float, error_value}

  -- A field of a reading, and what it joins to `ret`
  abbrev pub read_field : Channel → (bit : ℕ) → F × ℕ
  read_field chan bit =
      if is_nonzero (channel_get chan).0
      then (error_value, bit)
      else (to_float (channel_get chan).1, 0)

  unfoldable pub get_accelerometer_data_float : ℤ × AccelerometerData F
  get_accelerometer_data_float =
      let (x, ret_x) = read_field Channel.accel_x 1 in
      let (y, ret_y) = read_field Channel.accel_y 2 in
      let (z, ret_z) = read_field Channel.accel_z 4 in
      (
        negated (bit_or (bit_or ret_x ret_y) ret_z),
        record { accel_x = x; accel_y = y; accel_z = z },
      )

  unfoldable pub get_barometer_data_float : BarometerData F → ℤ × BarometerData F
  get_barometer_data_float d =
      let (p, ret) = read_field Channel.press 1 in
      if is_nonzero (channel_get Channel.ambient_temp).0
      then (negated (bit_or ret 2), record d { pressure = error_value })
      else (
        negated ret,
        record { pressure = p; temperature = to_float (channel_get Channel.ambient_temp).1 },
      )

  unfoldable pub get_temp_sensor_data_float : ℤ × F
  get_temp_sensor_data_float = let (t, ret) = read_field Channel.ambient_temp 1 in (negated ret, t)

  unfoldable pub get_magnetometer_data_float : ℤ × MagnetometerData F
  get_magnetometer_data_float =
      let (x, ret_x) = read_field Channel.magn_x 1 in
      let (y, ret_y) = read_field Channel.magn_y 2 in
      let (z, ret_z) = read_field Channel.magn_z 4 in
      (negated (bit_or (bit_or ret_x ret_y) ret_z), record { mag_x = x; mag_y = y; mag_z = z })

  unfoldable pub get_gyroscope_data_float : ℤ × GyroscopeData F
  get_gyroscope_data_float =
      let (x, ret_x) = read_field Channel.gyro_x 1 in
      let (y, ret_y) = read_field Channel.gyro_y 2 in
      let (z, ret_z) = read_field Channel.gyro_z 4 in
      (negated (bit_or (bit_or ret_x ret_y) ret_z), record { gyro_x = x; gyro_y = y; gyro_z = z })

  unfoldable pub get_shunt_data_float : ℤ × ShuntData F
  get_shunt_data_float =
      let (c, ret_c) = read_field Channel.current 1 in
      let (v, ret_v) = read_field Channel.voltage 2 in
      let (p, ret_p) = read_field Channel.power 4 in
      (negated (bit_or (bit_or ret_c ret_v) ret_p), record { current = c; voltage = v; power = p })

  -- What the values are after the calls
  unfoldable pub get_sensor_data : List Channel → List V
  get_sensor_data channels = map (λ chan. (channel_get chan).1) channels

-- Fetches of devices `D`, which change a world `W`; the result is 0 always.
module _ {D W : Type 0} (fetch : D → W → Code × W) where
  unfoldable pub update_sensors : List D → W → W
  update_sensors [] w = w
  update_sensors (dev ∷ devs) w = update_sensors devs (fetch dev w).1

  -- A device with the flag that it is ready
  unfoldable pub update_sensors_safe : List (D × Bool) → W → W
  update_sensors_safe [] w = w
  update_sensors_safe ((dev, ready) ∷ devs) w =
      update_sensors_safe devs (if ready then (fetch dev w).1 else w)
