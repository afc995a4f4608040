-- ===== src/SensorUtils/Failures.antt =====
-- What the readings tell of failed channels.
use backplane_flight_compute.Base.{
  ℕ, ◌+◌, ◌≡◌, refl, Bool, true, false, Bool-cases, inl, inr, if◌then◌else◌, bit_or,
}
use backplane_flight_compute.Base.Int.{ℤ}
use backplane_flight_compute.Zephyr.{is_nonzero}
use backplane_flight_compute.SensorUtils.{
  Channel, Device, negated, read_field, get_accelerometer_data_float, get_barometer_data_float,
  get_temp_sensor_data_float, get_magnetometer_data_float, get_gyroscope_data_float,
  get_shunt_data_float, BarometerData,
}

-- The bits are joined without carry.
bits :
    (a b c : Bool)
    → bit_or (bit_or (if a then 1 else 0) (if b then 2 else 0)) (if c then 4 else 0)
      ≡ (if a then 1 else 0) + (if b then 2 else 0) + (if c then 4 else 0)
bits true true true = refl
bits true true false = refl
bits true false true = refl
bits true false false = refl
bits false true true = refl
bits false true false = refl
bits false false true = refl
bits false false false = refl

module _ {V F : Type 0} (dev : Device V F) where
  abbrev pub fails : Channel → Bool
  fails chan = is_nonzero (dev.channel_get chan).0

  -- The channel's value, or the error value if it cannot be read
  abbrev pub reading : Channel → F
  reading chan = if fails chan then dev.error_value else dev.to_float (dev.channel_get chan).1

  -- 1, 2 and 4 for the first, second and third channel, as far as these fail
  abbrev pub failed : (first second third : Channel) → ℕ
  failed first second third =
      (if fails first then 1 else 0)
      + (if fails second then 2 else 0)
      + (if fails third then 4 else 0)

  field_lem :
      (chan : Channel) (bit : ℕ)
      → read_field dev chan bit ≡ (reading chan, if fails chan then bit else 0)
  field_lem chan bit = elim (Bool-cases (fails chan)) [
    | inl bad ↦ rw bad refl
    | inr good ↦ rw good refl
  ]

  three :
      {A : Type 0} (make : F → F → F → A) (first second third : Channel)
      → ◌≡◌ {A = ℤ × A}
          (
            negated (
                bit_or
                  (bit_or (read_field dev first 1).1 (read_field dev second 2).1)
                  (read_field dev third 4).1),
            make (read_field dev first 1).0 (read_field dev second 2).0 (read_field dev third 4).0,
          )
          (
            negated (failed first second third),
            make (reading first) (reading second) (reading third),
          )
  three make first second third = rw (field_lem first 1) (
      rw (field_lem second 2)
        (rw (field_lem third 4) (rw (bits (fails first) (fails second) (fails third)) refl)))

  -- Each reading of three channels stores each channel's value, or the error value for a channel that cannot
  -- be read, and returns the negated sum of 1, 2 and 4 for the first, second and third channel that
  -- cannot; the thermometer's stores its channel's likewise and returns 0 or -1.
  pub readings_lem :
      (get_accelerometer_data_float dev ≡ (
        negated (failed Channel.accel_x Channel.accel_y Channel.accel_z),
        record {
          accel_x = reading Channel.accel_x;
          accel_y = reading Channel.accel_y;
          accel_z = reading Channel.accel_z;
        },
      ))
      × (get_magnetometer_data_float dev ≡ (
        negated (failed Channel.magn_x Channel.magn_y Channel.magn_z),
        record {
          mag_x = reading Channel.magn_x;
          mag_y = reading Channel.magn_y;
          mag_z = reading Channel.magn_z;
        },
      ))
      × (get_gyroscope_data_float dev ≡ (
        negated (failed Channel.gyro_x Channel.gyro_y Channel.gyro_z),
        record {
          gyro_x = reading Channel.gyro_x;
          gyro_y = reading Channel.gyro_y;
          gyro_z = reading Channel.gyro_z;
        },
      ))
      × (get_shunt_data_float dev ≡ (
        negated (failed Channel.current Channel.voltage Channel.power),
        record {
          current = reading Channel.current;
          voltage = reading Channel.voltage;
          power = reading Channel.power;
        },
      ))
      × (get_temp_sensor_data_float dev
          ≡ (negated (if fails Channel.ambient_temp then 1 else 0), reading Channel.ambient_temp))
  unfolding get_accelerometer_data_float get_magnetometer_data_float get_gyroscope_data_float
      get_shunt_data_float get_temp_sensor_data_float
  readings_lem = (
    three (λ (x : F) (y : F) (z : F). record { accel_x = x; accel_y = y; accel_z = z })
        Channel.accel_x Channel.accel_y Channel.accel_z,
    three (λ (x : F) (y : F) (z : F). record { mag_x = x; mag_y = y; mag_z = z }) Channel.magn_x
        Channel.magn_y Channel.magn_z,
    three (λ (x : F) (y : F) (z : F). record { gyro_x = x; gyro_y = y; gyro_z = z }) Channel.gyro_x
        Channel.gyro_y Channel.gyro_z,
    three (λ (x : F) (y : F) (z : F). record { current = x; voltage = y; power = z })
        Channel.current Channel.voltage Channel.power,
    rw (field_lem Channel.ambient_temp 1) refl,
  )

  -- A barometer whose temperature cannot be read loses its pressure: the error value is stored as the
  -- pressure, whether or not that was read, the temperature stays as it was, and the result is -2, or -3
  -- if the pressure was not read either. One whose temperature is read stores both like the others.
  pub barometer_lem :
      (d : BarometerData F)
      → get_barometer_data_float dev d ≡ (
          if fails Channel.ambient_temp
          then (
            negated (2 + (if fails Channel.press then 1 else 0)),
            record { pressure = dev.error_value; temperature = d.temperature },
          )
          else (
            negated (if fails Channel.press then 1 else 0),
            record { pressure = reading Channel.press; temperature = reading Channel.ambient_temp },
          ))
  unfolding get_barometer_data_float
  barometer_lem d = elim (Bool-cases (fails Channel.ambient_temp)) [
    | inl bad ↦ elim (Bool-cases (fails Channel.press)) [
      | inl lost ↦ rw bad (rw lost refl)
      | inr read ↦ rw bad (rw read refl)
    ]
    | inr good ↦ elim (Bool-cases (fails Channel.press)) [
      | inl lost ↦ rw good (rw lost refl)
      | inr read ↦ rw good (rw read refl)
    ]
  ]
