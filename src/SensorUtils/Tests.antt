-- ===== src/SensorUtils/Tests.antt =====
-- A device whose temperature and y-axes cannot be read.
use backplane_flight_compute.Base.{ℕ, ◌+◌, ◌≡◌, refl}
use backplane_flight_compute.Zephyr.{Code, success, error, eio, einval}
use backplane_flight_compute.SensorUtils.{
  Channel, Device, BarometerData, get_accelerometer_data_float,
}
use backplane_flight_compute.SensorUtils.Results.{
  Getter, result, AllFailAlike, results_tell_failures,
}

abbrev got : Channel → Code
got Channel.ambient_temp = error eio
got Channel.accel_y = error eio
got other = success

abbrev device : Device ℕ ℕ
device = record { channel_get = λ chan. (got chan, 7); to_float = λ v. v + 1; error_value = 0 }

-- Another whose y-axes cannot be read, with other values
abbrev other_got : Code → Channel → Code
other_got c Channel.accel_y = error einval
other_got c other = c

abbrev other_device : Device ℕ ℕ
other_device = record {
  channel_get = λ chan. (other_got success chan, 9);
  to_float = λ v. v + 1;
  error_value = 0;
}

abbrev seen : BarometerData ℕ
seen = record { pressure = 1; temperature = 2 }

same_result :
    result device Getter.accelerometer seen ≡ result other_device Getter.accelerometer seen
unfolding get_accelerometer_data_float
same_result = refl

results_tell_failures_example : AllFailAlike device other_device Getter.accelerometer
results_tell_failures_example =
    results_tell_failures device other_device Getter.accelerometer seen seen same_result
