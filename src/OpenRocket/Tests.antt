-- ===== src/OpenRocket/Tests.antt =====
-- A flight of three packets, with natural numbers for the scalar.
use backplane_flight_compute.Base.{
  ℕ, ◌+◌, ◌-◌, ◌*◌, ◌/◌, ◌%◌, ◌≡◌, ◌≢◌, ◌⊎◌, refl, true, false, some, [], ◌∷◌, ltb, arith,
}
use backplane_flight_compute.Base.Int.{ℤ, pos, negsuc}
use backplane_flight_compute.Zephyr.{success, error, enodev, enotsup}
use backplane_flight_compute.OpenRocket.Sim.{
  Scalar, Params, Packet, Sim, Bounds, Setup, or_get_time, or_find_bounding_packets,
}
use backplane_flight_compute.OpenRocket.Search.{
  IsAsymmetric, IsAround, IsPast, or_find_bounding_packets_lem,
}
use backplane_flight_compute.OpenRocket.Barometer as Barometer
use backplane_flight_compute.OpenRocket.Imu as Imu
use backplane_flight_compute.OpenRocket.Gnss.{Rtc, Conversion, initial_time}
use backplane_flight_compute.OpenRocket.Reading.{IsReading, imu_sample_fetch_lem}

abbrev of_int : ℤ → ℕ
of_int (pos n) = n
of_int (negsuc n) = 0

abbrev num : Scalar ℕ
num = record {
  add = λ a b. a + b;
  sub = λ a b. a - b;
  mul = λ a b. a * b;
  div = λ a b. a / b;
  neg = λ a. 1000 - a;
  lt = ltb;
  of_int = of_int;
}

num-IsAsymmetric : IsAsymmetric num
num-IsAsymmetric a b h = ground arith

abbrev packet_at : ℕ → Packet ℕ
packet_at t = record {
  time_s = t;
  vert_accel = 10 * t;
  lat_accel = t;
  roll = 5;
  pitch = 6;
  yaw = 7;
  temperature = 20;
  pressure = 100 - t;
  latitude = 43;
  longitude = 77;
  velocity = t;
  altitude = t;
  bearing = 0;
  magn_x = 1;
  magn_y = 2;
  magn_z = 3;
}

abbrev sim : Sim ℕ
sim = record {
  packets = packet_at 1 ∷ packet_at 3 ∷ packet_at 5 ∷ [];
  pad_packet = packet_at 1;
  landed_packet = packet_at 5;
}

-- Four seconds after the start.
abbrev setup : Setup
setup = record { noise = false; ms_before_launch = 0; uptime_us = 4000000 }

abbrev params : Params
params = record { broken = false; sampling_period_us = 1000; lag_time_us = 0; measurement_us = 0 }

abbrev imu_config : Imu.ImuConfig ℕ
imu_config = record {
  sensor_cfg = params;
  vertical_axis = Imu.axis_z;
  vertical_axis_invert = true;
  lateral_axis = Imu.axis_x;
  roll_axis = Imu.axis_x;
  pitch_axis = Imu.axis_y;
  yaw_axis = Imu.axis_z;
  roll_axis_invert = false;
  pitch_axis_invert = false;
  yaw_axis_invert = false;
  accel_noise = 1;
  gyro_noise = 1;
}

abbrev imu_data : Imu.ImuData ℕ
imu_data = record {
  last_lower_index = 0;
  rand_state = 0;
  ax = 0;
  ay = 0;
  az = 0;
  gx = 0;
  gy = 0;
  gz = 0;
}

abbrev barom_config : Barometer.BaromConfig ℕ
barom_config = record { sensor_cfg = params; temp_noise_scale = 1; press_noise_scale = 1 }

abbrev barom_data : Barometer.BaromData ℕ
barom_data = record { last_lower_index = 0; rand_state = 0; pressure = 0; temperature = 0 }

or_find_bounding_packets_lem_example :
    (b : Bounds ℕ) × (or_find_bounding_packets num sim 0 4 ≡ some b)
    × (((false ≡ true) × (b.lower_idx ≡ 0) × (b.upper_idx ≡ 0))
        ⊎ (IsPast num num-IsAsymmetric sim 4 b ⊎ IsAround num num-IsAsymmetric sim 4 b))
or_find_bounding_packets_lem_example =
    or_find_bounding_packets_lem num num-IsAsymmetric sim 4 (omega arith) (omega arith)

z_is_not_x : Imu.axis_z ≢ Imu.axis_x
z_is_not_x h = cc

y_is_not_z : Imu.axis_y ≢ Imu.axis_z
y_is_not_z h = cc

y_is_not_x : Imu.axis_y ≢ Imu.axis_x
y_is_not_x h = cc

imu_sample_fetch_lem_example :
    let result = Imu.sample_fetch num imu_config sim setup imu_data Imu.all in
    ((false ≡ true) × (result ≡ some (error enodev, imu_data)))
    ⊎ (((true ≡ false) × (result ≡ some (error enotsup, imu_data)))
        ⊎ ((p : Packet ℕ) × (result ≡ some (success, Imu.store num imu_config sim setup imu_data p))
            × IsReading num num-IsAsymmetric sim
                (or_get_time num setup params)
                (Imu.between num imu_config sim setup)
                p))
imu_sample_fetch_lem_example =
    imu_sample_fetch_lem num num-IsAsymmetric sim setup imu_config imu_data Imu.all (omega arith)
      (omega arith) refl

-- A clock that stands still
abbrev rtc : Rtc ℕ
rtc = record { get_time = λ w. (success, initial_time, w); set_time = λ t w. (success, w) }

abbrev convert : Conversion ℕ
convert = record { fmod = λ a b. a % b; to_int = λ a. pos a }
