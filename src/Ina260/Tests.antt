-- ===== src/Ina260/Tests.antt =====
-- The power monitor on a bus that answers with twice the register's number.
use backplane_flight_compute.Base.{
  ℕ, ◌+◌, ◌*◌, ◌/◌, ◌%◌, ◌≡◌, ◌≢◌, refl, true, List, [], ◌∷◌, get_or, arith,
}
use backplane_flight_compute.Zephyr.{success, run, Machine, I2c}
use backplane_flight_compute.Ina260.Device.{
  Ina260, Ina260Config, power, other_channel, sample_fetch,
}
use backplane_flight_compute.Ina260.Channels.{sample_fetch_reads}

abbrev reg : ℕ → List ℕ
reg r = 0 ∷ 2 * r ∷ []

abbrev bus : I2c ℕ
bus = record {
  write = λ bytes w. (success, w);
  read = λ n w. (success, [], w);
  write_read = λ bytes n w. (success, reg (get_or bytes 0 0), w);
  sleep_us = λ us w. w;
  is_ready = true;
  get_be16 = λ bytes. get_or bytes 0 0 * 256 + get_or bytes 1 0;
  get_be24 = λ bytes. get_or bytes 0 0 * 65536 + get_or bytes 1 0 * 256 + get_or bytes 2 0;
  put_be16 = λ n. n / 256 % 256 ∷ n % 256 ∷ [];
}

-- 16 samples, 1.1 ms for both conversions, both measured continuously.
abbrev cfg : Ina260Config
cfg = record { average = 2; voltage_conv_time = 4; current_conv_time = 4; mode = 7 }

abbrev machine : Machine Ina260 ℕ
machine = record { dev = record { v_bus = 9600; power_reg = 100; current_reg = 80 }; world = 0 }

power_is_served : power ≢ other_channel
power_is_served h = cc

sample_fetch_reads_example : run (sample_fetch bus cfg power) machine ≡ (
  success,
  record { dev = record { v_bus = 9600; power_reg = 6; current_reg = 80 }; world = 0 },
)
sample_fetch_reads_example =
    sample_fetch_reads bus cfg reg power machine (λ r w. refl) power_is_served (omega arith)
