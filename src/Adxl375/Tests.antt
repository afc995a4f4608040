-- ===== src/Adxl375/Tests.antt =====
-- The accelerometer behind transfer functions that answer with one measurement.
use backplane_flight_compute.Base.{ℕ, ◌≡◌, refl, true, [], ◌∷◌, arith}
use backplane_flight_compute.Base.Int.{pos, negsuc, unsigned}
use backplane_flight_compute.Zephyr.{success, run}
use backplane_flight_compute.Adxl375.Device.{Transfer, Sample, sample_fetch}
use backplane_flight_compute.Adxl375.Samples.{FitsInt16}
use backplane_flight_compute.Adxl375.I2c.{I2cRegisters, i2c_transfer}
use backplane_flight_compute.Adxl375.I2c.Addresses.{sample_fetch_over_i2c}

-- 20, -2 and -32768.
abbrev measured : Sample
measured = record { x = pos 20; y = negsuc 1; z = negsuc 32767 }

abbrev tf : Transfer ℕ
tf = record {
  bus_init = λ w. (success, w);
  read_reg = λ r w. (success, 0xE5, w);
  write_reg = λ r byte w. (success, byte);
  read_reg_multiple = λ r n w. (success, 20 ∷ 0 ∷ 0xFE ∷ 0xFF ∷ 0 ∷ 0x80 ∷ [], w);
}

abbrev at_rest : Sample
at_rest = record { x = pos 0; y = pos 0; z = pos 0 }

x_fits : FitsInt16 measured.x
x_fits = ground arith

y_fits : FitsInt16 measured.y
y_fits = ground arith

z_fits : FitsInt16 measured.z
z_fits = ground arith

-- An I2C bus whose data registers have the measurement
abbrev wire : I2cRegisters ℕ
wire = record {
  burst_read = λ r n w. (success, 20 ∷ 0 ∷ 0xFE ∷ 0xFF ∷ 0 ∷ 0x80 ∷ [], w);
  reg_write_byte = λ r byte w. (success, byte);
  is_ready = true;
}

sample_fetch_over_i2c_example :
    run (sample_fetch (i2c_transfer wire)) (record { dev = at_rest; world = 0 })
    ≡ (success, record { dev = measured; world = 0 })
unfolding unsigned
sample_fetch_over_i2c_example =
    sample_fetch_over_i2c wire (record { dev = at_rest; world = 0 }) measured success 0 x_fits
      y_fits z_fits refl
