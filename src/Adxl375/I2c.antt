-- ===== src/Adxl375/I2c.antt =====
-- The transfer functions over I2C, drivers/sensor/adxl375/adxl375_i2c.c. The low bit of a register number
-- tells a read from a write, and the number itself is above it.
pub mod Addresses
use backplane_flight_compute.Base.{
  ℕ, ◌-◌, ◌*◌, ◌/◌, ◌%◌, ◌^◌, Bool, not, List, [], ◌∷◌, if◌then◌else◌, ◌==◌, get_or, bit_and,
  bit_or,
}
use backplane_flight_compute.Zephyr.{Code, success, error, einval, enodev, is_nonzero}
use backplane_flight_compute.Adxl375.Device.{Transfer}

-- `i2c_burst_read_dt` with what the buffer holds after it, `i2c_reg_write_byte_dt`, and `device_is_ready`
pub record I2cRegisters (W : Type 0) : Type 0 where
  pub burst_read : ℕ → ℕ → W → Code × List ℕ × W
  pub reg_write_byte : ℕ → ℕ → W → Code × W
  pub is_ready : Bool

-- `ADXL375_REG_READ`, as a `uint8_t`
unfoldable pub reg_read_address : ℕ → ℕ
reg_read_address x = bit_or (bit_and x 0xFF * 2) 0x01 % 256

-- `ADXL375_REG_WRITE`, as a `uint8_t`
unfoldable pub reg_write_address : ℕ → ℕ
reg_write_address x = bit_and x 0xFF * 2 % 256

module _ {W : Type 0} (bus : I2cRegisters W) where
  unfoldable pub bus_access : ℕ → List ℕ → ℕ → W → Code × List ℕ × W
  bus_access reg bytes length w =
      let (ret, w') = bus.reg_write_byte (reg / 2) (get_or bytes 0 0) w in
      if not (bit_and reg 0x01 == 0)
      then bus.burst_read (reg / 2) length w
      else if not (length == 1)
      then (error einval, bytes, w)
      else (ret, bytes, w')

  unfoldable pub i2c_reg_read : ℕ → W → Code × ℕ × W
  i2c_reg_read reg_addr w =
      let (ret, bytes, w') = bus_access (reg_read_address reg_addr) [] 1 w in
      (ret, get_or bytes 0 0, w')

  unfoldable pub i2c_reg_read_multiple : ℕ → ℕ → W → Code × List ℕ × W
  i2c_reg_read_multiple reg_addr count w =
      bus_access (reg_read_address reg_addr) [] (count % 2 ^ 16) w

  unfoldable pub i2c_reg_write : ℕ → ℕ → W → Code × W
  i2c_reg_write reg_addr reg_data w =
      let (ret, bytes, w') = bus_access (reg_write_address reg_addr) (reg_data ∷ []) 1 w in
      (ret, w')

  -- `tmp &= ~mask; tmp |= data`, of a `uint8_t`
  unfoldable pub i2c_reg_write_mask : ℕ → ℕ → ℕ → W → Code × W
  i2c_reg_write_mask reg_addr mask bits w =
      let (ret, tmp, w') = i2c_reg_read reg_addr w in
      if is_nonzero ret
      then (ret, w')
      else i2c_reg_write reg_addr (bit_or (bit_and tmp (255 - mask % 256)) bits) w'

  -- The table, with adxl375_i2c_init
  unfoldable pub i2c_transfer : Transfer W
  i2c_transfer = record {
    bus_init = λ w. (if not bus.is_ready then error enodev else success, w);
    read_reg = i2c_reg_read;
    write_reg = i2c_reg_write;
    read_reg_multiple = i2c_reg_read_multiple;
  }
