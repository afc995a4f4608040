-- ===== src/Adxl375/Device.antt =====
-- adxl375.c. The table `hw_tf` and `bus_init` are parameters: the driver is the same over I2C and SPI.
use backplane_flight_compute.Base.{
  ℕ, ◌*◌, ◌%◌, ◌^◌, Bool, not, List, [], ◌∷◌, if◌then◌else◌, ◌==◌, get_or, bit_or,
}
use backplane_flight_compute.Base.Int.{ℤ, int16}
use backplane_flight_compute.Zephyr.{
  Code, success, error, enodev, enotsup, Driver, ◌>>=◌, ◌>>◌, check, check_zero, return_if, pure,
  call, go, Machine, fill, set_device,
}

-- `struct adxl375_transfer_function` with `bus_init`: the functions that the driver calls. A read gives
-- what its buffer holds after it.
pub record Transfer (W : Type 0) : Type 0 where
  pub bus_init : W → Code × W
  pub read_reg : ℕ → W → Code × ℕ × W
  pub write_reg : ℕ → ℕ → W → Code × W
  pub read_reg_multiple : ℕ → ℕ → W → Code × List ℕ × W

abbrev pub reg_devid : ℕ
reg_devid = 0x00

abbrev pub reg_bw_rate : ℕ
reg_bw_rate = 0x2C

abbrev pub reg_power_ctl : ℕ
reg_power_ctl = 0x2D

abbrev pub reg_data_format : ℕ
reg_data_format = 0x31

abbrev pub reg_datax0 : ℕ
reg_datax0 = 0x32

abbrev pub devid_val : ℕ
devid_val = 0xE5

-- `ADXL375_MEASUREMENT`
abbrev pub measurement : ℕ
measurement = 0x08

-- `struct adxl375_xyz_accel_data`, the part of the driver's data that it works on
pub record Sample : Type 0 where
  pub x : ℤ
  pub y : ℤ
  pub z : ℤ

-- The settings of `struct adxl375_dev_config`
pub record Adxl375Config : Type 0 where
  pub odr : ℕ
  pub lp : Bool

pub data Channel : Type 0 where
  accel_x accel_y accel_z accel_xyz other_channel : Channel

-- `(int16_t)((buff[i + 1] << 8) | (buff[i]))`
unfoldable pub axis_at : List ℕ → ℕ → ℕ → ℤ
unfolding int16
axis_at buff high low = int16 (bit_or (get_or buff high 0 * 2 ^ 8) (get_or buff low 0))

module _ {W : Type 0} (tf : Transfer W) where
  -- A call of the table as a step over the world alone
  abbrev pub transfer : (W → Code × W) → Driver W Code
  transfer f w = let (c, w') = f w in (go c, w')

  unfoldable pub check_id : Driver W Code
  check_id w =
      let (ret, device_id, w') = tf.read_reg reg_devid w in
      (do check_zero ret; return_if (not (device_id == devid_val)) (error enodev); pure success) w'

  unfoldable pub set_odr_and_lp : ℕ → Bool → Driver W Code
  set_odr_and_lp data_rate low_power =
      transfer
        (tf.write_reg reg_bw_rate ((if low_power then bit_or data_rate 0x8 else data_rate) % 256))

  unfoldable pub set_op_mode : ℕ → Driver W Code
  set_op_mode op_mode = transfer (tf.write_reg reg_power_ctl op_mode)

  unfoldable pub set_data_format : ℕ → Driver W Code
  set_data_format val = transfer (tf.write_reg reg_data_format val)

  -- adxl375_init
  unfoldable pub init : Adxl375Config → Driver W Code
  init cfg = do
    ret ← transfer tf.bus_init
    check ret
    ret ← call check_id
    check ret
    ret ← set_odr_and_lp cfg.odr cfg.lp
    check ret
    ret ← set_data_format 0b00001011
    check ret
    ret ← set_op_mode measurement
    pure ret

  -- adxl375_sample_fetch: the sample is stored whatever the read returns.
  unfoldable pub sample_fetch : Driver (Machine Sample W) Code
  sample_fetch = do
    (ret, buff) ← fill (tf.read_reg_multiple reg_datax0 6)
    set_device (record { x = axis_at buff 1 0; y = axis_at buff 3 2; z = axis_at buff 5 4 })
    pure ret

-- adxl375_channel_get: the samples handed to adxl375_accel_convert, in order.
unfoldable pub channel_get : Sample → Channel → Code × List ℤ
channel_get d accel_x = (success, d.x ∷ [])
channel_get d accel_y = (success, d.y ∷ [])
channel_get d accel_z = (success, d.z ∷ [])
channel_get d accel_xyz = (success, d.x ∷ d.y ∷ d.z ∷ [])
channel_get d other_channel = (error enotsup, [])
