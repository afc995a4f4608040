-- ===== src/Ina260/Device.antt =====
-- ina260.c and ina260.h. `float` is a parameter: the conversion of a count by a scale.
use backplane_flight_compute.Base.{
  ℕ, ◌*◌, ◌^◌, Bool, true, false, not, Option, none, [], ◌∷◌, if◌then◌else◌, ltb, bit_or,
}
use backplane_flight_compute.Zephyr.{
  Code, success, error, enodev, enotsup, Driver, ◌>>=◌, ◌>>◌, check_zero, return_if, pure, Machine,
  I2c, act, fill, device, set_device,
}

-- The channels that the driver tells apart.
pub data Channel : Type 0 where
  all voltage power current other_channel : Channel

-- `INA260_REG_CONF` and so on
abbrev pub reg_conf : ℕ
reg_conf = 0x00

abbrev pub reg_current : ℕ
reg_current = 0x01

abbrev pub reg_v_bus : ℕ
reg_v_bus = 0x02

abbrev pub reg_power : ℕ
reg_power = 0x03

abbrev pub rst : ℕ
rst = 2 ^ 15

abbrev pub conf_required_top_bits : ℕ
conf_required_top_bits = 0b0110

-- `CONT_OFF`, the least of the continuous modes
abbrev pub cont_off : ℕ
cont_off = 0b100

-- `struct ina260_config`; the enums are numbers of three bits, and the bus is a parameter.
pub record Ina260Config : Type 0 where
  pub average : ℕ
  pub voltage_conv_time : ℕ
  pub current_conv_time : ℕ
  pub mode : ℕ

-- `struct ina260_data`
pub record Ina260 : Type 0 where
  pub v_bus : ℕ
  pub power_reg : ℕ
  pub current_reg : ℕ

abbrev pub is_served : Channel → Bool
is_served other_channel = false
is_served all = true
is_served voltage = true
is_served power = true
is_served current = true

-- `chan == SENSOR_CHAN_ALL || chan == SENSOR_CHAN_VOLTAGE`, and for the other two
abbrev pub wants_voltage : Channel → Bool
wants_voltage all = true
wants_voltage voltage = true
wants_voltage power = false
wants_voltage current = false
wants_voltage other_channel = false

abbrev pub wants_power : Channel → Bool
wants_power all = true
wants_power voltage = false
wants_power power = true
wants_power current = false
wants_power other_channel = false

abbrev pub wants_current : Channel → Bool
wants_current all = true
wants_current voltage = false
wants_current power = false
wants_current current = true
wants_current other_channel = false

-- `conf_reg` of ina260_init
unfoldable pub conf_reg : Ina260Config → ℕ
conf_reg cfg = bit_or (conf_required_top_bits * 2 ^ 12) (
    bit_or (cfg.average * 2 ^ 9)
      (bit_or (cfg.voltage_conv_time * 2 ^ 6) (bit_or (cfg.current_conv_time * 2 ^ 3) cfg.mode)))

module _ {W : Type 0} (bus : I2c W) where
  -- ina260_reg_read with the early return of its callers
  unfoldable pub reg_read : ℕ → Driver (Machine Ina260 W) ℕ
  reg_read reg_addr = do
    (rc, rx_buf) ← fill (bus.write_read (reg_addr ∷ []) 2)
    check_zero rc
    pure (bus.get_be16 rx_buf)

  unfoldable pub reg_write : ℕ → ℕ → Driver (Machine Ina260 W) Code
  reg_write addr reg_data = act (bus.write (addr ∷ bus.put_be16 reg_data))

  -- The three `if`s of ina260_sample_fetch
  unfoldable pub fetch_voltage : Driver (Machine Ina260 W) (Unit {0})
  fetch_voltage = do tmp ← reg_read reg_v_bus; d ← device; set_device (record d { v_bus = tmp })

  unfoldable pub fetch_power : Driver (Machine Ina260 W) (Unit {0})
  fetch_power = do tmp ← reg_read reg_power; d ← device; set_device (record d { power_reg = tmp })

  unfoldable pub fetch_current : Driver (Machine Ina260 W) (Unit {0})
  fetch_current = do
    tmp ← reg_read reg_current
    d ← device
    set_device (record d { current_reg = tmp })

  unfoldable pub sample_fetch : Ina260Config → Channel → Driver (Machine Ina260 W) Code
  sample_fetch cfg chan = do
    return_if (not (is_served chan)) (error enotsup)
    return_if (ltb cfg.mode cont_off) (error enotsup)
    (if wants_voltage chan then fetch_voltage else pure tt)
    (if wants_power chan then fetch_power else pure tt)
    (if wants_current chan then fetch_current else pure tt)
    pure success

  -- ina260_init
  unfoldable pub init : Ina260Config → Driver (Machine Ina260 W) Code
  init cfg = do
    return_if (not bus.is_ready) (error enodev)
    rc ← reg_write reg_conf rst
    check_zero rc
    rc ← reg_write reg_conf (conf_reg cfg)
    check_zero rc
    pure success

-- ina260_channel_get: the register's count and the scale that goes with it, in hundred-thousandths.
unfoldable pub channel_get :
    {F : Type 0} → (ℕ → ℕ → Code × Option F) → Ina260 → Channel → Code × Option F
channel_get from_count d voltage = from_count d.v_bus 125
channel_get from_count d current = from_count d.current_reg 125
channel_get from_count d power = from_count d.power_reg 1000
channel_get from_count d all = (error enotsup, none)
channel_get from_count d other_channel = (error enotsup, none)
