-- ===== src/Ms5611/Device.antt =====
-- The data of ms5611.c and what sets and reads it: the oversampling settings and the channels.
use backplane_flight_compute.Base.{
  ℕ, ◌/◌, ◌%◌, Bool, false, Option, none, some, List, if◌then◌else◌, ◌==◌,
}
use backplane_flight_compute.Base.Int.{ℤ, pos, negsuc}
use backplane_flight_compute.Zephyr.{Code, success, error, is_nonzero, einval, enotsup}

-- `struct ms5611_osr_data`
pub record Osr : Type 0 where
  pub ratio : ℕ
  pub read_cmd : ℕ
  pub resp_time : ℕ

-- `struct ms5611_meas_data`, two `uint32_t`
pub record Meas : Type 0 where
  pub press : ℕ
  pub temp : ℕ

-- `struct ms5611_data`; `osr[MS5611_OSR_PRES_IDX]` and `osr[MS5611_OSR_TEMP_IDX]` are two fields.
pub record Ms5611 : Type 0 where
  pub prom : List ℕ
  pub osr_pres : Osr
  pub osr_temp : Osr
  pub meas : Meas

-- `struct sensor_value`
pub record SensorValue : Type 0 where
  pub val1 : ℤ
  pub val2 : ℤ

-- The channels and attributes that the driver tells apart.
pub data Channel : Type 0 where
  press ambient_temp all other_channel : Channel

pub data Attribute : Type 0 where
  oversampling other_attribute : Attribute

-- `case` labels: an `int` equal to a constant
abbrev pub is_pos : ℤ → ℕ → Bool
is_pos (pos n) k = n == k
is_pos (negsuc n) k = false

unfoldable pub osr_pressure : ℤ → Option Osr
osr_pressure v =
    if is_pos v 256
    then some (record { ratio = 256; read_cmd = 0x40; resp_time = 600 })
    else if is_pos v 512
    then some (record { ratio = 512; read_cmd = 0x42; resp_time = 1170 })
    else if is_pos v 1024
    then some (record { ratio = 1024; read_cmd = 0x44; resp_time = 2280 })
    else if is_pos v 2048
    then some (record { ratio = 2048; read_cmd = 0x46; resp_time = 4540 })
    else if is_pos v 4096
    then some (record { ratio = 4096; read_cmd = 0x48; resp_time = 9040 })
    else none

unfoldable pub osr_temperature : ℤ → Option Osr
osr_temperature v =
    if is_pos v 256
    then some (record { ratio = 256; read_cmd = 0x50; resp_time = 600 })
    else if is_pos v 512
    then some (record { ratio = 512; read_cmd = 0x52; resp_time = 1170 })
    else if is_pos v 1024
    then some (record { ratio = 1024; read_cmd = 0x54; resp_time = 2280 })
    else if is_pos v 2048
    then some (record { ratio = 2048; read_cmd = 0x56; resp_time = 4540 })
    else if is_pos v 4096
    then some (record { ratio = 4096; read_cmd = 0x58; resp_time = 9040 })
    else none

unfoldable pub pressure_osr_set : Ms5611 → ℤ → Code × Ms5611
pressure_osr_set d v = elim (osr_pressure v) [
  | none ↦ (error einval, d)
  | some o ↦ (success, record d { osr_pres = o })
]

unfoldable pub temperature_osr_set : Ms5611 → ℤ → Code × Ms5611
temperature_osr_set d v = elim (osr_temperature v) [
  | none ↦ (error einval, d)
  | some o ↦ (success, record d { osr_temp = o })
]

-- The `switch` of ms5611_attr_set
attr_set_channel : Channel → Ms5611 → ℤ → Code × Ms5611
attr_set_channel ambient_temp d v = temperature_osr_set d v
attr_set_channel press d v = pressure_osr_set d v
attr_set_channel all d v =
    let (ret, d') = pressure_osr_set d v in
    if is_nonzero ret then (ret, d') else temperature_osr_set d' v
attr_set_channel other_channel d v = (error enotsup, d)

unfoldable pub attr_set : Ms5611 → Channel → Attribute → ℤ → Code × Ms5611
unfolding attr_set_channel
attr_set d chan oversampling v = attr_set_channel chan d v
attr_set d chan other_attribute v = (error enotsup, d)

-- ms5611_channel_get. The fields are `uint32_t`, so a quotient by 100 fits the `int32_t` of the value.
unfoldable pub channel_get : Ms5611 → Channel → Code × Option SensorValue
channel_get d press =
    (success, some (record { val1 = pos (d.meas.press / 100); val2 = pos (d.meas.press % 100) }))
channel_get d ambient_temp =
    (success, some (record { val1 = pos (d.meas.temp / 100); val2 = pos (d.meas.temp % 100) }))
channel_get d all = (error enotsup, none)
channel_get d other_channel = (error enotsup, none)
