-- ===== src/Ms5611/Compensation.antt =====
-- The arithmetic of ms5611_fetch_temp_and_press (ms5611.c, "Calculate compensated temperature value"
-- to the end), in the integer types of C: `^` is the exclusive or that it is there.
use backplane_flight_compute.Base.{ℕ, ◌+◌, ◌-◌, ◌*◌, ◌/◌, ◌%◌, ◌^◌, List, if◌then◌else◌, get_or}
use backplane_flight_compute.Base.Int.{
  ℤ, pos, negsuc, ◌+ℤ◌, ◌-ℤ◌, ◌*ℤ◌, ltb_ℤ, quot_ℤ, shr_ℤ, unsigned, int32, xor_int32,
}
use backplane_flight_compute.Ms5611.Device.{Meas}

abbrev pub coefficient : List ℕ → ℕ → ℕ
coefficient prom i = get_or prom i 0

-- `dT = raw_temp - (data->prom[5] << 8);`
unfoldable pub temp_difference : List ℕ → ℕ → ℤ
unfolding ◌-ℤ◌ int32
temp_difference prom raw_temp = int32 (pos raw_temp -ℤ pos (coefficient prom 5 * 2 ^ 8))

-- `temp = 2000 + (((int64_t) dT * data->prom[6]) >> 23);`
unfoldable pub first_temp : List ℕ → ℤ → ℤ
unfolding ◌+ℤ◌ ◌*ℤ◌ shr_ℤ int32
first_temp prom dt = int32 (pos 2000 +ℤ shr_ℤ (dt *ℤ pos (coefficient prom 6)) 23)

-- `t2`, `off2` and `sens2`.
pub record Second : Type 0 where
  pub t2 : ℤ
  pub off2 : ℤ
  pub sens2 : ℤ

unfoldable pub second_order : ℤ → ℤ → Second
unfolding ◌+ℤ◌ ◌-ℤ◌ ◌*ℤ◌ shr_ℤ quot_ℤ xor_int32
second_order dt temp =
    let t2 = shr_ℤ (xor_int32 dt 2) 31 in
    let off2 = quot_ℤ (pos 5 *ℤ xor_int32 (temp -ℤ pos 2000) 2) 2 in
    let sens2 = xor_int32 (pos 5 *ℤ (temp -ℤ pos 2000)) (2 / 4) in
    if ltb_ℤ temp (pos 2000)
    then if ltb_ℤ temp (negsuc 1499)
      then record {
        t2 = t2;
        off2 = off2 +ℤ xor_int32 (pos 7 *ℤ (temp +ℤ pos 1500)) 2;
        sens2 = sens2 +ℤ quot_ℤ (pos 11 *ℤ xor_int32 (temp +ℤ pos 1500) 2) 2;
      }
      else record { t2 = t2; off2 = off2; sens2 = sens2 }
    else record { t2 = pos 0; off2 = pos 0; sens2 = pos 0 }

unfoldable pub offset : List ℕ → ℤ → ℤ → ℤ
unfolding ◌+ℤ◌ ◌-ℤ◌ ◌*ℤ◌ shr_ℤ
offset prom dt off2 =
    pos (coefficient prom 2 * 2 ^ 16 % 2 ^ 32) +ℤ shr_ℤ (pos (coefficient prom 4) *ℤ dt) 7 -ℤ off2

unfoldable pub sensitivity : List ℕ → ℤ → ℤ → ℤ
unfolding ◌+ℤ◌ ◌-ℤ◌ ◌*ℤ◌ shr_ℤ
sensitivity prom dt sens2 =
    pos (coefficient prom 1 * 2 ^ 15) +ℤ shr_ℤ (pos (coefficient prom 3) *ℤ dt) 8 -ℤ sens2

-- `p = (((uint64_t)(raw_press * sens) >> 21) - off) >> 15;`, all of it in `uint64_t`
unfoldable pub pressure : ℕ → ℤ → ℤ → ℤ
unfolding ◌*ℤ◌ unsigned int32
pressure raw_press sens off = int32 (
    pos
      ((unsigned 64 (pos raw_press *ℤ sens) / 2 ^ 21 + 2 ^ 64 - unsigned 64 off) % 2 ^ 64 / 2 ^ 15))

-- The measurement that raw readings and coefficients give.
unfoldable pub compensate : List ℕ → ℕ → ℕ → Meas
unfolding temp_difference first_temp second_order offset sensitivity pressure ◌-ℤ◌ unsigned quot_ℤ
    int32
compensate prom raw_temp raw_press =
    let dt = temp_difference prom raw_temp in
    let temp = first_temp prom dt in
    let second = second_order dt temp in
    let temp' = int32 (temp -ℤ second.t2) in
    let off = offset prom dt second.off2 in
    let sens = sensitivity prom dt second.sens2 in
    let p = pressure raw_press sens off in
    record { press = unsigned 32 (quot_ℤ p 10); temp = unsigned 32 temp' }
