-- ===== src/SensorUtils/Results.antt =====
-- What the result of a reading tells.
use backplane_flight_compute.Base.{
  ℕ, zero, suc, ◌+◌, ◌-◌, leb, ◌≡◌, refl, ap, sym, ◌∙◌, arith, Bool, false, Bool-cases, inl, inr,
  if◌then◌else◌,
}
use backplane_flight_compute.Base.Int.{ℤ, pos, negsuc}
use backplane_flight_compute.SensorUtils.{
  Channel, Device, negated, get_accelerometer_data_float, get_barometer_data_float,
  get_magnetometer_data_float, get_gyroscope_data_float, get_shunt_data_float, BarometerData,
}
use backplane_flight_compute.SensorUtils.Failures.{fails, readings_lem, barometer_lem}

-- Numbers of at least 0 with one negation are one.
magnitude : ℤ → ℕ
magnitude (pos n) = n
magnitude (negsuc n) = suc n

magnitude-negated : (n : ℕ) → magnitude (negated n) ≡ n
unfolding magnitude
magnitude-negated zero = refl
magnitude-negated (suc n) =
    let below : leb (suc n) 0 ≡ false = ground arith in
    let e : suc (suc n - 0 - 1) ≡ suc n = omega arith in rw below e

negated_injective : (m n : ℕ) → negated m ≡ negated n → m ≡ n
negated_injective m n e = sym (magnitude-negated m) ∙ ap magnitude e ∙ magnitude-negated n

same_bits :
    (a b c a' b' c' : Bool)
    → negated ((if a then 1 else 0) + (if b then 2 else 0) + (if c then 4 else 0))
      ≡ negated ((if a' then 1 else 0) + (if b' then 2 else 0) + (if c' then 4 else 0))
    → (a ≡ a') × (b ≡ b') × (c ≡ c')
same_bits a b c a' b' c' e =
    let n =
      negated_injective ((if a then 1 else 0) + (if b then 2 else 0) + (if c then 4 else 0))
        ((if a' then 1 else 0) + (if b' then 2 else 0) + (if c' then 4 else 0)) e in
    (ground (arith, n), ground (arith, n), ground (arith, n))

same_two :
    (p t p' t' : Bool)
    → negated (if t then 2 + (if p then 1 else 0) else if p then 1 else 0)
      ≡ negated (if t' then 2 + (if p' then 1 else 0) else if p' then 1 else 0)
    → (p ≡ p') × (t ≡ t')
same_two p t p' t' e =
    let n =
      negated_injective (if t then 2 + (if p then 1 else 0) else if p then 1 else 0)
        (if t' then 2 + (if p' then 1 else 0) else if p' then 1 else 0) e in
    (ground (arith, n), ground (arith, n))

-- Two equal readings give two equal results.
same_results : {A : Type 0} {x x' y y' : ℤ × A} → x ≡ y → x' ≡ y' → x.0 ≡ x'.0 → y.0 ≡ y'.0
same_results {A} e e' f = sym (ap (λ (r : ℤ × A). r.0) e) ∙ f ∙ ap (λ (r : ℤ × A). r.0) e'

-- The getters of several channels
pub data Getter : Type 0 where
  accelerometer magnetometer gyroscope shunt barometer : Getter

module _ {V F : Type 0} (dev : Device V F) where
  -- What a getter returns, for a barometer into `d`
  abbrev pub result : Getter → BarometerData F → ℤ
  result Getter.accelerometer d = (get_accelerometer_data_float dev).0
  result Getter.magnetometer d = (get_magnetometer_data_float dev).0
  result Getter.gyroscope d = (get_gyroscope_data_float dev).0
  result Getter.shunt d = (get_shunt_data_float dev).0
  result Getter.barometer d = (get_barometer_data_float dev d).0

  barometer_result :
      (d : BarometerData F)
      → (get_barometer_data_float dev d).0
        ≡ negated (
            if fails dev Channel.ambient_temp
            then 2 + (if fails dev Channel.press then 1 else 0)
            else if fails dev Channel.press
            then 1
            else 0)
  barometer_result d = elim (Bool-cases (fails dev Channel.ambient_temp)) [
    | inl bad ↦ rw bad (ap (λ (r : ℤ × BarometerData F). r.0) (rw bad at (barometer_lem dev d)))
    | inr good ↦ rw good (ap (λ (r : ℤ × BarometerData F). r.0) (rw good at (barometer_lem dev d)))
  ]

module _ {V F : Type 0} (dev dev' : Device V F) where
  abbrev pub FailAlike : Channel → Type 0
  FailAlike chan = fails dev chan ≡ fails dev' chan

  -- The same of a getter's channels fail on the two devices.
  abbrev pub AllFailAlike : Getter → Type 0
  AllFailAlike Getter.accelerometer =
      FailAlike Channel.accel_x × FailAlike Channel.accel_y × FailAlike Channel.accel_z
  AllFailAlike Getter.magnetometer =
      FailAlike Channel.magn_x × FailAlike Channel.magn_y × FailAlike Channel.magn_z
  AllFailAlike Getter.gyroscope =
      FailAlike Channel.gyro_x × FailAlike Channel.gyro_y × FailAlike Channel.gyro_z
  AllFailAlike Getter.shunt =
      FailAlike Channel.current × FailAlike Channel.voltage × FailAlike Channel.power
  AllFailAlike Getter.barometer = FailAlike Channel.press × FailAlike Channel.ambient_temp

  -- The result of a getter of the accelerometer, the magnetometer, the gyroscope, the shunt or the barometer
  -- tells which of its channels could not be read: where it is the same for two devices, the same channels
  -- fail on them, whatever else they give.
  pub results_tell_failures :
      (getter : Getter) (d d' : BarometerData F)
      → result dev getter d ≡ result dev' getter d'
      → AllFailAlike getter
  results_tell_failures Getter.accelerometer d d' e =
      same_bits _ _ _ _ _ _ (same_results (readings_lem dev).0 (readings_lem dev').0 e)
  results_tell_failures Getter.magnetometer d d' e =
      same_bits _ _ _ _ _ _ (same_results (readings_lem dev).1 (readings_lem dev').1 e)
  results_tell_failures Getter.gyroscope d d' e =
      same_bits _ _ _ _ _ _ (same_results (readings_lem dev).2 (readings_lem dev').2 e)
  results_tell_failures Getter.shunt d d' e =
      same_bits _ _ _ _ _ _ (same_results (readings_lem dev).3 (readings_lem dev').3 e)
  results_tell_failures Getter.barometer d d' e =
      same_two _ _ _ _ (sym (barometer_result dev d) ∙ e ∙ barometer_result dev' d')
