-- ===== src/Ms5611/Settings.antt =====
-- Setting the oversampling of ms5611.c, and reading a temperature below zero.
use backplane_flight_compute.Base.{
  ℕ, ◌+◌, ◌-◌, ◌*◌, ◌/◌, ◌%◌, ◌^◌, ◌≤◌, ◌<◌, ◌≡◌, ◌≢◌, ◌⊎◌, refl, Bool, true, false, some, arith,
  inl, inr, Option-cases, Bool-cases,
}
use backplane_flight_compute.Base.Int.{ℤ, pos, negsuc, unsigned}
use backplane_flight_compute.Zephyr.{success, is_nonzero}
use backplane_flight_compute.Ms5611.Device.{
  Ms5611, Osr, Channel, press, ambient_temp, all, other_channel, Attribute, oversampling,
  other_attribute, attr_set, channel_get, osr_pressure, osr_temperature, pressure_osr_set,
  temperature_osr_set,
}

-- A setting with the command of its channel: a ratio of 256 * 2 ^ k has the command `base` + 2 k,
-- for a k below 5.
pub record IsOsr (base : ℕ) (o : Osr) : Type 0 where
  pub ratio_fits : o.ratio ≡ 256 * 2 ^ ((o.read_cmd - base) / 2)
  pub above : base ≤ o.read_cmd
  pub below : o.read_cmd ≤ base + 8

pub record IsConfigured (d : Ms5611) : Type 0 where
  pub pressure : IsOsr 0x40 d.osr_pres
  pub temperature : IsOsr 0x50 d.osr_temp

-- Which setting a channel reaches.
abbrev pub sets_pressure : Channel → Bool
sets_pressure press = true
sets_pressure ambient_temp = false
sets_pressure all = true
sets_pressure other_channel = false

abbrev pub sets_temperature : Channel → Bool
sets_temperature press = false
sets_temperature ambient_temp = true
sets_temperature all = true
sets_temperature other_channel = false

-- A setting that a call reaches has the ratio asked for; any other is as before.
abbrev pub Sets : Bool → ℤ → Osr → Osr → Type 0
Sets true v before after = pos after.ratio ≡ v
Sets false v before after = after ≡ before

-- A call fails and changes nothing, or it succeeds: then the attribute is the oversampling, the settings
-- of the channels it names have the ratio asked for, the others are as before, and so are PROM and
-- measurement.
pub attr_set_all_or_nothing :
    (d : Ms5611) (chan : Channel) (a : Attribute) (v : ℤ)
    → let (ret, d') = attr_set d chan a v in
      ((ret ≢ success) × (d' ≡ d))
      ⊎ ((ret ≡ success)
          × (a ≡ oversampling)
          × (chan ≢ other_channel)
          × Sets (sets_pressure chan) v d.osr_pres d'.osr_pres
          × Sets (sets_temperature chan) v d.osr_temp d'.osr_temp
          × (d'.prom ≡ d.prom)
          × (d'.meas ≡ d.meas))
unfolding attr_set pressure_osr_set temperature_osr_set osr_pressure osr_temperature
attr_set_all_or_nothing d chan a (negsuc n) = ground arith
attr_set_all_or_nothing d press a (pos n) = ground arith
attr_set_all_or_nothing d ambient_temp a (pos n) = ground arith
attr_set_all_or_nothing d all a (pos n) = ground arith
attr_set_all_or_nothing d other_channel a (pos n) = ground arith

osr_pressure-IsOsr : (v : ℤ) (o : Osr) → osr_pressure v ≡ some o → IsOsr 0x40 o
unfolding osr_pressure
osr_pressure-IsOsr (pos n) o h = ground arith
osr_pressure-IsOsr (negsuc n) o h = cc

osr_temperature-IsOsr : (v : ℤ) (o : Osr) → osr_temperature v ≡ some o → IsOsr 0x50 o
unfolding osr_temperature
osr_temperature-IsOsr (pos n) o h = ground arith
osr_temperature-IsOsr (negsuc n) o h = cc

pressure_osr_set-IsConfigured :
    (d : Ms5611) (v : ℤ) → IsConfigured d → IsConfigured (pressure_osr_set d v).1
unfolding pressure_osr_set
pressure_osr_set-IsConfigured d v c = elim (Option-cases (osr_pressure v)) [
  | inl e ↦ rw (e, pressure_osr_set) c
  | inr (o, e) ↦
      rw (e, pressure_osr_set)
        (record { pressure = osr_pressure-IsOsr v o e; temperature = c.temperature })
]

temperature_osr_set-IsConfigured :
    (d : Ms5611) (v : ℤ) → IsConfigured d → IsConfigured (temperature_osr_set d v).1
unfolding temperature_osr_set
temperature_osr_set-IsConfigured d v c = elim (Option-cases (osr_temperature v)) [
  | inl e ↦ rw (e, temperature_osr_set) c
  | inr (o, e) ↦
      rw (e, temperature_osr_set)
        (record { pressure = c.pressure; temperature = osr_temperature-IsOsr v o e })
]

-- A call on any channel keeps the settings matched: each ratio with its own command.
attr_set-IsConfigured :
    (d : Ms5611) (chan : Channel) (a : Attribute) (v : ℤ)
    → IsConfigured d
    → IsConfigured (attr_set d chan a v).1
unfolding attr_set
attr_set-IsConfigured d chan other_attribute v c = c
attr_set-IsConfigured d press oversampling v c = pressure_osr_set-IsConfigured d v c
attr_set-IsConfigured d ambient_temp oversampling v c = temperature_osr_set-IsConfigured d v c
attr_set-IsConfigured d all oversampling v c =
    let (ret, d') = pressure_osr_set d v in
    let c' = pressure_osr_set-IsConfigured d v c in
    elim (Bool-cases (is_nonzero ret)) [
      | inl e ↦ rw e c'
      | inr e ↦ rw e (temperature_osr_set-IsConfigured d' v c')
    ]
attr_set-IsConfigured d other_channel oversampling v c = c

-- `meas.temp` is unsigned, so a temperature of -t hundredths, 0 < t ≤ 2 ^ 31, is reported as a value of
-- more than twenty million degrees.
negative_temp_reads_positive :
    (d : Ms5611) (t : ℕ)
    → t < 2 ^ 31
    → d.meas.temp ≡ unsigned 32 (negsuc t)
    → (degrees : ℕ) × (hundredths : ℕ) × (channel_get d ambient_temp
        ≡ (success, some (record { val1 = pos degrees; val2 = pos hundredths })))
      × (21474836 ≤ degrees)
unfolding channel_get unsigned
negative_temp_reads_positive d t h e = (d.meas.temp / 100, d.meas.temp % 100, refl, omega arith)
