-- ===== src/Ina260/Channels.antt =====
-- What a measurement of ina260.c reads and what it leaves alone, and the configuration it starts with.
use backplane_flight_compute.Base.{
  ℕ, ◌+◌, ◌*◌, ◌/◌, ◌%◌, ◌^◌, ◌≤◌, ◌<◌, ◌≡◌, ◌≢◌, ◌⊎◌, refl, true, List, [], ◌∷◌, if◌then◌else◌,
  passes_below, joins_below, joined, arith,
}
use backplane_flight_compute.Zephyr.{success, error, enotsup, run, Machine, I2c}
use backplane_flight_compute.Ina260.Device.{
  Channel, all, voltage, power, current, other_channel, Ina260, Ina260Config, is_served,
  wants_voltage, wants_power, wants_current, cont_off, conf_reg, reg_read, fetch_voltage,
  fetch_power, fetch_current, sample_fetch, conf_required_top_bits,
}

-- The registers that a channel asks for, taken from `new`, and the others from `old`.
unfoldable pub updated : Channel → Ina260 → Ina260 → Ina260
updated chan old new = record {
  v_bus = if wants_voltage chan then new.v_bus else old.v_bus;
  power_reg = if wants_power chan then new.power_reg else old.power_reg;
  current_reg = if wants_current chan then new.current_reg else old.current_reg;
}

-- What a measurement of each channel is to leave, with the values of the device's registers by their numbers
-- in its data sheet: the current in 1, the voltage of the bus in 2, the power in 3
abbrev pub measured : Channel → (ℕ → ℕ) → Ina260 → Ina260
measured all count old = record { v_bus = count 2; power_reg = count 3; current_reg = count 1 }
measured voltage count old = record old { v_bus = count 2 }
measured power count old = record old { power_reg = count 3 }
measured current count old = record old { current_reg = count 1 }
measured other_channel count old = old

module _ {W : Type 0} (bus : I2c W) (cfg : Ina260Config) where
  -- A measurement that returns 0 or not changes no register's copy but those of its channel, and one of
  -- a channel that the driver does not have, or in a triggered mode, fails with -ENOTSUP, changes
  -- nothing, not even the world behind the bus.
  sample_fetch_keeps :
      (chan : Channel) (m : Machine Ina260 W)
      → let (ret, m') = run (sample_fetch bus cfg chan) m in
        (m'.dev ≡ updated chan m.dev m'.dev)
        × (((is_served chan ≡ true) × (cont_off ≤ cfg.mode)) ⊎ ((ret ≡ error enotsup) × (m' ≡ m)))
  unfolding sample_fetch fetch_voltage fetch_power fetch_current reg_read updated
  sample_fetch_keeps all m = ground (arith)
  sample_fetch_keeps voltage m = ground (arith)
  sample_fetch_keeps power m = ground (arith)
  sample_fetch_keeps current m = ground (arith)
  sample_fetch_keeps other_channel m = ground (arith)

  -- On a bus that answers for each register, a measurement in a continuous mode of the voltage, the power,
  -- the current or all of them succeeds with the device's registers of what was asked for, by their
  -- numbers in its data sheet, and leaves the other copies as they were.
  pub sample_fetch_reads :
      (reg : ℕ → List ℕ) (chan : Channel) (m : Machine Ina260 W)
      → ((r : ℕ) (w : W) → bus.write_read (r ∷ []) 2 w ≡ (success, reg r, w))
      → chan ≢ other_channel
      → 4 ≤ cfg.mode
      → run (sample_fetch bus cfg chan) m
        ≡ (success, record m { dev = measured chan (λ r. bus.get_be16 (reg r)) m.dev })
  unfolding sample_fetch fetch_voltage fetch_power fetch_current reg_read
  sample_fetch_reads reg all m answers served mode =
      ground (arith, answers 2 m.world, answers 3 m.world, answers 1 m.world)
  sample_fetch_reads reg voltage m answers served mode = ground (arith, answers 2 m.world)
  sample_fetch_reads reg power m answers served mode = ground (arith, answers 3 m.world)
  sample_fetch_reads reg current m answers served mode = ground (arith, answers 1 m.world)
  sample_fetch_reads reg other_channel m answers served mode = absurd (served refl)

current_table : joins_below 8 (2 ^ 3) ≡ true
unfolding passes_below
current_table = refl

voltage_table : joins_below 8 (2 ^ 6) ≡ true
unfolding passes_below
voltage_table = refl

average_table : joins_below 8 (2 ^ 9) ≡ true
unfolding passes_below
average_table = refl

top_table : joins_below 7 (2 ^ 12) ≡ true
unfolding passes_below
top_table = refl

-- From settings of three bits each, the configuration word has each in its own place, 0b0110 above them,
-- and the bit that resets the device clear.
conf_reg_fields :
    (cfg : Ina260Config)
    → cfg.average < 8
    → cfg.voltage_conv_time < 8
    → cfg.current_conv_time < 8
    → cfg.mode < 8
    → (conf_reg cfg % 8 ≡ cfg.mode)
      × (conf_reg cfg / 8 % 8 ≡ cfg.current_conv_time)
      × (conf_reg cfg / 64 % 8 ≡ cfg.voltage_conv_time)
      × (conf_reg cfg / 512 % 8 ≡ cfg.average)
      × (conf_reg cfg / 4096 ≡ conf_required_top_bits)
unfolding conf_reg
conf_reg_fields cfg a v c m =
    let n₁ = cfg.current_conv_time * 2 ^ 3 + cfg.mode in
    let n₂ = cfg.voltage_conv_time * 2 ^ 6 + n₁ in
    let n₃ = cfg.average * 2 ^ 9 + n₂ in
    let e₁ = joined 8 (2 ^ 3) cfg.current_conv_time cfg.mode current_table c m in
    let e₂ = joined 8 (2 ^ 6) cfg.voltage_conv_time n₁ voltage_table v (omega arith) in
    let e₃ = joined 8 (2 ^ 9) cfg.average n₂ average_table a (omega arith) in
    let e₄ = joined 7 (2 ^ 12) conf_required_top_bits n₃ top_table (omega arith) (omega arith) in
    rw (e₁, e₂, e₃, e₄) (omega arith, omega arith, omega arith, omega arith, omega arith)
