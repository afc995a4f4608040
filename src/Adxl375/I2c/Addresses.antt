-- ===== src/Adxl375/I2c/Addresses.antt =====
-- The registers that the transfer functions reach.
use backplane_flight_compute.Base.{
  ℕ, ◌/◌, ◌%◌, ◌^◌, ◌<◌, ◌≡◌, refl, ◌∙◌, Bool, true, false, not, ◌&&◌, [], ◌∷◌, ◌==◌, bit_and,
  passes_below, passes_below-at, arith,
}
use backplane_flight_compute.Zephyr.{Code, run, Machine}
use backplane_flight_compute.Adxl375.Device.{Sample, reg_datax0, sample_fetch}
use backplane_flight_compute.Adxl375.Samples.{FitsInt16, low_byte, high_byte, sample_fetch_decodes}
use backplane_flight_compute.Adxl375.I2c.{
  I2cRegisters, reg_read_address, reg_write_address, bus_access, i2c_reg_read_multiple,
  i2c_reg_write, i2c_transfer,
}

abbrev is_kept : ℕ → Bool
is_kept r =
    (reg_read_address r / 2 == r)
    && not (bit_and (reg_read_address r) 0x01 == 0)
    && (reg_write_address r / 2 == r)
    && (bit_and (reg_write_address r) 0x01 == 0)

addresses : passes_below 128 is_kept ≡ true
unfolding passes_below reg_read_address reg_write_address
addresses = refl

module _ {W : Type 0} (bus : I2cRegisters W) where
  -- A read of several registers, from one below 128, is the bus's.
  pub i2c_reg_read_multiple_lem :
      (r count : ℕ) (w : W)
      → r < 128
      → count < 2 ^ 16
      → i2c_reg_read_multiple bus r count w ≡ bus.burst_read r count w
  unfolding i2c_reg_read_multiple bus_access
  i2c_reg_read_multiple_lem r count w h k =
      let kept = passes_below-at 128 is_kept r addresses h in
      let same : reg_read_address r / 2 ≡ r = ground (arith, kept) in
      let is_read : (bit_and (reg_read_address r) 0x01 == 0) ≡ false = ground (arith, kept) in
      let short : count % 2 ^ 16 ≡ count = omega arith in rw (is_read, same, short) refl

  -- A write of a register below 128 is the bus's.
  i2c_reg_write_lem :
      (r byte : ℕ) (w : W) → r < 128 → i2c_reg_write bus r byte w ≡ bus.reg_write_byte r byte w
  unfolding i2c_reg_write bus_access
  i2c_reg_write_lem r byte w h =
      let kept = passes_below-at 128 is_kept r addresses h in
      let same : reg_write_address r / 2 ≡ r = ground (arith, kept) in
      let is_write : (bit_and (reg_write_address r) 0x01 == 0) ≡ true = ground (arith, kept) in
      rw (is_write, same) refl

  -- Where six registers from DATAX0 of an I2C bus read as three integers of 16 bits, each in two's
  -- complement with its low byte first, a measurement over that bus stores these integers, and returns
  -- what the read returned.
  pub sample_fetch_over_i2c :
      (m : Machine Sample W) (s : Sample) (ret : Code) (w : W)
      → FitsInt16 s.x
      → FitsInt16 s.y
      → FitsInt16 s.z
      → bus.burst_read reg_datax0 6 m.world ≡ (
        ret,
        low_byte s.x
            ∷ high_byte s.x
            ∷ low_byte s.y
            ∷ high_byte s.y
            ∷ low_byte s.z
            ∷ high_byte s.z
            ∷ [],
        w,
      )
      → run (sample_fetch (i2c_transfer bus)) m ≡ (ret, record { dev = s; world = w })
  unfolding i2c_transfer
  sample_fetch_over_i2c m s ret w hx hy hz answer =
      sample_fetch_decodes (i2c_transfer bus) m s ret w hx hy hz
        (i2c_reg_read_multiple_lem reg_datax0 6 m.world (omega arith) (omega arith) ∙ answer)
