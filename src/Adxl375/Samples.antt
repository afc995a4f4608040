-- ===== src/Adxl375/Samples.antt =====
-- What a measurement of adxl375.c stores, and what its start has seen.
use backplane_flight_compute.Base.{
  ℕ, ◌-◌, ◌*◌, ◌+◌, ◌/◌, ◌%◌, ◌^◌, ◌<◌, ◌≡◌, ◌⊎◌, refl, true, false, [], ◌∷◌, bit_or, word_of_bytes,
  arith,
}
use backplane_flight_compute.Base.Int.{ℤ, pos, negsuc, ◌≤ℤ◌, unsigned, signed, int16}
use backplane_flight_compute.Zephyr.{Code, is_negative, is_nonzero, run, Machine}
use backplane_flight_compute.Adxl375.Device.{
  Transfer, Sample, Adxl375Config, axis_at, reg_devid, reg_datax0, devid_val, check_id,
  set_odr_and_lp, set_op_mode, set_data_format, init, sample_fetch,
}

-- The bytes of an integer in the device's registers: two's complement, the low byte first.
abbrev pub low_byte : ℤ → ℕ
low_byte a = unsigned 16 a % 256

abbrev pub high_byte : ℤ → ℕ
high_byte a = unsigned 16 a / 256

abbrev pub FitsInt16 : ℤ → Type 0
FitsInt16 a = (negsuc (2 ^ 15 - 1) ≤ℤ a) × (a ≤ℤ pos (2 ^ 15 - 1))

unsigned-lt : (a : ℤ) → unsigned 16 a < 2 ^ 16
unfolding unsigned
unsigned-lt (pos n) = omega arith
unsigned-lt (negsuc n) = omega arith

int16-unsigned : (a : ℤ) → FitsInt16 a → int16 (unsigned 16 a) ≡ a
unfolding int16 signed unsigned
int16-unsigned (pos n) h = ground arith
int16-unsigned (negsuc n) h = ground arith

int16-bytes : (a : ℤ) → FitsInt16 a → int16 (bit_or (high_byte a * 2 ^ 8) (low_byte a)) ≡ a
int16-bytes a h =
    let joined =
      word_of_bytes (high_byte a) (low_byte a) (omega (arith, unsigned-lt a)) (omega arith) in
    let whole : unsigned 16 a / 256 * 256 + unsigned 16 a % 256 ≡ unsigned 16 a = omega arith in
    rw (joined, whole) (int16-unsigned a h)

module _ {W : Type 0} (tf : Transfer W) where
  -- Where the device answers with three integers of 16 bits, each in two's complement with its low byte
  -- first, a measurement stores these integers, and returns what the transfer returned.
  pub sample_fetch_decodes :
      (m : Machine Sample W) (s : Sample) (ret : Code) (w : W)
      → FitsInt16 s.x
      → FitsInt16 s.y
      → FitsInt16 s.z
      → tf.read_reg_multiple reg_datax0 6 m.world ≡ (
        ret,
        low_byte s.x
            ∷ high_byte s.x
            ∷ low_byte s.y
            ∷ high_byte s.y
            ∷ low_byte s.z
            ∷ high_byte s.z
            ∷ [],
        w,
      )
      → run (sample_fetch tf) m ≡ (ret, record { dev = s; world = w })
  unfolding sample_fetch axis_at
  sample_fetch_decodes m s ret w hx hy hz answer =
      rw (answer, int16-bytes s.x hx, int16-bytes s.y hy, int16-bytes s.z hz) refl

  -- A start fails with a negative code, or it has set up the bus and read the device's identity without
  -- one, and the identity was the ADXL375's or the read returned a positive code.
  init_checks_device :
      (cfg : Adxl375Config) (w : W)
      → let (ready, w₁) = tf.bus_init w in
        let (ret, device_id, w₂) = tf.read_reg reg_devid w₁ in
        (is_negative (run (init tf cfg) w).0 ≡ true)
        ⊎ ((is_negative ready ≡ false)
            × (is_negative ret ≡ false)
            × ((is_nonzero ret ≡ true) ⊎ (device_id ≡ devid_val)))
  unfolding init check_id set_odr_and_lp set_op_mode set_data_format
  init_checks_device cfg w = ground arith
