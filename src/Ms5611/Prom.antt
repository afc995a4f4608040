-- ===== src/Ms5611/Prom.antt =====
-- The calibration PROM of ms5611.c: reading it, its 4-bit CRC, and the start of the driver.
use backplane_flight_compute.Base.{
  ℕ, zero, suc, ◌*◌, ◌/◌, ◌%◌, ◌^◌, List, [], ◌∷◌, if◌then◌else◌, ◌==◌, get_or, set, bit_or,
  bit_xor,
}
use backplane_flight_compute.Base.Int.{pos}
use backplane_flight_compute.Zephyr.{
  Code, success, error, enotsup, Driver, ◌>>=◌, ◌>>◌, check, pure, call, go, Machine, I2c, act,
  fill, wait, device, set_device,
}
use backplane_flight_compute.Ms5611.Device.{Ms5611, pressure_osr_set, temperature_osr_set}

-- One round of the bit loop of ms5611_calculate_crc4; `n_rem` is an `unsigned int`.
unfoldable pub crc_bit : ℕ → ℕ
crc_bit n_rem =
    if n_rem / 2 ^ 15 % 2 == 1 then bit_xor (n_rem * 2 % 2 ^ 32) 0x3000 else n_rem * 2 % 2 ^ 32

unfoldable pub crc_bits : ℕ → ℕ → ℕ
crc_bits zero n_rem = n_rem
crc_bits (suc n_bit) n_rem = crc_bits n_bit (crc_bit n_rem)

-- The byte that round `cnt` takes in: the low byte of a word at an odd count, the high one at an even.
unfoldable pub crc_byte : List ℕ → ℕ → ℕ
crc_byte prom cnt =
    if cnt % 2 == 1 then get_or prom (cnt / 2) 0 % 256 else get_or prom (cnt / 2) 0 / 2 ^ 8 % 256

unfoldable pub crc_bytes : ℕ → ℕ → List ℕ → ℕ → ℕ
crc_bytes zero cnt prom n_rem = n_rem
crc_bytes (suc n) cnt prom n_rem =
    crc_bytes n (suc cnt) prom (crc_bits 8 (bit_xor n_rem (crc_byte prom cnt)))

-- ms5611_calculate_crc4: the CRC's byte is cleared in the PROM for the computation, and put back.
unfoldable pub calculate_crc4 : Ms5611 → ℕ × Ms5611
calculate_crc4 d =
    let crc_read = get_or d.prom 7 0 in
    let cleared = set d.prom 7 (crc_read / 2 ^ 8 * 2 ^ 8) in
    let n_rem = crc_bytes 16 0 cleared 0 / 2 ^ 12 % 16 in
    (bit_xor n_rem 0 % 256, record d { prom = set cleared 7 crc_read })

-- The end of ms5611_check_coef_crc: the computed CRC is compared with the whole word of the PROM.
unfoldable pub compare_crc : Ms5611 → Code × Ms5611
compare_crc d =
    let (crc_value, d') = calculate_crc4 d in
    if crc_value == get_or d'.prom 7 0 then (success, d') else (error enotsup, d')

module _ {W : Type 0} (bus : I2c W) where
  -- The request for PROM word `i` and its answer, as fetch_prom and check_coef_crc both make it.
  unfoldable pub read_word : ℕ → Driver (Machine Ms5611 W) ℕ
  read_word i = do
    ret ← act (bus.write (bit_or 0xA0 (i * 2) ∷ []))
    check ret
    (ret', bytes) ← fill (bus.read 2)
    check ret'
    pure (bus.get_be16 bytes)

  -- The loop of ms5611_fetch_prom, with `n` rounds left at `i`.
  unfoldable pub fetch_prom_from : ℕ → ℕ → Driver (Machine Ms5611 W) Code
  fetch_prom_from zero i = pure success
  fetch_prom_from (suc n) i = do
    word ← read_word i
    d ← device
    set_device (record d { prom = set d.prom i word })
    fetch_prom_from n (suc i)

  unfoldable pub fetch_prom : Driver (Machine Ms5611 W) Code
  unfolding fetch_prom_from
  fetch_prom = fetch_prom_from 8 0

  -- A function of the driver's data alone, as a step.
  abbrev pub on_device : (Ms5611 → Code × Ms5611) → Driver (Machine Ms5611 W) Code
  on_device f m = let (c, d) = f m.dev in (go c, record m { dev = d })

  unfoldable pub check_coef_crc : Driver (Machine Ms5611 W) Code
  check_coef_crc = do
    word ← read_word 7
    d ← device
    set_device (record d { prom = set d.prom 7 word })
    on_device compare_crc

  unfoldable pub set_default_osr : Driver (Machine Ms5611 W) Code
  set_default_osr = do
    ret ← on_device (λ d. pressure_osr_set d (pos 256))
    check ret
    ret ← on_device (λ d. temperature_osr_set d (pos 256))
    check ret
    pure success

  -- ms5611_init
  unfoldable pub init : Driver (Machine Ms5611 W) Code
  init = do
    ret ← act (bus.write (0x1E ∷ []))
    check ret
    wait (bus.sleep_us 3000)
    ret ← call fetch_prom
    check ret
    ret ← call check_coef_crc
    check ret
    set_default_osr
