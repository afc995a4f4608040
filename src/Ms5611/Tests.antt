-- ===== src/Ms5611/Tests.antt =====
-- The MS5611 driver on a bus whose device answers each read with fixed bytes.
use backplane_flight_compute.Base.{
  ℕ, ◌+◌, ◌*◌, ◌/◌, ◌%◌, ◌≡◌, ◌≢◌, ◌⊎◌, ◌<◌, refl, true, List, [], ◌∷◌, get_or, replicate,
  if◌then◌else◌, ◌==◌, arith,
}
use backplane_flight_compute.Base.Int.{pos, negsuc, unsigned}
use backplane_flight_compute.Zephyr.{success, go, error, enotsup, is_negative, run, Machine, I2c}
use backplane_flight_compute.Ms5611.Device.{Ms5611, all, other_channel, oversampling, attr_set}
use backplane_flight_compute.Ms5611.Compensation.{compensate}
use backplane_flight_compute.Ms5611.Prom.{
  crc_bit, crc_bits, crc_byte, crc_bytes, calculate_crc4, compare_crc, init,
}
use backplane_flight_compute.Ms5611.Fetch.{convert, sample_fetch}
use backplane_flight_compute.Ms5611.Settings.{
  IsConfigured, Sets, sets_pressure, sets_temperature, attr_set_all_or_nothing,
}
use backplane_flight_compute.Ms5611.Start.{Kept, sample_fetch_lem, init_lem}

-- The world is the last byte written; a PROM word is looked up by its address, a conversion is fixed.
abbrev bus_of : List ℕ → I2c ℕ
bus_of prom = record {
  write = λ bytes w. (success, get_or bytes 0 0);
  read = λ n w. (
    success,
    (if n == 2
        then get_or prom (w % 16 / 2) 0 / 256 ∷ get_or prom (w % 16 / 2) 0 % 256 ∷ []
        else 0x82 ∷ 0xC1 ∷ 0x3E ∷ []),
    w,
  );
  write_read = λ bytes n w. (success, replicate n 0, w);
  sleep_us = λ us w. w;
  is_ready = true;
  get_be16 = λ bytes. get_or bytes 0 0 * 256 + get_or bytes 1 0;
  get_be24 = λ bytes. get_or bytes 0 0 * 65536 + get_or bytes 1 0 * 256 + get_or bytes 2 0;
  put_be16 = λ n. n / 256 % 256 ∷ n % 256 ∷ [];
}

abbrev settled : Ms5611
settled = record {
  prom = replicate 8 0;
  osr_pres = record { ratio = 256; read_cmd = 0x40; resp_time = 600 };
  osr_temp = record { ratio = 256; read_cmd = 0x50; resp_time = 600 };
  meas = record { press = 100009; temp = unsigned 32 (negsuc 499) };
}

abbrev machine : Machine Ms5611 ℕ
machine = record { dev = settled; world = 0 }

-- The PROM of the manufacturer's CRC example, whose CRC is 0xB beside another byte of 0x45.
abbrev example_prom : List ℕ
example_prom = 0x3132 ∷ 0x3334 ∷ 0x3536 ∷ 0x3738 ∷ 0x3940 ∷ 0x4142 ∷ 0x4344 ∷ 0x450B ∷ []

-- The driver computes that CRC, and refuses the device.
example_prom_refused :
    ((calculate_crc4 (record settled { prom = example_prom })).0 ≡ 0xB)
    × ((compare_crc (record settled { prom = example_prom })).0 ≡ error enotsup)
unfolding calculate_crc4 crc_bit crc_bits crc_byte crc_bytes compare_crc
example_prom_refused = (refl, refl)

settled-IsConfigured : IsConfigured settled
settled-IsConfigured = record {
  pressure = record { ratio_fits = refl; above = omega arith; below = omega arith };
  temperature = record { ratio_fits = refl; above = omega arith; below = omega arith };
}

init_lem_example :
    let (ret, m') = run (init (bus_of (replicate 8 0))) machine in
    ((is_negative ret ≡ true) × Kept settled m'.dev)
    ⊎ ((ret ≡ success)
        × ((calculate_crc4 m'.dev).0 ≡ get_or m'.dev.prom 7 0)
        × (get_or m'.dev.prom 7 0 < 16)
        × IsConfigured m'.dev)
init_lem_example = init_lem (bus_of (replicate 8 0)) machine

sample_fetch_lem_example :
    let (ret, m') = run (sample_fetch (bus_of example_prom)) machine in
    ((is_negative ret ≡ true) × (m'.dev ≡ settled))
    ⊎ ((raw_temp : ℕ) × (raw_press : ℕ) × (ret ≡ success)
        × ((convert (bus_of example_prom) settled.osr_temp machine).0 ≡ go raw_temp)
        × ((convert
              (bus_of example_prom)
              settled.osr_pres
              (convert (bus_of example_prom) settled.osr_temp machine).1).0
            ≡ go raw_press)
        × (raw_temp ≢ 0)
        × (raw_press ≢ 0)
        × (m'.dev ≡ record settled { meas = compensate settled.prom raw_temp raw_press }))
sample_fetch_lem_example = sample_fetch_lem (bus_of example_prom) machine

attr_set_all_or_nothing_example :
    let (ret, d') = attr_set settled all oversampling (pos 1024) in
    ((ret ≢ success) × (d' ≡ settled))
    ⊎ ((ret ≡ success)
        × (oversampling ≡ oversampling)
        × (all ≢ other_channel)
        × Sets (sets_pressure all) (pos 1024) settled.osr_pres d'.osr_pres
        × Sets (sets_temperature all) (pos 1024) settled.osr_temp d'.osr_temp
        × (d'.prom ≡ settled.prom)
        × (d'.meas ≡ settled.meas))
attr_set_all_or_nothing_example = attr_set_all_or_nothing settled all oversampling (pos 1024)
