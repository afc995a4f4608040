-- ===== src/Ms5611/Start.antt =====
-- What the start and a measurement of ms5611.c leave behind, on every path.
use backplane_flight_compute.Base.{
  ℕ, zero, suc, ◌*◌, ◌/◌, ◌%◌, ◌^◌, ◌<◌, ◌≡◌, ◌≢◌, ◌⊎◌, refl, sym, ap, true, false, List, [], ◌∷◌,
  get_or, set, ltb, set-put_back, bit_xor, passes_below, passes_below-at, ltb→lt, arith, inl, inr,
  Bool-cases, ◌∙◌,
}
use backplane_flight_compute.Zephyr.{
  Code, success, error, enotsup, run, Machine, I2c, is_negative, go, stop, Outcome-cases,
}
use backplane_flight_compute.Ms5611.Device.{
  Ms5611, Osr, pressure_osr_set, temperature_osr_set, osr_pressure, osr_temperature,
}
use backplane_flight_compute.Ms5611.Compensation.{compensate}
use backplane_flight_compute.Ms5611.Prom.{
  calculate_crc4, compare_crc, read_word, set_default_osr, fetch_prom_from, fetch_prom,
  check_coef_crc, init,
}
use backplane_flight_compute.Ms5611.Settings.{IsConfigured}
use backplane_flight_compute.Ms5611.Fetch.{convert, fetch_temp_and_press, sample_fetch}

-- The settings and the measurement are as before.
abbrev pub Kept : Ms5611 → Ms5611 → Type 0
Kept d d' = (d'.osr_pres ≡ d.osr_pres) × (d'.osr_temp ≡ d.osr_temp) × (d'.meas ≡ d.meas)

-- The computation of the CRC puts every word of the PROM back.
calculate_crc4_keeps_prom : (d : Ms5611) → (calculate_crc4 d).1 ≡ d
unfolding calculate_crc4
calculate_crc4_keeps_prom d =
    ap (λ (p : List ℕ). record d { prom = p })
      (set-put_back d.prom 7 (get_or d.prom 7 0 / 2 ^ 8 * 2 ^ 8) 0)

xor_none_table : passes_below 16 (λ x. ltb (bit_xor x 0 % 256) 16) ≡ true
unfolding passes_below
xor_none_table = refl

calculate_crc4-lt : (d : Ms5611) → (calculate_crc4 d).0 < 16
unfolding calculate_crc4
calculate_crc4-lt d =
    ltb→lt _ 16
      (passes_below-at 16 (λ x. ltb (bit_xor x 0 % 256) 16) _ xor_none_table (omega arith))

-- What the comparison accepts.
compare_crc_lem :
    (d : Ms5611)
    → ((compare_crc d).1 ≡ d)
      × (((compare_crc d).0 ≡ error enotsup)
          ⊎ (((compare_crc d).0 ≡ success) × ((calculate_crc4 d).0 ≡ get_or d.prom 7 0)))
unfolding compare_crc
compare_crc_lem d = ground (arith, calculate_crc4_keeps_prom d)

module _ {W : Type 0} (bus : I2c W) where
  -- A conversion touches the bus and not the driver's data.
  convert_keeps_device : (o : Osr) (m : Machine Ms5611 W) → (convert bus o m).1.dev ≡ m.dev
  unfolding convert
  convert_keeps_device o m = ground arith

  convert_stop :
      (o : Osr) (m : Machine Ms5611 W) (c : Code)
      → (convert bus o m).0 ≡ stop c
      → is_negative c ≡ true
  unfolding convert
  convert_stop o m c h = ground arith

  convert_go : (o : Osr) (m : Machine Ms5611 W) (n : ℕ) → (convert bus o m).0 ≡ go n → n ≢ 0
  unfolding convert
  convert_go o m n h = ground arith

  -- A fetch that fails leaves the driver's data as it was; one that succeeds has converted the temperature
  -- and after it the pressure, to readings that are not 0, puts their compensation with the PROM into
  -- `meas`, and changes nothing else.
  pub sample_fetch_lem :
      (m : Machine Ms5611 W)
      → let (ret, m') = run (sample_fetch bus) m in
        ((is_negative ret ≡ true) × (m'.dev ≡ m.dev))
        ⊎ ((raw_temp : ℕ) × (raw_press : ℕ) × (ret ≡ success)
            × ((convert bus m.dev.osr_temp m).0 ≡ go raw_temp)
            × ((convert bus m.dev.osr_pres (convert bus m.dev.osr_temp m).1).0 ≡ go raw_press)
            × (raw_temp ≢ 0)
            × (raw_press ≢ 0)
            × (m'.dev ≡ record m.dev { meas = compensate m.dev.prom raw_temp raw_press }))
  unfolding sample_fetch fetch_temp_and_press
  sample_fetch_lem m =
      let m₁ = (convert bus m.dev.osr_temp m).1 in
      elim (Outcome-cases (convert bus m.dev.osr_temp m).0) [
        | inl (c, e) ↦ inl (
            ground
              (arith, convert_stop m.dev.osr_temp m c e, convert_keeps_device m.dev.osr_temp m))
        | inr (t, e) ↦ elim (Outcome-cases (convert bus m.dev.osr_pres m₁).0) [
          | inl (c, e') ↦ inl (
              ground (
                arith,
                convert_stop m.dev.osr_pres m₁ c e',
                convert_keeps_device m.dev.osr_temp m,
                convert_keeps_device m.dev.osr_pres m₁,
              ))
          | inr (p, e') ↦ inr (
            t,
            p,
            ground arith,
            e,
            e',
            convert_go m.dev.osr_temp m t e,
            convert_go m.dev.osr_pres m₁ p e',
            ground (
              arith,
              convert_keeps_device m.dev.osr_temp m,
              convert_keeps_device m.dev.osr_pres m₁,
            ),
          )
        ]
      ]

  -- A word read from the bus touches no data of the driver.
  read_word_keeps_device : (i : ℕ) (m : Machine Ms5611 W) → (read_word bus i m).1.dev ≡ m.dev
  unfolding read_word
  read_word_keeps_device i m = ground arith

  read_word_stop :
      (i : ℕ) (m : Machine Ms5611 W) (c : Code)
      → (read_word bus i m).0 ≡ stop c
      → is_negative c ≡ true
  unfolding read_word
  read_word_stop i m c h = ground arith

  fetch_prom_from_keeps :
      (n i : ℕ) (m : Machine Ms5611 W) → Kept m.dev (run (fetch_prom_from bus n i) m).1.dev
  unfolding fetch_prom_from
  fetch_prom_from_keeps zero i m = (refl, refl, refl)
  fetch_prom_from_keeps (suc n) i m = elim (Outcome-cases (read_word bus i m).0) [
    | inl (c, e) ↦ ground (arith, read_word_keeps_device i m)
    | inr (w, e) ↦
        let m' = (read_word bus i m).1 in
        let m'' : Machine Ms5611 W = record m' {
          dev = record m'.dev { prom = set m'.dev.prom i w };
        } in
        ground (arith, read_word_keeps_device i m, fetch_prom_from_keeps n (suc i) m'')
  ]

  check_coef_crc_lem :
      (m : Machine Ms5611 W)
      → let (ret, m') = run (check_coef_crc bus) m in
        Kept m.dev m'.dev
        × ((is_negative ret ≡ true)
            ⊎ ((ret ≡ success) × ((calculate_crc4 m'.dev).0 ≡ get_or m'.dev.prom 7 0)))
  unfolding check_coef_crc
  check_coef_crc_lem m = elim (Outcome-cases (read_word bus 7 m).0) [
    | inl (c, e) ↦ ground (arith, read_word_keeps_device 7 m, read_word_stop 7 m c e)
    | inr (w, e) ↦
        let m' = (read_word bus 7 m).1 in
        let d : Ms5611 = record m'.dev { prom = set m'.dev.prom 7 w } in
        ground (arith, read_word_keeps_device 7 m, compare_crc_lem d)
  ]

  crc_accepted :
      (m : Machine Ms5611 W)
      → is_negative (run (check_coef_crc bus) m).0 ≡ false
      → let d = (run (check_coef_crc bus) m).1.dev in (calculate_crc4 d).0 ≡ get_or d.prom 7 0
  crc_accepted m h = ground (arith, check_coef_crc_lem m)

  fetch_prom_keeps : (m : Machine Ms5611 W) → Kept m.dev (run (fetch_prom bus) m).1.dev
  unfolding fetch_prom
  fetch_prom_keeps m = fetch_prom_from_keeps 8 0 m

  -- The default settings have their commands, and the PROM and its CRC are as before.
  set_default_osr_lem :
      (m : Machine Ms5611 W)
      → let (ret, m') = run (set_default_osr bus) m in
        (ret ≡ success)
        × IsConfigured m'.dev
        × ((calculate_crc4 m'.dev).0 ≡ (calculate_crc4 m.dev).0)
        × (m'.dev.prom ≡ m.dev.prom)
  unfolding set_default_osr pressure_osr_set temperature_osr_set osr_pressure osr_temperature
      calculate_crc4
  set_default_osr_lem m = (refl, omega arith, refl, refl)

  -- The start of the driver either fails with a negative code, and leaves the settings and the
  -- measurement alone, or it succeeds: then the CRC of the PROM is the whole of its last word, which so
  -- is below 16, and each setting has the command of its own channel and ratio.
  pub init_lem :
      (m : Machine Ms5611 W)
      → let (ret, m') = run (init bus) m in
        ((is_negative ret ≡ true) × Kept m.dev m'.dev)
        ⊎ ((ret ≡ success)
            × ((calculate_crc4 m'.dev).0 ≡ get_or m'.dev.prom 7 0)
            × (get_or m'.dev.prom 7 0 < 16)
            × IsConfigured m'.dev)
  unfolding init
  init_lem m =
      let c₁ = (bus.write (0x1E ∷ []) m.world).0 in
      let m₁ : Machine Ms5611 W = record m {
        world = bus.sleep_us 3000 (bus.write (0x1E ∷ []) m.world).1;
      } in
      let c₂ = (run (fetch_prom bus) m₁).0 in
      let m₂ = (run (fetch_prom bus) m₁).1 in
      let c₃ = (run (check_coef_crc bus) m₂).0 in
      let m₃ = (run (check_coef_crc bus) m₂).1 in
      elim (Bool-cases (is_negative c₁)) [
        | inl e₁ ↦ rw e₁ (inl (e₁, (refl, refl, refl)))
        | inr e₁ ↦ elim (Bool-cases (is_negative c₂)) [
          | inl e₂ ↦ rw (e₁, e₂) (inl (e₂, fetch_prom_keeps m₁))
          | inr e₂ ↦ elim (Bool-cases (is_negative c₃)) [
            | inl e₃ ↦
                rw (e₁, e₂, e₃)
                  (inl (e₃, ground (arith, fetch_prom_keeps m₁, check_coef_crc_lem m₂)))
            | inr e₃ ↦
                let default = set_default_osr_lem m₃ in
                let accepted = crc_accepted m₂ e₃ in
                let prom₇ = ap (λ (p : List ℕ). get_or p 7 0) default.3 in
                rw (e₁, e₂, e₃)
                  (inr (
                    default.0,
                    default.2 ∙ accepted ∙ sym prom₇,
                    omega (arith, calculate_crc4-lt m₃.dev, accepted, prom₇),
                    default.1,
                  ))
          ]
        ]
      ]
