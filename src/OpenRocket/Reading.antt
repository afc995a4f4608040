-- ===== src/OpenRocket/Reading.antt =====
-- What the sample_fetch of each simulated sensor measures: the packet that it stores.
use backplane_flight_compute.Base.{
  ℕ, suc, ◌-◌, ◌≤◌, ◌<◌, ◌^◌, ◌≡◌, ◌⊎◌, refl, true, false, some, inl, inr, arith, Bool-cases,
  get_or,
}
use backplane_flight_compute.Zephyr.{success, error, enodev, enotsup}
use backplane_flight_compute.OpenRocket.Sim.{
  Scalar, Packet, Sim, Bounds, Setup, time_at, size, or_get_time, or_find_bounding_packets, choose,
}
use backplane_flight_compute.OpenRocket.Search.{IsAsymmetric, or_find_bounding_packets_lem}
use backplane_flight_compute.OpenRocket.Barometer as Barometer
use backplane_flight_compute.OpenRocket.Magnetometer as Magnetometer
use backplane_flight_compute.OpenRocket.Imu as Imu

module _ {R : Type 0} (num : Scalar R) (asym : IsAsymmetric num) (s : Sim R) where
  -- The packet of a time: the pad's before the flight, the landed one after it, and in it a mix of the
  -- two packets around the time, by how far the time is between theirs.
  abbrev pub IsReading : R → (Packet R → Packet R → R → Packet R) → Packet R → Type 0
  IsReading t between p =
      ((num.lt t (time_at num s 0) ≡ true) × (p ≡ s.pad_packet))
      ⊎ (((num.lt (time_at num s (size num s - 1)) t ≡ true) × (p ≡ s.landed_packet))
          ⊎ ((i : ℕ) × (suc i < size num s)
              × (num.lt t (time_at num s i) ≡ false)
              × (num.lt (time_at num s (suc i)) t ≡ false)
              × (p
                  ≡ between (get_or s.packets i s.landed_packet)
                      (get_or s.packets (suc i) s.landed_packet)
                      (num.div (num.sub t (time_at num s i))
                        (num.sub (time_at num s (suc i)) (time_at num s i))))))

  module _ (two : 2 ≤ size num s) (fits : size num s < 2 ^ 32) where
    pub choose_lem :
        (last_lower_index : ℕ) (t : R) (between : Packet R → Packet R → R → Packet R)
        → last_lower_index ≡ 0
        → (b : Bounds R) × (or_find_bounding_packets num s last_lower_index t ≡ some b)
          × IsReading t between (choose num s b between)
    unfolding choose
    choose_lem last_lower_index t between h =
        let (b, found, place) = or_find_bounding_packets_lem num asym s t two fits in
        (
          b,
          rw h found,
          elim place [
            | inl before ↦ inl (before.0, ground (arith, before))
            | inr (inl past) ↦ inr (inl (past.2, ground (arith, past)))
            | inr (inr around) ↦ inr (
                inr (
                  b.lower_idx,
                  omega (arith, around.next, around.inside),
                  around.above,
                  rw around.next at around.below,
                  ground (arith, around.next, around.inside, around.share),
                ))
          ],
        )

  -- With an asymmetric `<`, between 2 and 2 ^ 32 packets and a search from the first of them: a fetch of
  -- the simulated inertial unit fails with -ENODEV if the sensor is configured broken, else with
  -- -ENOTSUP for a channel that it does not have, both with nothing changed; otherwise it ends and
  -- succeeds, and stores the packet of its time.
  pub imu_sample_fetch_lem :
      (e : Setup) (cfg : Imu.ImuConfig R) (d : Imu.ImuData R) (chan : Imu.Channel)
      → 2 ≤ size num s
      → size num s < 2 ^ 32
      → d.last_lower_index ≡ 0
      → let result = Imu.sample_fetch num cfg s e d chan in
        ((cfg.sensor_cfg.broken ≡ true) × (result ≡ some (error enodev, d)))
        ⊎ (((Imu.is_served chan ≡ false) × (result ≡ some (error enotsup, d)))
            ⊎ ((p : Packet R) × (result ≡ some (success, Imu.store num cfg s e d p))
                × IsReading (or_get_time num e cfg.sensor_cfg) (Imu.between num cfg s e) p))
  unfolding Imu.sample_fetch
  imu_sample_fetch_lem e cfg d chan two fits h = elim (Bool-cases cfg.sensor_cfg.broken) [
    | inl broken ↦ inl (broken, ground arith)
    | inr works ↦ elim (Bool-cases (Imu.is_served chan)) [
      | inr unknown ↦ inr (inl (unknown, ground arith))
      | inl known ↦
          let (b, found, reading) =
            choose_lem two fits d.last_lower_index (or_get_time num e cfg.sensor_cfg)
              (Imu.between num cfg s e) h in
          inr (
            inr
              (choose num s b (Imu.between num cfg s e), simp (works, known, found) refl, reading))
    ]
  ]

  -- With an asymmetric `<`, between 2 and 2 ^ 32 packets and a search from the first of them: a fetch of
  -- the simulated barometer fails with -ENODEV if the sensor is configured broken, else with
  -- -ENOTSUP for a channel that it does not have, both with nothing changed; otherwise it ends and
  -- succeeds, and stores the packet of its time.
  barom_sample_fetch_lem :
      (e : Setup) (cfg : Barometer.BaromConfig R) (d : Barometer.BaromData R)
      (chan : Barometer.Channel)
      → 2 ≤ size num s
      → size num s < 2 ^ 32
      → d.last_lower_index ≡ 0
      → let result = Barometer.sample_fetch num s e cfg d chan in
        ((cfg.sensor_cfg.broken ≡ true) × (result ≡ some (error enodev, d)))
        ⊎ (((Barometer.is_served chan ≡ false) × (result ≡ some (error enotsup, d)))
            ⊎ ((p : Packet R) × (result ≡ some (success, Barometer.store num s e cfg d p))
                × IsReading (or_get_time num e cfg.sensor_cfg) (Barometer.between num s e cfg) p))
  unfolding Barometer.sample_fetch
  barom_sample_fetch_lem e cfg d chan two fits h = elim (Bool-cases cfg.sensor_cfg.broken) [
    | inl broken ↦ inl (broken, ground arith)
    | inr works ↦ elim (Bool-cases (Barometer.is_served chan)) [
      | inr unknown ↦ inr (inl (unknown, ground arith))
      | inl known ↦
          let (b, found, reading) =
            choose_lem two fits d.last_lower_index (or_get_time num e cfg.sensor_cfg)
              (Barometer.between num s e cfg) h in
          inr (
            inr (
              choose num s b (Barometer.between num s e cfg),
              simp (works, known, found) refl,
              reading,
            ))
    ]
  ]

  -- With an asymmetric `<`, between 2 and 2 ^ 32 packets and a search from the first of them: a fetch of
  -- the simulated magnetometer fails with -ENODEV if the sensor is configured broken, else with
  -- -ENOTSUP for a channel that it does not have, both with nothing changed; otherwise it ends and
  -- succeeds, and stores the packet of its time.
  magn_sample_fetch_lem :
      (e : Setup) (cfg : Magnetometer.MagnConfig R) (d : Magnetometer.MagnData R)
      (chan : Magnetometer.Channel)
      → 2 ≤ size num s
      → size num s < 2 ^ 32
      → d.last_lower_index ≡ 0
      → let result = Magnetometer.sample_fetch num s e cfg d chan in
        ((cfg.sensor_cfg.broken ≡ true) × (result ≡ some (error enodev, d)))
        ⊎ (((Magnetometer.is_served chan ≡ false) × (result ≡ some (error enotsup, d)))
            ⊎ ((p : Packet R) × (result ≡ some (success, Magnetometer.store num s e cfg d p))
                × IsReading
                    (or_get_time num e cfg.sensor_cfg)
                    (Magnetometer.between num s e cfg)
                    p))
  unfolding Magnetometer.sample_fetch
  magn_sample_fetch_lem e cfg d chan two fits h = elim (Bool-cases cfg.sensor_cfg.broken) [
    | inl broken ↦ inl (broken, ground arith)
    | inr works ↦ elim (Bool-cases (Magnetometer.is_served chan)) [
      | inr unknown ↦ inr (inl (unknown, ground arith))
      | inl known ↦
          let (b, found, reading) =
            choose_lem two fits d.last_lower_index (or_get_time num e cfg.sensor_cfg)
              (Magnetometer.between num s e cfg) h in
          inr (
            inr (
              choose num s b (Magnetometer.between num s e cfg),
              simp (works, known, found) refl,
              reading,
            ))
    ]
  ]
