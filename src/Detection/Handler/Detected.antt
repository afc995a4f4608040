-- ===== src/Detection/Handler/Detected.antt =====
-- What a call of the detection handler reports for the sensors that it may trust.
use backplane_flight_compute.Base.{
  ℕ, ◌<◌, ◌≡◌, inl, inr, refl, sym, ap, not, ◌∙◌, Bool, true, false, ◌&&◌, ◌||◌, List, [],
  get_or-set, Bool-cases, arith,
}
use backplane_flight_compute.Flight.Controller.{
  Controller, Effect, submit, has_event_occured, handle,
}
use backplane_flight_compute.Flight.Decisions.{row, decide-mark}
use backplane_flight_compute.Flight.SensorModule.{
  config, boost, noseover, ground_hit, low_g_imu, high_g_imu,
}
use backplane_flight_compute.Detection.Debouncer.{passed}
use backplane_flight_compute.Detection.Debouncer as Debouncer
use backplane_flight_compute.Detection.LinearFit.{Real}
use backplane_flight_compute.Detection.Handler.{
  Handler, SensorData, SensorWorkings, boost_time_threshold, boost_not_yet_happened, submit_when,
  submit_boost, handle_boost, submit_noseover, handle_noseover, submit_ground, handle_ground,
  feed_velocities, boost_phase, noseover_phase, ground_phase, handle_data, t_plus_ms, is_boosting,
  mag_squared,
}
use backplane_flight_compute.Detection.Handler.Order.{phase-IsSound, handle_data-IsSound}
use backplane_flight_compute.Detection.Handler.Flights.{Flies, Flies-IsSound}
use backplane_flight_compute.Detection.Handler.Submissions.{
  IsInOrder, occured_step, submit_when_keeps, submit_when-IsInOrder,
}

-- No sensor was read well.
abbrev pub failed : SensorWorkings
failed = record {
  primary_acc_ok = false;
  secondary_acc_ok = false;
  primary_barometer_ok = false;
  secondary_barometer_ok = false;
}

-- Does an IMU that was read well hold the acceleration of a boost for long enough, with this sample?
unfoldable pub boost_is_seen :
    {R : Type 0} (num : Real R) → Handler R → ℕ → SensorData R → SensorWorkings → Bool
boost_is_seen num h timestamp sensed ok =
    (passed boost_time_threshold (
        Debouncer.feed (is_boosting num) h.primary_imu_boost timestamp
          (mag_squared num sensed.imu_acceleration))
      && ok.primary_acc_ok)
    || (passed boost_time_threshold (
          Debouncer.feed (is_boosting num) h.secondary_imu_boost timestamp
            (mag_squared num sensed.acceleration))
        && ok.secondary_acc_ok)

module _ {R : Type 0} (num : Real R) (log : Bool) where
  -- Phases whose sensors all failed
  boosts_off :
      (h : Handler R) (a b : Bool) (t : ℕ)
      → let (h', e) = submit_boost num (config log) h (a && false) (b && false) t in
        (h'.controller ≡ h.controller) × (e ≡ [])
  unfolding submit_boost submit_when
  boosts_off h a b t = ground arith

  noseovers_off :
      (s : Controller) (a b : Bool)
      → submit_noseover num (config log) s (a && false) (b && false) ≡ (s, [])
  unfolding submit_noseover submit_when
  noseovers_off s a b = ground arith

  ground_hits_off :
      (s : Controller) (a b : Bool)
      → submit_ground num (config log) s (a && false) (b && false) ≡ (s, [])
  unfolding submit_ground submit_when
  ground_hits_off s a b = ground arith

  Silent : Handler R → Handler R × List Effect → Type 0
  Silent h (h', e) = (h'.controller ≡ h.controller) × (e ≡ [])

  boost-Silent :
      (h : Handler R) (t : ℕ) (sensed : SensorData R)
      → Silent h (boost_phase num (config log) h t sensed failed)
  unfolding boost_phase handle_boost Silent
  boost-Silent h t sensed = elim (Bool-cases (has_event_occured h.controller boost)) [
    | inl e ↦ rw e (refl, refl)
    | inr e ↦ rw e (boosts_off _ _ _ t)
  ]

  noseover-Silent : (h : Handler R) (t : ℕ) → Silent h (noseover_phase num (config log) h t failed)
  unfolding noseover_phase handle_noseover Silent
  noseover-Silent h t = elim (Bool-cases (has_event_occured h.controller noseover)) [
    | inl e ↦ rw e (refl, refl)
    | inr e ↦ rw e (
      ap (λ p. p.0) (noseovers_off h.controller _ _),
      ap (λ p. p.1) (noseovers_off h.controller _ _),
    )
  ]

  ground-Silent : (h : Handler R) (t : ℕ) → Silent h (ground_phase num (config log) h t failed)
  unfolding ground_phase handle_ground Silent
  ground-Silent h t =
      elim (Bool-cases (
        has_event_occured h.controller noseover
        && not (has_event_occured h.controller ground_hit))) [
          | inl e ↦ rw e (
            ap (λ p. p.0) (ground_hits_off h.controller _ _),
            ap (λ p. p.1) (ground_hits_off h.controller _ _),
          )
          | inr e ↦ rw e (refl, refl)
        ]

  -- With no sensor read well, a call makes the controller do nothing and leaves it as it is, whatever the
  -- samples and the detectors are.
  pub failed_sensors_are_silent :
      (h : Handler R) (timestamp : ℕ) (sensed : SensorData R)
      → let (h', e) = handle_data num (config log) h timestamp sensed failed in
        (h'.controller ≡ h.controller) × (e ≡ [])
  unfolding handle_data feed_velocities Silent
  failed_sensors_are_silent h timestamp sensed =
      let fed = feed_velocities num (config log) h timestamp sensed in
      let h₁ = (boost_phase num (config log) fed timestamp sensed failed).0 in
      let t = t_plus_ms timestamp h₁.boost_detected_time in
      let h₂ = (noseover_phase num (config log) h₁ t failed).0 in
      let q₁ = boost-Silent fed timestamp sensed in
      let q₂ = noseover-Silent h₁ t in
      let q₃ = ground-Silent h₂ t in
      elim (Bool-cases (has_event_occured h₁.controller boost)) [
        | inl e ↦ rw e (q₃.0 ∙ q₂.0 ∙ q₁.0, rw (q₁.1, q₂.1, q₃.1))
        | inr e ↦ rw e q₁
      ]

  -- A submission of boost by an IMU records it.
  imu_boosts :
      (s : Controller) (source : ℕ)
      → IsInOrder log s
      → source < 2
      → has_event_occured (submit_when (config log) true source boost s).0 boost ≡ true
  unfolding submit_when handle
  imu_boosts s source v k = ground (
    arith,
    occured_step log s (submit source boost) boost v (omega arith),
    decide-mark (config log) s source boost (omega (arith, v.current.rows)),
    get_or-set (row s boost) source 0 true false,
    get_or-set (row s boost) source 1 true false,
    v.current.width boost (omega arith),
  )

  boosts :
      (h : Handler R) (primary secondary : Bool) (t : ℕ)
      → IsInOrder log h.controller
      → (primary || secondary) ≡ true
      → has_event_occured (submit_boost num (config log) h primary secondary t).0.controller boost
        ≡ true
  unfolding submit_boost
  boosts h true secondary t v trusted =
      let s₁ = (submit_when (config log) true high_g_imu boost h.controller).0 in
      let o₁ =
        submit_when-IsInOrder log true high_g_imu boost (omega arith) h.controller v
          (λ t e. absurd (omega (arith, e))) (λ t e. absurd (omega (arith, e))) in
      submit_when_keeps log secondary low_g_imu boost (omega arith) s₁ boost o₁
        (imu_boosts h.controller high_g_imu v (omega arith))
  boosts h false true t v trusted =
      let s₁ = (submit_when (config log) false high_g_imu boost h.controller).0 in
      let o₁ =
        submit_when-IsInOrder log false high_g_imu boost (omega arith) h.controller v
          (λ t e. absurd (omega (arith, e))) (λ t e. absurd (omega (arith, e))) in
      imu_boosts s₁ low_g_imu o₁ (omega arith)
  boosts h false false t v trusted = cc

  phase_boosts :
      (h : Handler R) (timestamp : ℕ) (sensed : SensorData R) (ok : SensorWorkings)
      → IsInOrder log h.controller
      → boost_is_seen num h timestamp sensed ok ≡ true
      → has_event_occured (boost_phase num (config log) h timestamp sensed ok).0.controller boost
        ≡ true
  unfolding boost_phase handle_boost boost_is_seen
  phase_boosts h timestamp sensed ok v seen =
      elim (Bool-cases (has_event_occured h.controller boost)) [
        | inl e ↦ rw e e
        | inr e ↦ rw e (boosts _ _ _ timestamp v seen)
      ]

  noseover_time :
      (h : Handler R) (t : ℕ) (ok : SensorWorkings)
      → (noseover_phase num (config log) h t ok).0.boost_detected_time ≡ h.boost_detected_time
  unfolding noseover_phase handle_noseover
  noseover_time h t ok = elim (Bool-cases (has_event_occured h.controller noseover)) [
    | inl e ↦ rw e refl
    | inr e ↦ rw e refl
  ]

  ground_time :
      (h : Handler R) (t : ℕ) (ok : SensorWorkings)
      → (ground_phase num (config log) h t ok).0.boost_detected_time ≡ h.boost_detected_time
  unfolding ground_phase handle_ground
  ground_time h t ok =
      elim (Bool-cases (
        has_event_occured h.controller noseover
        && not (has_event_occured h.controller ground_hit))) [
          | inl e ↦ rw e refl
          | inr e ↦ rw e refl
        ]

  -- The phases after the first leave the time of the boost alone.
  keeps_time :
      (h : Handler R) (timestamp : ℕ) (sensed : SensorData R) (ok : SensorWorkings)
      → (handle_data num (config log) h timestamp sensed ok).0.boost_detected_time
        ≡ (boost_phase num
            (config log)
            (feed_velocities num (config log) h timestamp sensed)
            timestamp
            sensed
            ok).0.boost_detected_time
  unfolding handle_data
  keeps_time h timestamp sensed ok =
      let h₁ =
        (boost_phase num (config log) (feed_velocities num (config log) h timestamp sensed)
          timestamp sensed ok).0 in
      let t = t_plus_ms timestamp h₁.boost_detected_time in
      let h₂ = (noseover_phase num (config log) h₁ t ok).0 in
      elim (Bool-cases (has_event_occured h₁.controller boost)) [
        | inl e ↦ rw e (ground_time h₂ t ok ∙ noseover_time h₁ t ok)
        | inr e ↦ rw e refl
      ]

  -- In every run with uptimes below 2 ^ 64 - 1: when a call's sample makes the detector of an IMU that was
  -- read well pass, boost has occured after the call.
  pub boost_is_recorded :
      {h : Handler R} {done : List Effect} (timestamp : ℕ) (sensed : SensorData R)
      (ok : SensorWorkings)
      → Flies num log h done
      → timestamp < boost_not_yet_happened
      → boost_is_seen num h timestamp sensed ok ≡ true
      → has_event_occured (handle_data num (config log) h timestamp sensed ok).0.controller boost
        ≡ true
  unfolding feed_velocities boost_is_seen
  boost_is_recorded {h} {done} timestamp sensed ok r fits seen =
      let v = Flies-IsSound num log r in
      let fed = feed_velocities num (config log) h timestamp sensed in
      let begun =
        phase-IsSound num log fed done timestamp sensed ok
          (record { reach = v.reach; order = v.order; timed = v.timed }) fits in
      let after = handle_data-IsSound num log h done timestamp sensed ok v fits in
      let boosted = phase_boosts fed timestamp sensed ok v.order seen in
      after.timed ∙ rw (keeps_time h timestamp sensed ok) (sym begun.timed ∙ boosted)
