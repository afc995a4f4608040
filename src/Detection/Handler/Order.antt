-- ===== src/Detection/Handler/Order.antt =====
-- The sensor module as a whole: the detection handler fed with samples, the timers of its controller, and
-- the order in which the flight's events can occur.
use mathlib.Core.List.{append-nil, append_assoc}
use backplane_flight_compute.Base.{
  ℕ, ◌<◌, ◌≡◌, inl, inr, subst, ◌∙◌, Bool, true, false, not, ◌&&◌, List, [], ◌++◌, ◌==◌, Bool-cases,
  arith,
}
use backplane_flight_compute.Flight.Controller.{Effect, has_event_occured}
use backplane_flight_compute.Flight.SensorModule.{
  config, boost, noseover, noseover_lockout, ground_hit, low_g_imu, high_g_imu, barom_bmp,
  barom_ms5611,
}
use backplane_flight_compute.Flight.SensorModule.Causes.{Reach}
use backplane_flight_compute.Detection.LinearFit.{Real}
use backplane_flight_compute.Detection.Handler.{
  Handler, SensorData, SensorWorkings, boost_not_yet_happened, submit_when, submit_boost,
  handle_boost, submit_noseover, handle_noseover, submit_ground, handle_ground, feed_velocities,
  boost_phase, noseover_phase, ground_phase, handle_data, t_plus_ms,
}
use backplane_flight_compute.Detection.Handler.Submissions.{
  IsInOrder, submit_when-Reach, submit_when_keeps, submit_when-IsInOrder, submit_when_leaves,
}

-- The controller has got where it is by submissions and timers, its events are in order, and the boost
-- has a time exactly when it has occured.
pub record IsSound {R : Type 0} (log : Bool) (h : Handler R) (done : List Effect) : Type 0 where
  pub reach : Reach log h.controller done
  pub order : IsInOrder log h.controller
  pub timed :
      has_event_occured h.controller boost ≡ not (h.boost_detected_time == boost_not_yet_happened)

module _ {R : Type 0} (num : Real R) (log : Bool) where
  boost-IsSound :
      (h : Handler R) (done : List Effect) (primary secondary : Bool) (timestamp : ℕ)
      → IsSound log h done
      → timestamp < boost_not_yet_happened
      → has_event_occured h.controller boost ≡ false
      → let (h', e) = submit_boost num (config log) h primary secondary timestamp in
        IsSound log h' (done ++ e)
  unfolding submit_boost
  boost-IsSound h done primary secondary timestamp v fits quiet =
      let s₁ = (submit_when (config log) primary high_g_imu boost h.controller).0 in
      let r₁ = submit_when-Reach log primary high_g_imu boost (omega arith) (omega arith) v.reach in
      let o₁ =
        submit_when-IsInOrder log primary high_g_imu boost (omega arith) h.controller v.order
          (λ t e. absurd (omega (arith, e))) (λ t e. absurd (omega (arith, e))) in
      record {
        reach =
            subst (Reach log _) (append_assoc done _ _)
              (submit_when-Reach log secondary low_g_imu boost (omega arith) (omega arith) r₁);
        order =
            submit_when-IsInOrder log secondary low_g_imu boost (omega arith) s₁ o₁
              (λ t e. absurd (omega (arith, e))) (λ t e. absurd (omega (arith, e)));
        timed = ground (arith, v.timed);
      }

  -- The two submissions of a noseover
  noseovers :
      (h : Handler R) (done : List Effect) (primary secondary : Bool)
      → IsSound log h done
      → let (s, e) = submit_noseover num (config log) h.controller primary secondary in
        Reach log s (done ++ e)
        × IsInOrder log s
        × (has_event_occured s boost ≡ has_event_occured h.controller boost)
  unfolding submit_noseover
  noseovers h done primary secondary v =
      let first = primary && has_event_occured h.controller noseover_lockout in
      let s₁ = (submit_when (config log) first barom_ms5611 noseover h.controller).0 in
      let second = secondary && has_event_occured s₁ noseover_lockout in
      let r₁ =
        submit_when-Reach log first barom_ms5611 noseover (omega arith) (omega arith) v.reach in
      let o₁ =
        submit_when-IsInOrder log first barom_ms5611 noseover (omega arith) h.controller v.order
          (λ t e. ground (arith, t)) (λ t e. absurd (omega (arith, e))) in
      (
        subst (Reach log _) (append_assoc done _ _)
            (submit_when-Reach log second barom_bmp noseover (omega arith) (omega arith) r₁),
        submit_when-IsInOrder log second barom_bmp noseover (omega arith) s₁ o₁
            (λ t e. ground (arith, t)) (λ t e. absurd (omega (arith, e))),
        submit_when_leaves log second barom_bmp noseover (omega arith) s₁ boost o₁ (omega arith)
            ∙ submit_when_leaves log first barom_ms5611 noseover (omega arith) h.controller boost
                v.order (omega arith),
      )

  -- The two submissions of a ground hit, after a noseover
  ground_hits :
      (h : Handler R) (done : List Effect) (primary secondary : Bool)
      → IsSound log h done
      → has_event_occured h.controller noseover ≡ true
      → let (s, e) = submit_ground num (config log) h.controller primary secondary in
        Reach log s (done ++ e)
        × IsInOrder log s
        × (has_event_occured s boost ≡ has_event_occured h.controller boost)
  unfolding submit_ground
  ground_hits h done primary secondary v over =
      let s₁ = (submit_when (config log) primary barom_ms5611 ground_hit h.controller).0 in
      let r₁ =
        submit_when-Reach log primary barom_ms5611 ground_hit (omega arith) (omega arith) v.reach in
      let o₁ =
        submit_when-IsInOrder log primary barom_ms5611 ground_hit (omega arith) h.controller v.order
          (λ t e. absurd (omega (arith, e))) (λ t e. over) in
      let over₁ =
        submit_when_keeps log primary barom_ms5611 ground_hit (omega arith) h.controller noseover
          v.order over in
      (
        subst (Reach log _) (append_assoc done _ _)
            (submit_when-Reach log secondary barom_bmp ground_hit (omega arith) (omega arith) r₁),
        submit_when-IsInOrder log secondary barom_bmp ground_hit (omega arith) s₁ o₁
            (λ t e. absurd (omega (arith, e))) (λ t e. over₁),
        submit_when_leaves log secondary barom_bmp ground_hit (omega arith) s₁ boost o₁
              (omega arith)
            ∙ submit_when_leaves log primary barom_ms5611 ground_hit (omega arith) h.controller
                boost v.order (omega arith),
      )

  unchanged : (h : Handler R) (done : List Effect) → IsSound log h done → IsSound log h (done ++ [])
  unchanged h done v = rw (append-nil done) v

  noseover-IsSound :
      (h : Handler R) (done : List Effect) (t : ℕ) (ok : SensorWorkings)
      → IsSound log h done
      → let (h', e) = noseover_phase num (config log) h t ok in IsSound log h' (done ++ e)
  unfolding noseover_phase handle_noseover
  noseover-IsSound h done t ok v = elim (Bool-cases (has_event_occured h.controller noseover)) [
    | inl over ↦ rw over (unchanged h done v)
    | inr flying ↦
        let (r, o, same) = noseovers h done _ _ v in
        rw flying (record { reach = r; order = o; timed = same ∙ v.timed })
  ]

  ground-IsSound :
      (h : Handler R) (done : List Effect) (t : ℕ) (ok : SensorWorkings)
      → IsSound log h done
      → let (h', e) = ground_phase num (config log) h t ok in IsSound log h' (done ++ e)
  unfolding ground_phase handle_ground
  ground-IsSound h done t ok v =
      elim (Bool-cases (
        has_event_occured h.controller noseover
        && not (has_event_occured h.controller ground_hit))) [
          | inr other ↦ rw other (unchanged h done v)
          | inl falling ↦
              let (r, o, same) = ground_hits h done _ _ v (ground arith) in
              rw falling (record { reach = r; order = o; timed = same ∙ v.timed })
        ]

  pub phase-IsSound :
      (h : Handler R) (done : List Effect) (timestamp : ℕ) (sensed : SensorData R)
      (ok : SensorWorkings)
      → IsSound log h done
      → timestamp < boost_not_yet_happened
      → let (h', e) = boost_phase num (config log) h timestamp sensed ok in
        IsSound log h' (done ++ e)
  unfolding boost_phase handle_boost
  phase-IsSound h done timestamp sensed ok v fits =
      elim (Bool-cases (has_event_occured h.controller boost)) [
        | inl boosted ↦ rw boosted (unchanged h done v)
        | inr quiet ↦ rw quiet (
            boost-IsSound _ done _ _ timestamp
              (record { reach = v.reach; order = v.order; timed = v.timed }) fits quiet)
      ]

  -- A call of HandleData keeps all of it.
  pub handle_data-IsSound :
      (h : Handler R) (done : List Effect) (timestamp : ℕ) (sensed : SensorData R)
      (ok : SensorWorkings)
      → IsSound log h done
      → timestamp < boost_not_yet_happened
      → let (h', e) = handle_data num (config log) h timestamp sensed ok in
        IsSound log h' (done ++ e)
  unfolding handle_data feed_velocities
  handle_data-IsSound h done timestamp sensed ok v fits =
      let fed = feed_velocities num (config log) h timestamp sensed in
      let (h₁, e₁) = boost_phase num (config log) fed timestamp sensed ok in
      let t = t_plus_ms timestamp h₁.boost_detected_time in
      let (h₂, e₂) = noseover_phase num (config log) h₁ t ok in
      let v₁ =
        phase-IsSound fed done timestamp sensed ok
          (record { reach = v.reach; order = v.order; timed = v.timed }) fits in
      let v₂ = noseover-IsSound h₁ (done ++ e₁) t ok v₁ in
      let v₃ = ground-IsSound h₂ ((done ++ e₁) ++ e₂) t ok v₂ in
      elim (Bool-cases (has_event_occured h₁.controller boost)) [
        | inr quiet ↦ rw quiet v₁
        | inl boosted ↦
            rw boosted
              (subst (IsSound log _) (append_assoc (done ++ e₁) e₂ _ ∙ append_assoc done e₁ _) v₃)
      ]
