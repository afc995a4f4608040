-- ===== src/Detection/Handler/Flights.antt =====
-- Every run of the sensor module: samples reach the detection handler, and the timers that the controller
-- has started expire.
use backplane_flight_compute.Base.{
  ℕ, zero, suc, ◌≢◌, ◌+◌, ◌-◌, ◌%◌, ◌^◌, ◌≤◌, ◌<◌, ◌≡◌, ◌⊎◌, inr, refl, Bool, true, false, not,
  List, [], ◌++◌, if◌then◌else◌, ltb, ◌==◌, get_or, arith,
}
use backplane_flight_compute.Flight.Controller.{
  Effect, expire, initial, has_event_occured, handle, no_timer,
}
use backplane_flight_compute.Flight.Once.{starts}
use backplane_flight_compute.Flight.Runs.{initial_quiet}
use backplane_flight_compute.Flight.Decisions.{row, initial-IsCurrent}
use backplane_flight_compute.Flight.SensorModule.{
  config, timer_events, boost, noseover, noseover_lockout, ground_hit, full_flight_timer,
}
use backplane_flight_compute.Flight.SensorModule.Causes.{
  boot, fire, Reach-IsCaused, deciders-IsMonotone,
}
use backplane_flight_compute.Detection.LinearFit.{Real}
use backplane_flight_compute.Detection.Handler.{
  Handler, SensorData, SensorWorkings, boost_not_yet_happened, new_handler, handle_data, t_plus_ms,
}
use backplane_flight_compute.Detection.Handler.Submissions.{step-IsInOrder, occured_step}
use backplane_flight_compute.Detection.Handler.Order.{IsSound, handle_data-IsSound}

-- The timers of the module start no noseover, and a ground hit only as the timer of the full flight.
timer_ne_noseover : (i : ℕ) → i < 3 → (get_or timer_events i no_timer).event ≢ noseover
timer_ne_noseover zero k e = omega (arith, e)
timer_ne_noseover (suc zero) k e = omega (arith, e)
timer_ne_noseover (suc (suc zero)) k e = omega (arith, e)
timer_ne_noseover (suc (suc (suc i))) k e = omega arith

ground_timer :
    (i : ℕ)
    → i < 3
    → (get_or timer_events i no_timer).event ≡ ground_hit
    → (get_or timer_events i no_timer).source ≡ full_flight_timer
ground_timer zero k e = absurd (omega (arith, e))
ground_timer (suc zero) k e = refl
ground_timer (suc (suc zero)) k e = absurd (omega (arith, e))
ground_timer (suc (suc (suc i))) k e = absurd (omega arith)

module _ {R : Type 0} (num : Real R) (log : Bool) where
  -- The handlers that the module can reach, with all that its controller has done.
  pub data Flies : Handler R → List Effect → Type 0 where
    start : Flies (new_handler num (initial (config log))) []
    sampled :
        {h : Handler R} {done : List Effect} (timestamp : ℕ) (sensed : SensorData R)
        (ok : SensorWorkings)
        → Flies h done
        → timestamp < boost_not_yet_happened
        → Flies
            (handle_data num (config log) h timestamp sensed ok).0
            (done ++ (handle_data num (config log) h timestamp sensed ok).1)
    timed_out :
        {h : Handler R} {done : List Effect} (i : ℕ)
        → Flies h done
        → i < 3
        → 0 < starts i done
        → Flies
            (record h { controller = (handle (config log) h.controller (expire i)).0 })
            (done ++ (handle (config log) h.controller (expire i)).1)

  start-IsSound : IsSound log (new_handler num (initial (config log))) []
  unfolding new_handler
  start-IsSound = record {
    reach = boot;
    order = record {
      current = initial-IsCurrent (config log) (deciders-IsMonotone log);
      locked = λ h. cc (initial_quiet (config log) noseover);
      landed = λ h. absurd (ground (arith, initial_quiet (config log) ground_hit));
    };
    timed = initial_quiet (config log) boost;
  }

  timed_out-IsSound :
      (h : Handler R) (done : List Effect) (i : ℕ)
      → IsSound log h done
      → i < 3
      → 0 < starts i done
      → IsSound log
          (record h { controller = (handle (config log) h.controller (expire i)).0 })
          (done ++ (handle (config log) h.controller (expire i)).1)
  timed_out-IsSound h done i v k started =
      let boosted : has_event_occured h.controller boost ≡ true =
        ground (arith, (Reach-IsCaused v.reach).started i k) in
      record {
        reach = fire i v.reach k started;
        order =
            step-IsInOrder log h.controller (expire i) v.order k
              (λ e. absurd (timer_ne_noseover i k e)) (λ e. inr (ground_timer i k e));
        timed = ground (arith, v.timed, occured_step log h.controller (expire i) boost v.order k);
      }

  pub Flies-IsSound : {h : Handler R} {done : List Effect} → Flies h done → IsSound log h done
  Flies-IsSound start = start-IsSound
  Flies-IsSound (sampled {h} {done} timestamp sensed ok r fits) =
      handle_data-IsSound num log h done timestamp sensed ok (Flies-IsSound r) fits
  Flies-IsSound (timed_out {h} {done} i r k started) =
      timed_out-IsSound h done i (Flies-IsSound r) k started

  -- In every run with uptimes below 2 ^ 64 - 1: a noseover is not recorded before its lockout has ended,
  -- the lockout not before boost, and a ground hit not before a noseover unless the timer of the full
  -- flight is a source of it.
  pub flight_in_order :
      {h : Handler R} {done : List Effect}
      → Flies h done
      → let s = h.controller in
        ((has_event_occured s noseover ≡ false) ⊎ (has_event_occured s noseover_lockout ≡ true))
        × ((has_event_occured s noseover_lockout ≡ false) ⊎ (has_event_occured s boost ≡ true))
        × ((has_event_occured s ground_hit ≡ false)
            ⊎ ((has_event_occured s noseover ≡ true)
                ⊎ (get_or (row s ground_hit) full_flight_timer false ≡ true)))
  flight_in_order r =
      let v = Flies-IsSound r in
      (
        ground (arith, v.order.locked),
        ground (arith, (Reach-IsCaused v.reach).lockout),
        ground (arith, v.order.landed),
      )

  -- In every run with uptimes below 2 ^ 64 - 1: the handler holds a time of the boost exactly when boost
  -- has occured.
  pub boost_has_time :
      {h : Handler R} {done : List Effect}
      → Flies h done
      → has_event_occured h.controller boost ≡ not (h.boost_detected_time == boost_not_yet_happened)
  boost_has_time r = (Flies-IsSound r).timed

-- The time since boost that the later phases are given: in the first 250 ms after the detection it is
-- negative, wrapped to 32 bits, and from then on it is 250 ms less than the time since the detection.
t_plus_ms_lem :
    (timestamp detected : ℕ)
    → detected ≤ timestamp
    → timestamp < 2 ^ 64
    → t_plus_ms timestamp detected ≡ (
        if ltb (timestamp - detected) 250
        then 2 ^ 32 - 250 + (timestamp - detected)
        else (timestamp - detected - 250) % 2 ^ 32)
unfolding t_plus_ms
t_plus_ms_lem timestamp detected h fits = ground arith
