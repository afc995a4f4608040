-- ===== src/Detection/Tests.antt =====
-- The detection utilities on a few samples, and the handler on the first samples of a flight, with
-- natural numbers for the scalar.
use backplane_flight_compute.Base.{
  ℕ, ◌+◌, ◌-◌, ◌*◌, ◌/◌, ◌^◌, ◌<◌, ◌≡◌, ◌↔◌, ◌⊎◌, refl, true, false, not, List, [], ◌∷◌, ◌++◌,
  get_or, ltb, ◌==◌, arith,
}
use backplane_flight_compute.Flight.Controller.{
  has_event_occured, initial, handle, expire, submit_event, decide, mark_source, dispatch,
  start_timers,
}
use backplane_flight_compute.Detection.Window as Window
use backplane_flight_compute.Detection.LinearFit.{find_slope}
use backplane_flight_compute.Zephyr.{success}
use backplane_flight_compute.Flight.Decisions.{row}
use backplane_flight_compute.Flight.SensorModule.{
  config, boost, noseover, noseover_lockout, ground_hit, full_flight_timer,
}
use backplane_flight_compute.Detection.Buffer.{CircularBuffer, add_sample, fill}
use backplane_flight_compute.Detection.Buffer.Samples.{
  IsRing, samples, add_samples, samples-add_samples,
}
use backplane_flight_compute.Detection.Window.{Additive, new_sum, total_from}
use backplane_flight_compute.Detection.Window.Totals.{feeds, slide, add_copies, rolling_sum_lem}
use backplane_flight_compute.Detection.Debouncer as Debouncer
use backplane_flight_compute.Detection.Debouncer.{passed}
use backplane_flight_compute.Detection.Debouncer.Held.{History, HeldSince, after, passed_lem}
use backplane_flight_compute.Detection.LinearFit.{Real}
use backplane_flight_compute.Detection.Handler.{
  Handler, SensorData, SensorWorkings, boost_not_yet_happened, new_handler, handle_data,
  submit_when, mag_squared, submit_boost, handle_boost, feed_velocities, boost_phase,
  noseover_phase, ground_phase, handle_noseover, handle_ground, submit_noseover, submit_ground,
  t_plus_ms, feed_slope, asl_from_pressure,
}
use backplane_flight_compute.Flight.Once.{starts}
use backplane_flight_compute.Detection.Tenant.{Fetch}
use backplane_flight_compute.Detection.Tenant.Collecting.{
  Moment, sampling, timer, collect, collection_ends,
}
use backplane_flight_compute.Detection.Handler.Flights.{
  timed_out, Flies, start, sampled, flight_in_order, boost_has_time,
}
use backplane_flight_compute.Detection.Handler.Detected.{
  failed, boost_is_seen, failed_sensors_are_silent, boost_is_recorded,
}

-- The samples 3, 1, 2 in an array, with the oldest one in the middle.
abbrev ring : CircularBuffer ℕ
ring = record { oldest_index = 1; underlying = 2 ∷ 3 ∷ 1 ∷ [] }

ring-IsRing : IsRing ring
ring-IsRing = record { inside = omega arith; fits = omega arith }

samples-add_samples_example : samples (add_samples ring (7 ∷ 8 ∷ [])) ≡ 2 ∷ 7 ∷ 8 ∷ []
unfolding samples
samples-add_samples_example = samples-add_samples ring (7 ∷ 8 ∷ []) ring-IsRing

-- Numbers that are rounded down to even ones after each addition, as a floating point number loses digits
abbrev rounded : Additive ℕ
rounded = record { add = λ a b. (a + b) / 2 * 2; sub = λ a b. a - b }

rolling_sum_lem_example : (feeds rounded (new_sum rounded 2 3) (5 ∷ 8 ∷ 7 ∷ [])).total ≡ 14
unfolding slide add_copies
rolling_sum_lem_example = rolling_sum_lem rounded 2 3 (5 ∷ 8 ∷ 7 ∷ []) (omega arith) (omega arith)

-- A value of 1 at the time 10, and from 40 on values above 20.
abbrev history : History ℕ
history = (500, 30) ∷ (200, 25) ∷ (40, 21) ∷ (10, 1) ∷ []

passed_lem_example :
    (passed 250 (after (ltb 20) history) ≡ true)
    ↔ ((from : ℕ) × HeldSince (ltb 20) from history × (from + 250 < 500))
passed_lem_example = passed_lem (ltb 20) 250 history (omega arith)

abbrev num : Real ℕ
num = record {
  add = λ a b. a + b;
  sub = λ a b. a - b;
  mul = λ a b. a * b;
  div = λ a b. a / b;
  lt = ltb;
  eq = λ a b. a == b;
  fabs = λ a. a;
  pow = λ a b. 0;
  of_decimal = λ n k. n / 10 ^ k;
}

-- Ten times the acceleration of gravity on the first unit
abbrev boosting : SensorData ℕ
boosting = record {
  imu_acceleration = record { x = 98; y = 0; z = 0 };
  acceleration = record { x = 0; y = 0; z = 0 };
  primary_pressure = 100;
  secondary_pressure = 100;
}

abbrev all_ok : SensorWorkings
all_ok = record {
  primary_acc_ok = true;
  secondary_acc_ok = true;
  primary_barometer_ok = true;
  secondary_barometer_ok = true;
}

abbrev on_pad : Handler ℕ
on_pad = new_handler num (initial (config true))

abbrev lifting : Handler ℕ
lifting = (handle_data num (config true) on_pad 1000 boosting all_ok).0

lifting-Flies :
    Flies num true lifting ([] ++ (handle_data num (config true) on_pad 1000 boosting all_ok).1)
lifting-Flies = sampled 1000 boosting all_ok start (omega arith)

boost_seen : boost_is_seen num lifting 1300 boosting all_ok ≡ true
unfolding boost_is_seen passed handle_data new_handler feed_velocities boost_phase handle_boost
    submit_boost submit_when mag_squared has_event_occured Debouncer.feed
boost_seen = refl

boost_is_recorded_example :
    has_event_occured
      (handle_data num (config true) lifting 1300 boosting all_ok).0.controller
      boost
    ≡ true
boost_is_recorded_example =
    boost_is_recorded num true 1300 boosting all_ok lifting-Flies (omega arith) boost_seen

flight_in_order_example :
    let s = lifting.controller in
    ((has_event_occured s noseover ≡ false) ⊎ (has_event_occured s noseover_lockout ≡ true))
    × ((has_event_occured s noseover_lockout ≡ false) ⊎ (has_event_occured s boost ≡ true))
    × ((has_event_occured s ground_hit ≡ false)
        ⊎ ((has_event_occured s noseover ≡ true)
            ⊎ (get_or (row s ground_hit) full_flight_timer false ≡ true)))
flight_in_order_example = flight_in_order num true lifting-Flies

boost_has_time_example :
    has_event_occured lifting.controller boost
    ≡ not (lifting.boost_detected_time == boost_not_yet_happened)
boost_has_time_example = boost_has_time num true lifting-Flies

failed_sensors_are_silent_example :
    ((handle_data num (config true) lifting 1300 boosting failed).0.controller ≡ lifting.controller)
    × ((handle_data num (config true) lifting 1300 boosting failed).1 ≡ [])
failed_sensors_are_silent_example = failed_sensors_are_silent num true lifting 1300 boosting

abbrev boosted : Handler ℕ
boosted = (handle_data num (config true) lifting 1300 boosting all_ok).0

-- The timer of the full flight expires.
abbrev landed : Handler ℕ
landed = record boosted { controller = (handle (config true) boosted.controller (expire 1)).0 }

timer_started :
    starts 1 (
      ([] ++ (handle_data num (config true) on_pad 1000 boosting all_ok).1)
      ++ (handle_data num (config true) lifting 1300 boosting all_ok).1)
    ≡ 1
unfolding passed handle_data new_handler feed_velocities boost_phase noseover_phase ground_phase
    handle_boost handle_noseover handle_ground submit_boost submit_noseover submit_ground
    submit_when mag_squared has_event_occured Debouncer.feed t_plus_ms feed_slope submit_event
    handle decide mark_source dispatch start_timers find_slope Window.feed add_sample new_sum fill
    total_from asl_from_pressure starts
timer_started = refl

landed-Flies : Flies num true landed (
    (([] ++ (handle_data num (config true) on_pad 1000 boosting all_ok).1)
      ++ (handle_data num (config true) lifting 1300 boosting all_ok).1)
    ++ (handle (config true) boosted.controller (expire 1)).1)
landed-Flies =
    timed_out 1 (sampled 1300 boosting all_ok lifting-Flies (omega arith)) (omega arith)
      (omega (arith, timer_started))

landed_seen : has_event_occured landed.controller ground_hit ≡ true
unfolding passed handle_data new_handler feed_velocities boost_phase noseover_phase ground_phase
    handle_boost handle_noseover handle_ground submit_boost submit_noseover submit_ground
    submit_when mag_squared has_event_occured Debouncer.feed t_plus_ms feed_slope submit_event
    handle decide mark_source dispatch start_timers find_slope Window.feed add_sample new_sum fill
    total_from asl_from_pressure starts
landed_seen = refl

abbrev working : Fetch
working = record { is_initialized = true; fetched = success }

abbrev moments : List (Moment ℕ)
moments =
    sampling 2000
      (record {
        imu_accelerometer = working;
        primary_barometer = working;
        secondary_barometer = working;
        accelerometer = working;
      })
      (record {
        handled = boosting;
        imu_gyroscope = boosting.acceleration;
        magnetometer = boosting.acceleration;
        primary_temperature = 1;
        secondary_temperature = 1;
        temperature = 1;
      })
    ∷ timer 0
    ∷ []

collection_ends_example :
    ((collect num true moments landed).1 ≡ [])
    × (has_event_occured (collect num true moments landed).0.controller ground_hit ≡ true)
collection_ends_example =
    collection_ends num true moments landed-Flies landed_seen (omega arith, tt)
