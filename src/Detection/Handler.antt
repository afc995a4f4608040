-- ===== src/Detection/Handler.antt =====
-- CDetectionHandler (app/backplane/sensor_module/src/c_detection_handler.cpp and
-- include/c_detection_handler.h), on the controller of the sensor module. A call gives the new handler and
-- what its submissions made the controller do. No other thread submits between its steps.
pub mod Submissions
pub mod Order
pub mod Flights
pub mod Detected
use backplane_flight_compute.Base.{
  ℕ, ◌+◌, ◌-◌, ◌%◌, ◌^◌, Bool, not, ◌&&◌, none, some, List, [], ◌++◌, if◌then◌else◌, ◌==◌,
}
use backplane_flight_compute.Flight.Controller.{
  Config, Controller, Effect, has_event_occured, submit_event,
}
use backplane_flight_compute.Flight.SensorModule.{
  boost, noseover, noseover_lockout, ground_hit, low_g_imu, high_g_imu, barom_bmp, barom_ms5611,
}
use backplane_flight_compute.Detection.Window.{RollingSum, new_sum}
use backplane_flight_compute.Detection.Window as Window
use backplane_flight_compute.Detection.Debouncer.{Debouncer, new_debouncer, passed}
use backplane_flight_compute.Detection.Debouncer as Debouncer
use backplane_flight_compute.Detection.LinearFit.{
  Real, LinearFitSample, of_nat, fit_sample, fit_additive, find_slope,
}

-- The thresholds of flight.hpp: `boostThresholdMPerS2` is 5 * 9.8, the velocities are in ft/s.
abbrev pub boost_time_threshold : ℕ
boost_time_threshold = 250

abbrev pub noseover_time_threshold : ℕ
noseover_time_threshold = 250

abbrev pub ground_time_threshold : ℕ
ground_time_threshold = 10000

-- `BAROM_VELOCITY_FINDER_WINDOW_SIZE`
abbrev pub window_size : ℕ
window_size = 10

-- `BOOST_NOT_YET_HAPPENED`, of a `uint64_t`
abbrev pub boost_not_yet_happened : ℕ
boost_not_yet_happened = 2 ^ 64 - 1

-- `SensorWorkings`
pub record SensorWorkings : Type 0 where
  pub primary_acc_ok : Bool
  pub secondary_acc_ok : Bool
  pub primary_barometer_ok : Bool
  pub secondary_barometer_ok : Bool

pub record Acceleration (R : Type 0) : Type 0 where
  pub x : R
  pub y : R
  pub z : R

-- What the handler reads of `NTypes::SensorData`
pub record SensorData (R : Type 0) : Type 0 where
  pub imu_acceleration : Acceleration R
  pub acceleration : Acceleration R
  pub primary_pressure : R
  pub secondary_pressure : R

pub record Handler (R : Type 0) : Type 0 where
  pub controller : Controller
  pub primary_imu_boost : Debouncer
  pub secondary_imu_boost : Debouncer
  pub primary_velocity : RollingSum (LinearFitSample R)
  pub secondary_velocity : RollingSum (LinearFitSample R)
  pub primary_noseover : Debouncer
  pub secondary_noseover : Debouncer
  pub primary_ground : Debouncer
  pub secondary_ground : Debouncer
  pub boost_detected_time : ℕ

-- A submission under a condition
unfoldable pub submit_when : Config → Bool → ℕ → ℕ → Controller → Controller × List Effect
submit_when c test source event s = if test then submit_event c s source event else (s, [])

-- `timestamp - boost_detected_time - boostTimeThreshold`, of `uint64_t`, as a `uint32_t`
unfoldable pub t_plus_ms : ℕ → ℕ → ℕ
t_plus_ms timestamp boost_detected_time =
    (timestamp + 2 ^ 64 - boost_detected_time + 2 ^ 64 - boost_time_threshold) % 2 ^ 64 % 2 ^ 32

module _ {R : Type 0} (num : Real R) where
  unfoldable pub asl_from_pressure : R → R
  asl_from_pressure p_sta_kpa =
      let p_sta_mbar = num.mul p_sta_kpa (num.of_decimal 10 0) in
      num.mul
        (num.sub (of_nat num 1)
          (num.pow (num.div p_sta_mbar (num.of_decimal 101325 2)) (num.of_decimal 190284 6)))
        (num.of_decimal 14536645 2)

  unfoldable pub mag_squared : Acceleration R → R
  mag_squared a = num.add (num.add (num.mul a.x a.x) (num.mul a.y a.y)) (num.mul a.z a.z)

  abbrev pub boost_threshold : R
  boost_threshold = num.mul (of_nat num 5) (num.of_decimal 98 1)

  -- `passesOne` of the detectors: over the squared boost threshold, and under a velocity
  abbrev pub is_boosting : R → Bool
  is_boosting v = num.lt (num.mul boost_threshold boost_threshold) v

  abbrev pub is_slow : R → Bool
  is_slow v = num.lt v (of_nat num 10)

  -- The constructor
  unfoldable pub new_handler : Controller → Handler R
  new_handler s =
      let finder =
        new_sum (fit_additive num) window_size (fit_sample num (of_nat num 0) (of_nat num 0)) in
      record {
        controller = s;
        primary_imu_boost = new_debouncer;
        secondary_imu_boost = new_debouncer;
        primary_velocity = finder;
        secondary_velocity = finder;
        primary_noseover = new_debouncer;
        secondary_noseover = new_debouncer;
        primary_ground = new_debouncer;
        secondary_ground = new_debouncer;
        boost_detected_time = boost_not_yet_happened;
      }

  -- `FindSlope` and the feed of a detector, if there is a slope
  unfoldable pub feed_slope : (R → R) → Debouncer → ℕ → RollingSum (LinearFitSample R) → Debouncer
  feed_slope f d t finder = elim (find_slope num finder) [
    | none ↦ d
    | some velocity ↦ Debouncer.feed is_slow d t (f velocity)
  ]

  unfoldable pub continue_collecting : Handler R → Bool
  continue_collecting h = not (has_event_occured h.controller ground_hit)

  module _ (c : Config) where
    -- The end of HandleBoost: two submissions, and the time of the boost
    unfoldable pub submit_boost : Handler R → Bool → Bool → ℕ → Handler R × List Effect
    submit_boost h primary secondary timestamp =
        let (s₁, e₁) = submit_when c primary high_g_imu boost h.controller in
        let (s₂, e₂) = submit_when c secondary low_g_imu boost s₁ in
        (
          record h {
            controller = s₂;
            boost_detected_time =
                if has_event_occured s₂ boost && h.boost_detected_time == boost_not_yet_happened
                then timestamp
                else h.boost_detected_time;
          },
          e₁ ++ e₂,
        )

    unfoldable pub handle_boost :
        Handler R → ℕ → SensorData R → SensorWorkings → Handler R × List Effect
    handle_boost h timestamp sensed ok =
        let primary =
          Debouncer.feed is_boosting h.primary_imu_boost timestamp
            (mag_squared sensed.imu_acceleration) in
        let secondary =
          Debouncer.feed is_boosting h.secondary_imu_boost timestamp
            (mag_squared sensed.acceleration) in
        submit_boost (record h { primary_imu_boost = primary; secondary_imu_boost = secondary })
          (passed boost_time_threshold primary && ok.primary_acc_ok)
          (passed boost_time_threshold secondary && ok.secondary_acc_ok) timestamp

    -- The two submissions of HandleNoseover; the lockout is looked up before each.
    unfoldable pub submit_noseover : Controller → Bool → Bool → Controller × List Effect
    submit_noseover s primary secondary =
        let (s₁, e₁) =
          submit_when c (primary && has_event_occured s noseover_lockout) barom_ms5611 noseover s in
        let (s₂, e₂) =
          submit_when c (secondary && has_event_occured s₁ noseover_lockout) barom_bmp noseover
            s₁ in
        (s₂, e₁ ++ e₂)

    unfoldable pub handle_noseover : Handler R → ℕ → SensorWorkings → Handler R × List Effect
    handle_noseover h t ok =
        let primary = feed_slope (λ v. v) h.primary_noseover t h.primary_velocity in
        let secondary = feed_slope (λ v. v) h.secondary_noseover t h.secondary_velocity in
        let (s, e) =
          submit_noseover h.controller
            (passed noseover_time_threshold primary && ok.primary_barometer_ok)
            (passed noseover_time_threshold secondary && ok.secondary_barometer_ok) in
        (record h { controller = s; primary_noseover = primary; secondary_noseover = secondary }, e)

    unfoldable pub submit_ground : Controller → Bool → Bool → Controller × List Effect
    submit_ground s primary secondary =
        let (s₁, e₁) = submit_when c primary barom_ms5611 ground_hit s in
        let (s₂, e₂) = submit_when c secondary barom_bmp ground_hit s₁ in (s₂, e₁ ++ e₂)

    unfoldable pub handle_ground : Handler R → ℕ → SensorWorkings → Handler R × List Effect
    handle_ground h t ok =
        let primary = feed_slope num.fabs h.primary_ground t h.primary_velocity in
        let secondary = feed_slope num.fabs h.secondary_ground t h.secondary_velocity in
        let (s, e) =
          submit_ground h.controller
            (passed ground_time_threshold primary && ok.primary_barometer_ok)
            (passed ground_time_threshold secondary && ok.secondary_barometer_ok) in
        (record h { controller = s; primary_ground = primary; secondary_ground = secondary }, e)

    -- The samples that every call feeds to the velocity finders
    unfoldable pub feed_velocities : Handler R → ℕ → SensorData R → Handler R
    feed_velocities h timestamp sensed =
        let t_seconds = num.div (of_nat num timestamp) (num.of_decimal 1000 0) in
        record h {
          primary_velocity =
              Window.feed (fit_additive num) h.primary_velocity
                (fit_sample num t_seconds (asl_from_pressure sensed.primary_pressure));
          secondary_velocity =
              Window.feed (fit_additive num) h.secondary_velocity
                (fit_sample num t_seconds (asl_from_pressure sensed.secondary_pressure));
        }

    -- The three phases of HandleData, each with its tests
    unfoldable pub boost_phase :
        Handler R → ℕ → SensorData R → SensorWorkings → Handler R × List Effect
    boost_phase h timestamp sensed ok =
        if has_event_occured h.controller boost then (h, []) else handle_boost h timestamp sensed ok

    unfoldable pub noseover_phase : Handler R → ℕ → SensorWorkings → Handler R × List Effect
    noseover_phase h t ok =
        if has_event_occured h.controller noseover then (h, []) else handle_noseover h t ok

    unfoldable pub ground_phase : Handler R → ℕ → SensorWorkings → Handler R × List Effect
    ground_phase h t ok =
        if has_event_occured h.controller noseover
          && not (has_event_occured h.controller ground_hit)
        then handle_ground h t ok
        else (h, [])

    unfoldable pub handle_data :
        Handler R → ℕ → SensorData R → SensorWorkings → Handler R × List Effect
    handle_data h timestamp sensed ok =
        let (h₁, e₁) = boost_phase (feed_velocities h timestamp sensed) timestamp sensed ok in
        let t = t_plus_ms timestamp h₁.boost_detected_time in
        let (h₂, e₂) = noseover_phase h₁ t ok in
        let (h₃, e₃) = ground_phase h₂ t ok in
        if has_event_occured h₁.controller boost then (h₃, e₁ ++ (e₂ ++ e₃)) else (h₁, e₁)
