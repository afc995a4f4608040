-- ===== src/Flight/SensorModule.antt =====
-- The events, sources, timers and deciders of the sensor module
-- (app/backplane/sensor_module/include/flight.hpp), as a configuration of the phase controller.
pub mod Causes
use backplane_flight_compute.Base.{ℕ, Bool, false, true, ◌||◌, List, [], ◌∷◌, get_or}
use backplane_flight_compute.Flight.Controller.{Config, TimerEvent, DecisionFunc}

-- `enum Events`
abbrev pub boost : ℕ
boost = 0

abbrev pub noseover_lockout : ℕ
noseover_lockout = 1

abbrev pub noseover : ℕ
noseover = 2

abbrev pub ground_hit : ℕ
ground_hit = 3

-- `enum Sources`
abbrev pub low_g_imu : ℕ
low_g_imu = 0

abbrev pub high_g_imu : ℕ
high_g_imu = 1

abbrev pub barom_bmp : ℕ
barom_bmp = 2

abbrev pub barom_ms5611 : ℕ
barom_ms5611 = 3

abbrev pub noseover_lockout_timer : ℕ
noseover_lockout_timer = 4

abbrev pub full_flight_timer : ℕ
full_flight_timer = 5

-- The array has three elements and two initialisers: C++ sets the third to zeros.
abbrev pub timer_events : List TimerEvent
timer_events =
    record {
      start = boost;
      event = noseover_lockout;
      time = 15000;
      source = noseover_lockout_timer;
    }
    ∷ record { start = boost; event = ground_hit; time = 350000; source = full_flight_timer }
    ∷ record { start = 0; event = 0; time = 0; source = 0 }
    ∷ []

abbrev pub deciders : List DecisionFunc
deciders =
    (λ states.
      get_or states low_g_imu false
      || (get_or states high_g_imu false
          || (get_or states barom_bmp false || get_or states barom_ms5611 false)))
    ∷ (λ states. get_or states noseover_lockout_timer false)
    ∷ (λ states. get_or states barom_bmp false || get_or states barom_ms5611 false)
    ∷ (λ states.
        get_or states barom_bmp false
        || (get_or states barom_ms5611 false || get_or states full_flight_timer false))
    ∷ []

-- The controller of the sensor module, with or without a flight log.
abbrev pub config : Bool → Config
config log = record {
  num_events = 4;
  num_sources = 6;
  timer_events = timer_events;
  deciders = deciders;
  has_log = log;
}
