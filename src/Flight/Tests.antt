-- ===== src/Flight/Tests.antt =====
-- The sensor module's controller on a short flight: the barometer reports boost, the lockout timer and
-- the zeroed one expire, and the barometer reports noseover.
use backplane_flight_compute.Base.{
  ◌≡◌, ◌≢◌, ◌<◌, refl, true, false, List, [], ◌∷◌, ◌++◌, get_or, arith,
}
use backplane_flight_compute.Flight.Controller.{
  Controller, Effect, log_source, log_confirmed, Input, submit, expire, initial, has_event_occured,
  mark_source, decide, dispatch, submit_event, start_timers, handle, run,
}
use backplane_flight_compute.Flight.Once.{posts, starts}
use backplane_flight_compute.Flight.Runs.{
  AllTimersFit, AllFit, event_posted_once, timer_started_once,
}
use backplane_flight_compute.Flight.Decisions.{believed, row, occured_when_decided}
use backplane_flight_compute.Flight.SensorModule.{
  config, timer_events, boost, noseover, noseover_lockout, barom_bmp, low_g_imu,
}
use backplane_flight_compute.Flight.SensorModule.Causes.{
  deciders-IsMonotone, boot, sense, fire, lockout_needs_boost, zeroed_timer_blames_imu,
}

abbrev flight : List Input
flight = submit barom_bmp boost ∷ expire 0 ∷ expire 2 ∷ submit barom_bmp noseover ∷ []

abbrev landed : Controller
landed = (run (config true) (initial (config true)) flight).0

abbrev logged : List Effect
logged = (run (config true) (initial (config true)) flight).1

timers_fit : AllTimersFit 4 timer_events
timers_fit = (omega arith, (omega arith, (omega arith, tt)))

flight_fits : AllFit (config true) flight
flight_fits = (omega arith, (omega arith, (omega arith, (omega arith, tt))))

event_posted_once_example : posts boost logged ≡ 1
unfolding run handle submit_event mark_source decide dispatch has_event_occured
event_posted_once_example = event_posted_once (config true) timers_fit flight boost flight_fits

timer_started_once_example : starts 0 logged ≡ 1
unfolding run handle submit_event mark_source decide dispatch has_event_occured
timer_started_once_example =
    timer_started_once (config true) timers_fit flight 0 flight_fits (omega arith)

occured_when_decided_example :
    (has_event_occured landed noseover ≡ true)
    × (get_or (row landed noseover) barom_bmp false ≡ true)
unfolding run handle submit_event mark_source decide dispatch has_event_occured believed
occured_when_decided_example =
    occured_when_decided (config true) timers_fit (deciders-IsMonotone true) flight noseover
      barom_bmp flight_fits (omega arith) (omega arith)

boosted : has_event_occured landed boost ≡ true
unfolding run handle submit_event mark_source decide dispatch has_event_occured
boosted = refl

abbrev after_boost : Controller
after_boost = record { source_states = []; event_states = true ∷ false ∷ false ∷ false ∷ [] }

boost_shown : has_event_occured after_boost boost ≡ true
unfolding has_event_occured
boost_shown = refl

zeroed_timer_blames_imu_example :
    (starts 2 logged ≡ 1)
    × ((get_or (row (handle (config true) landed (expire 2)).0 boost) low_g_imu false ≡ true)
        × ((handle (config true) landed (expire 2)).1
            ≡ log_source boost low_g_imu ∷ log_confirmed boost true ∷ []))
zeroed_timer_blames_imu_example = zeroed_timer_blames_imu true flight flight_fits boosted

boost_is_no_lockout : boost ≢ noseover_lockout
boost_is_no_lockout h = omega (arith, h)

lockout_started :
    0 < starts 0 ([] ++ (handle (config true) (initial (config true)) (submit barom_bmp boost)).1)
unfolding handle submit_event mark_source decide dispatch has_event_occured start_timers starts
lockout_started = omega arith

abbrev locked : Controller
locked =
    (handle (config true) (handle (config true) (initial (config true)) (submit barom_bmp boost)).0
      (expire 0)).0

locked_out : has_event_occured locked noseover_lockout ≡ true
unfolding handle submit_event mark_source decide dispatch has_event_occured
locked_out = refl

lockout_needs_boost_example : has_event_occured locked boost ≡ true
lockout_needs_boost_example =
    lockout_needs_boost
      (fire 0 (sense barom_bmp boost boot (omega arith) boost_is_no_lockout) (omega arith)
        lockout_started)
      locked_out
