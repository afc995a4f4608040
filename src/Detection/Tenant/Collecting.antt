-- ===== src/Detection/Tenant/Collecting.antt =====
-- The sensing tenant and the timers, after the flight.
use backplane_flight_compute.Base.{ℕ, ◌<◌, ◌≡◌, refl, Bool, true, List, [], ◌∷◌, ◌++◌, arith}
use backplane_flight_compute.Flight.Controller.{Effect, expire, has_event_occured, handle}
use backplane_flight_compute.Flight.Runs.{HasSlots, handle-HasSlots, has_event_occured-handle}
use backplane_flight_compute.Flight.SensorModule.{config, ground_hit}
use backplane_flight_compute.Flight.SensorModule.Causes.{timers_fit}
use backplane_flight_compute.Detection.LinearFit.{Real}
use backplane_flight_compute.Detection.Handler.{Handler, continue_collecting}
use backplane_flight_compute.Detection.Handler.Flights.{Flies, Flies-IsSound}
use backplane_flight_compute.Detection.Tenant.{Fetches, Readings, Sent, run}

-- A run of the tenant, or a timer that expires
pub data Moment (R : Type 0) : Type 0 where
  sampling : (uptime : ℕ) → Fetches → Readings R → Moment R
  timer : ℕ → Moment R

-- The module has three timers.
abbrev pub AllTimers : {R : Type 0} → List (Moment R) → Type 0
AllTimers [] = Unit {0}
AllTimers (sampling uptime fetches readings ∷ moments) = AllTimers moments
AllTimers (timer i ∷ moments) = (i < 3) × AllTimers moments

module _ {R : Type 0} (num : Real R) (log : Bool) where
  unfoldable pub collect : List (Moment R) → Handler R → Handler R × List (Sent R)
  collect [] h = (h, [])
  collect (sampling uptime fetches readings ∷ moments) h =
      let (h', effects, sent) = run num (config log) h uptime fetches readings in
      let (h'', later) = collect moments h' in (h'', sent ++ later)
  collect (timer i ∷ moments) h =
      collect moments (record h { controller = (handle (config log) h.controller (expire i)).0 })

  -- A run after the ground hit
  run_ended :
      (h : Handler R) (uptime : ℕ) (fetches : Fetches) (readings : Readings R)
      → has_event_occured h.controller ground_hit ≡ true
      → run num (config log) h uptime fetches readings ≡ (h, [], [])
  unfolding run continue_collecting
  run_ended h uptime fetches readings e = rw e refl

  ended :
      (moments : List (Moment R)) (h : Handler R)
      → HasSlots (config log) h.controller
      → has_event_occured h.controller ground_hit ≡ true
      → AllTimers moments
      → ((collect moments h).1 ≡ [])
        × (has_event_occured (collect moments h).0.controller ground_hit ≡ true)
  unfolding collect
  ended [] h slots e t = (refl, e)
  ended (sampling uptime fetches readings ∷ moments) h slots e t =
      rw (run_ended h uptime fetches readings e) (ended moments h slots e t)
  ended (timer i ∷ moments) h slots e t =
      ended moments _ (handle-HasSlots (config log) h.controller (expire i) slots)
        (ground (
          arith,
          has_event_occured-handle (config log) (timers_fit log) h.controller (expire i) ground_hit
              slots,
          e,
          t.0,
        ))
        t.1

  -- From a state of the detection handler that the module reaches and in which the ground hit has occured:
  -- whatever the sensors give and whichever of the three timers expire, the sensing tenant sends nothing
  -- more, to the broadcast or to the log, and the ground hit stays recorded.
  pub collection_ends :
      {h : Handler R} {done : List Effect} (moments : List (Moment R))
      → Flies num log h done
      → has_event_occured h.controller ground_hit ≡ true
      → AllTimers moments
      → ((collect moments h).1 ≡ [])
        × (has_event_occured (collect moments h).0.controller ground_hit ≡ true)
  collection_ends {h} moments r e t =
      ended moments h (Flies-IsSound num log r).order.current.slots e t
