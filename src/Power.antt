-- ===== src/Power.antt =====
-- CSensingTenant of the power module (app/backplane/power_module/src/c_sensing_tenant.cpp), an observer of
-- the module's alert tenant. `float` and what the shunts give are parameters.
pub mod Logging
mod Tests
use backplane_flight_compute.Base.{
  ℕ, Bool, true, false, Option, none, some, List, [], ◌∷◌, ◌++◌, if◌then◌else◌, ◌==◌,
}
use backplane_flight_compute.Zephyr.{Code}
use backplane_flight_compute.Radio.Alerts.{boost_alert, landed_alert, alert_of}

pub record Rail (F : Type 0) : Type 0 where
  pub voltage : F
  pub current : F
  pub power : F

-- `NTypes::SensorData`
pub record RailData (F : Type 0) : Type 0 where
  pub rail_battery : Rail F
  pub rail3v3 : Rail F
  pub rail5v0 : Rail F

pub data Sent (F : Type 0) : Type 0 where
  to_broadcast to_log : RailData F → Sent F

-- Notify, on `logData`
unfoldable pub notify : ℕ → Bool → Bool
notify alert log_data =
    if alert == boost_alert then true else if alert == landed_alert then false else log_data

-- The call of Notify in a Run of the alert tenant
unfoldable pub alerted : Code → List ℕ → Bool → Bool
unfolding notify
alerted result buffer log_data = elim (alert_of result buffer) [
  | none ↦ log_data
  | some alert ↦ notify alert log_data
]

-- Run outside CONFIG_ARCH_POSIX: `initial` is the initialiser of `data`, of which the rail of the battery
-- is left.
unfoldable pub run :
    {F : Type 0} → (initial : RailData F) → (shunt3v3 shunt5v0 : Rail F) → Bool → List (Sent F)
run initial shunt3v3 shunt5v0 log_data =
    let d = record initial { rail3v3 = shunt3v3; rail5v0 = shunt5v0 } in
    to_broadcast d ∷ (if log_data then to_log d ∷ [] else [])
