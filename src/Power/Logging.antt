-- ===== src/Power/Logging.antt =====
-- When the power module logs.
use backplane_flight_compute.Base.{
  ℕ, ◌≡◌, refl, ap, ◌∙◌, Bool, true, false, Option, none, some, List, [], ◌∷◌, ◌++◌, if◌then◌else◌,
  ◌==◌, arith,
}
use backplane_flight_compute.Zephyr.{Code}
use backplane_flight_compute.Radio.Alerts.{boost_alert, landed_alert, alert_of}
use backplane_flight_compute.Power.{RailData, Rail, to_log, to_broadcast, alerted, run}

-- What the alert tenant receives in a run
abbrev pub Reception : Type 0
Reception = Code × List ℕ

abbrev pub after_all : List Reception → Bool → Bool
after_all [] log_data = log_data
after_all ((result, buffer) ∷ receptions) log_data =
    after_all receptions (alerted result buffer log_data)

-- An alert of a boost or of a landing
abbrev pub decides : Option ℕ → Bool
decides none = false
decides (some alert) = if alert == boost_alert then true else alert == landed_alert

-- Nothing among the receptions decides.
abbrev pub AllOther : List Reception → Type 0
AllOther [] = Unit {0}
AllOther ((result, buffer) ∷ receptions) =
    (decides (alert_of result buffer) ≡ false) × AllOther receptions

after_all-append :
    (a b : List Reception) (log_data : Bool)
    → after_all (a ++ b) log_data ≡ after_all b (after_all a log_data)
after_all-append [] b log_data = refl
after_all-append ((result, buffer) ∷ a) b log_data =
    after_all-append a b (alerted result buffer log_data)

alerted_other :
    (result : Code) (buffer : List ℕ) (log_data : Bool)
    → decides (alert_of result buffer) ≡ false
    → alerted result buffer log_data ≡ log_data
unfolding alerted
alerted_other result buffer log_data h = ground arith

after_all-AllOther :
    (receptions : List Reception) (log_data : Bool)
    → AllOther receptions
    → after_all receptions log_data ≡ log_data
after_all-AllOther [] log_data v = refl
after_all-AllOther ((result, buffer) ∷ receptions) log_data v =
    ap (after_all receptions) (alerted_other result buffer log_data v.0)
    ∙ after_all-AllOther receptions log_data v.1

-- An alert of a boost or of a landing decides, whatever came before.
alerted-decides :
    (result : Code) (buffer : List ℕ) (alert : ℕ) (log_data : Bool)
    → alert_of result buffer ≡ some alert
    → decides (some alert) ≡ true
    → alerted result buffer log_data ≡ (alert == boost_alert)
unfolding alerted
alerted-decides result buffer alert log_data e d = ground (arith, e, d)

after_decision :
    (before later : List Reception) (result : Code) (buffer : List ℕ) (alert : ℕ) (log_data : Bool)
    → alert_of result buffer ≡ some alert
    → decides (some alert) ≡ true
    → AllOther later
    → after_all (before ++ ((result, buffer) ∷ later)) log_data ≡ (alert == boost_alert)
after_decision before later result buffer alert log_data e d v =
    after_all-append before ((result, buffer) ∷ later) log_data
    ∙ after_all-AllOther later (alerted result buffer (after_all before log_data)) v
    ∙ alerted-decides result buffer alert (after_all before log_data) e d

-- The data that a run sends
abbrev pub measured : {F : Type 0} → RailData F → (shunt3v3 shunt5v0 : Rail F) → RailData F
measured initial shunt3v3 shunt5v0 = record {
  rail_battery = initial.rail_battery;
  rail3v3 = shunt3v3;
  rail5v0 = shunt5v0;
}

-- After any receptions of the alert tenant, then one that is an alert of a boost or a landing, then any that
-- are neither: each run of the sensing tenant broadcasts its data, and logs them exactly if that alert
-- was of a boost. The data have what the shunts of the 3.3 V and 5 V rails give, and for the
-- battery what they were initialised with.
pub logs_after_boost :
    {F : Type 0} (initial : RailData F) (shunt3v3 shunt5v0 : Rail F) (before later : List Reception)
    (result : Code) (buffer : List ℕ) (alert : ℕ) (log_data : Bool)
    → alert_of result buffer ≡ some alert
    → decides (some alert) ≡ true
    → AllOther later
    → run initial shunt3v3 shunt5v0 (after_all (before ++ ((result, buffer) ∷ later)) log_data) ≡ (
        if alert == boost_alert
        then to_broadcast (measured initial shunt3v3 shunt5v0)
          ∷ to_log (measured initial shunt3v3 shunt5v0)
          ∷ []
        else to_broadcast (measured initial shunt3v3 shunt5v0) ∷ [])
unfolding run
logs_after_boost initial shunt3v3 shunt5v0 before later result buffer alert log_data e d v =
    rw (after_decision before later result buffer alert log_data e d v) (ground arith)
