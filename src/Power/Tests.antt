-- ===== src/Power/Tests.antt =====
-- An alert of the boost, and a packet that is no alert.
use backplane_flight_compute.Base.{ℕ, ◌≡◌, refl, false, List, [], ◌∷◌, ◌++◌, replicate}
use backplane_flight_compute.Zephyr.{value}
use backplane_flight_compute.Radio.Alerts.{magic_byte_signature, is_signed, alert_of}
use backplane_flight_compute.Power.{Rail, RailData, to_broadcast, to_log, run}
use backplane_flight_compute.Power.Logging.{Reception, after_all, logs_after_boost}

abbrev rail : ℕ → Rail ℕ
rail v = record { voltage = v; current = 1; power = v }

abbrev initial : RailData ℕ
initial = record { rail_battery = rail 12; rail3v3 = rail 0; rail5v0 = rail 0 }

abbrev boost_packet : List ℕ
boost_packet = magic_byte_signature ++ (b'b' ∷ 0 ∷ [])

abbrev noise : List Reception
noise = (value 8, replicate 8 1) ∷ []

logs_after_boost_example :
    run initial (rail 3) (rail 5) (after_all (noise ++ ((value 8, boost_packet) ∷ noise)) false)
    ≡ to_broadcast (record { rail_battery = rail 12; rail3v3 = rail 3; rail5v0 = rail 5 })
      ∷ to_log (record { rail_battery = rail 12; rail3v3 = rail 3; rail5v0 = rail 5 })
      ∷ []
unfolding alert_of is_signed
logs_after_boost_example =
    logs_after_boost initial (rail 3) (rail 5) noise noise (value 8) boost_packet b'b' false refl
      refl (refl, tt)
