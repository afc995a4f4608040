-- ===== src/Radio/Alerts.antt =====
-- The alerts: CUdpAlertTenant::Run (lib/f_core/net/application/c_udp_alert_tenant.cpp), the packet of
-- include/f_core/n_alerts.h and CStateMachineUpdater
-- (app/backplane/radio_module/src/c_state_machine_updater.cpp).
pub mod Signature
use backplane_flight_compute.Base.{
  ℕ, zero, suc, ◌+◌, Bool, true, false, Option, none, some, List, [], ◌∷◌, if◌then◌else◌, ◌==◌,
  get_or,
}
use backplane_flight_compute.Zephyr.{Code, value, error}

abbrev pub magic_byte_signature : List ℕ
magic_byte_signature = b'L' ∷ b'A' ∷ b'U' ∷ b'N' ∷ b'C' ∷ b'H' ∷ []

abbrev pub magic_byte_signature_size : ℕ
magic_byte_signature_size = 6

abbrev pub alert_packet_size : ℕ
alert_packet_size = 8

abbrev pub boost_alert : ℕ
boost_alert = b'b'

abbrev pub landed_alert : ℕ
landed_alert = b'l'

-- The loop over the signature, from byte `i` of the buffer on
unfoldable pub is_signed : List ℕ → ℕ → List ℕ → Bool
is_signed [] i buffer = true
is_signed (byte ∷ signature) i buffer =
    if get_or buffer i 0 == byte then is_signed signature (i + 1) buffer else false

-- The type that Run notifies its observers of, if any
unfoldable pub alert_of : Code → List ℕ → Option ℕ
alert_of (error e) buffer = none
alert_of (value zero) buffer = none
alert_of (value (suc n)) buffer =
    if is_signed magic_byte_signature 0 buffer
    then some (get_or buffer magic_byte_signature_size 0)
    else none

-- The globals of NStateMachineGlobals, as one file has them
pub record Globals : Type 0 where
  pub boost_detected : Bool
  pub landing_detected : Bool

-- CStateMachineUpdater::Notify
unfoldable pub notify : ℕ → Globals → Globals
notify alert g =
    if alert == boost_alert
    then record g { boost_detected = true }
    else if alert == landed_alert
    then record g { landing_detected = true }
    else g
