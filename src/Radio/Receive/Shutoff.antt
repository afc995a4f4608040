-- ===== src/Radio/Receive/Shutoff.antt =====
-- The shutoff of the cameras after the landing.
use backplane_flight_compute.Base.{
  ℕ, suc, ◌≡◌, refl, ap, Bool, true, false, ◌||◌, List, [], ◌∷◌, ◌++◌, if◌then◌else◌,
}
use backplane_flight_compute.Radio.StateMachine.{Machine}
use backplane_flight_compute.Radio.Packet.{
  Effect, lora_transmit, set_pin, udp_send, start_timer, stop_timer,
}
use backplane_flight_compute.Radio.Receive.{Receiver, landed_run, expired}

-- A call of LandedRun, or a moment at which the timer, if it runs, expires
pub data Event : Type 0 where
  landed_call expiry : Event

unfoldable pub happens : Event → Receiver → Receiver × List Effect
unfolding landed_run expired
happens landed_call r = landed_run r
happens expiry r = if r.timer_running then expired r else (r, [])

unfoldable pub shutoff : List Event → Receiver → Receiver × List Effect
unfolding happens
shutoff [] r = (r, [])
shutoff (e ∷ events) r =
    let (r', effects) = happens e r in
    let (r'', effects') = shutoff events r' in (r'', effects ++ effects')

abbrev pub starts : List Effect → ℕ
starts [] = 0
starts (start_timer time ∷ effects) = suc (starts effects)
starts (stop_timer ∷ effects) = starts effects
starts (set_pin pin level ∷ effects) = starts effects
starts (lora_transmit bytes ∷ effects) = starts effects
starts (udp_send port bytes ∷ effects) = starts effects

abbrev pub any_call : List Event → Bool
any_call [] = false
any_call (landed_call ∷ events) = true
any_call (expiry ∷ events) = any_call events

abbrev receiver_at : Machine → (running turned_off : Bool) → Receiver
receiver_at m running turned_off = record {
  machine = m;
  timer_running = running;
  cameras_turned_off = turned_off;
}

-- Once the timer has been started it is not started again.
started_before :
    (events : List Event) (m : Machine) (running turned_off : Bool)
    → (running || turned_off) ≡ true
    → starts (shutoff events (receiver_at m running turned_off)).1 ≡ 0
unfolding shutoff
started_before [] m running turned_off h = refl
started_before (landed_call ∷ events) m false false h = cc
started_before (landed_call ∷ events) m false true h = started_before events m false true refl
started_before (landed_call ∷ events) m true false h = started_before events m true false refl
started_before (landed_call ∷ events) m true true h = started_before events m false true refl
started_before (expiry ∷ events) m false turned_off h = started_before events m false turned_off h
started_before (expiry ∷ events) m true turned_off h = started_before events m true true refl

-- For a receive tenant whose timer does not run and whose cameras are on: in any sequence of calls of
-- LandedRun and moments of expiry, the timer of the cameras is started once if LandedRun is called at all,
-- and never if not.
pub shutoff_started_once :
    (events : List Event) (r : Receiver)
    → starts (shutoff events (record r { timer_running = false; cameras_turned_off = false })).1
      ≡ (if any_call events then 1 else 0)
unfolding shutoff
shutoff_started_once [] r = refl
shutoff_started_once (landed_call ∷ events) r =
    ap suc (started_before events r.machine true false refl)
shutoff_started_once (expiry ∷ events) r = shutoff_started_once events r
