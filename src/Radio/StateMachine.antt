-- ===== src/Radio/StateMachine.antt =====
-- CPadFlightLandedStateMachine (include/f_core/c_pad_flight_landing_state_machine.h).
use backplane_flight_compute.Base.{Bool, true, false, if◌then◌else◌}

pub data State : Type 0 where
  pad flight landed ground : State

pub record Machine : Type 0 where
  pub state : State
  pub boost_detected : Bool
  pub landing_detected : Bool
  pub is_ground_module : Bool

abbrev pub new_machine : Machine
new_machine = record {
  state = pad;
  boost_detected = false;
  landing_detected = false;
  is_ground_module = false;
}

-- The state whose Run a call of Clock calls
unfoldable pub running : Machine → State
running m = if m.is_ground_module then ground else m.state

-- The state that it leaves
unfoldable pub next_state : State → Bool → Bool → State
next_state pad boost landing = if boost then flight else pad
next_state flight boost landing = if landing then landed else flight
next_state landed boost landing = landed
next_state ground boost landing = ground

-- Clock, but for the Run
unfoldable pub clock : Machine → Machine
unfolding running next_state
clock m = record m { state = next_state (running m) m.boost_detected m.landing_detected }

-- What a tenant's Run tells it before Clock: `receiver` is CONFIG_RADIO_MODULE_RECEIVER, the others are the
-- globals of the tenant's file.
unfoldable pub told : (receiver boost landing : Bool) → Machine → Machine
told true boost landing m = record m { is_ground_module = true }
told false boost landing m = record m { boost_detected = boost; landing_detected = landing }
