-- ===== src/Radio/Transmit.antt =====
-- CLoraTransmitTenant (app/backplane/radio_module/src/c_lora_transmit_tenant.cpp). A message is what the
-- transmit queue gives within its wait, if anything. `none` is a call of k_oops.
use backplane_flight_compute.Base.{
  ℕ, ◌/◌, ◌%◌, Bool, true, false, not, ◌&&◌, Option, none, some, List, [], ◌∷◌, ◌++◌, if◌then◌else◌,
  ltb, ◌==◌, take,
}
use backplane_flight_compute.Radio.HashMap.{HashMap, get, insert, assign_at}
use backplane_flight_compute.Radio.HashMap as HashMap
use backplane_flight_compute.Radio.StateMachine.{State, Machine, running, clock, told}
use backplane_flight_compute.Radio.Packet.{
  Ports, Packet, payload_capacity, empty_packet, Effect, lora_transmit,
}

pub record Transmitter : Type 0 where
  pub machine : Machine
  pub port_data_map : HashMap Packet
  pub pad_data_requested_map : HashMap Bool

-- Insert in turn, and whether all succeeded
abbrev pub insert_all : {V : Type 0} → List ℕ → V → HashMap V → Option (Bool × HashMap V)
insert_all [] value m = some (true, m)
insert_all (key ∷ keys) value m = elim (insert true key value m) [
  | none ↦ none
  | some (new, m') ↦ elim (insert_all keys value m') [
    | none ↦ none
    | some (rest, m'') ↦ some (new && rest, m'')
  ]
]

abbrev pub listened : Ports → List ℕ
listened ports = ports.ina ∷ ports.gnss ∷ ports.telemetry ∷ []

unfoldable pub startup : Ports → Transmitter → Option Transmitter
unfolding insert
startup ports t = elim (insert_all (listened ports) empty_packet t.port_data_map) [
  | none ↦ none
  | some (data_new, port_data) ↦ elim (insert_all (listened ports) false t.pad_data_requested_map) [
    | none ↦ none
    | some (flags_new, requested) ↦
        if data_new && flags_new
        then some (record t { port_data_map = port_data; pad_data_requested_map = requested })
        else none
  ]
]

-- The bytes of `txData` that are sent: the port, as it lies in memory, and the payload
abbrev pub frame : Packet → List ℕ
frame p = p.port % 256 ∷ (p.port / 256) % 256 ∷ take p.size p.payload

unfoldable pub transmit : Packet → Option (List Effect)
transmit p =
    if ltb payload_capacity p.size
    then none
    else if p.size == 0
    then some []
    else some (lora_transmit (frame p) ∷ [])

-- What readTransmitQueue leaves in its argument
abbrev pub read_packet : Option Packet → Packet
read_packet none = empty_packet
read_packet (some p) = p

abbrev pub value_or_empty : Option Packet → Packet
value_or_empty none = empty_packet
value_or_empty (some p) = p

abbrev pub Answered : Type 0
Answered = Option (HashMap Bool × List Effect)

abbrev pub sent_before : List Effect → Answered → Answered
sent_before sent none = none
sent_before sent (some (requests, effects)) = some (requests, sent ++ effects)

-- The answer to a request: what is sent, the map with the request cleared, and the rest of the loop
abbrev pub answered :
    Option (List Effect) → Option (HashMap Bool) → (HashMap Bool → Answered) → Answered
answered none cleared rest = none
answered (some sent) none rest = none
answered (some sent) (some requests) rest = sent_before sent (rest requests)

-- The loop over padDataRequestedMap
unfoldable pub answer_requests : List (ℕ × Bool) → HashMap Packet → HashMap Bool → Answered
answer_requests [] latest requests = some (requests, [])
answer_requests ((port, requested) ∷ rest) latest requests =
    if requested && not (port == 0)
    then answered (transmit (value_or_empty (get port latest))) (assign_at port false requests)
        (answer_requests rest latest)
    else answer_requests rest latest requests

abbrev pub with_maps : Transmitter → HashMap Packet → Answered → Option (Transmitter × List Effect)
with_maps t latest none = none
with_maps t latest (some (requests, effects)) =
    some (record t { port_data_map = latest; pad_data_requested_map = requests }, effects)

unfoldable pub pad_run : Option Packet → Transmitter → Option (Transmitter × List Effect)
pad_run message t =
    let p = read_packet message in
    let latest = (HashMap.set p.port p t.port_data_map).1 in
    with_maps t latest
      (answer_requests t.pad_data_requested_map.entries latest t.pad_data_requested_map)

abbrev pub transmit_read : Option Packet → Option (List Effect)
transmit_read none = some []
transmit_read (some p) = transmit p

unfoldable pub flight_run : Option Packet → Option (List Effect)
flight_run message = transmit_read message

unfoldable pub landed_run : Ports → Option Packet → Option (List Effect)
landed_run ports none = some []
landed_run ports (some p) = if p.port == ports.gnss then transmit p else some []

unfoldable pub ground_run : Option Packet → Option (List Effect)
ground_run message = transmit_read message

abbrev pub without_state : Transmitter → Option (List Effect) → Option (Transmitter × List Effect)
without_state t none = none
without_state t (some effects) = some (t, effects)

abbrev pub run_in : State → Ports → Option Packet → Transmitter → Option (Transmitter × List Effect)
run_in State.pad ports message t = pad_run message t
run_in State.flight ports message t = without_state t (flight_run message)
run_in State.landed ports message t = without_state t (landed_run ports message)
run_in State.ground ports message t = without_state t (ground_run message)

abbrev pub clocked :
    Machine → Option (Transmitter × List Effect) → Option (Transmitter × List Effect)
clocked m none = none
clocked m (some (t, effects)) = some (record t { machine = m }, effects)

unfoldable pub run :
    Ports
    → (receiver boost landing : Bool) → Option Packet
    → Transmitter
    → Option (Transmitter × List Effect)
run ports receiver boost landing message t =
    let m = told receiver boost landing t.machine in
    clocked (clock m) (run_in (running m) ports message t)
