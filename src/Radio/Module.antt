-- ===== src/Radio/Module.antt =====
-- The radio module that flies (app/backplane/radio_module/src/c_radio_module.cpp): the tenants of its
-- LoRa task, its alert tenant, the transmissions of its TFTP tenant and the timer of the cameras, in any
-- order. The globals of NStateMachineGlobals are `static` in a header, so that each file that includes it
-- has its own; the static variables of a member function are shared by all sockets of the program.
pub mod Phases
pub mod Datagrams
use backplane_flight_compute.Base.{
  ℕ, zero, suc, Bool, true, false, Option, none, some, List, [], ◌∷◌, ◌++◌, if◌then◌else◌,
}
use backplane_flight_compute.Zephyr.{Code}
use backplane_flight_compute.Radio.HashMap.{empty}
use backplane_flight_compute.Radio.StateMachine.{new_machine}
use backplane_flight_compute.Radio.Packet.{
  Ports, Packet, Effect, lora_transmit, set_pin, udp_send, start_timer, stop_timer,
}
use backplane_flight_compute.Radio.Transmit.{Transmitter, startup}
use backplane_flight_compute.Radio.Transmit as Transmit
use backplane_flight_compute.Radio.Receive.{Receiver, expired}
use backplane_flight_compute.Radio.Receive as Receive
use backplane_flight_compute.Radio.UdpSocket.{
  Statics, no_statics, Socket, set_dst_port, Datagram, Answers, transmit_asynchronous,
}
use backplane_flight_compute.Radio.Alerts.{Globals, notify, alert_of}

-- `observers` is how many times the module's updater is an observer of its alert tenant.
pub record Module : Type 0 where
  pub transmitter : Transmitter
  pub receiver : Receiver
  pub updater_globals : Globals
  pub transmit_globals : Globals
  pub receive_globals : Globals
  pub observers : ℕ
  pub udp : Socket
  pub statics : Statics

abbrev pub new_globals : Globals
new_globals = record { boost_detected = false; landing_detected = false }

abbrev pub new_transmitter : Transmitter
new_transmitter = record {
  machine = new_machine;
  port_data_map = empty;
  pad_data_requested_map = empty;
}

abbrev pub new_receiver : Receiver
new_receiver = record { machine = new_machine; timer_running = false; cameras_turned_off = false }

-- The module of a started transmit tenant, with a source port of its socket
abbrev pub module_of : (observers source_port : ℕ) → Transmitter → Module
module_of observers source_port t = record {
  transmitter = t;
  receiver = new_receiver;
  updater_globals = new_globals;
  transmit_globals = new_globals;
  receive_globals = new_globals;
  observers = observers;
  udp = record { dst_port = source_port };
  statics = no_statics;
}

abbrev pub booted : (observers source_port : ℕ) → Option Transmitter → Option Module
booted observers source_port none = none
booted observers source_port (some t) = some (module_of observers source_port t)

unfoldable pub boot : Ports → (observers source_port : ℕ) → Option Module
unfolding startup
boot ports observers source_port = booted observers source_port (startup ports new_transmitter)

-- A run of the transmit tenant with what its queue gives it; one of the receive tenant with what the
-- radio, the pins and the network give it; the expiry of the timer; a packet for the alert tenant; a call of
-- TransmitAsynchronous by the TFTP tenant, on the data socket that it has made for a client's port, with what
-- the network gives. Which packets the TFTP tenant sends is not looked at here.
pub data Step : Type 0 where
  transmit_tenant : Option Packet → Step
  receive_tenant : Code → List ℕ → (ℕ → ℕ) → Answers → Step
  timer_expires : Step
  alert_tenant : Code → List ℕ → Step
  tftp_tenant : (client_port : ℕ) → List ℕ → Answers → Step

-- A call of Notify for each observer
unfoldable pub notify_all : ℕ → Option ℕ → Globals → Globals
notify_all zero alert g = g
notify_all (suc n) none g = g
notify_all (suc n) (some a) g = notify_all n (some a) (notify a g)

abbrev pub with_datagram : Option Datagram → List Datagram → List Datagram
with_datagram none rest = rest
with_datagram (some d) rest = d ∷ rest

-- What the calls of the socket hand to the network
unfoldable pub deliver : Answers → List Effect → Socket → Statics → List Datagram × Socket × Statics
unfolding set_dst_port transmit_asynchronous
deliver answers [] s statics = ([], s, statics)
deliver answers (udp_send port bytes ∷ effects) s statics =
    let s' = set_dst_port port s in
    let (code, datagram, statics') = transmit_asynchronous bytes answers s' statics in
    let (datagrams, s'', statics'') = deliver answers effects s' statics' in
    (with_datagram datagram datagrams, s'', statics'')
deliver answers (lora_transmit bytes ∷ effects) s statics = deliver answers effects s statics
deliver answers (set_pin pin level ∷ effects) s statics = deliver answers effects s statics
deliver answers (start_timer time ∷ effects) s statics = deliver answers effects s statics
deliver answers (stop_timer ∷ effects) s statics = deliver answers effects s statics

-- The data socket of a client's port
abbrev pub data_socket : ℕ → Socket
data_socket client_port = record { dst_port = client_port }

abbrev pub Outcome : Type 0
Outcome = Option (Module × List Effect × List Datagram)

abbrev pub transmitted : Module → Option (Transmitter × List Effect) → Outcome
transmitted m none = none
transmitted m (some (t, effects)) = some (record m { transmitter = t }, effects, [])

abbrev pub received : Module → Answers → Option (Receiver × Transmitter × List Effect) → Outcome
received m answers none = none
received m answers (some (r, t, effects)) =
    let (datagrams, s, statics) = deliver answers effects m.udp m.statics in
    some
      (record m { receiver = r; transmitter = t; udp = s; statics = statics }, effects, datagrams)

unfoldable pub transmitted_data : (client_port : ℕ) → List ℕ → Answers → Module → Outcome
unfolding transmit_asynchronous
transmitted_data client_port bytes answers m =
    let (code, datagram, statics) =
      transmit_asynchronous bytes answers (data_socket client_port) m.statics in
    some
      (record m { statics = statics }, udp_send client_port bytes ∷ [], with_datagram datagram [])

unfoldable pub step : Ports → Step → Module → Outcome
step ports (transmit_tenant message) m = transmitted m (
    Transmit.run ports false m.transmit_globals.boost_detected m.transmit_globals.landing_detected
      message m.transmitter)
step ports (receive_tenant result buffer pin_level answers) m = received m answers (
    Receive.run ports false m.receive_globals.boost_detected m.receive_globals.landing_detected
      result buffer pin_level m.receiver m.transmitter)
step ports timer_expires m =
    if m.receiver.timer_running
    then some (record m { receiver = (expired m.receiver).0 }, (expired m.receiver).1, [])
    else some (m, [], [])
step ports (alert_tenant result buffer) m = some (
  record m { updater_globals = notify_all m.observers (alert_of result buffer) m.updater_globals },
  [],
  [],
)
step ports (tftp_tenant client_port bytes answers) m = transmitted_data client_port bytes answers m

abbrev pub after : List Effect → List Datagram → Outcome → Outcome
after effects datagrams none = none
after effects datagrams (some (m, effects', datagrams')) =
    some (m, effects ++ effects', datagrams ++ datagrams')

abbrev pub and_then : Outcome → (Module → Outcome) → Outcome
and_then none rest = none
and_then (some (m, effects, datagrams)) rest = after effects datagrams (rest m)

unfoldable pub run : Ports → List Step → Module → Outcome
run ports [] m = some (m, [], [])
run ports (s ∷ steps) m = and_then (step ports s m) (run ports steps)
