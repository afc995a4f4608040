-- ===== src/Radio/Tests.antt =====
-- The radio module in a flight: a request for data, an alert, and packets for the network.
use mathlib.Core.List.{Memᴰ}
use backplane_flight_compute.Base.{
  ℕ, ◌≡◌, ◌≢◌, refl, true, false, some, none, List, [], ◌∷◌, ◌++◌, replicate, length, arith,
}
use backplane_flight_compute.Zephyr.{value, success}
use backplane_flight_compute.Radio.HashMap.{empty, get, find, set}
use backplane_flight_compute.Radio.HashMap.Entries.{
  Operation, inserted, updated, removed, assigned, calls, meanings, outcome, holding, calls_lem,
}
use backplane_flight_compute.Radio.StateMachine.{State, new_machine, running, clock, told}
use backplane_flight_compute.Radio.Packet.{
  Ports, Packet, empty_packet, Effect, lora_transmit, udp_send,
}
use backplane_flight_compute.Radio.Transmit.{Transmitter, transmit, startup, answer_requests}
use backplane_flight_compute.Radio.Transmit as Transmit
use backplane_flight_compute.Radio.Receive.{Receiver, receive, handle, landed_run, expired}
use backplane_flight_compute.Radio.Receive as Receive
use backplane_flight_compute.Radio.Receive.Shutoff.{
  landed_call, expiry, shutoff, starts, shutoff_started_once,
}
use backplane_flight_compute.Radio.Listener.{send}
use backplane_flight_compute.Radio.Listener as Listener
use backplane_flight_compute.Radio.Lora.Directions.{
  Transfer, transmits, receives, transfers, IsDirected, transfers-IsDirected,
}
use backplane_flight_compute.Radio.UdpSocket.{Answers, no_statics}
use backplane_flight_compute.Radio.Alerts.{magic_byte_signature, is_signed, alert_of, notify}
use backplane_flight_compute.Radio.Module.{
  Module, boot, module_of, new_receiver, Step, transmit_tenant, receive_tenant, alert_tenant,
  tftp_tenant, transmitted_data, step, run, notify_all, deliver,
}
use backplane_flight_compute.Radio.Module.Phases.{flight_never_seen}
use backplane_flight_compute.Radio.Module.Datagrams.Delivery.{first_port, AllToOption}
use backplane_flight_compute.Radio.Module.Datagrams.{datagrams_share_port}
use backplane_flight_compute.Radio.Requests.Answers.{AllFit}
use backplane_flight_compute.Radio.Requests.Fulfilled.{request, request_answered}
use backplane_flight_compute.Radio.Crossing.{datagram_crosses}

abbrev some_ports : Ports
some_ports = record {
  command = 12000;
  command_response = 12001;
  data_request = 12002;
  ina = 11000;
  gnss = 12100;
  telemetry = 13000;
}

abbrev started : Transmitter
started = record {
  machine = new_machine;
  port_data_map = record {
    entries = (13000, empty_packet) ∷ (12100, empty_packet) ∷ (11000, empty_packet) ∷ [];
    size = 3;
    max_size_reached_at_startup = 3;
  };
  pad_data_requested_map = record {
    entries = (13000, false) ∷ (12100, false) ∷ (11000, false) ∷ [];
    size = 3;
    max_size_reached_at_startup = 3;
  };
}

abbrev low : ℕ → ℕ
low pin = 0

abbrev network : Answers
network = record { get_flags = success; blocking = false; set_flags = success; sent = success }

-- A block for a TFTP client, two packets for ports 5000 and 6000, then an alert of the boost
abbrev flight_steps : List Step
flight_steps =
    tftp_tenant 4000 (1 ∷ []) network
    ∷ receive_tenant (value 3) (136 ∷ 19 ∷ 7 ∷ replicate 252 0) low network
    ∷ receive_tenant (value 3) (112 ∷ 23 ∷ 8 ∷ replicate 252 0) low network
    ∷ alert_tenant (value 8) (magic_byte_signature ++ b'b' ∷ 0 ∷ [])
    ∷ transmit_tenant none
    ∷ []

abbrev boosted : Module
boosted = record (module_of 1 9 started) {
  updater_globals = record { boost_detected = true; landing_detected = false };
  udp = record { dst_port = 6000 };
  statics = record { synchronous_port = none; asynchronous_port = some 4000 };
}

abbrev flight_effects : List Effect
flight_effects = udp_send 4000 (1 ∷ []) ∷ udp_send 5000 (7 ∷ []) ∷ udp_send 6000 (8 ∷ []) ∷ []

booted_lem : boot some_ports 1 9 ≡ some (module_of 1 9 started)
unfolding boot find
booted_lem = refl

flown :
    run some_ports flight_steps (module_of 1 9 started)
    ≡ some (boosted, flight_effects, (4000, 1 ∷ []) ∷ (4000, 7 ∷ []) ∷ (4000, 8 ∷ []) ∷ [])
unfolding run step transmitted_data Transmit.run Transmit.pad_run Receive.run Receive.pad_run
    answer_requests told running clock deliver notify_all notify alert_of is_signed set find
flown = refl

flight_never_seen_example :
    (boosted.transmitter.machine.state ≡ State.pad)
    × (boosted.receiver.machine.state ≡ State.pad)
    × (boosted.receiver.timer_running ≡ false)
    × (boosted.receiver.cameras_turned_off ≡ false)
flight_never_seen_example =
    flight_never_seen some_ports 1 9 flight_steps (module_of 1 9 started) boosted flight_effects _
      booted_lem flown

datagrams_share_port_example :
    AllToOption (first_port flight_effects) ((4000, 1 ∷ []) ∷ (4000, 7 ∷ []) ∷ (4000, 8 ∷ []) ∷ [])
datagrams_share_port_example =
    datagrams_share_port some_ports 1 9 flight_steps (module_of 1 9 started) boosted flight_effects
      _ booted_lem flown

datagram_crosses_example :
    (p : Packet) × (bytes : List ℕ) × (Listener.run 13000 (value 2) (7 ∷ 8 ∷ replicate 252 0) false
      ≡ some (send p))
    × (transmit p ≡ some (lora_transmit bytes ∷ []))
    × (Receive.pad_run some_ports (value (length bytes)) (bytes ++ []) low started
        ≡ some (started, udp_send 13000 (7 ∷ 8 ∷ []) ∷ []))
    × ((deliver network (udp_send 13000 (7 ∷ 8 ∷ []) ∷ []) (record { dst_port = 9 }) no_statics).0
        ≡ (13000, 7 ∷ 8 ∷ []) ∷ [])
datagram_crosses_example =
    datagram_crosses some_ports 13000 1 (7 ∷ 8 ∷ []) (replicate 252 0) [] low started refl
      (omega arith) refl (omega arith) (omega arith) (omega arith) network (record { dst_port = 9 })
      no_statics (record { flags_read = refl; flags_set = refl }) tt

abbrev reading : Packet
reading = record { port = 13000; size = 1; payload = 42 ∷ replicate 253 0 }

abbrev with_reading : Transmitter
with_reading = record started {
  port_data_map = record started.port_data_map {
    entries = (13000, reading) ∷ (12100, empty_packet) ∷ (11000, empty_packet) ∷ [];
  };
}

with_reading-AllFit : AllFit with_reading.port_data_map
unfolding find
with_reading-AllFit port = ground arith

request_answered_example :
    (t' t'' : Transmitter) × (effects : List Effect) × (Receive.pad_run some_ports
        (value 4)
        (request some_ports (13000 ∷ []) ++ [])
        low
        with_reading
      ≡ some (t', []))
    × (Transmit.pad_run none t' ≡ some (t'', effects))
    × Memᴰ (lora_transmit (200 ∷ 50 ∷ 42 ∷ [])) effects
    × (get 13000 t''.pad_data_requested_map ≢ some true)
unfolding find
request_answered_example =
    request_answered some_ports (13000 ∷ []) [] low with_reading 13000 reading (omega arith)
      (omega arith) (omega arith, refl, tt) with_reading-AllFit refl (omega arith) refl
      (omega arith)

abbrev some_calls : List (Operation ℕ)
some_calls =
    inserted true 3 30
    ∷ inserted false 4 40
    ∷ updated 3 31
    ∷ removed 4
    ∷ assigned 3 32
    ∷ updated 4 41
    ∷ []

calls_lem_example : outcome (calls some_calls empty) ≡ meanings some_calls (holding empty)
calls_lem_example =
    calls_lem some_calls empty (omega arith) (omega arith)
      (omega arith, (omega arith, (omega arith, tt)))

shutoff_started_once_example :
    starts (shutoff (expiry ∷ landed_call ∷ expiry ∷ landed_call ∷ landed_call ∷ []) new_receiver).1
    ≡ 1
shutoff_started_once_example =
    shutoff_started_once (expiry ∷ landed_call ∷ expiry ∷ landed_call ∷ landed_call ∷ [])
      new_receiver

abbrev some_transfers : List Transfer
some_transfers =
    transmits (1 ∷ []) success success
    ∷ transmits (2 ∷ []) success success
    ∷ receives 255 success success
    ∷ []

transfers-IsDirected_example :
    IsDirected false (transfers some_transfers (record { config_tx = false }))
transfers-IsDirected_example = transfers-IsDirected some_transfers (record { config_tx = false })
