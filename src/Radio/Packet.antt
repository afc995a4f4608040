-- ===== src/Radio/Packet.antt =====
-- RadioBroadcastData (app/backplane/radio_module/include/n_radio_module_types.h), and what the tenants
-- call. The ports of NNetworkDefs are generated by the build, and are a parameter.
use backplane_flight_compute.Base.{ℕ, List, replicate}

pub record Ports : Type 0 where
  pub command : ℕ
  pub command_response : ℕ
  pub data_request : ℕ
  pub ina : ℕ
  pub gnss : ℕ
  pub telemetry : ℕ

-- `data` is `payload`.
pub record Packet : Type 0 where
  pub port : ℕ
  pub size : ℕ
  pub payload : List ℕ

abbrev pub payload_capacity : ℕ
payload_capacity = 254

abbrev pub empty_packet : Packet
empty_packet = record { port = 0; size = 0; payload = replicate payload_capacity 0 }

-- A call of the radio, of a pin, of the socket (SetDstPort and TransmitAsynchronous) or of the timer.
pub data Effect : Type 0 where
  lora_transmit : List ℕ → Effect
  set_pin : ℕ → ℕ → Effect
  udp_send : ℕ → List ℕ → Effect
  start_timer : ℕ → Effect
  stop_timer : Effect
