-- ===== src/Radio/Listener.antt =====
-- CUdpListenerTenant (app/backplane/radio_module/src/c_udp_listener_tenant.cpp). The result of the
-- socket, its buffer, and whether the queue is full are arguments.
use backplane_flight_compute.Base.{ℕ, zero, suc, ◌%◌, Bool, Option, none, some, List}
use backplane_flight_compute.Base.{if◌then◌else◌}
use backplane_flight_compute.Zephyr.{Code, value, error}
use backplane_flight_compute.Radio.Packet.{Packet}

-- A call of the message port: a message that is sent, or the queue cleared
pub data QueueCall : Type 0 where
  send : Packet → QueueCall
  send_and_clear : Packet → QueueCall

unfoldable pub run : (listen_port : ℕ) → Code → List ℕ → (full : Bool) → Option QueueCall
run listen_port (error e) buffer full = none
run listen_port (value zero) buffer full = none
run listen_port (value (suc n)) buffer full =
    let p : Packet = record { port = listen_port; size = suc n % 256; payload = buffer } in
    some (if full then send_and_clear p else send p)
