-- ===== src/Radio/Receive/Forwarding.antt =====
-- A packet of the transmit tenant, as the receive tenant of another module takes it.
use backplane_flight_compute.Base.{
  take-append, ℕ, suc, ◌+◌, ◌*◌, ◌/◌, ◌%◌, ◌^◌, ◌<◌, ◌≡◌, ◌≢◌, refl, subst, some, List, [], ◌∷◌,
  ◌++◌, take, length, arith, bit_or, length-take, word_of_bytes,
}
use backplane_flight_compute.Zephyr.{value}
use backplane_flight_compute.Radio.Packet.{Ports, Packet, lora_transmit, udp_send}
use backplane_flight_compute.Radio.Transmit.{Transmitter, transmit, frame}
use backplane_flight_compute.Radio.Receive.{pad_run, receive, handle}

-- The port of two bytes, as `receive` reads it.
pub received_port :
    (port : ℕ) → port < 2 ^ 16 → bit_or ((port / 256) % 256 * 256) (port % 256) ≡ port
received_port port h =
    omega (arith, word_of_bytes ((port / 256) % 256) (port % 256) (omega arith) (omega arith))

module _ (ports : Ports) (p : Packet) (padding : List ℕ) (pin_level : ℕ → ℕ) (t : Transmitter)
    (nonempty : 0 < p.size) (fits : p.size < 254) (whole : length p.payload ≡ 254)
    (word : p.port < 2 ^ 16) (no_command : p.port ≢ ports.command)
    (no_request : p.port ≢ ports.data_request) where
  transmit_frame : transmit p ≡ some (lora_transmit (frame p) ∷ [])
  unfolding transmit
  transmit_frame = ground arith

  payload_read : take p.size (take p.size p.payload ++ padding) ≡ take p.size p.payload
  payload_read =
      let e : length (take p.size p.payload) ≡ p.size =
        omega (arith, length-take p.size p.payload) in
      subst (λ (n : ℕ). take n (take p.size p.payload ++ padding) ≡ take p.size p.payload) e
        (take-append (take p.size p.payload) padding)

  receive_frame : receive (value (p.size + 2)) (frame p ++ padding) ≡ some (p.size + 2, p.port)
  unfolding receive
  receive_frame =
      let e : p.size + 2 ≡ suc (p.size + 1) = omega arith in
      rw e (rw (received_port p.port word) refl)

  handle-frame :
      handle ports (p.size + 2) p.port (frame p ++ padding) pin_level t
      ≡ some (t, udp_send p.port (take p.size p.payload) ∷ [])
  unfolding handle
  handle-frame = ground (arith, payload_read)

  pub frame_forwarded :
      (transmit p ≡ some (lora_transmit (frame p) ∷ []))
      × (pad_run ports (value (p.size + 2)) (frame p ++ padding) pin_level t
          ≡ some (t, udp_send p.port (take p.size p.payload) ∷ []))
  unfolding pad_run
  frame_forwarded = (transmit_frame, rw receive_frame (ground (arith, handle-frame)))
