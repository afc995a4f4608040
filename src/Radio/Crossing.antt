-- ===== src/Radio/Crossing.antt =====
-- A datagram on its way from a module's network over the radio to the network of another module.
use backplane_flight_compute.Base.{
  take-append, ℕ, suc, ◌+◌, ◌<◌, ◌^◌, ◌%◌, ◌/◌, ◌≡◌, ◌≢◌, refl, sym, ap, ◌∙◌, subst, false, Option,
  none, some, Bool-cases, inl, inr, List, [], ◌∷◌, ◌++◌, length, take, arith,
}
use backplane_flight_compute.Zephyr.{value, is_negative}
use backplane_flight_compute.Radio.UdpSocket.{
  Statics, initialized, Socket, set_dst_port, Answers, transmit_asynchronous,
}
use backplane_flight_compute.Radio.Module.{deliver}
use backplane_flight_compute.Radio.Packet.{Ports, Packet, lora_transmit, udp_send}
use backplane_flight_compute.Radio.Transmit.{Transmitter, transmit}
use backplane_flight_compute.Radio.Receive.{pad_run}
use backplane_flight_compute.Radio.Receive.Forwarding.{frame_forwarded}
use backplane_flight_compute.Radio.Listener.{QueueCall, send}
use backplane_flight_compute.Radio.Listener as Listener

-- The flags of the socket can be read and set.
pub record IsReachable (answers : Answers) : Type 0 where
  pub flags_read : is_negative answers.get_flags ≡ false
  pub flags_set : is_negative answers.set_flags ≡ false

-- The static address has not been made, or with this port.
abbrev pub IsFreeFor : ℕ → Option ℕ → Type 0
IsFreeFor port none = Unit {0}
IsFreeFor port (some port') = port' ≡ port

initialized_lem :
    (port : ℕ) (o : Option ℕ) → port < 2 ^ 16 → IsFreeFor port o → initialized o port ≡ port
initialized_lem port none small free = omega arith
initialized_lem port (some port') small free = free

module _ (ports : Ports) (listen_port n : ℕ) (datagram room padding : List ℕ) (pin_level : ℕ → ℕ)
    (t : Transmitter) (received : length datagram ≡ suc n) (fits : n < 253)
    (whole : length (datagram ++ room) ≡ 254) (word : listen_port < 2 ^ 16)
    (no_command : listen_port ≢ ports.command) (no_request : listen_port ≢ ports.data_request)
    (answers : Answers) (udp : Socket) (statics : Statics) (reachable : IsReachable answers)
    (same_port : IsFreeFor listen_port statics.asynchronous_port) where
  abbrev sent_packet : Packet
  sent_packet = record { port = listen_port; size = suc n; payload = datagram ++ room }

  listened :
      Listener.run listen_port (value (suc n)) (datagram ++ room) false ≡ some (send sent_packet)
  unfolding Listener.run
  listened =
      let e : suc n % 256 ≡ suc n = omega arith in
      ap
        (λ (k : ℕ).
          some (send (record { port = listen_port; size = k; payload = datagram ++ room })))
        e

  payload_lem : take (suc n) (datagram ++ room) ≡ datagram
  payload_lem =
      subst (λ (k : ℕ). take k (datagram ++ room) ≡ datagram) received (take-append datagram room)

  delivered :
      (deliver answers (udp_send listen_port datagram ∷ []) udp statics).0
      ≡ (listen_port, datagram) ∷ []
  unfolding deliver set_dst_port transmit_asynchronous
  delivered =
      let e = initialized_lem listen_port statics.asynchronous_port word same_port in
      elim (Bool-cases answers.blocking) [
        | inl b ↦ rw (reachable.flags_read, b, reachable.flags_set, e) refl
        | inr b ↦ rw (reachable.flags_read, b, e) refl
      ]

  -- A datagram of 1 to 253 bytes that a listener tenant receives, with room in the queue and `room` the rest of
  -- its buffer: the listener sends a packet to the queue of which the transmit tenant makes one
  -- transmission, and a receive tenant on the pad that gets these bytes, with any bytes after them, makes
  -- one call of its socket, by which the network is given exactly the datagram, to the port on which it
  -- was received, where no asynchronous transmission of its module had another port before and the flags of
  -- the socket can be read and set. The port has 16 bits and is not one of the ports for commands and
  -- for data requests.
  pub datagram_crosses :
      (p : Packet) × (bytes : List ℕ) × (Listener.run listen_port
          (value (suc n))
          (datagram ++ room)
          false
        ≡ some (send p))
      × (transmit p ≡ some (lora_transmit bytes ∷ []))
      × (pad_run ports (value (length bytes)) (bytes ++ padding) pin_level t
          ≡ some (t, udp_send listen_port datagram ∷ []))
      × ((deliver answers (udp_send listen_port datagram ∷ []) udp statics).0
          ≡ (listen_port, datagram) ∷ [])
  datagram_crosses =
      let (sent, got) =
        frame_forwarded ports sent_packet padding pin_level t (omega arith) (omega arith) whole word
          no_command no_request in
      let size : suc n + 2 ≡ suc (suc (length datagram)) = omega (arith, received) in
      let bytes = listen_port % 256 ∷ listen_port / 256 % 256 ∷ datagram in
      (
        sent_packet,
        bytes,
        listened,
        rw payload_lem at sent,
        ap (λ (k : ℕ). pad_run ports (value k) (bytes ++ padding) pin_level t) (sym size)
            ∙ (rw payload_lem at got),
        delivered,
      )
