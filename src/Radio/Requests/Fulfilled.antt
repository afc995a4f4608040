-- ===== src/Radio/Requests/Fulfilled.antt =====
-- A request for data, from the radio's packet to the packets that answer it.
use mathlib.Core.List.{Memᴰ}
use mathlib.Core.List as List
use backplane_flight_compute.Base.{
  ℕ, suc, ◌+◌, ◌*◌, ◌/◌, ◌%◌, ◌^◌, ◌<◌, ◌≡◌, ◌≢◌, refl, sym, ap, ◌∙◌, subst, Bool, true, false,
  some, none, List, [], ◌∷◌, ◌++◌, length, arith, if◌then◌else◌, ◌==◌, ltb, ◌-◌, Bool-cases, inl,
  inr,
}
use backplane_flight_compute.Zephyr.{value}
use backplane_flight_compute.Radio.HashMap.{HashMap, get, set}
use backplane_flight_compute.Radio.HashMap.Entries.{find-assign}
use backplane_flight_compute.Radio.Packet.{Ports, Packet, Effect, lora_transmit, empty_packet}
use backplane_flight_compute.Radio.Transmit.{Transmitter, frame, value_or_empty}
use backplane_flight_compute.Radio.Transmit as Transmit
use backplane_flight_compute.Radio.Receive.{receive, handle, with_requests, mark_requests}
use backplane_flight_compute.Radio.Receive as Receive
use backplane_flight_compute.Radio.Receive.Forwarding.{received_port}
use backplane_flight_compute.Radio.Requests.Marking.{
  request_bytes, member, AllKnown, mark_requests_lem,
}
use backplane_flight_compute.Radio.Requests.Answers.{
  asks, flagged, flagged_lem, sent_of, sent_for, AllFit, pad_run_lem,
}

-- What is sent of the packet of port `j`, where that is the port
sent_of-Memᴰ :
    (port j : ℕ) (p : Packet) (latest : HashMap Packet)
    → (port == j) ≡ true
    → get j latest ≡ some p
    → p.size ≢ 0
    → Memᴰ (lora_transmit (frame p)) (sent_of (value_or_empty (get port latest)))
sent_of-Memᴰ port j p latest same g ne =
    let e : port ≡ j = ground (arith, same) in
    let empty : (p.size == 0) ≡ false = ground (arith, ne) in
    subst (λ (k : ℕ). Memᴰ (lora_transmit (frame p)) (sent_of (value_or_empty (get k latest))))
      (sym e) (rw g (rw empty (Memᴰ.head refl)))

-- A requested port's packet is among what is sent.
sent_for-Memᴰ :
    (j : ℕ) (p : Packet) (entries : List (ℕ × Bool)) (latest : HashMap Packet)
    → flagged j entries ≡ true
    → get j latest ≡ some p
    → p.size ≢ 0
    → Memᴰ (lora_transmit (frame p)) (sent_for entries latest)
sent_for-Memᴰ j p [] latest f g ne = cc
sent_for-Memᴰ j p ((port, requested) ∷ rest) latest f g ne =
    elim (Bool-cases (asks port requested)) [
      | inl asked ↦ elim (Bool-cases (port == j)) [
        | inl same ↦
            rw asked (
              List.Memᴰ.append_left (sent_for rest latest) (sent_of-Memᴰ port j p latest same g ne))
        | inr different ↦ rw asked (
            List.Memᴰ.append_right (sent_of (value_or_empty (get port latest)))
              (sent_for-Memᴰ j p rest latest (ground (arith, f, asked, different)) g ne))
      ]
      | inr other ↦ rw other (sent_for-Memᴰ j p rest latest (ground (arith, f, other)) g ne)
    ]

member-length : (j : ℕ) (asked : List ℕ) → member j asked ≡ true → 0 < length asked
member-length j [] h = cc
member-length j (port ∷ asked) h = omega arith

-- No message stores no packet but one of port 0.
get-set_none : (j : ℕ) (m : HashMap Packet) → j ≢ 0 → get j (set 0 empty_packet m).1 ≡ get j m
unfolding set
get-set_none j m ne = ground (arith, find-assign j 0 empty_packet m.entries, ne)

-- The packet of a request
abbrev pub request : Ports → List ℕ → List ℕ
request ports asked =
    ports.data_request % 256 ∷ (ports.data_request / 256) % 256 ∷ request_bytes asked

module _ (ports : Ports) (asked padding : List ℕ) (pin_level : ℕ → ℕ) (t : Transmitter) (j : ℕ)
    (p : Packet) (word : ports.data_request < 2 ^ 16)
    (no_command : ports.data_request ≢ ports.command)
    (known : AllKnown t.pad_data_requested_map asked) (fit : AllFit t.port_data_map)
    (asks_for : member j asked ≡ true) (real : j ≢ 0) (latest : get j t.port_data_map ≡ some p)
    (nonempty : p.size ≢ 0) where
  -- Some port is asked for.
  asked_some : 0 < length asked
  asked_some = member-length j asked asks_for

  receive_request :
      receive (value (2 * length asked + 2)) (request ports asked ++ padding)
      ≡ some (2 * length asked + 2, ports.data_request)
  unfolding receive
  receive_request =
      let e : 2 * length asked + 2 ≡ suc (2 * length asked + 1) = omega arith in
      rw e (rw (received_port ports.data_request word) refl)

  handle-request :
      handle ports
        (2 * length asked + 2)
        ports.data_request
        (request ports asked ++ padding)
        pin_level
        t
      ≡ with_requests t (
          mark_requests
            (request_bytes asked ++ padding)
            (2 * length asked)
            t.pad_data_requested_map)
  unfolding handle
  handle-request =
      let other : (ports.data_request == ports.command) ≡ false = ground (arith, no_command) in
      let same : (ports.data_request == ports.data_request) ≡ true = ground arith in
      let k : 2 * length asked + 2 - 2 ≡ 2 * length asked = omega arith in
      rw other (
        rw same (
          ap
            (λ (i : ℕ).
              with_requests t
                (mark_requests (request_bytes asked ++ padding) i t.pad_data_requested_map))
            k))

  -- A data request of 16-bit ports that the transmit tenant keeps, received on the pad with any bytes after it:
  -- the receive tenant takes it without a call of its own, and in its next call on the pad, with no message in
  -- its queue, the transmit tenant sends the latest packet of each asked port, if that is not empty, and
  -- leaves no request of it. The data request's port has 16 bits and is not the command port, asked ports are
  -- not 0, and the latest packets have at most 254 bytes.
  pub request_answered :
      (t' t'' : Transmitter) × (effects : List Effect) × (Receive.pad_run ports
          (value (2 * length asked + 2))
          (request ports asked ++ padding)
          pin_level
          t
        ≡ some (t', []))
      × (Transmit.pad_run none t' ≡ some (t'', effects))
      × Memᴰ (lora_transmit (frame p)) effects
      × (get j t''.pad_data_requested_map ≢ some true)
  unfolding Receive.pad_run
  request_answered =
      let (r, marked, marks) = mark_requests_lem asked padding t.pad_data_requested_map known in
      let t' = record t { pad_data_requested_map = r } in
      let (r', sent, cleared) = pad_run_lem none t' (omega arith) fit in
      let long : ltb 2 (2 * length asked + 2) ≡ true = ground (arith, asked_some) in
      (
        t',
        _,
        _,
        rw receive_request (rw long (handle-request ∙ ap (with_requests t) marked)),
        sent,
        sent_for-Memᴰ j p r.entries _
            (flagged_lem j r.entries real (
              marks j
              ∙ ap (λ (b : Bool). if b then some true else get j t.pad_data_requested_map)
                  asks_for))
            (get-set_none j t.port_data_map real ∙ latest) nonempty,
        cleared j real,
      )
