-- ===== src/Radio/Requests/Answers.antt =====
-- The requests that the transmit tenant answers.
use backplane_flight_compute.Base.{
  ℕ, ◌≤◌, ◌≡◌, ◌≢◌, refl, ap, Bool, true, false, not, ◌&&◌, ◌||◌, Option, some, List, [], ◌∷◌, ◌++◌,
  arith, if◌then◌else◌, ◌==◌, Bool-cases, inl, inr,
}
use backplane_flight_compute.Radio.HashMap.{HashMap, find, assign, contains, get, set}
use backplane_flight_compute.Radio.HashMap.Entries.{find-assign}
use backplane_flight_compute.Radio.Packet.{Packet, Effect, lora_transmit}
use backplane_flight_compute.Radio.Transmit.{
  Transmitter, transmit, frame, value_or_empty, read_packet, sent_before, answer_requests, pad_run,
  with_maps,
}
use backplane_flight_compute.Radio.Requests.Marking.{assign_at_lem, contains-assign}

-- A requested port
abbrev pub asks : ℕ → Bool → Bool
asks port requested = requested && not (port == 0)

-- Whether a port is requested
abbrev pub flagged : ℕ → List (ℕ × Bool) → Bool
flagged j [] = false
flagged j ((port, requested) ∷ rest) = (asks port requested && port == j) || flagged j rest

-- What is sent of a packet
abbrev pub sent_of : Packet → List Effect
sent_of p = if p.size == 0 then [] else lora_transmit (frame p) ∷ []

-- The latest packets of the requested ports, in the map's order
abbrev pub sent_for : List (ℕ × Bool) → HashMap Packet → List Effect
sent_for [] latest = []
sent_for ((port, requested) ∷ rest) latest =
    if asks port requested
    then sent_of (value_or_empty (get port latest)) ++ sent_for rest latest
    else sent_for rest latest

abbrev pub AllContained : List (ℕ × Bool) → HashMap Bool → Type 0
AllContained [] requests = Unit {0}
AllContained ((port, requested) ∷ rest) requests =
    (contains port requests ≡ true) × AllContained rest requests

assign-AllContained :
    (key : ℕ) (value : Bool) (m : HashMap Bool) (entries : List (ℕ × Bool))
    → AllContained entries m
    → AllContained entries (record m { entries = assign key value m.entries })
assign-AllContained key value m [] v = tt
assign-AllContained key value m ((port, requested) ∷ rest) v =
    (contains-assign port key value m v.0, assign-AllContained key value m rest v.1)

transmit_lem : (p : Packet) → p.size ≤ 254 → transmit p ≡ some (sent_of p)
unfolding transmit
transmit_lem p h = ground arith

-- The map holds no packet that is too large.
abbrev pub AllFit : HashMap Packet → Type 0
AllFit latest = (port : ℕ) → (value_or_empty (get port latest)).size ≤ 254

module _ (latest : HashMap Packet) (fit : AllFit latest) where
  pub answer_requests_lem :
      (entries : List (ℕ × Bool)) (requests : HashMap Bool)
      → AllContained entries requests
      → (r : HashMap Bool) × (answer_requests entries latest requests
          ≡ some (r, sent_for entries latest))
        × ((j : ℕ) → get j r ≡ (if flagged j entries then some false else get j requests))
  unfolding answer_requests
  answer_requests_lem [] requests v = (requests, refl, λ j. refl)
  answer_requests_lem ((port, requested) ∷ rest) requests v =
      elim (Bool-cases (asks port requested)) [
        | inl asked ↦
            let m = record requests { entries = assign port false requests.entries } in
            let (r, e, cleared) =
              answer_requests_lem rest m (assign-AllContained port false requests rest v.1) in
            (
              r,
              rw asked (
                  rw (transmit_lem (value_or_empty (get port latest)) (fit port)) (
                    rw (assign_at_lem port false requests v.0)
                      (ap (sent_before (sent_of (value_or_empty (get port latest)))) e))),
              λ j. ground (arith, cleared j, find-assign j port false requests.entries, v.0, asked),
            )
        | inr other ↦
            let (r, e, cleared) = answer_requests_lem rest requests v.1 in
            (r, rw other e, λ j. ground (arith, cleared j, other))
      ]

cons-AllContained :
    (key : ℕ) (value : Bool) (entries more : List (ℕ × Bool)) (m : HashMap Bool)
    → AllContained entries (record m { entries = more })
    → AllContained entries (record m { entries = (key, value) ∷ more })
unfolding find
cons-AllContained key value [] more m v = tt
cons-AllContained key value ((port, requested) ∷ entries) more m v =
    (ground (arith, v.0), cons-AllContained key value entries more m v.1)

-- A map contains its own keys.
own-AllContained :
    (entries : List (ℕ × Bool)) (m : HashMap Bool)
    → AllContained entries (record m { entries = entries })
unfolding find
own-AllContained [] m = tt
own-AllContained ((port, requested) ∷ rest) m =
    (ground arith, cons-AllContained port requested rest rest m (own-AllContained rest m))

pub flagged_lem :
    (j : ℕ) (entries : List (ℕ × Bool))
    → j ≢ 0
    → find j entries ≡ some true
    → flagged j entries ≡ true
unfolding find
flagged_lem j [] ne h = ground arith
flagged_lem j ((port, requested) ∷ rest) ne h = ground (arith, flagged_lem j rest ne)

set-AllFit :
    (p : Packet) (latest : HashMap Packet)
    → p.size ≤ 254
    → AllFit latest
    → AllFit (set p.port p latest).1
unfolding set
set-AllFit p latest h fit port = ground (arith, find-assign port p.port p latest.entries, fit port)

-- What the transmit tenant sends in a call on the pad, and the requests that it leaves.
pub pad_run_lem :
    (message : Option Packet) (t : Transmitter)
    → (read_packet message).size ≤ 254
    → AllFit t.port_data_map
    → (r : HashMap Bool) × (pad_run message t
        ≡ some (
          record t {
            port_data_map =
                (set (read_packet message).port (read_packet message) t.port_data_map).1;
            pad_data_requested_map = r;
          },
          sent_for t.pad_data_requested_map.entries
              (set (read_packet message).port (read_packet message) t.port_data_map).1,
        ))
      × ((j : ℕ) → j ≢ 0 → get j r ≢ some true)
unfolding pad_run
pad_run_lem message t h fit =
    let p = read_packet message in
    let requests = t.pad_data_requested_map in
    let latest = (set p.port p t.port_data_map).1 in
    let (r, e, cleared) =
      answer_requests_lem latest (set-AllFit p t.port_data_map h fit) requests.entries requests
        (own-AllContained requests.entries requests) in
    (
      r,
      ap (with_maps t latest) e,
      λ j ne f. ground (arith, cleared j, flagged_lem j requests.entries ne),
    )
