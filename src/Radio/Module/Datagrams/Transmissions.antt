-- ===== src/Radio/Module/Datagrams/Transmissions.antt =====
-- The transmit tenant asks the socket for nothing.
use backplane_flight_compute.Base.{
  ℕ, ◌≡◌, refl, ap, ◌∙◌, Bool, not, ltb, ◌==◌, Option, none, some, List, [], ◌∷◌, ◌++◌, Bool-cases,
  inl, inr, ◌&&◌,
}
use backplane_flight_compute.Radio.HashMap.{HashMap, get}
use backplane_flight_compute.Radio.StateMachine.{State, Machine}
use backplane_flight_compute.Radio.Packet.{Ports, Packet, Effect}
use backplane_flight_compute.Radio.Transmit.{
  Transmitter, transmit, Answered, sent_before, answered, with_maps, answer_requests, transmit_read,
  landed_run, without_state, value_or_empty, startup,
}
use backplane_flight_compute.Radio.Transmit as Transmit
use backplane_flight_compute.Radio.Module.Datagrams.Delivery.{
  first_port, or_first, first_port-append,
}

-- The effects ask the socket for nothing.
abbrev pub Quiet : List Effect → Type 0
Quiet effects = first_port effects ≡ none

abbrev QuietOption : Option (List Effect) → Type 0
QuietOption none = Unit {0}
QuietOption (some effects) = Quiet effects

abbrev pub QuietResult {ℓ} : {A : Type ℓ} → Option (A × List Effect) → Type 0
QuietResult none = Unit {0}
QuietResult (some (a, effects)) = Quiet effects

append-Quiet : (a b : List Effect) → Quiet a → Quiet b → Quiet (a ++ b)
append-Quiet a b v w = first_port-append a b ∙ ap (λ (o : Option ℕ). or_first o b) v ∙ w

transmit-Quiet : (p : Packet) → QuietOption (transmit p)
unfolding transmit
transmit-Quiet p = elim (Bool-cases (ltb 254 p.size)) [
  | inl long ↦ rw long tt
  | inr fits ↦ elim (Bool-cases (p.size == 0)) [
    | inl none_there ↦ rw fits (rw none_there refl)
    | inr some_there ↦ rw fits (rw some_there refl)
  ]
]

answered-Quiet :
    (sent : Option (List Effect)) (cleared : Option (HashMap Bool)) (rest : HashMap Bool → Answered)
    → QuietOption sent
    → ((requests : HashMap Bool) → QuietResult (rest requests))
    → QuietResult (answered sent cleared rest)
answered-Quiet none cleared rest v w = tt
answered-Quiet (some sent) none rest v w = tt
answered-Quiet (some sent) (some requests) rest v w = both (rest requests) (w requests)
  where
    both : (o : Answered) → QuietResult o → QuietResult (sent_before sent o)
    both none x = tt
    both (some (requests', effects)) x = append-Quiet sent effects v x

answer_requests-Quiet :
    (entries : List (ℕ × Bool)) (latest : HashMap Packet) (requests : HashMap Bool)
    → QuietResult (answer_requests entries latest requests)
unfolding answer_requests
answer_requests-Quiet [] latest requests = refl
answer_requests-Quiet ((port, requested) ∷ rest) latest requests =
    elim (Bool-cases (requested && not (port == 0))) [
      | inl asked ↦ rw asked (
          answered-Quiet _ _ (answer_requests rest latest)
            (transmit-Quiet (value_or_empty (get port latest))) (answer_requests-Quiet rest latest))
      | inr other ↦ rw other (answer_requests-Quiet rest latest requests)
    ]

with_maps-Quiet :
    (t : Transmitter) (latest : HashMap Packet) (o : Answered)
    → QuietResult o
    → QuietResult (with_maps t latest o)
with_maps-Quiet t latest none v = tt
with_maps-Quiet t latest (some r) v = v

without_state-Quiet :
    (t : Transmitter) (o : Option (List Effect)) → QuietOption o → QuietResult (without_state t o)
without_state-Quiet t none v = tt
without_state-Quiet t (some effects) v = v

transmit_read-Quiet : (message : Option Packet) → QuietOption (transmit_read message)
transmit_read-Quiet none = refl
transmit_read-Quiet (some p) = transmit-Quiet p

landed_run-Quiet :
    (ports : Ports) (message : Option Packet) → QuietOption (landed_run ports message)
unfolding landed_run
landed_run-Quiet ports none = refl
landed_run-Quiet ports (some p) = elim (Bool-cases (p.port == ports.gnss)) [
  | inl gnss ↦ rw gnss (transmit-Quiet p)
  | inr other ↦ rw other refl
]

run_in-Quiet :
    (state : State) (ports : Ports) (message : Option Packet) (t : Transmitter)
    → QuietResult (Transmit.run_in state ports message t)
unfolding Transmit.pad_run Transmit.flight_run Transmit.ground_run
run_in-Quiet State.pad ports message t =
    with_maps-Quiet t _ _
      (answer_requests-Quiet t.pad_data_requested_map.entries _ t.pad_data_requested_map)
run_in-Quiet State.flight ports message t = without_state-Quiet t _ (transmit_read-Quiet message)
run_in-Quiet State.landed ports message t = without_state-Quiet t _ (landed_run-Quiet ports message)
run_in-Quiet State.ground ports message t = without_state-Quiet t _ (transmit_read-Quiet message)

clocked-Quiet :
    (m : Machine) (o : Option (Transmitter × List Effect))
    → QuietResult o
    → QuietResult (Transmit.clocked m o)
clocked-Quiet m none v = tt
clocked-Quiet m (some r) v = v

pub run-Quiet :
    (ports : Ports) (receiver boost landing : Bool) (message : Option Packet) (t : Transmitter)
    → QuietResult (Transmit.run ports receiver boost landing message t)
unfolding Transmit.run
run-Quiet ports receiver boost landing message t =
    clocked-Quiet _ _ (run_in-Quiet _ ports message t)
