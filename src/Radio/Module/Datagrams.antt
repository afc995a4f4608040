-- ===== src/Radio/Module/Datagrams.antt =====
-- The datagrams that the radio module sends.
pub mod Delivery
pub mod Transmissions
use backplane_flight_compute.Base.{
  ℕ, ◌≡◌, refl, sym, ap, subst, ◌∙◌, Bool, true, false, not, ltb, ◌==◌, Option, none, some, List,
  [], ◌∷◌, ◌++◌, ◌%◌, ◌^◌, arith, if◌then◌else◌, Bool-cases, Option-cases, inl, inr, ◌&&◌,
}
use backplane_flight_compute.Zephyr.{Code, is_negative}
use backplane_flight_compute.Radio.HashMap.{HashMap, get, assign_at}
use backplane_flight_compute.Radio.StateMachine.{State, Machine}
use backplane_flight_compute.Radio.Packet.{
  Ports, Packet, Effect, lora_transmit, set_pin, udp_send, start_timer, stop_timer,
}
use backplane_flight_compute.Radio.UdpSocket.{
  Statics, no_statics, initialized, Socket, set_dst_port, Datagram, Answers, transmit_asynchronous,
}
use backplane_flight_compute.Radio.Transmit.{
  Transmitter, transmit, Answered, sent_before, answered, with_maps, answer_requests, transmit_read,
  landed_run, without_state, value_or_empty, startup,
}
use backplane_flight_compute.Radio.Transmit as Transmit
use backplane_flight_compute.Radio.Receive.{Receiver, expired, set_pins}
use backplane_flight_compute.Radio.Receive as Receive
use backplane_flight_compute.Radio.Module.{
  Module, boot, Step, step, run, transmit_tenant, receive_tenant, timer_expires, alert_tenant,
  tftp_tenant, transmitted_data, data_socket, Outcome, and_then, after, transmitted, received,
  deliver, new_transmitter,
}
use backplane_flight_compute.Radio.Module.Datagrams.Delivery.{
  first_port, or_first, AllToOption, deliver_lem, first_port-append, or_first-append, or_first-nil,
  nil-AllToOption, append-AllToOption,
}
use backplane_flight_compute.Radio.Module.Datagrams.Transmissions.{Quiet, QuietResult, run-Quiet}

abbrev SendsTo : Option ℕ → Outcome → Type 0
SendsTo o none = Unit {0}
SendsTo o (some (m, effects, datagrams)) =
    (m.statics.asynchronous_port ≡ or_first o effects) × AllToOption (or_first o effects) datagrams

Quiet-or_first : (o : Option ℕ) (effects : List Effect) → Quiet effects → or_first o effects ≡ o
Quiet-or_first none effects v = v
Quiet-or_first (some port) effects v = refl

transmitted-SendsTo :
    (m : Module) (o : Option ℕ) (sent : Option (Transmitter × List Effect))
    → m.statics.asynchronous_port ≡ o
    → QuietResult sent
    → SendsTo o (transmitted m sent)
transmitted-SendsTo m o none e v = tt
transmitted-SendsTo m o (some (t, effects)) e v =
    rw (Quiet-or_first o effects v) (e, nil-AllToOption o)

received-SendsTo :
    (m : Module) (o : Option ℕ) (answers : Answers)
    (got : Option (Receiver × Transmitter × List Effect))
    → m.statics.asynchronous_port ≡ o
    → SendsTo o (received m answers got)
received-SendsTo m o answers none e = tt
received-SendsTo m o answers (some (r, t, effects)) e =
    deliver_lem answers effects m.udp m.statics o e

expiry-SendsTo :
    (m : Module) (o : Option ℕ) (running : Bool)
    → m.statics.asynchronous_port ≡ o
    → SendsTo o (
        if running
        then some (record m { receiver = (expired m.receiver).0 }, (expired m.receiver).1, [])
        else some (m, [], []))
unfolding expired
expiry-SendsTo m o true e = rw (Quiet-or_first o (set_pins (λ i. 0)) refl) (e, nil-AllToOption o)
expiry-SendsTo m o false e = rw (or_first-nil o) (e, nil-AllToOption o)

step-SendsTo :
    (ports : Ports) (s : Step) (m : Module) (o : Option ℕ)
    → m.statics.asynchronous_port ≡ o
    → SendsTo o (step ports s m)
unfolding step transmitted_data deliver set_dst_port
step-SendsTo ports (transmit_tenant message) m o e =
    transmitted-SendsTo m o _ e (run-Quiet ports false _ _ message m.transmitter)
step-SendsTo ports (receive_tenant result buffer pin_level answers) m o e =
    received-SendsTo m o answers _ e
step-SendsTo ports timer_expires m o e = expiry-SendsTo m o m.receiver.timer_running e
step-SendsTo ports (alert_tenant result buffer) m o e = rw (or_first-nil o) (e, nil-AllToOption o)
step-SendsTo ports (tftp_tenant client_port bytes answers) m o e =
    deliver_lem answers (udp_send client_port bytes ∷ []) (data_socket client_port) m.statics o e

and_then-SendsTo :
    (o : Option ℕ) (before : Outcome) (rest : Module → Outcome)
    → SendsTo o before
    → ((m : Module) (o' : Option ℕ) → m.statics.asynchronous_port ≡ o' → SendsTo o' (rest m))
    → SendsTo o (and_then before rest)
and_then-SendsTo o none rest v w = tt
and_then-SendsTo o (some (m, effects, datagrams)) rest v w =
    both (rest m) (w m (or_first o effects) v.0)
  where
    both :
        (later : Outcome)
        → SendsTo (or_first o effects) later
        → SendsTo o (after effects datagrams later)
    both none x = tt
    both (some (m', effects', datagrams')) x =
        rw (or_first-append o effects effects')
          (x.0, append-AllToOption (or_first o effects) effects' datagrams datagrams' v.1 x.1)

run-SendsTo :
    (ports : Ports) (steps : List Step) (m : Module) (o : Option ℕ)
    → m.statics.asynchronous_port ≡ o
    → SendsTo o (run ports steps m)
unfolding run
run-SendsTo ports [] m o e = rw (or_first-nil o) (e, nil-AllToOption o)
run-SendsTo ports (s ∷ steps) m o e =
    and_then-SendsTo o (step ports s m) (run ports steps) (step-SendsTo ports s m o e)
      (run-SendsTo ports steps)

boot_fresh :
    (ports : Ports) (observers source_port : ℕ) (m : Module)
    → boot ports observers source_port ≡ some m
    → m.statics.asynchronous_port ≡ none
unfolding boot
boot_fresh ports observers source_port m h = ground arith

reached-SendsTo :
    (o : Outcome) (m : Module) (effects : List Effect) (datagrams : List Datagram)
    → SendsTo none o
    → o ≡ some (m, effects, datagrams)
    → AllToOption (first_port effects) datagrams
reached-SendsTo o m effects datagrams v h = (subst (λ (r : Outcome). SendsTo none r) h v).1

-- In every run of the radio module from its start on, whatever the order of its steps: all datagrams that
-- its receive tenant and its TFTP tenant transmit have the port that the first of the calls of either asked
-- for, cut to 16 bits, whatever ports the others asked for; without such a call there are none. `effects`
-- are the calls of the run.
pub datagrams_share_port :
    (ports : Ports) (observers source_port : ℕ) (steps : List Step) (m m' : Module)
    (effects : List Effect) (datagrams : List Datagram)
    → boot ports observers source_port ≡ some m
    → run ports steps m ≡ some (m', effects, datagrams)
    → AllToOption (first_port effects) datagrams
datagrams_share_port ports observers source_port steps m m' effects datagrams b r =
    reached-SendsTo (run ports steps m) m' effects datagrams
      (run-SendsTo ports steps m none (boot_fresh ports observers source_port m b)) r
