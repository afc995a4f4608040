-- ===== src/Radio/Module/Phases.antt =====
-- The phases of the radio module's tenants.
use backplane_flight_compute.Base.{
  ℕ, ◌≡◌, refl, Bool, false, Option, none, some, List, [], ◌∷◌, arith, get_or, Bool-cases,
  Option-cases, inl, inr, ltb, ◌==◌, if◌then◌else◌,
}
use backplane_flight_compute.Radio.StateMachine.{State, Machine, running, clock, told}
use backplane_flight_compute.Radio.Packet.{Ports, Effect}
use backplane_flight_compute.Radio.Transmit.{Transmitter, startup}
use backplane_flight_compute.Radio.Transmit as Transmit
use backplane_flight_compute.Radio.Receive.{
  Receiver, receive, set_pins, bit_at, expired, then_sent, with_requests, with_receiver, handle,
  pad_received,
}
use backplane_flight_compute.Radio.Receive as Receive
use backplane_flight_compute.Radio.UdpSocket.{Datagram, Answers}
use backplane_flight_compute.Radio.HashMap.{HashMap}
use backplane_flight_compute.Radio.Module.{
  Module, boot, new_transmitter, Step, step, run, transmit_tenant, receive_tenant, timer_expires,
  alert_tenant, tftp_tenant, transmitted_data, Outcome, and_then, after, transmitted, received,
}

-- A machine on the pad that has been told of no boost and no landing
pub record IsOnPad (m : Machine) : Type 0 where
  pub on_pad : m.state ≡ State.pad
  pub no_boost : m.boost_detected ≡ false
  pub no_landing : m.landing_detected ≡ false
  pub flies : m.is_ground_module ≡ false

-- Both tenants are, the globals of their files say so, and the cameras are on.
pub record IsWaiting (m : Module) : Type 0 where
  pub transmitter_pad : IsOnPad m.transmitter.machine
  pub receiver_pad : IsOnPad m.receiver.machine
  pub transmit_boost : m.transmit_globals.boost_detected ≡ false
  pub transmit_landing : m.transmit_globals.landing_detected ≡ false
  pub receive_boost : m.receive_globals.boost_detected ≡ false
  pub receive_landing : m.receive_globals.landing_detected ≡ false
  pub timer_off : m.receiver.timer_running ≡ false
  pub cameras_on : m.receiver.cameras_turned_off ≡ false

-- A tenant on the pad whose file's globals are false: what it is told, which phase it runs, where it goes.
module _ {m : Machine} (boost landing : Bool) (v : IsOnPad m) (no_boost : boost ≡ false)
    (no_landing : landing ≡ false) where
  running_pad : running (told false boost landing m) ≡ State.pad
  unfolding running told
  running_pad = ground arith

  clock-IsOnPad : IsOnPad (clock (told false boost landing m))
  unfolding clock told
  clock-IsOnPad = ground arith

-- The outcome of a step, if there is one
abbrev Every : (Module → Type 0) → Outcome → Type 0
Every P none = Unit {0}
Every P (some (m, effects, datagrams)) = P m

abbrev MachineKept : Machine → Option (Transmitter × List Effect) → Type 0
MachineKept m none = Unit {0}
MachineKept m (some (t, effects)) = t.machine ≡ m

then_sent-MachineKept :
    (t : Transmitter) (effects : List Effect) (sent : Option (List Effect))
    → MachineKept t.machine (then_sent t effects sent)
then_sent-MachineKept t effects none = tt
then_sent-MachineKept t effects (some sent) = refl

with_requests-MachineKept :
    (t : Transmitter) (requests : Option (HashMap Bool))
    → MachineKept t.machine (with_requests t requests)
with_requests-MachineKept t none = tt
with_requests-MachineKept t (some requests) = refl

handle-MachineKept :
    (ports : Ports) (size port : ℕ) (buffer : List ℕ) (pin_level : ℕ → ℕ) (t : Transmitter)
    → MachineKept t.machine (handle ports size port buffer pin_level t)
unfolding handle
handle-MachineKept ports size port buffer pin_level t = elim (Bool-cases (port == ports.command)) [
  | inl command ↦ rw command (then_sent-MachineKept t (set_pins (bit_at (get_or buffer 2 0))) _)
  | inr other ↦ elim (Bool-cases (port == ports.data_request)) [
    | inl request ↦ rw other (rw request (with_requests-MachineKept t _))
    | inr ordinary ↦ rw other (rw ordinary refl)
  ]
]

pad_received-MachineKept :
    (ports : Ports) (got : Option (ℕ × ℕ)) (buffer : List ℕ) (pin_level : ℕ → ℕ) (t : Transmitter)
    → MachineKept t.machine (pad_received ports got buffer pin_level t)
pad_received-MachineKept ports none buffer pin_level t = refl
pad_received-MachineKept ports (some (size, port)) buffer pin_level t =
    elim (Bool-cases (ltb 2 size)) [
      | inl long ↦ rw long (handle-MachineKept ports size port buffer pin_level t)
      | inr short ↦ rw short refl
    ]

transmitted-IsWaiting :
    (m : Module) (machine : Machine) (sent : Option (Transmitter × List Effect))
    → IsWaiting m
    → IsOnPad machine
    → Every IsWaiting (transmitted m (Transmit.clocked machine sent))
transmitted-IsWaiting m machine none v on = tt
transmitted-IsWaiting m machine (some (t, effects)) v on = ground arith

received-IsWaiting :
    (m : Module) (answers : Answers) (machine : Machine) (got : Option (Transmitter × List Effect))
    → IsWaiting m
    → IsOnPad machine
    → MachineKept m.transmitter.machine got
    → Every IsWaiting (received m answers (Receive.clocked machine (with_receiver m.receiver got)))
received-IsWaiting m answers machine none v on kept = tt
received-IsWaiting m answers machine (some (t, effects)) v on kept = ground (arith, kept)

expiry-IsWaiting :
    (m : Module) (other : Outcome) {running : Bool}
    → IsWaiting m
    → running ≡ false
    → Every IsWaiting (if running then other else some (m, [], []))
expiry-IsWaiting m other v off = rw off v

step-IsWaiting :
    (ports : Ports) (s : Step) (m : Module) → IsWaiting m → Every IsWaiting (step ports s m)
unfolding step transmitted_data Transmit.run Receive.run
step-IsWaiting ports (transmit_tenant message) m v =
    rw (running_pad _ _ v.transmitter_pad v.transmit_boost v.transmit_landing) (
      transmitted-IsWaiting m _ (Transmit.pad_run message m.transmitter) v
        (clock-IsOnPad _ _ v.transmitter_pad v.transmit_boost v.transmit_landing))
step-IsWaiting ports (receive_tenant result buffer pin_level answers) m v =
    rw (running_pad _ _ v.receiver_pad v.receive_boost v.receive_landing) (
      received-IsWaiting m answers _ (Receive.pad_run ports result buffer pin_level m.transmitter) v
        (clock-IsOnPad _ _ v.receiver_pad v.receive_boost v.receive_landing)
        (unfold Receive.pad_run in
          pad_received-MachineKept ports (receive result buffer) buffer pin_level m.transmitter))
step-IsWaiting ports timer_expires m v = expiry-IsWaiting m _ v v.timer_off
step-IsWaiting ports (alert_tenant result buffer) m v = ground arith
step-IsWaiting ports (tftp_tenant client_port bytes answers) m v = ground arith

-- Two runs in sequence
and_then-IsWaiting :
    (o : Outcome) (rest : Module → Outcome)
    → Every IsWaiting o
    → ((m : Module) → IsWaiting m → Every IsWaiting (rest m))
    → Every IsWaiting (and_then o rest)
and_then-IsWaiting none rest v keeps = tt
and_then-IsWaiting (some (m, effects, datagrams)) rest v keeps = later (rest m) (keeps m v)
  where
    later : (o : Outcome) → Every IsWaiting o → Every IsWaiting (after effects datagrams o)
    later none w = tt
    later (some r) w = w

run-IsWaiting :
    (ports : Ports) (steps : List Step) (m : Module)
    → IsWaiting m
    → Every IsWaiting (run ports steps m)
unfolding run
run-IsWaiting ports [] m v = v
run-IsWaiting ports (s ∷ steps) m v =
    and_then-IsWaiting (step ports s m) (run ports steps) (step-IsWaiting ports s m v)
      (run-IsWaiting ports steps)

startup_keeps :
    (ports : Ports) (t t' : Transmitter) → startup ports t ≡ some t' → t'.machine ≡ t.machine
unfolding startup
startup_keeps ports t t' h = ground arith

boot-IsWaiting :
    (ports : Ports) (observers source_port : ℕ) (m : Module)
    → boot ports observers source_port ≡ some m
    → IsWaiting m
unfolding boot
boot-IsWaiting ports observers source_port m h =
    elim (Option-cases (startup ports new_transmitter)) [
      | inl stopped ↦ ground (arith, stopped)
      | inr (t, e) ↦ ground (arith, e, startup_keeps ports new_transmitter t e)
    ]

reached-IsWaiting :
    (o : Outcome) (m : Module) (effects : List Effect) (datagrams : List Datagram)
    → Every IsWaiting o
    → o ≡ some (m, effects, datagrams)
    → IsWaiting m
reached-IsWaiting none m effects datagrams v h = cc
reached-IsWaiting (some (m', effects', datagrams')) m effects datagrams v h = ground arith

-- However often the state machine updater has been made an observer of the alert tenant, and whatever
-- alerts, packets, messages and expiries of the timer come in whatever order: in every run of the radio
-- module that flies, from its start on, the machines of both LoRa tenants are in PAD, the cameras have not
-- been shut off and the timer that would shut them off does not run.
pub flight_never_seen :
    (ports : Ports) (observers source_port : ℕ) (steps : List Step) (m m' : Module)
    (effects : List Effect) (datagrams : List Datagram)
    → boot ports observers source_port ≡ some m
    → run ports steps m ≡ some (m', effects, datagrams)
    → (m'.transmitter.machine.state ≡ State.pad)
      × (m'.receiver.machine.state ≡ State.pad)
      × (m'.receiver.timer_running ≡ false)
      × (m'.receiver.cameras_turned_off ≡ false)
flight_never_seen ports observers source_port steps m m' effects datagrams b r =
    let v =
      reached-IsWaiting (run ports steps m) m' effects datagrams
        (run-IsWaiting ports steps m (boot-IsWaiting ports observers source_port m b)) r in
    (v.transmitter_pad.on_pad, v.receiver_pad.on_pad, v.timer_off, v.cameras_on)
