-- ===== src/Radio/Receive.antt =====
-- CLoraReceiveTenant (app/backplane/radio_module/src/c_lora_receive_tenant.cpp). The result of
-- CLora::ReceiveSynchronous, the buffer of 255 bytes as it leaves it, and the low bytes of what GetPin
-- returns are arguments. `none` is a call of k_oops or a read outside the buffer. A pin is its index.
pub mod Shutoff
pub mod Forwarding
use backplane_flight_compute.Base.{
  ℕ, zero, suc, ◌+◌, ◌-◌, ◌*◌, ◌/◌, ◌%◌, ◌^◌, bit_or, Bool, true, false, not, ◌&&◌, ◌||◌, Option,
  none, some, List, [], ◌∷◌, ◌++◌, if◌then◌else◌, ltb, ◌==◌, take, drop, get_or, replicate,
}
use backplane_flight_compute.Zephyr.{Code, value, error}
use backplane_flight_compute.Radio.HashMap.{HashMap, assign_at}
use backplane_flight_compute.Radio.StateMachine.{State, Machine, running, clock, told}
use backplane_flight_compute.Radio.Packet.{
  Ports, Packet, payload_capacity, Effect, set_pin, udp_send, start_timer, stop_timer,
}
use backplane_flight_compute.Radio.Transmit.{Transmitter, transmit}

-- The tenant, with the static camerasTurnedOff of the file; `timer_running` is CSoftTimer's `running`.
pub record Receiver : Type 0 where
  pub machine : Machine
  pub timer_running : Bool
  pub cameras_turned_off : Bool

-- What a call of `receive` leaves: the size that it returns if that is above 0, and the port
unfoldable pub receive : Code → List ℕ → Option (ℕ × ℕ)
receive (error e) buffer = none
receive (value zero) buffer = none
receive (value (suc n)) buffer = some (suc n, bit_or (get_or buffer 1 0 * 256) (get_or buffer 0 0))

-- `(byte >> i) & 1`
abbrev pub bit_at : ℕ → ℕ → ℕ
bit_at byte i = (byte / 2 ^ i) % 2

abbrev pub set_pins : (ℕ → ℕ) → List Effect
set_pins level =
    set_pin 0 (level 0) ∷ set_pin 1 (level 1) ∷ set_pin 2 (level 2) ∷ set_pin 3 (level 3) ∷ []

-- `pinStatus.data[0]`
abbrev pub status_byte : (ℕ → ℕ) → ℕ
status_byte level =
    bit_or (bit_or (bit_or (level 0 % 256) ((level 1 * 2) % 256)) ((level 2 * 4) % 256))
      ((level 3 * 8) % 256)

abbrev pub pin_status : Ports → ℕ → (ℕ → ℕ) → Packet
pin_status ports size level = record {
  port = ports.command_response;
  size = size % 256;
  payload = status_byte level ∷ replicate (payload_capacity - 1) 0;
}

abbrev pub then_sent :
    Transmitter → List Effect → Option (List Effect) → Option (Transmitter × List Effect)
then_sent t effects none = none
then_sent t effects (some sent) = some (t, effects ++ sent)

-- The loop over the requested ports: the bytes of the buffer from `i` on, and `rxSize - i`
unfoldable pub mark_requests : List ℕ → ℕ → HashMap Bool → Option (HashMap Bool)
mark_requests (high ∷ low ∷ rest) left requests =
    if left == 0 then some requests else elim (assign_at (bit_or (high * 256) low) true requests) [
      | none ↦ none
      | some requests' ↦ mark_requests rest (left - 2) requests'
    ]
mark_requests (high ∷ []) left requests = if left == 0 then some requests else none
mark_requests [] left requests = if left == 0 then some requests else none

abbrev pub with_requests : Transmitter → Option (HashMap Bool) → Option (Transmitter × List Effect)
with_requests t none = none
with_requests t (some requests) = some (record t { pad_data_requested_map = requests }, [])

-- What PadRun does with more than two bytes
unfoldable pub handle :
    Ports
    → (size port : ℕ) → (buffer : List ℕ) → (pin_level : ℕ → ℕ) → Transmitter
    → Option (Transmitter × List Effect)
handle ports size port buffer pin_level t =
    if port == ports.command
    then then_sent t (set_pins (bit_at (get_or buffer 2 0)))
        (transmit (pin_status ports size pin_level))
    else if port == ports.data_request
    then with_requests t (mark_requests (drop 2 buffer) (size - 2) t.pad_data_requested_map)
    else some (t, udp_send port (take (size - 2) (drop 2 buffer)) ∷ [])

abbrev pub pad_received :
    Ports
    → Option (ℕ × ℕ)
    → (buffer : List ℕ) → (pin_level : ℕ → ℕ) → Transmitter
    → Option (Transmitter × List Effect)
pad_received ports none buffer pin_level t = some (t, [])
pad_received ports (some (size, port)) buffer pin_level t =
    if ltb 2 size then handle ports size port buffer pin_level t else some (t, [])

unfoldable pub pad_run :
    Ports → Code → List ℕ → (ℕ → ℕ) → Transmitter → Option (Transmitter × List Effect)
unfolding receive handle
pad_run ports result buffer pin_level t =
    pad_received ports (receive result buffer) buffer pin_level t

-- Ten minutes
abbrev pub shutoff_time : ℕ
shutoff_time = 600000

unfoldable pub landed_run : Receiver → Receiver × List Effect
landed_run r =
    let starts = not r.timer_running && not r.cameras_turned_off in
    let stops = (starts || r.timer_running) && r.cameras_turned_off in
    (
      record r { timer_running = (starts || r.timer_running) && not stops },
      (if starts then start_timer shutoff_time ∷ [] else [])
          ++ (if stops then stop_timer ∷ [] else []),
    )

-- shutoffTimerExpirationFn
unfoldable pub expired : Receiver → Receiver × List Effect
expired r = (record r { cameras_turned_off = true }, set_pins (λ i. 0))

abbrev pub ground_received : Option (ℕ × ℕ) → List ℕ → List Effect
ground_received none buffer = []
ground_received (some (size, port)) buffer = udp_send port (take size buffer) ∷ []

unfoldable pub ground_run : Code → List ℕ → List Effect
unfolding receive
ground_run result buffer = ground_received (receive result buffer) buffer

abbrev pub with_receiver :
    Receiver → Option (Transmitter × List Effect) → Option (Receiver × Transmitter × List Effect)
with_receiver r none = none
with_receiver r (some (t, effects)) = some (r, t, effects)

abbrev pub run_in :
    State
    → Ports
    → Code
    → List ℕ
    → (ℕ → ℕ)
    → Receiver
    → Transmitter
    → Option (Receiver × Transmitter × List Effect)
run_in State.pad ports result buffer pin_level r t =
    with_receiver r (pad_run ports result buffer pin_level t)
run_in State.flight ports result buffer pin_level r t = some (r, t, [])
run_in State.landed ports result buffer pin_level r t = some ((landed_run r).0, t, (landed_run r).1)
run_in State.ground ports result buffer pin_level r t = some (r, t, ground_run result buffer)

abbrev pub clocked :
    Machine
    → Option (Receiver × Transmitter × List Effect)
    → Option (Receiver × Transmitter × List Effect)
clocked m none = none
clocked m (some (r, t, effects)) = some (record r { machine = m }, t, effects)

unfoldable pub run :
    Ports
    → (receiver boost landing : Bool) → Code
    → List ℕ
    → (ℕ → ℕ)
    → Receiver
    → Transmitter
    → Option (Receiver × Transmitter × List Effect)
run ports receiver boost landing result buffer pin_level r t =
    let m = told receiver boost landing r.machine in
    clocked (clock m) (run_in (running m) ports result buffer pin_level r t)
