-- ===== src/Radio/Module/Datagrams/Delivery.antt =====
-- What the calls of the socket hand to the network.
use backplane_flight_compute.Base.{
  ℕ, ◌≡◌, refl, sym, ap, subst, Option, none, some, List, [], ◌∷◌, ◌++◌, ◌%◌, ◌^◌, Bool-cases, inl,
  inr, ◌&&◌,
}
use backplane_flight_compute.Zephyr.{is_negative}
use backplane_flight_compute.Radio.Packet.{
  Effect, lora_transmit, set_pin, udp_send, start_timer, stop_timer,
}
use backplane_flight_compute.Radio.UdpSocket.{
  Statics, initialized, Socket, set_dst_port, Datagram, Answers, transmit_asynchronous,
}
use backplane_flight_compute.Radio.Module.{deliver, with_datagram}

-- All datagrams have this port.
abbrev pub AllTo : ℕ → List Datagram → Type 0
AllTo port [] = Unit {0}
AllTo port ((p, bytes) ∷ datagrams) = (p ≡ port) × AllTo port datagrams

-- The first port that the socket is to send to
abbrev pub first_port : List Effect → Option ℕ
first_port [] = none
first_port (udp_send port bytes ∷ effects) = some (port % 2 ^ 16)
first_port (lora_transmit bytes ∷ effects) = first_port effects
first_port (set_pin pin level ∷ effects) = first_port effects
first_port (start_timer time ∷ effects) = first_port effects
first_port (stop_timer ∷ effects) = first_port effects

-- With none to come the port of the effects, otherwise this one
abbrev pub or_first : Option ℕ → List Effect → Option ℕ
or_first none effects = first_port effects
or_first (some port) effects = some port

abbrev pub AllToOption : Option ℕ → List Datagram → Type 0
AllToOption none datagrams = datagrams ≡ []
AllToOption (some port) datagrams = AllTo port datagrams

pub first_port-append : (a b : List Effect) → first_port (a ++ b) ≡ or_first (first_port a) b
first_port-append [] b = refl
first_port-append (udp_send port bytes ∷ a) b = refl
first_port-append (lora_transmit bytes ∷ a) b = first_port-append a b
first_port-append (set_pin pin level ∷ a) b = first_port-append a b
first_port-append (start_timer time ∷ a) b = first_port-append a b
first_port-append (stop_timer ∷ a) b = first_port-append a b

pub or_first-append :
    (o : Option ℕ) (a b : List Effect) → or_first o (a ++ b) ≡ or_first (or_first o a) b
or_first-append none a b = first_port-append a b
or_first-append (some port) a b = refl

pub or_first-nil : (o : Option ℕ) → or_first o [] ≡ o
or_first-nil none = refl
or_first-nil (some port) = refl

pub nil-AllToOption : (o : Option ℕ) → AllToOption o []
nil-AllToOption none = refl
nil-AllToOption (some port) = tt

append-AllTo : (port : ℕ) (a b : List Datagram) → AllTo port a → AllTo port b → AllTo port (a ++ b)
append-AllTo port [] b v w = w
append-AllTo port (d ∷ a) b v w = (v.0, append-AllTo port a b v.1 w)

-- Datagrams to where the port stands, and then to where it stands after more effects
pub append-AllToOption :
    (o : Option ℕ) (effects : List Effect) (a b : List Datagram)
    → AllToOption o a
    → AllToOption (or_first o effects) b
    → AllToOption (or_first o effects) (a ++ b)
append-AllToOption none effects a b v w =
    subst (λ (a' : List Datagram). AllToOption (first_port effects) (a' ++ b)) (sym v) w
append-AllToOption (some port) effects a b v w = append-AllTo port a b v w

-- The datagram of a call, if there is one, has this port.
abbrev OneTo : ℕ → Option Datagram → Type 0
OneTo port none = Unit {0}
OneTo port (some d) = d.0 ≡ port

with_datagram-AllTo :
    (port : ℕ) (d : Option Datagram) (rest : List Datagram)
    → OneTo port d
    → AllTo port rest
    → AllTo port (with_datagram d rest)
with_datagram-AllTo port none rest v w = w
with_datagram-AllTo port (some d) rest v w = (v, w)

-- A call with the port that the static variable has after it
sent_to :
    (bytes : List ℕ) (answers : Answers) (s : Socket) (statics : Statics) (port : ℕ)
    → initialized statics.asynchronous_port s.dst_port ≡ port
    → ((transmit_asynchronous bytes answers s statics).2.asynchronous_port ≡ some port)
      × OneTo port (transmit_asynchronous bytes answers s statics).1
unfolding transmit_asynchronous
sent_to bytes answers s statics port e = elim (Bool-cases (is_negative answers.get_flags)) [
  | inl bad ↦ rw bad (ap some e, tt)
  | inr good ↦ elim (Bool-cases (answers.blocking && is_negative answers.set_flags)) [
    | inl refused ↦ rw good (rw refused (ap some e, tt))
    | inr set ↦ rw good (rw set (ap some e, e))
  ]
]

-- What is sent once the static port is there
deliver-AllTo :
    (answers : Answers) (effects : List Effect) (s : Socket) (statics : Statics) (port : ℕ)
    → statics.asynchronous_port ≡ some port
    → ((deliver answers effects s statics).2.asynchronous_port ≡ some port)
      × AllTo port (deliver answers effects s statics).0
unfolding deliver
deliver-AllTo answers [] s statics port e = (e, tt)
deliver-AllTo answers (udp_send port' bytes ∷ effects) s statics port e =
    let sent = sent_to bytes answers (set_dst_port port' s) statics port (rw e refl) in
    let kept =
      deliver-AllTo answers effects (set_dst_port port' s)
        (transmit_asynchronous bytes answers (set_dst_port port' s) statics).2 port sent.0 in
    (kept.0, with_datagram-AllTo port _ _ sent.1 kept.1)
deliver-AllTo answers (lora_transmit bytes ∷ effects) s statics port e =
    deliver-AllTo answers effects s statics port e
deliver-AllTo answers (set_pin pin level ∷ effects) s statics port e =
    deliver-AllTo answers effects s statics port e
deliver-AllTo answers (start_timer time ∷ effects) s statics port e =
    deliver-AllTo answers effects s statics port e
deliver-AllTo answers (stop_timer ∷ effects) s statics port e =
    deliver-AllTo answers effects s statics port e

deliver-AllToOption :
    (answers : Answers) (effects : List Effect) (s : Socket) (statics : Statics)
    → statics.asynchronous_port ≡ none
    → ((deliver answers effects s statics).2.asynchronous_port ≡ first_port effects)
      × AllToOption (first_port effects) (deliver answers effects s statics).0
unfolding deliver set_dst_port
deliver-AllToOption answers [] s statics e = (e, refl)
deliver-AllToOption answers (udp_send port bytes ∷ effects) s statics e =
    let s' = set_dst_port port s in
    let sent = sent_to bytes answers s' statics (port % 2 ^ 16) (rw e refl) in
    let kept =
      deliver-AllTo answers effects s' (transmit_asynchronous bytes answers s' statics).2
        (port % 2 ^ 16) sent.0 in
    (kept.0, with_datagram-AllTo (port % 2 ^ 16) _ _ sent.1 kept.1)
deliver-AllToOption answers (lora_transmit bytes ∷ effects) s statics e =
    deliver-AllToOption answers effects s statics e
deliver-AllToOption answers (set_pin pin level ∷ effects) s statics e =
    deliver-AllToOption answers effects s statics e
deliver-AllToOption answers (start_timer time ∷ effects) s statics e =
    deliver-AllToOption answers effects s statics e
deliver-AllToOption answers (stop_timer ∷ effects) s statics e =
    deliver-AllToOption answers effects s statics e

-- Both cases
pub deliver_lem :
    (answers : Answers) (effects : List Effect) (s : Socket) (statics : Statics) (o : Option ℕ)
    → statics.asynchronous_port ≡ o
    → ((deliver answers effects s statics).2.asynchronous_port ≡ or_first o effects)
      × AllToOption (or_first o effects) (deliver answers effects s statics).0
deliver_lem answers effects s statics none e = deliver-AllToOption answers effects s statics e
deliver_lem answers effects s statics (some port) e = deliver-AllTo answers effects s statics port e
