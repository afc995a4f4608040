-- ===== src/Radio/Lora/Directions.antt =====
-- The direction in which the modem has been set to work.
use backplane_flight_compute.Base.{
  ℕ, ◌≡◌, refl, Bool, true, false, List, [], ◌∷◌, ◌++◌, Bool-cases, inl, inr,
}
use backplane_flight_compute.Zephyr.{Code, is_nonzero}
use backplane_flight_compute.Radio.Lora.{
  DriverCall, configure, send, receive, Lora, same_direction, transmit_synchronous,
  receive_synchronous,
}

-- A transfer, with the result of lora_config, if it is called, and of the transfer
pub data Transfer : Type 0 where
  transmits : List ℕ → (configured sent : Code) → Transfer
  receives : ℕ → (configured received : Code) → Transfer

unfoldable pub transfer : Transfer → Lora → Code × List DriverCall × Lora
unfolding transmit_synchronous receive_synchronous
transfer (transmits bytes configured sent) l = transmit_synchronous bytes configured sent l
transfer (receives len configured received) l = receive_synchronous len configured received l

unfoldable pub transfers : List Transfer → Lora → List DriverCall
unfolding transfer
transfers [] l = []
transfers (t ∷ ts) l = let (ret, calls, l') = transfer t l in calls ++ transfers ts l'

-- From direction `tx` on, each transfer has the direction of the call of lora_config before it, and no call
-- of lora_config is for the direction that is set.
abbrev pub IsDirected : (tx : Bool) → List DriverCall → Type 0
IsDirected tx [] = Unit {0}
IsDirected tx (configure tx' ∷ calls) = (same_direction tx' tx ≡ false) × IsDirected tx' calls
IsDirected tx (send bytes ∷ calls) = (tx ≡ true) × IsDirected tx calls
IsDirected tx (receive len ∷ calls) = (tx ≡ false) × IsDirected tx calls

from : (ts : List Transfer) (tx : Bool) → IsDirected tx (transfers ts (record { config_tx = tx }))
unfolding transfers
from [] tx = tt
from (transmits bytes configured sent ∷ ts) true = (refl, from ts true)
from (transmits bytes configured sent ∷ ts) false = elim (Bool-cases (is_nonzero configured)) [
  | inl bad ↦ rw bad (refl, from ts true)
  | inr good ↦ rw good (refl, (refl, from ts true))
]
from (receives len configured received ∷ ts) false = (refl, from ts false)
from (receives len configured received ∷ ts) true = elim (Bool-cases (is_nonzero configured)) [
  | inl bad ↦ rw bad (refl, from ts false)
  | inr good ↦ rw good (refl, (refl, from ts false))
]

-- In any sequence of synchronous transfers, whatever the driver returns: each transfer that is handed to
-- the driver has the direction that lora_config was last called with, or that the object started with,
-- and lora_config is called only for the other direction.
pub transfers-IsDirected : (ts : List Transfer) (l : Lora) → IsDirected l.config_tx (transfers ts l)
transfers-IsDirected ts l = from ts l.config_tx
