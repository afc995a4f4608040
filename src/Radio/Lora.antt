-- ===== src/Radio/Lora.antt =====
-- CLora (lib/f_core/radio/c_lora.cpp): which direction the modem has been set to. The results of Zephyr's
-- lora_config and of the transfer are arguments; what is given to the driver is a list of calls.
pub mod Directions
use backplane_flight_compute.Base.{
  ℕ, Bool, true, false, not, ◌&&◌, ◌||◌, List, [], ◌∷◌, ◌++◌, if◌then◌else◌,
}
use backplane_flight_compute.Zephyr.{Code, success, is_nonzero}

pub data DriverCall : Type 0 where
  configure : (tx : Bool) → DriverCall
  send : List ℕ → DriverCall
  receive : ℕ → DriverCall

-- `config.tx`
pub record Lora : Type 0 where
  pub config_tx : Bool

abbrev pub same_direction : Bool → Bool → Bool
same_direction true b = b
same_direction false b = not b

-- `configured` is the result of lora_config, if it is called.
unfoldable pub set_tx_rx :
    (transmits : Bool) → (configured : Code) → Lora → Code × List DriverCall × Lora
set_tx_rx transmits configured l =
    if same_direction transmits l.config_tx
    then (success, [], l)
    else (configured, configure transmits ∷ [], record l { config_tx = transmits })

unfoldable pub transmit_synchronous :
    List ℕ → (configured sent : Code) → Lora → Code × List DriverCall × Lora
unfolding set_tx_rx
transmit_synchronous bytes configured sent l =
    let (ret, calls, l') = set_tx_rx true configured l in
    if is_nonzero ret then (ret, calls, l') else (sent, calls ++ (send bytes ∷ []), l')

unfoldable pub receive_synchronous :
    ℕ → (configured received : Code) → Lora → Code × List DriverCall × Lora
unfolding set_tx_rx
receive_synchronous len configured received l =
    let (ret, calls, l') = set_tx_rx false configured l in
    if is_nonzero ret then (ret, calls, l') else (received, calls ++ (receive len ∷ []), l')
