-- ===== src/Radio.antt =====
-- The radio module (app/backplane/radio_module) and the classes that it stands on.
pub mod HashMap
pub mod StateMachine
pub mod Packet
pub mod Transmit
pub mod Receive
pub mod Listener
pub mod Lora
pub mod UdpSocket
pub mod Alerts
pub mod Requests
pub mod Crossing
pub mod Module
mod Tests
