-- ===== src/Radio/Requests.antt =====
-- Requests for data over the radio: the receive tenant marks the ports, the transmit tenant answers.
pub mod Marking
pub mod Answers
pub mod Fulfilled
