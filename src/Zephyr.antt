-- ===== src/Zephyr.antt =====
-- What the C drivers take from Zephyr: status codes, the early return of a driver function, and
-- the bus, as parameters of the drivers that use them.
mod Codes
mod Steps
mod Bus
pub use Codes.*
pub use Steps.*
pub use Bus.*
