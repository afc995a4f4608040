-- ===== src/FlightLog.antt =====
-- The frames of a flight log on a file, the queries of the file and its volume, and the count of boots, lib/launch_core_classic/os/fs.c.
pub mod File
pub mod Frames
pub mod Volume
pub mod Boot
mod Tests
