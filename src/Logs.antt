-- ===== src/Logs.antt =====
-- The logs of lib/f_core/os.
pub mod Datalogger
pub mod TextLog
mod Tests
