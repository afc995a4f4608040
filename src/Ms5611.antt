-- ===== src/Ms5611.antt =====
-- The barometer driver drivers/sensor/ms5611/ms5611.c: its settings, the measurement, the calibration
-- PROM and the start. The bus and the byte order are Zephyr's (Zephyr.Bus).
pub mod Device
pub mod Compensation
pub mod Prom
pub mod Fetch
pub mod Settings
pub mod Start
mod Tests
