-- ===== src/Ina260.antt =====
-- The power monitor driver drivers/sensor/ina260/ina260.c: its registers over I2C, the start and the
-- measurement.
pub mod Device
pub mod Channels
mod Tests
