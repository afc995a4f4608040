-- ===== src/Adxl375.antt =====
-- The high-g accelerometer driver drivers/sensor/adxl375/adxl375.c: the start and the measurement, over
-- its table of transfer functions.
pub mod Device
pub mod Samples
pub mod I2c
mod Tests
