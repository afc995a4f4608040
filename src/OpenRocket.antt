-- ===== src/OpenRocket.antt =====
-- The simulated sensors of drivers/sensor/openrocket: the flight data and its interpolation
-- (openrocket_sensors.c), and the barometer, the magnetometer and the inertial unit that read it.
pub mod Sim
pub mod Search
pub mod Barometer
pub mod Magnetometer
pub mod Imu
pub mod Reading
pub mod Gnss
mod Tests
