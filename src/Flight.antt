-- ===== src/Flight.antt =====
-- The phase controller of a flight (include/f_core/flight/c_phase_controller.h) and the sensor
-- module's use of it (app/backplane/sensor_module/include/flight.hpp).
pub mod Controller
pub mod Once
pub mod Runs
pub mod Decisions
pub mod SensorModule
mod Tests
