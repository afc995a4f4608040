-- ===== src/Detection.antt =====
-- The detection of a flight's events from the sensors: the utilities of include/f_core/utils
-- (circular_buffer.hpp, linear_fit.hpp, debouncer.hpp), and the detection handler of the sensor module
-- (app/backplane/sensor_module/src/c_detection_handler.cpp) that submits to the phase controller.
pub mod Buffer
pub mod Window
pub mod Debouncer
pub mod LinearFit
pub mod Handler
pub mod Tenant
mod Tests
