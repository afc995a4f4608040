-- ===== src/Lib.antt =====
-- The flight software of the backplane flight computer: the decisions about a flight's phases, the drivers
-- of its sensors, its logs and files, and the simulated sensors that replay a flight on the ground. Sensor
-- drivers are read by the sensor module's tasks; the detection handler looks for the phases of the flight
-- in what they read, and submits what it sees as events to a phase controller, which decides them, posts
-- them to the kernel and starts timers. The radio module carries data between the network and the
-- ground. Logs are fetched over TFTP.
--
-- Paths are from the repository's root.
-- Base: natural numbers, lists, tests and the integers of C. `◌==◌`, `ltb` and `leb` are the Boolean
--   tests; a w-bit integer keeps its wrap-around.
-- Zephyr: what the drivers take from Zephyr. An `int` result is a `Code`; a C function that returns early
--   is a `Driver`, in which what was written before the return stays written. The buses I2C and SPI, the
--   waits and the byte order functions are parameters (`I2c W`, `Spi W`), over a world `W`.
-- Flight: include/f_core/flight/c_phase_controller.h. `Controller` is sourceStates and eventStates;
--   `submit_event` is SubmitEvent, `handle` also takes the expiry of a timer, `run` a sequence of these.
--   The calls of the kernel and of the flight log are a list of `Effect`s. Flight.SensorModule is
--   app/backplane/sensor_module/include/flight.hpp.
-- Detection: Buffer, Window and LinearFit, Debouncer are include/f_core/utils/circular_buffer.hpp,
--   linear_fit.hpp and debouncer.hpp; Handler is app/backplane/sensor_module/src/c_detection_handler.cpp,
--   whose `Handler` holds the controller of Flight; Tenant is c_sensing_tenant.cpp beside it. Flights has
--   the runs of the module: samples reach HandleData, and timers expire. `double` is a parameter
--   (`Real R`), and `std::size_t` has 32 bits.
-- Radio: app/backplane/radio_module/src. Transmit and Receive are its LoRa tenants
--   (c_lora_transmit_tenant.cpp, c_lora_receive_tenant.cpp), Listener c_udp_listener_tenant.cpp, StateMachine
--   include/f_core/c_pad_flight_landing_state_machine.h. HashMap is include/f_core/utils/c_hashmap.h, Lora
--   lib/f_core/radio/c_lora.cpp, UdpSocket lib/f_core/net/transport/c_udp_socket.cpp, Alerts
--   lib/f_core/net/application/c_udp_alert_tenant.cpp with c_state_machine_updater.cpp. Module has the runs
--   of c_radio_module.cpp, with the transmissions of its TFTP tenant, in which each source file has its own globals of the state machine. What the
--   queue, the radio, the pins and the network answer are arguments of a run, and what it calls is a list
--   of `Effect`s; `none` is a call of k_oops or a read outside the buffer.
-- Tftp: the TFTP server lib/f_core/net/application/c_tftp_server_tenant.cpp (Ack is waitForAck, Server the
--   requests) and lib/f_core/os/c_file.cpp (File). Zephyr's file system (`Files F`) and what its network gives
--   to the data socket (`Socket N`), through ReceiveAsynchronous of CUdpSocket, are parameters; `none` among the sent packets stands for memory outside the array.
-- Logs: Datalogger is lib/f_core/os/c_datalogger.cpp, TextLog the messages of lib/f_core/os/flight_log.cpp,
--   each over the calls of the file system (`Disk W`, `Store W`).
-- Power: the sensing tenant of the power module, app/backplane/power_module/src/c_sensing_tenant.cpp, which
--   observes the alert tenant.
-- SensorUtils: lib/launch_core_classic/dev/sensor.c.
-- Ms5611: drivers/sensor/ms5611/ms5611.c. Device has the settings and channels, Compensation the
--   arithmetic, Prom the calibration words with their CRC and ms5611_init, Fetch the measurement.
-- Ina260: drivers/sensor/ina260/ina260.c and ina260.h.
-- Adxl375: drivers/sensor/adxl375/adxl375.c, over its table of transfer functions (`Transfer W`), and the
--   table of adxl375_i2c.c (I2c), over the bus's register access (`I2cRegisters W`).
-- FlightLog: lib/launch_core_classic/os/fs.c. File has l_fs_init, l_fs_write and l_fs_read over Zephyr's file
--   system (`FileSystem W`), Volume the queries of sizes and the format, Boot l_fs_boot_count_check.
-- OpenRocket: drivers/sensor/openrocket. Sim is openrocket_sensors.c; Barometer, Magnetometer, Imu and
--   Gnss are the drivers beside it. The flight data and the floating point numbers
--   (`Scalar R`) are parameters.
-- Mcp356x: drivers/adc/mcp356x/mcp356x.c. Registers has the register access and mcp356x_init, Channels
--   mcp356x_channel_setup, Reads mcp356x_read_channel.
--
-- Fuel: `find_from`, the search for two packets, has a round for each packet of the flight data, and
--   every round but the last goes one packet on. The other loops have a fixed number of rounds: the 16
--   bytes and 8 bits of the CRC, the 8 words of the PROM, the 8 channels of the ADC, the 20 digits of a time.
--   The server's two loops take their fuel as an argument: a wait for an acknowledgement needs one test more than
--   there are receives with nothing or less than four bytes, and has no bound without one; a transfer needs
--   a round for each byte of the file and one more.
--
-- Not modelled: log output; the blocking WaitUntilEvent; struct sensor_value as it is made from a floating
--   point number; the transfer functions of the ADXL375 over SPI, which name what is not declared;
--   CMovingAverage; the making of the TFTP server's sockets; the asynchronous transfers of CLora; the
--   synchronous receive of CUdpSocket and its set-up; the other network libraries, the radio protocol
--   (another project's), and the applications' wiring.
pub mod Base
pub mod Zephyr
pub mod Flight
pub mod Detection
pub mod Radio
pub mod Logs
pub mod Power
pub mod SensorUtils
pub mod Tftp
pub mod Ms5611
pub mod OpenRocket
pub mod Mcp356x
pub mod Ina260
pub mod Adxl375
pub mod FlightLog
