-- ===== src/Ms5611/Fetch.antt =====
-- ms5611_fetch_temp_and_press and ms5611_sample_fetch of ms5611.c.
use backplane_flight_compute.Base.{ℕ, [], ◌∷◌, ◌==◌, ◌%◌}
use backplane_flight_compute.Zephyr.{
  Code, success, error, eio, Driver, ◌>>=◌, ◌>>◌, check, return_if, pure, call, Machine, I2c, act,
  fill, wait, device, set_device,
}
use backplane_flight_compute.Ms5611.Device.{Ms5611, Osr}
use backplane_flight_compute.Ms5611.Compensation.{compensate}

module _ {W : Type 0} (bus : I2c W) where
  -- A conversion: its command, the wait, the read command and the three bytes. `read_cmd` goes into a
  -- `uint8_t`. A reading of 0 is an error.
  unfoldable pub convert : Osr → Driver (Machine Ms5611 W) ℕ
  convert osr = do
    ret ← act (bus.write (osr.read_cmd % 256 ∷ []))
    check ret
    wait (bus.sleep_us osr.resp_time)
    ret ← act (bus.write (0x00 ∷ []))
    check ret
    (ret, bytes) ← fill (bus.read 3)
    check ret
    return_if (bus.get_be24 bytes == 0) (error eio)
    pure (bus.get_be24 bytes)

  unfoldable pub fetch_temp_and_press : Driver (Machine Ms5611 W) Code
  fetch_temp_and_press = do
    d ← device
    raw_temp ← convert d.osr_temp
    raw_press ← convert d.osr_pres
    d ← device
    set_device (record d { meas = compensate d.prom raw_temp raw_press })
    pure success

  -- The assertion that the channel is SENSOR_CHAN_ALL is not compiled in.
  unfoldable pub sample_fetch : Driver (Machine Ms5611 W) Code
  sample_fetch = do ret ← call fetch_temp_and_press; check ret; pure success
