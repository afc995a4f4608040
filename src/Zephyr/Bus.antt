-- ===== src/Zephyr/Bus.antt =====
-- The I2C and SPI interfaces and the byte-order functions of Zephyr. A bus works on a world `W`,
-- the hardware behind it, of which the drivers know nothing.
use backplane_flight_compute.Base.{ℕ, List, Bool}
use backplane_flight_compute.Zephyr.Codes.{Code}
use backplane_flight_compute.Zephyr.Steps.{Driver, go}

-- A driver's data and the world that it runs in.
pub record Machine (D W : Type 0) : Type 0 where
  pub dev : D
  pub world : W

-- `i2c_write_dt`, `i2c_read_dt`, `i2c_write_read_dt`, `k_sleep`, and `sys_get_be16`,
-- `sys_get_be24`, `sys_put_be16` of sys/byteorder.h. A read gives the buffer's bytes after it.
pub record I2c (W : Type 0) : Type 0 where
  pub write : List ℕ → W → Code × W
  pub read : ℕ → W → Code × List ℕ × W
  pub write_read : List ℕ → ℕ → W → Code × List ℕ × W
  pub sleep_us : ℕ → W → W
  pub is_ready : Bool
  pub get_be16 : List ℕ → ℕ
  pub get_be24 : List ℕ → ℕ
  pub put_be16 : ℕ → List ℕ

-- `spi_write_dt` and `spi_transceive_dt`: the bytes sent, and the receive buffer after the call.
-- `k_usleep`, and `device_is_ready` of the bus.
pub record Spi (W : Type 0) : Type 0 where
  pub write : List ℕ → W → Code × W
  pub transceive : List ℕ → ℕ → W → Code × List ℕ × W
  pub sleep_us : ℕ → W → W
  pub is_ready : Bool

-- The calls as steps of a driver, which leave the driver's data alone.
module _ {D W : Type 0} where
  abbrev pub act : (W → Code × W) → Driver (Machine D W) Code
  act f m = let (c, w) = f m.world in (go c, record m { world = w })

  abbrev pub fill : (W → Code × List ℕ × W) → Driver (Machine D W) (Code × List ℕ)
  fill f m = let (c, bytes, w) = f m.world in (go (c, bytes), record m { world = w })

  abbrev pub wait : (W → W) → Driver (Machine D W) (Unit {0})
  wait f m = (go tt, record m { world = f m.world })

  abbrev pub device : Driver (Machine D W) D
  device m = (go m.dev, m)

  abbrev pub set_device : D → Driver (Machine D W) (Unit {0})
  set_device d m = (go tt, record m { dev = d })
