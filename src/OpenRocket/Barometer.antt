-- ===== src/OpenRocket/Barometer.antt =====
-- The simulated barometer, drivers/sensor/openrocket/barometer/openrocket_barom.c. Its wait for
-- `measurement_us` is left out. A fetch ends with `none` where the search has run out of its rounds.
use backplane_flight_compute.Base.{ℕ, Bool, true, false, not, Option, none, some, if◌then◌else◌}
use backplane_flight_compute.Zephyr.{Code, success, error, enodev, enotsup}
use backplane_flight_compute.OpenRocket.Sim.{
  Scalar, Params, Packet, Sim, Setup, or_lerp, or_get_time, or_random, or_find_bounding_packets,
  choose,
}

pub data Channel : Type 0 where
  all ambient_temp press other_channel : Channel

-- `struct or_barom_config`
pub record BaromConfig (R : Type 0) : Type 0 where
  pub sensor_cfg : Params
  pub temp_noise_scale : R
  pub press_noise_scale : R

-- `struct or_barom_data`
pub record BaromData (R : Type 0) : Type 0 where
  pub last_lower_index : ℕ
  pub rand_state : ℕ
  pub pressure : R
  pub temperature : R

abbrev pub is_served : Channel → Bool
is_served all = true
is_served ambient_temp = true
is_served press = true
is_served other_channel = false

module _ {R : Type 0} (num : Scalar R) (s : Sim R) (e : Setup) (cfg : BaromConfig R) where
  -- The fields that the driver reads; the others are not set there.
  abbrev pub between : Packet R → Packet R → R → Packet R
  between lo hi mix = record s.pad_packet {
    pressure = or_lerp num lo.pressure hi.pressure mix;
    temperature = or_lerp num lo.temperature hi.temperature mix;
  }

  -- The end of the fetch: the packet with noise.
  unfoldable pub store : BaromData R → Packet R → BaromData R
  store d p =
      let (r, press_noise) = or_random num e d.rand_state cfg.press_noise_scale in
      let (r', temp_noise) = or_random num e r cfg.temp_noise_scale in
      record d {
        rand_state = r';
        pressure = num.add p.pressure press_noise;
        temperature = num.add p.temperature temp_noise;
      }

  -- or_barom_sample_fetch
  unfoldable pub sample_fetch : BaromData R → Channel → Option (Code × BaromData R)
  sample_fetch d chan =
      if cfg.sensor_cfg.broken
      then some (error enodev, d)
      else if not (is_served chan)
      then some (error enotsup, d)
      else elim (or_find_bounding_packets num s d.last_lower_index
          (or_get_time num e cfg.sensor_cfg)) [
            | none ↦ none
            | some b ↦ some (success, store d (choose num s b between))
          ]

  -- or_barom_channel_get: the value handed to sensor_value_from_or_scalar.
  unfoldable pub channel_get : BaromData R → Channel → Code × Option R
  channel_get d chan = if cfg.sensor_cfg.broken then (error enodev, none) else elim chan [
    | press ↦ (success, some d.pressure)
    | ambient_temp ↦ (success, some d.temperature)
    | _ ↦ (error enotsup, none)
  ]

  -- or_barom_init
  unfoldable pub init : BaromData R → Code × BaromData R
  init d =
      if cfg.sensor_cfg.broken
      then (error enodev, d)
      else (success, record d { last_lower_index = 0 })
