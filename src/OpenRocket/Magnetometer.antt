-- ===== src/OpenRocket/Magnetometer.antt =====
-- The simulated magnetometer, drivers/sensor/openrocket/magnetometer/openrocket_magnetometer.c. Its
-- wait for `measurement_us` is left out. `none` stands for a search out of its rounds.
use backplane_flight_compute.Base.{
  ℕ, Bool, true, false, not, Option, none, some, List, [], ◌∷◌, if◌then◌else◌,
}
use backplane_flight_compute.Zephyr.{Code, success, error, enodev, enotsup}
use backplane_flight_compute.OpenRocket.Sim.{
  Scalar, Params, Packet, Sim, Setup, or_lerp, or_get_time, or_random, or_find_bounding_packets,
  choose,
}

pub data Channel : Type 0 where
  all magn_x magn_y magn_z magn_xyz other_channel : Channel

-- `struct or_magnetometer_config`
pub record MagnConfig (R : Type 0) : Type 0 where
  pub sensor_cfg : Params
  pub noise : R

-- `struct or_magnetometer_data`
pub record MagnData (R : Type 0) : Type 0 where
  pub last_lower_index : ℕ
  pub rand_state : ℕ
  pub x : R
  pub y : R
  pub z : R

abbrev pub is_served : Channel → Bool
is_served other_channel = false
is_served all = true
is_served magn_x = true
is_served magn_y = true
is_served magn_z = true
is_served magn_xyz = true

module _ {R : Type 0} (num : Scalar R) (s : Sim R) (e : Setup) (cfg : MagnConfig R) where
  -- The fields that the driver reads; the others are not set there.
  abbrev pub between : Packet R → Packet R → R → Packet R
  between lo hi mix = record s.pad_packet {
    magn_x = or_lerp num lo.magn_x hi.magn_x mix;
    magn_y = or_lerp num lo.magn_y hi.magn_y mix;
    magn_z = or_lerp num lo.magn_z hi.magn_z mix;
  }

  unfoldable pub store : MagnData R → Packet R → MagnData R
  store d p =
      let (r, x_noise) = or_random num e d.rand_state cfg.noise in
      let (r', y_noise) = or_random num e r cfg.noise in
      let (r'', z_noise) = or_random num e r' cfg.noise in
      record d {
        rand_state = r'';
        x = num.add p.magn_x x_noise;
        y = num.add p.magn_y y_noise;
        z = num.add p.magn_z z_noise;
      }

  -- or_magn_sample_fetch
  unfoldable pub sample_fetch : MagnData R → Channel → Option (Code × MagnData R)
  sample_fetch d chan =
      if cfg.sensor_cfg.broken
      then some (error enodev, d)
      else if not (is_served chan)
      then some (error enotsup, d)
      else elim (or_find_bounding_packets num s d.last_lower_index
          (or_get_time num e cfg.sensor_cfg)) [
            | none ↦ none
            | some b ↦ some (success, store d (choose num s b between))
          ]

  -- or_magn_channel_get: the values handed to sensor_value_from_or_scalar, in order.
  unfoldable pub channel_get : MagnData R → Channel → Code × List R
  channel_get d chan = if cfg.sensor_cfg.broken then (error enodev, []) else elim chan [
    | magn_x ↦ (success, d.x ∷ [])
    | magn_y ↦ (success, d.y ∷ [])
    | magn_z ↦ (success, d.z ∷ [])
    | magn_xyz ↦ (success, d.x ∷ d.y ∷ d.z ∷ [])
    | _ ↦ (error enotsup, [])
  ]

  -- or_magn_init
  unfoldable pub init : MagnData R → Code × MagnData R
  init d =
      if cfg.sensor_cfg.broken
      then (error enodev, d)
      else (success, record d { last_lower_index = 0 })
