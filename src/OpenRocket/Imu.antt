-- ===== src/OpenRocket/Imu.antt =====
-- The simulated inertial unit, drivers/sensor/openrocket/imu/openrocket_imu.c. Its wait for
-- `measurement_us` is left out. `none` stands for a search out of its rounds.
pub mod Axes
use backplane_flight_compute.Base.{
  ℕ, Bool, true, false, not, Option, none, some, List, [], ◌∷◌, if◌then◌else◌,
}
use backplane_flight_compute.Zephyr.{Code, success, error, enodev, enotsup}
use backplane_flight_compute.OpenRocket.Sim.{
  Scalar, Params, Packet, Sim, Bounds, Setup, scalar, or_lerp, or_get_time, or_random,
  or_find_bounding_packets, choose,
}

pub data Channel : Type 0 where
  all accel_x accel_y accel_z accel_xyz gyro_x gyro_y gyro_z gyro_xyz other_channel : Channel

-- `enum axis`
pub data Axis : Type 0 where
  axis_x axis_y axis_z : Axis

abbrev pub is_axis : Axis → Axis → Bool
is_axis axis_x axis_x = true
is_axis axis_y axis_y = true
is_axis axis_z axis_z = true
is_axis _ _ = false

-- `struct or_imu_config`
pub record ImuConfig (R : Type 0) : Type 0 where
  pub sensor_cfg : Params
  pub vertical_axis : Axis
  pub vertical_axis_invert : Bool
  pub lateral_axis : Axis
  pub roll_axis : Axis
  pub pitch_axis : Axis
  pub yaw_axis : Axis
  pub roll_axis_invert : Bool
  pub pitch_axis_invert : Bool
  pub yaw_axis_invert : Bool
  pub accel_noise : R
  pub gyro_noise : R

-- `struct or_imu_data`
pub record ImuData (R : Type 0) : Type 0 where
  pub last_lower_index : ℕ
  pub rand_state : ℕ
  pub ax : R
  pub ay : R
  pub az : R
  pub gx : R
  pub gy : R
  pub gz : R

abbrev pub is_served : Channel → Bool
is_served other_channel = false
is_served all = true
is_served accel_x = true
is_served accel_y = true
is_served accel_z = true
is_served accel_xyz = true
is_served gyro_x = true
is_served gyro_y = true
is_served gyro_z = true
is_served gyro_xyz = true

module _ {R : Type 0} (num : Scalar R) (cfg : ImuConfig R) where
  abbrev pub invert : R → Bool → R
  invert val do_invert = if do_invert then num.neg val else val

  -- map_ax, map_ay and map_az are one text but for the axis.
  unfoldable pub map_a : Axis → R → R → R
  map_a axis vert lat =
      if is_axis cfg.vertical_axis axis
      then if cfg.vertical_axis_invert then vert else num.neg vert
      else if is_axis cfg.lateral_axis axis
      then lat
      else scalar num 0

  -- map_gx, map_gy and map_gz likewise.
  unfoldable pub map_g : Axis → R → R → R → R
  map_g axis roll pitch yaw =
      if is_axis cfg.roll_axis axis
      then invert roll cfg.roll_axis_invert
      else if is_axis cfg.pitch_axis axis
      then invert pitch cfg.pitch_axis_invert
      else if is_axis cfg.yaw_axis axis
      then invert yaw cfg.pitch_axis_invert
      else scalar num 0

  unfoldable pub map_or_to_sensor : Packet R → ImuData R → ImuData R
  map_or_to_sensor p out = record out {
    ax = map_a axis_x p.vert_accel p.lat_accel;
    ay = map_a axis_y p.vert_accel p.lat_accel;
    az = map_a axis_z p.vert_accel p.lat_accel;
    gx = map_g axis_x p.roll p.pitch p.yaw;
    gy = map_g axis_y p.roll p.pitch p.yaw;
    gz = map_g axis_z p.roll p.pitch p.yaw;
  }

  module _ (s : Sim R) (e : Setup) where
    -- The fields that the driver reads; the others are not set there.
    abbrev pub between : Packet R → Packet R → R → Packet R
    between lo hi mix = record s.pad_packet {
      vert_accel = or_lerp num lo.vert_accel hi.vert_accel mix;
      lat_accel = or_lerp num lo.lat_accel hi.lat_accel mix;
      roll = or_lerp num lo.roll hi.roll mix;
      pitch = or_lerp num lo.pitch hi.pitch mix;
      yaw = or_lerp num lo.yaw hi.yaw mix;
    }

    -- The noise on the five readings, and their way to the axes.
    unfoldable pub store : ImuData R → Packet R → ImuData R
    store d p =
        let (r₁, n₁) = or_random num e d.rand_state cfg.accel_noise in
        let (r₂, n₂) = or_random num e r₁ cfg.accel_noise in
        let (r₃, n₃) = or_random num e r₂ cfg.gyro_noise in
        let (r₄, n₄) = or_random num e r₃ cfg.gyro_noise in
        let (r₅, n₅) = or_random num e r₄ cfg.gyro_noise in
        map_or_to_sensor
          (record p {
            vert_accel = num.add p.vert_accel n₁;
            lat_accel = num.add p.lat_accel n₂;
            roll = num.add p.roll n₃;
            pitch = num.add p.pitch n₄;
            yaw = num.add p.yaw n₅;
          })
          (record d { rand_state = r₅ })

    -- or_imu_sample_fetch
    unfoldable pub sample_fetch : ImuData R → Channel → Option (Code × ImuData R)
    sample_fetch d chan =
        if cfg.sensor_cfg.broken
        then some (error enodev, d)
        else if not (is_served chan)
        then some (error enotsup, d)
        else elim (or_find_bounding_packets num s d.last_lower_index
            (or_get_time num e cfg.sensor_cfg)) [
              | none ↦ none
              | some b ↦ some (success, store d (choose num s b between))
            ]

  -- or_imu_channel_get: the values handed to sensor_value_from_or_scalar, in order.
  unfoldable pub channel_get : ImuData R → Channel → Code × List R
  channel_get d chan = if cfg.sensor_cfg.broken then (error enodev, []) else elim chan [
    | accel_x ↦ (success, d.ax ∷ [])
    | accel_y ↦ (success, d.ay ∷ [])
    | accel_z ↦ (success, d.az ∷ [])
    | accel_xyz ↦ (success, d.ax ∷ d.ay ∷ d.az ∷ [])
    | gyro_x ↦ (success, d.gx ∷ [])
    | gyro_y ↦ (success, d.gy ∷ [])
    | gyro_z ↦ (success, d.gz ∷ [])
    | gyro_xyz ↦ (success, d.gx ∷ d.gy ∷ d.gz ∷ [])
    | _ ↦ (error enotsup, [])
  ]

  -- or_imu_init
  unfoldable pub init : ImuData R → Code × ImuData R
  init d =
      if cfg.sensor_cfg.broken
      then (error enodev, d)
      else (success, record d { last_lower_index = 0 })
