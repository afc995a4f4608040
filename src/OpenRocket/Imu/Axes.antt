-- ===== src/OpenRocket/Imu/Axes.antt =====
-- Which reading of the flight reaches which axis of the simulated inertial unit.
use backplane_flight_compute.Base.{◌≡◌, ◌≢◌, refl, Bool, if◌then◌else◌, arith}
use backplane_flight_compute.OpenRocket.Sim.{Scalar, Packet, scalar}
use backplane_flight_compute.OpenRocket.Imu.{
  Axis, axis_x, axis_y, axis_z, ImuConfig, ImuData, map_a, map_g, map_or_to_sensor,
}

abbrev pub accel_on : {R : Type 0} → Axis → ImuData R → R
accel_on axis_x d = d.ax
accel_on axis_y d = d.ay
accel_on axis_z d = d.az

module _ {R : Type 0} (num : Scalar R) (cfg : ImuConfig R) (p : Packet R) (out : ImuData R) where
  -- Where the vertical and the lateral axis differ, the vertical axis shows the vertical acceleration as
  -- it is if it is to be inverted and negated if not, the lateral axis the lateral one, and the third
  -- axis shows 0.
  accel_on_axes :
      (third : Axis)
      → cfg.vertical_axis ≢ cfg.lateral_axis
      → third ≢ cfg.vertical_axis
      → third ≢ cfg.lateral_axis
      → let d = map_or_to_sensor num cfg p out in
        (accel_on cfg.vertical_axis d
          ≡ (if cfg.vertical_axis_invert then p.vert_accel else num.neg p.vert_accel))
        × (accel_on cfg.lateral_axis d ≡ p.lat_accel)
        × (accel_on third d ≡ scalar num 0)
  unfolding map_or_to_sensor map_a
  accel_on_axes third h k l = ground arith

  -- The yaw's own inversion setting changes no reading.
  yaw_invert_ignored :
      (b : Bool)
      → map_or_to_sensor num (record cfg { yaw_axis_invert = b }) p out
        ≡ map_or_to_sensor num cfg p out
  unfolding map_or_to_sensor map_a map_g
  yaw_invert_ignored b = refl
