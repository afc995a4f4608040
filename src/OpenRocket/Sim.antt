-- ===== src/OpenRocket/Sim.antt =====
-- openrocket_sensors.c and openrocket_sensors.h with every sensor configured in. `or_scalar_t`, a float
-- or a double, is a parameter.
use backplane_flight_compute.Base.{
  ℕ, zero, suc, ◌+◌, ◌-◌, ◌*◌, ◌/◌, ◌%◌, ◌^◌, Bool, Option, none, some, List, if◌then◌else◌, ◌==◌,
  leb, get_or, length,
}
use backplane_flight_compute.Base.Int.{ℤ, pos, signed, ◌-ℤ◌}

-- The arithmetic of `or_scalar_t`; `lt` is `<`, `of_int` the conversion of an integer.
pub record Scalar (R : Type 0) : Type 0 where
  pub add : R → R → R
  pub sub : R → R → R
  pub mul : R → R → R
  pub div : R → R → R
  pub neg : R → R
  pub lt : R → R → Bool
  pub of_int : ℤ → R

-- `struct or_common_params`
pub record Params : Type 0 where
  pub broken : Bool
  pub sampling_period_us : ℕ
  pub lag_time_us : ℕ
  pub measurement_us : ℕ

-- `struct or_data_t`
pub record Packet (R : Type 0) : Type 0 where
  pub time_s : R
  pub vert_accel : R
  pub lat_accel : R
  pub roll : R
  pub pitch : R
  pub yaw : R
  pub temperature : R
  pub pressure : R
  pub latitude : R
  pub longitude : R
  pub velocity : R
  pub altitude : R
  pub bearing : R
  pub magn_x : R
  pub magn_y : R
  pub magn_z : R

-- The generated flight data `or_packets`, and the two packets that stand for the time around it.
pub record Sim (R : Type 0) : Type 0 where
  pub packets : List (Packet R)
  pub pad_packet : Packet R
  pub landed_packet : Packet R

-- What or_find_bounding_packets writes through its three pointers.
pub record Bounds (R : Type 0) : Type 0 where
  pub lower_idx : ℕ
  pub upper_idx : ℕ
  pub mix : R

-- What the code is configured with and what the kernel gives it: CONFIG_OPENROCKET_NOISE,
-- CONFIG_OPENROCKET_MS_BEFORE_LAUNCH, and the uptime in microseconds.
pub record Setup : Type 0 where
  pub noise : Bool
  pub ms_before_launch : ℕ
  pub uptime_us : ℕ

module _ {R : Type 0} (num : Scalar R) where
  abbrev pub scalar : ℕ → R
  scalar n = num.of_int (pos n)

  -- The assertion on `t` is not compiled in.
  abbrev pub or_lerp : R → R → R → R
  or_lerp a b t = num.add (num.mul a (num.sub (scalar 1) t)) (num.mul b t)

  unfoldable pub or_get_time : Setup → Params → R
  unfolding ◌-ℤ◌
  or_get_time e p =
      let us =
        if p.sampling_period_us == 0
        then e.uptime_us
        else e.uptime_us / p.sampling_period_us * p.sampling_period_us in
      num.div (num.of_int (pos us -ℤ pos p.lag_time_us -ℤ pos (e.ms_before_launch * 1000)))
        (scalar 1000000)

  -- The new random state and the noise.
  unfoldable pub or_random : Setup → ℕ → R → ℕ × R
  or_random e rand_state magnitude =
      let r32 = (rand_state * 1103515245 + 12345) % 2 ^ 32 in
      if e.noise
      then (r32, num.mul (num.div (num.of_int (signed 32 r32)) (scalar 0x7FFFFFFF)) magnitude)
      else (rand_state, scalar 0)

  -- `or_packets[i]`; the packet `d` stands for what is read past the end.
  abbrev pub packet : List (Packet R) → Packet R → ℕ → Packet R
  packet ps d i = get_or ps i d

  module _ (s : Sim R) where
    abbrev pub time_at : ℕ → R
    time_at i = (get_or s.packets i s.landed_packet).time_s

    abbrev pub size : ℕ
    size = length s.packets

    -- The `while` loop at index `i`. Each round ends it or makes `i` larger.
    unfoldable pub find_from : ℕ → R → ℕ → Option (Bounds R)
    find_from zero or_time i = none
    find_from (suc fuel) or_time i =
        let rest = find_from fuel or_time (suc i) in
        if num.lt (time_at (suc i)) or_time
        then if leb ((size + 2 ^ 32 - 2) % 2 ^ 32) i
          then some (record { lower_idx = size; upper_idx = size; mix = scalar 0 })
          else rest
        else some (record {
          lower_idx = i;
          upper_idx = suc i;
          mix = num.div (num.sub or_time (time_at i)) (num.sub (time_at (suc i)) (time_at i));
        })

    -- With a round for each packet.
    unfoldable pub or_find_bounding_packets : ℕ → R → Option (Bounds R)
    or_find_bounding_packets last_lower_idx or_time =
        if num.lt or_time (time_at 0)
        then some (record { lower_idx = 0; upper_idx = 0; mix = scalar 0 })
        else find_from size or_time last_lower_idx

    unfoldable pub init_openrocket : Sim R
    init_openrocket = record s {
      pad_packet = get_or s.packets 0 s.landed_packet;
      landed_packet = get_or s.packets (size - 1) s.landed_packet;
    }

    -- The `if` on the bounds in each driver's fetch: before, after, or in the middle of the flight.
    unfoldable pub choose : Bounds R → (Packet R → Packet R → R → Packet R) → Packet R
    choose b between =
        if b.upper_idx == 0
        then s.pad_packet
        else if b.lower_idx == size
        then s.landed_packet
        else between (get_or s.packets b.lower_idx s.landed_packet)
            (get_or s.packets b.upper_idx s.landed_packet) b.mix
