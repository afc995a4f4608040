-- ===== src/OpenRocket/Gnss.antt =====
-- The simulated GNSS, drivers/sensor/openrocket/gnss/openrocket_gnss.c: its start, and a round of the loop
-- of its thread, after the sleep. The real-time clock and the conversions of floating point numbers are
-- parameters.
pub mod Fixes
use backplane_flight_compute.Base.{
  ℕ, ◌+◌, ◌*◌, ◌/◌, ◌%◌, ◌^◌, Bool, true, false, Option, none, some, if◌then◌else◌,
}
use backplane_flight_compute.Base.Int.{ℤ}
use backplane_flight_compute.Zephyr.{Code, success, error, enodev, enodata, is_nonzero}
use backplane_flight_compute.OpenRocket.Sim.{
  Scalar, Params, Packet, Sim, Setup, scalar, or_lerp, or_get_time, or_find_bounding_packets,
  choose,
}

-- `struct rtc_time`, the fields that are used
pub record RtcTime : Type 0 where
  pub tm_year : ℕ
  pub tm_mon : ℕ
  pub tm_mday : ℕ
  pub tm_hour : ℕ
  pub tm_min : ℕ
  pub tm_sec : ℕ
  pub tm_nsec : ℕ

-- `rtc_get_time`, whose time is read only if it returns 0, and `rtc_set_time`
pub record Rtc (W : Type 0) : Type 0 where
  pub get_time : W → Code × RtcTime × W
  pub set_time : RtcTime → W → Code × W

-- `fmod`, and the conversion to the integer type of a field
pub record Conversion (R : Type 0) : Type 0 where
  pub fmod : R → R → R
  pub to_int : R → ℤ

-- `struct gnss_data`, less its `info`, which is constant
pub record GnssFix : Type 0 where
  pub latitude : ℤ
  pub longitude : ℤ
  pub bearing : ℤ
  pub speed : ℤ
  pub altitude : ℤ
  pub century_year : ℕ
  pub month : ℕ
  pub month_day : ℕ
  pub hour : ℕ
  pub minute : ℕ
  pub millisecond : ℕ

-- or_gnss_init: the result, and `last_lower_index`
unfoldable pub init : Params → ℕ → Code × ℕ
init cfg last_lower_index = if cfg.broken then (error enodev, last_lower_index) else (success, 0)

-- The time that the clock is set to if it has none
abbrev pub initial_time : RtcTime
initial_time = record {
  tm_year = 122;
  tm_mon = 5;
  tm_mday = 26;
  tm_hour = 7;
  tm_min = 34;
  tm_sec = 47;
  tm_nsec = 0;
}

abbrev pub is_enodata : Code → Bool
is_enodata (error enodata) = true
is_enodata ret = false

-- The thread up to its loop
unfoldable pub start_thread : {W : Type 0} → Rtc W → Params → W → W
start_thread rtc cfg w =
    let (ret, rtime, w') = rtc.get_time w in
    if cfg.broken then w else if is_enodata ret then (rtc.set_time initial_time w').1 else w'

module _ {R : Type 0} (num : Scalar R) (convert : Conversion R) (s : Sim R) where
  abbrev pub between : Packet R → Packet R → R → Packet R
  between lo hi mix = record s.pad_packet {
    latitude = or_lerp num lo.latitude hi.latitude mix;
    longitude = or_lerp num lo.longitude hi.longitude mix;
    altitude = or_lerp num lo.altitude hi.altitude mix;
    velocity = or_lerp num lo.velocity hi.velocity mix;
    bearing = or_lerp num lo.bearing hi.bearing mix;
  }

  unfoldable pub gnss_data : Packet R → RtcTime → GnssFix
  gnss_data p rtime = record {
    latitude = convert.to_int (num.mul p.latitude (scalar num (10 ^ 9)));
    longitude = convert.to_int (num.mul p.longitude (scalar num (10 ^ 9)));
    bearing = convert.to_int (num.mul (convert.fmod p.bearing (scalar num 360)) (scalar num 1000));
    speed = convert.to_int (num.mul p.velocity (scalar num 1000));
    altitude = convert.to_int (num.mul p.altitude (scalar num 1000));
    century_year = rtime.tm_year % 100;
    month = (rtime.tm_mon + 1) % 2 ^ 8;
    month_day = rtime.tm_mday % 2 ^ 8;
    hour = rtime.tm_hour % 2 ^ 8;
    minute = rtime.tm_min % 2 ^ 8;
    millisecond = (rtime.tm_sec * 1000 + rtime.tm_nsec / 1000000) % 2 ^ 16;
  }

  -- What a round publishes, if it does; it ends with `none` where the search has run out of its rounds.
  unfoldable pub thread_round :
      {W : Type 0} → Rtc W → Setup → Params → ℕ → W → Option (Option GnssFix × W)
  thread_round rtc e cfg last_lower_index w =
      elim (or_find_bounding_packets num s last_lower_index (or_get_time num e cfg)) [
        | none ↦ none
        | some b ↦
            let (err, rtime, w') = rtc.get_time w in
            some
              (if is_nonzero err then none else some (gnss_data (choose num s b between) rtime), w')
      ]
