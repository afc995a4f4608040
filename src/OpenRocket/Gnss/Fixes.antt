-- ===== src/OpenRocket/Gnss/Fixes.antt =====
-- What the simulated GNSS publishes.
use backplane_flight_compute.Base.{ℕ, ◌^◌, ◌≤◌, ◌<◌, ◌≡◌, refl, none, some, if◌then◌else◌}
use backplane_flight_compute.Zephyr.{is_nonzero}
use backplane_flight_compute.OpenRocket.Sim.{
  Scalar, Packet, Sim, Setup, Params, size, or_get_time, choose,
}
use backplane_flight_compute.OpenRocket.Search.{IsAsymmetric}
use backplane_flight_compute.OpenRocket.Reading.{IsReading, choose_lem}
use backplane_flight_compute.OpenRocket.Gnss.{Rtc, Conversion, between, gnss_data, thread_round}

-- With an asymmetric `<`, between 2 and 2 ^ 32 packets and a search from the first of them: a round of the
-- GNSS's thread ends, and publishes the position of the packet of its time with the time of the
-- real-time clock, or nothing if the clock cannot be read.
thread_round_lem :
    {R W : Type 0} (num : Scalar R) (asym : IsAsymmetric num) (convert : Conversion R) (s : Sim R)
    (rtc : Rtc W) (e : Setup) (cfg : Params) (last_lower_index : ℕ) (w : W)
    → 2 ≤ size num s
    → size num s < 2 ^ 32
    → last_lower_index ≡ 0
    → let (err, rtime, w') = rtc.get_time w in
      (p : Packet R) × IsReading num asym s (or_get_time num e cfg) (between num convert s) p
      × (thread_round num convert s rtc e cfg last_lower_index w
          ≡ some (if is_nonzero err then none else some (gnss_data num convert s p rtime), w'))
unfolding thread_round
thread_round_lem num asym convert s rtc e cfg last_lower_index w two fits h =
    let (b, found, reading) =
      choose_lem num asym s two fits last_lower_index (or_get_time num e cfg)
        (between num convert s) h in
    (choose num s b (between num convert s), reading, rw (found, thread_round) refl)
