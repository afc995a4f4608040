-- ===== src/Flight/Once.antt =====
-- How often the controller posts an event and starts a timer, over any sequence of inputs.
use native.Mathlib.Nat.{pow-suc}
use backplane_flight_compute.Base.{
  ℕ, zero, suc, ◌+◌, ◌<◌, ◌≡◌, refl, ap, Bool, true, false, ◌&&◌, ◌||◌, List, [], ◌∷◌, ◌++◌, ◌==◌,
  get_or, length, get_or-set, arith,
}
use backplane_flight_compute.Flight.Controller.{
  Config, Controller, TimerEvent, Effect, event_post, timer_start, event_bit, start_timers,
  has_event_occured, mark_source, decide, dispatch, submit_event, no_timer, log_source_event,
  log_event_confirmed,
}

abbrev pub to_nat : Bool → ℕ
to_nat true = 1
to_nat false = 0

-- The posts of an event, and the starts of a timer, among the effects.
is_post : ℕ → Effect → Bool
is_post e (event_post bit) = bit == event_bit e
is_post e _ = false

unfoldable pub posts : ℕ → List Effect → ℕ
unfolding is_post
posts e [] = 0
posts e (x ∷ xs) = to_nat (is_post e x) + posts e xs

is_start : ℕ → Effect → Bool
is_start i (timer_start j time) = i == j
is_start i _ = false

unfoldable pub starts : ℕ → List Effect → ℕ
unfolding is_start
starts i [] = 0
starts i (x ∷ xs) = to_nat (is_start i x) + starts i xs

pub posts-append : (e : ℕ) (xs ys : List Effect) → posts e (xs ++ ys) ≡ posts e xs + posts e ys
unfolding posts
posts-append e [] ys = omega arith
posts-append e (x ∷ xs) ys = omega (arith, posts-append e xs ys)

pub starts-append : (i : ℕ) (xs ys : List Effect) → starts i (xs ++ ys) ≡ starts i xs + starts i ys
unfolding starts
starts-append i [] ys = omega arith
starts-append i (x ∷ xs) ys = omega (arith, starts-append i xs ys)

event_bit-pos : (a : ℕ) → 0 < event_bit a
event_bit-pos zero = omega arith
event_bit-pos (suc a) = rw pow-suc (omega (arith, event_bit-pos a))

pub event_bit-injective : (a b : ℕ) → event_bit a ≡ event_bit b → a ≡ b
event_bit-injective zero zero h = refl
event_bit-injective zero (suc b) h = absurd (omega (arith, event_bit-pos b, pow-suc 2 b))
event_bit-injective (suc a) zero h = absurd (omega (arith, event_bit-pos a, pow-suc 2 a))
event_bit-injective (suc a) (suc b) h =
    ap suc (event_bit-injective a b (omega (arith, pow-suc 2 a, pow-suc 2 b)))

posts-start_timers :
    (e : ℕ) (ts : List TimerEvent) (i event : ℕ) → posts e (start_timers ts i event) ≡ 0
unfolding posts start_timers
posts-start_timers e [] i event = refl
posts-start_timers e (t ∷ ts) i event = ground (arith, posts-start_timers e ts (suc i) event)

-- Does timer `i` start with the event?
abbrev pub starts_with : List TimerEvent → ℕ → ℕ → Bool
starts_with [] i event = false
starts_with (t ∷ ts) zero event = t.start == event
starts_with (t ∷ ts) (suc i) event = starts_with ts i event

starts_below :
    (ts : List TimerEvent) (k i event : ℕ) → i < k → starts i (start_timers ts k event) ≡ 0
unfolding starts start_timers
starts_below [] k i event h = refl
starts_below (t ∷ ts) k i event h = ground (arith, starts_below ts (suc k) i event)

starts-start_timers :
    (ts : List TimerEvent) (k j event : ℕ)
    → starts (k + j) (start_timers ts k event) ≡ to_nat (starts_with ts j event)
unfolding starts start_timers
starts-start_timers [] k j event = ground arith
starts-start_timers (t ∷ ts) k zero event = ground (arith, starts_below ts (suc k) (k + 0) event)
starts-start_timers (t ∷ ts) k (suc j) event =
    let e : k + suc j ≡ suc k + j = omega arith in
    rw e (ground (arith, starts-start_timers ts (suc k) j event))

starts_with_lem :
    (ts : List TimerEvent) (i event : ℕ)
    → i < length ts
    → starts_with ts i event ≡ ((get_or ts i no_timer).start == event)
starts_with_lem [] i event h = absurd (omega arith)
starts_with_lem (t ∷ ts) zero event h = refl
starts_with_lem (t ∷ ts) (suc i) event h = starts_with_lem ts i event (omega arith)

-- What has occured after a submission: what had, and the event if its decider says so.
pub has_event_occured-submit_event :
    (c : Config) (s : Controller) (source event e : ℕ)
    → event < length s.event_states
    → has_event_occured (submit_event c s source event).0 e
      ≡ (has_event_occured s e || (event == e && decide c (mark_source s source event) event))
unfolding submit_event dispatch has_event_occured mark_source
has_event_occured-submit_event c s source event e h =
    ground (arith, get_or-set s.event_states event e true false)

pub posts-submit_event :
    (c : Config) (s : Controller) (source event e : ℕ)
    → event < length s.event_states
    → posts e (submit_event c s source event).1 + to_nat (has_event_occured s e)
      ≡ to_nat (has_event_occured (submit_event c s source event).0 e)
unfolding submit_event dispatch has_event_occured mark_source posts
posts-submit_event c s source event e h = ground (
  arith,
  get_or-set s.event_states event e true false,
  posts-start_timers e c.timer_events 0 event,
  event_bit-injective event e,
  posts-append e (start_timers c.timer_events 0 event)
      (log_source_event c event source ++ log_event_confirmed c event false),
)

pub starts-submit_event :
    (c : Config) (s : Controller) (source event i : ℕ)
    → event < length s.event_states
    → i < length c.timer_events
    → let t = get_or c.timer_events i no_timer in
      starts i (submit_event c s source event).1 + to_nat (has_event_occured s t.start)
      ≡ to_nat (has_event_occured (submit_event c s source event).0 t.start)
unfolding submit_event dispatch has_event_occured mark_source starts
starts-submit_event c s source event i h k =
    let t = get_or c.timer_events i no_timer in
    ground (
      arith,
      get_or-set s.event_states event t.start true false,
      starts_with_lem c.timer_events i event k,
      starts-start_timers c.timer_events 0 i event,
      starts-append i (start_timers c.timer_events 0 event)
          (log_source_event c event source ++ log_event_confirmed c event false),
    )
