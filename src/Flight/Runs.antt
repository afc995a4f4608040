-- ===== src/Flight/Runs.antt =====
-- Every sequence of inputs that the controller can be given: what has occured stays, is posted once,
-- and starts each of its timers once.
use backplane_flight_compute.Base.{
  ℕ, zero, suc, ◌+◌, ◌<◌, ◌≡◌, refl, ap, true, false, ◌&&◌, ◌||◌, List, [], ◌∷◌, ◌==◌, get_or,
  length, length-set, length-replicate, get_or-replicate, arith,
}
use backplane_flight_compute.Flight.Controller.{
  Config, Controller, TimerEvent, initial, has_event_occured, mark_source, decide, dispatch,
  submit_event, Input, submit, expire, handle, run, no_timer,
}
use backplane_flight_compute.Flight.Once.{
  to_nat, posts, starts, posts-append, starts-append, has_event_occured-submit_event,
  posts-submit_event, starts-submit_event,
}

-- Every timer's event is an event of the controller.
abbrev pub AllTimersFit : ℕ → List TimerEvent → Type 0
AllTimersFit n [] = Unit
AllTimersFit n (t ∷ ts) = (t.event < n) × AllTimersFit n ts

-- The identifiers are in range, as the template's documentation asks.
abbrev pub Fits : Config → Input → Type 0
Fits c (submit source event) = event < c.num_events
Fits c (expire i) = i < length c.timer_events

abbrev pub AllFit : Config → List Input → Type 0
AllFit c [] = Unit
AllFit c (x ∷ xs) = Fits c x × AllFit c xs

abbrev pub HasSlots : Config → Controller → Type 0
HasSlots c s = length s.event_states ≡ c.num_events

-- The event that an input submits, and its source.
abbrev pub event_of : Config → Input → ℕ
event_of c (submit source event) = event
event_of c (expire i) = (get_or c.timer_events i no_timer).event

abbrev pub source_of : Config → Input → ℕ
source_of c (submit source event) = source
source_of c (expire i) = (get_or c.timer_events i no_timer).source

pub handle_lem :
    (c : Config) (s : Controller) (x : Input)
    → handle c s x ≡ submit_event c s (source_of c x) (event_of c x)
unfolding handle
handle_lem c s (submit source event) = refl
handle_lem c s (expire i) = refl

timer_fits :
    (n : ℕ) (ts : List TimerEvent) (i : ℕ)
    → AllTimersFit n ts
    → i < length ts
    → (get_or ts i no_timer).event < n
timer_fits n [] i f h = absurd (omega arith)
timer_fits n (t ∷ ts) zero f h = f.0
timer_fits n (t ∷ ts) (suc i) f h = timer_fits n ts i f.1 (omega arith)

pub event_of-lt :
    (c : Config) (x : Input)
    → AllTimersFit c.num_events c.timer_events
    → Fits c x
    → event_of c x < c.num_events
event_of-lt c (submit source event) f h = h
event_of-lt c (expire i) f h = timer_fits c.num_events c.timer_events i f h

pub handle-HasSlots :
    (c : Config) (s : Controller) (x : Input) → HasSlots c s → HasSlots c (handle c s x).0
unfolding submit_event dispatch mark_source
handle-HasSlots c s x h =
    rw (handle_lem c s x) (ground (arith, length-set s.event_states (event_of c x) true))

pub initial_quiet : (c : Config) (e : ℕ) → has_event_occured (initial c) e ≡ false
unfolding has_event_occured
initial_quiet c e = get_or-replicate c.num_events e false

pub initial-HasSlots : (c : Config) → HasSlots c (initial c)
initial-HasSlots c = length-replicate c.num_events false

module _ (c : Config) (timers : AllTimersFit c.num_events c.timer_events) where
  event_in :
      (s : Controller) (x : Input) → HasSlots c s → Fits c x → event_of c x < length s.event_states
  event_in s x h f = omega (arith, event_of-lt c x timers f)

  pub posts-handle :
      (s : Controller) (x : Input) (e : ℕ)
      → HasSlots c s
      → Fits c x
      → posts e (handle c s x).1 + to_nat (has_event_occured s e)
        ≡ to_nat (has_event_occured (handle c s x).0 e)
  posts-handle s x e h f =
      rw (handle_lem c s x)
        (posts-submit_event c s (source_of c x) (event_of c x) e (event_in s x h f))

  pub starts-handle :
      (s : Controller) (x : Input) (i : ℕ)
      → HasSlots c s
      → Fits c x
      → i < length c.timer_events
      → let t = get_or c.timer_events i no_timer in
        starts i (handle c s x).1 + to_nat (has_event_occured s t.start)
        ≡ to_nat (has_event_occured (handle c s x).0 t.start)
  starts-handle s x i h f k =
      rw (handle_lem c s x)
        (starts-submit_event c s (source_of c x) (event_of c x) i (event_in s x h f) k)

  pub has_event_occured-handle :
      (s : Controller) (x : Input) (e : ℕ)
      → HasSlots c s
      → Fits c x
      → has_event_occured (handle c s x).0 e ≡ (
          has_event_occured s e
          || (event_of c x == e
              && decide c (mark_source s (source_of c x) (event_of c x)) (event_of c x)))
  has_event_occured-handle s x e h f =
      rw (handle_lem c s x)
        (has_event_occured-submit_event c s (source_of c x) (event_of c x) e (event_in s x h f))

  posts-run :
      (s : Controller) (xs : List Input) (e : ℕ)
      → HasSlots c s
      → AllFit c xs
      → posts e (run c s xs).1 + to_nat (has_event_occured s e)
        ≡ to_nat (has_event_occured (run c s xs).0 e)
  unfolding run posts
  posts-run s [] e h f = omega arith
  posts-run s (x ∷ xs) e h f =
      let (s', done) = handle c s x in
      omega (
        arith,
        posts-run s' xs e (handle-HasSlots c s x h) f.1,
        posts-append e done (run c s' xs).1,
        posts-handle s x e h f.0,
      )

  starts-run :
      (s : Controller) (xs : List Input) (i : ℕ)
      → HasSlots c s
      → AllFit c xs
      → i < length c.timer_events
      → let t = get_or c.timer_events i no_timer in
        starts i (run c s xs).1 + to_nat (has_event_occured s t.start)
        ≡ to_nat (has_event_occured (run c s xs).0 t.start)
  unfolding run starts
  starts-run s [] i h f k = omega arith
  starts-run s (x ∷ xs) i h f k =
      let (s', done) = handle c s x in
      omega (
        arith,
        starts-run s' xs i (handle-HasSlots c s x h) f.1 k,
        starts-append i done (run c s' xs).1,
        starts-handle s x i h f.0 k,
      )

  -- With every timer's event among the events, a slot for each event, and inputs in range: what has
  -- occured stays so, whatever comes.
  run_keeps_event :
      (s : Controller) (xs : List Input) (e : ℕ)
      → HasSlots c s
      → AllFit c xs
      → has_event_occured s e ≡ true
      → has_event_occured (run c s xs).0 e ≡ true
  unfolding run
  run_keeps_event s [] e h f o = o
  run_keeps_event s (x ∷ xs) e h f o =
      run_keeps_event (handle c s x).0 xs e (handle-HasSlots c s x h) f.1
        (ground (arith, has_event_occured-handle s x e h f.0))

  -- With every timer's event among the events, and inputs in range: from the start on, the kernel event
  -- of `e` is posted once if `e` has occured, and never if not.
  pub event_posted_once :
      (xs : List Input) (e : ℕ)
      → AllFit c xs
      → let (s, effects) = run c (initial c) xs in posts e effects ≡ to_nat (has_event_occured s e)
  event_posted_once xs e f =
      omega
        (arith, posts-run (initial c) xs e (initial-HasSlots c) f, ap to_nat (initial_quiet c e))

  -- With every timer's event among the events, and inputs in range: from the start on, timer `i` of the
  -- controller is started once if its start event has occured, and never if not.
  pub timer_started_once :
      (xs : List Input) (i : ℕ)
      → AllFit c xs
      → i < length c.timer_events
      → let (s, effects) = run c (initial c) xs in
        starts i effects ≡ to_nat (has_event_occured s (get_or c.timer_events i no_timer).start)
  timer_started_once xs i f k =
      let t = get_or c.timer_events i no_timer in
      omega (
        arith,
        starts-run (initial c) xs i (initial-HasSlots c) f k,
        ap to_nat (initial_quiet c t.start),
      )
