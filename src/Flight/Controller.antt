-- ===== src/Flight/Controller.antt =====
-- CPhaseController of include/f_core/flight/c_phase_controller.h. The enums `EventID` and `SourceID`
-- are numbers, `std::array` is a list, and a call of the kernel or of the flight log is a value of
-- `Effect`, in the order of the calls.
use backplane_flight_compute.Base.{
  ℕ, suc, ◌^◌, Bool, true, false, List, [], ◌∷◌, ◌++◌, if◌then◌else◌, ◌==◌, get_or, set, replicate,
}

-- `TimerEvent`. The time is in milliseconds.
pub record TimerEvent : Type 0 where
  pub start : ℕ
  pub event : ℕ
  pub time : ℕ
  pub source : ℕ

abbrev pub SourceStates : Type 0
SourceStates = List Bool

abbrev pub DecisionFunc : Type 0
DecisionFunc = SourceStates → Bool

-- The template's and the constructor's parameters, which do not change.
pub record Config : Type 0 where
  pub num_events : ℕ
  pub num_sources : ℕ
  pub timer_events : List TimerEvent
  pub deciders : List DecisionFunc
  pub has_log : Bool

-- The state of the controller: what each source thinks of each event, and what was decided.
pub record Controller : Type 0 where
  pub source_states : List SourceStates
  pub event_states : List Bool

pub data Effect : Type 0 where
  event_post : ℕ → Effect  -- k_event_post(&osEvents, event_bit)
  timer_start : ℕ → ℕ → Effect  -- k_timer_start(&timers[i], time, K_NO_WAIT)
  log_source : ℕ → ℕ → Effect  -- LogSourceEvent(event, source)
  log_confirmed : ℕ → Bool → Effect  -- LogEventConfirmed(event, currentState)

abbrev pub initial : Config → Controller
initial c = record {
  source_states = replicate c.num_events (replicate c.num_sources false);
  event_states = replicate c.num_events false;
}

-- `1 << event`; there are at most 32 events.
abbrev pub event_bit : ℕ → ℕ
event_bit event = 2 ^ event

-- The writes to the flight log, if there is one.
abbrev pub log_source_event : Config → ℕ → ℕ → List Effect
log_source_event c event source = if c.has_log then log_source event source ∷ [] else []

abbrev pub log_event_confirmed : Config → ℕ → Bool → List Effect
log_event_confirmed c event current = if c.has_log then log_confirmed event current ∷ [] else []

-- The loop over `timerUserdata`, from index `i` on.
unfoldable pub start_timers : List TimerEvent → ℕ → ℕ → List Effect
start_timers [] i event = []
start_timers (t ∷ ts) i event =
    let rest = start_timers ts (suc i) event in
    if t.start == event then timer_start i t.time ∷ rest else rest

unfoldable pub has_event_occured : Controller → ℕ → Bool
has_event_occured s event = get_or s.event_states event false

abbrev pub never : DecisionFunc
never states = false

-- The source's state of the event is set before the decision.
unfoldable pub mark_source : Controller → ℕ → ℕ → Controller
mark_source s source event = record s {
  source_states = set s.source_states event (set (get_or s.source_states event []) source true);
}

unfoldable pub decide : Config → Controller → ℕ → Bool
decide c s event = (get_or c.deciders event never) (get_or s.source_states event [])

-- `eventStates[event] = true`, the post to `osEvents`, and the timers, if the event is new.
unfoldable pub dispatch : Config → Controller → ℕ → Bool → Controller × List Effect
dispatch c s event true = (s, [])
dispatch c s event false = (
  record s { event_states = set s.event_states event true },
  event_post (event_bit event) ∷ start_timers c.timer_events 0 event,
)

unfoldable pub submit_event : Config → Controller → ℕ → ℕ → Controller × List Effect
submit_event c s source event =
    let marked = mark_source s source event in
    let last_state = has_event_occured marked event in
    let (dispatched, effects) = dispatch c marked event last_state in
    if decide c marked event
    then (
      dispatched,
      effects ++ (log_source_event c event source ++ log_event_confirmed c event last_state),
    )
    else (marked, log_source_event c event source)

-- What reaches the controller: a thread's call of SubmitEvent, or the expiry of timer `i`.
pub data Input : Type 0 where
  submit : ℕ → ℕ → Input
  expire : ℕ → Input

abbrev pub no_timer : TimerEvent
no_timer = record { start = 0; event = 0; time = 0; source = 0 }

-- `timer_expiry_cb` submits the timer's event as its source.
unfoldable pub handle : Config → Controller → Input → Controller × List Effect
handle c s (submit source event) = submit_event c s source event
handle c s (expire i) =
    let t = get_or c.timer_events i no_timer in submit_event c s t.source t.event

-- A sequence of inputs, with all that the controller did.
unfoldable pub run : Config → Controller → List Input → Controller × List Effect
run c s [] = (s, [])
run c s (x ∷ xs) =
    let (s', done) = handle c s x in let (s'', rest) = run c s' xs in (s'', done ++ rest)
