-- ===== src/Flight/Decisions.antt =====
-- What the controller reports, against the sources alone: an event has occured if its decider accepts
-- the sources that have submitted it so far.
use backplane_flight_compute.Base.{
  ℕ, zero, suc, ◌<◌, ◌≡◌, refl, ap, sym, ◌∙◌, Bool, true, false, ◌&&◌, ◌||◌, List, [], ◌∷◌, ◌==◌,
  ltb, if◌then◌else◌, get_or, set, replicate, get_or-set, length, length-set, length-replicate,
  get_or-replicate, arith,
}
use backplane_flight_compute.Flight.Controller.{
  Config, Controller, SourceStates, initial, has_event_occured, mark_source, decide, dispatch,
  submit_event, Input, handle, run, never,
}
use backplane_flight_compute.Flight.Runs.{
  AllTimersFit, Fits, AllFit, HasSlots, event_of, source_of, event_of-lt, handle_lem,
  handle-HasSlots, initial-HasSlots, initial_quiet, has_event_occured-handle,
}

-- Deciders that accept no empty set of sources, and never turn back when a source is added.
pub record IsMonotone (c : Config) : Type 0 where
  pub quiet : (e : ℕ) → (get_or c.deciders e never) (replicate c.num_sources false) ≡ false
  pub grows :
      (e i : ℕ) (r : SourceStates)
      → (get_or c.deciders e never) r ≡ true
      → (get_or c.deciders e never) (set r i true) ≡ true

-- Has the source submitted the event?
unfoldable pub believed : Config → List Input → ℕ → ℕ → Bool
believed c [] e source = false
believed c (x ∷ xs) e source =
    (event_of c x == e && source_of c x == source) || believed c xs e source

abbrev pub row : Controller → ℕ → SourceStates
row s e = get_or s.source_states e []

-- The arrays have their sizes, and what is decided is what the deciders say now.
pub record IsCurrent (c : Config) (s : Controller) : Type 0 where
  pub slots : HasSlots c s
  pub rows : length s.source_states ≡ c.num_events
  pub width : (e : ℕ) → e < c.num_events → length (row s e) ≡ c.num_sources
  pub current : (e : ℕ) → e < c.num_events → has_event_occured s e ≡ decide c s e

row-replicate : (n e : ℕ) (r : SourceStates) → e < n → get_or (replicate n r) e [] ≡ r
row-replicate zero e r h = absurd (omega arith)
row-replicate (suc n) zero r h = refl
row-replicate (suc n) (suc e) r h = row-replicate n e r (omega arith)

pub initial-IsCurrent : (c : Config) → IsMonotone c → IsCurrent c (initial c)
unfolding decide
initial-IsCurrent c m = record {
  slots = initial-HasSlots c;
  rows = length-replicate c.num_events (replicate c.num_sources false);
  width = λ e h.
      rw (row-replicate c.num_events e (replicate c.num_sources false) h)
        (length-replicate c.num_sources false);
  current = λ e h.
      initial_quiet c e
      ∙ sym (rw (row-replicate c.num_events e (replicate c.num_sources false) h) (m.quiet e));
}

-- Only the row of the event changes, by its source.
pub row-handle :
    (c : Config) (s : Controller) (x : Input) (e : ℕ)
    → row (handle c s x).0 e ≡ (
        if event_of c x == e && ltb (event_of c x) (length s.source_states)
        then set (row s (event_of c x)) (source_of c x) true
        else row s e)
unfolding submit_event dispatch mark_source
row-handle c s x e = rw (handle_lem c s x) (
    ground (
      arith,
      get_or-set s.source_states (event_of c x) e (set (row s (event_of c x)) (source_of c x) true)
          [],
    ))

length-row :
    (c : Config) (s : Controller) (x : Input)
    → length (handle c s x).0.source_states ≡ length s.source_states
unfolding submit_event dispatch mark_source
length-row c s x = rw (handle_lem c s x) (
    ground (
      arith,
      length-set s.source_states (event_of c x) (set (row s (event_of c x)) (source_of c x) true),
    ))

pub decide-mark :
    (c : Config) (s : Controller) (source event : ℕ)
    → event < length s.source_states
    → decide c (mark_source s source event) event
      ≡ (get_or c.deciders event never) (set (row s event) source true)
unfolding decide mark_source
decide-mark c s source event h =
    ap (get_or c.deciders event never)
      (ground (arith, get_or-set s.source_states event event (set (row s event) source true) []))

module _ (c : Config) (timers : AllTimersFit c.num_events c.timer_events) (m : IsMonotone c) where
  current-handle :
      (s : Controller) (x : Input) (e : ℕ)
      → IsCurrent c s
      → Fits c x
      → e < c.num_events
      → has_event_occured (handle c s x).0 e ≡ decide c (handle c s x).0 e
  unfolding decide
  current-handle s x e v f h =
      let k = event_of c x in
      let fits : k < length s.source_states = omega (arith, event_of-lt c x timers f, v.rows) in
      ground (
        arith,
        has_event_occured-handle c timers s x e v.slots f,
        row-handle c s x e,
        v.current e h,
        decide-mark c s (source_of c x) k fits,
        m.grows k (source_of c x) (row s k),
      )

  pub handle-IsCurrent :
      (s : Controller) (x : Input) → IsCurrent c s → Fits c x → IsCurrent c (handle c s x).0
  handle-IsCurrent s x v f = record {
    slots = handle-HasSlots c s x v.slots;
    rows = length-row c s x ∙ v.rows;
    width = λ e h. ground (
      arith,
      row-handle c s x e,
      v.width e h,
      length-set (row s (event_of c x)) (source_of c x) true,
    );
    current = λ e h. current-handle s x e v f h;
  }

  pub run-IsCurrent :
      (s : Controller) (xs : List Input) → IsCurrent c s → AllFit c xs → IsCurrent c (run c s xs).0
  unfolding run
  run-IsCurrent s [] v f = v
  run-IsCurrent s (x ∷ xs) v f = run-IsCurrent (handle c s x).0 xs (handle-IsCurrent s x v f.0) f.1

  believed-run :
      (s : Controller) (xs : List Input) (e i : ℕ)
      → IsCurrent c s
      → AllFit c xs
      → e < c.num_events
      → i < c.num_sources
      → get_or (row (run c s xs).0 e) i false ≡ (get_or (row s e) i false || believed c xs e i)
  unfolding run believed
  believed-run s [] e i v f h k = ground arith
  believed-run s (x ∷ xs) e i v f h k = ground (
    arith,
    believed-run (handle c s x).0 xs e i (handle-IsCurrent s x v f.0) f.1 h k,
    row-handle c s x e,
    v.rows,
    v.width e h,
    get_or-set (row s e) (source_of c x) i true false,
  )

  -- With every timer's event among the events, and deciders that accept no empty set of sources and never
  -- turn back when one is added: after any inputs in range an event has occured exactly when its decider
  -- accepts the sources that the controller holds for it, and these are the sources that have submitted
  -- it.
  pub occured_when_decided :
      (xs : List Input) (e i : ℕ)
      → AllFit c xs
      → e < c.num_events
      → i < c.num_sources
      → let s = (run c (initial c) xs).0 in
        (has_event_occured s e ≡ (get_or c.deciders e never) (row s e))
        × (get_or (row s e) i false ≡ believed c xs e i)
  unfolding decide
  occured_when_decided xs e i f h k = (
    (run-IsCurrent (initial c) xs (initial-IsCurrent c m) f).current e h,
    ground (
      arith,
      believed-run (initial c) xs e i (initial-IsCurrent c m) f h k,
      row-replicate c.num_events e (replicate c.num_sources false) h,
      get_or-replicate c.num_sources i false,
    ),
  )
