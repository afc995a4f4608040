-- ===== src/Flight/SensorModule/Causes.antt =====
-- What causes the events of the sensor module.
use backplane_flight_compute.Base.{
  ℕ, zero, suc, ◌<◌, ◌≡◌, ◌≢◌, refl, ap, ◌∙◌, Bool, true, false, List, [], ◌∷◌, ◌++◌, if◌then◌else◌,
  get_or, set, replicate, get_or-set, length, arith,
}
use backplane_flight_compute.Flight.Controller.{
  Controller, Effect, log_source, log_confirmed, SourceStates, initial, has_event_occured,
  mark_source, decide, dispatch, submit_event, Input, submit, expire, handle, run, no_timer, never,
}
use backplane_flight_compute.Flight.Once.{to_nat, starts, starts-append}
use backplane_flight_compute.Flight.Runs.{
  AllFit, Fits, event_of, HasSlots, timer_started_once, has_event_occured-handle, starts-handle,
  handle-HasSlots, initial-HasSlots, initial_quiet,
}
use backplane_flight_compute.Flight.Decisions.{IsMonotone, row, run-IsCurrent, initial-IsCurrent}
use backplane_flight_compute.Flight.SensorModule.{
  config, deciders, boost, noseover_lockout, low_g_imu,
}

grows_row :
    (e i : ℕ) (r : SourceStates)
    → (get_or deciders e never) r ≡ true
    → (get_or deciders e never) (set r i true) ≡ true
grows_row zero i r h = ground (
  arith,
  get_or-set r i 0 true false,
  get_or-set r i 1 true false,
  get_or-set r i 2 true false,
  get_or-set r i 3 true false,
)
grows_row (suc zero) i r h = ground (arith, get_or-set r i 4 true false)
grows_row (suc (suc zero)) i r h =
    ground (arith, get_or-set r i 2 true false, get_or-set r i 3 true false)
grows_row (suc (suc (suc zero))) i r h =
    ground
      (arith, get_or-set r i 2 true false, get_or-set r i 3 true false, get_or-set r i 5 true false)
grows_row (suc (suc (suc (suc e)))) i r h = cc

quiet_row : (e : ℕ) → (get_or deciders e never) (replicate 6 false) ≡ false
quiet_row zero = refl
quiet_row (suc zero) = refl
quiet_row (suc (suc zero)) = refl
quiet_row (suc (suc (suc zero))) = refl
quiet_row (suc (suc (suc (suc e)))) = refl

-- The deciders accept no empty set of sources, and a further source never turns them back.
pub deciders-IsMonotone : (log : Bool) → IsMonotone (config log)
deciders-IsMonotone log = record { quiet = quiet_row; grows = grows_row }

-- The states of the module with what it has done: sensors submit what is not the lockout, and a timer
-- expires only once it has been started.
pub data Reach (log : Bool) : Controller → List Effect → Type 0 where
  boot : Reach log (initial (config log)) []
  sense :
      {s : Controller} {done : List Effect} (source event : ℕ)
      → Reach log s done
      → event < 4
      → event ≢ noseover_lockout
      → Reach log
          (handle (config log) s (submit source event)).0
          (done ++ (handle (config log) s (submit source event)).1)
  fire :
      {s : Controller} {done : List Effect} (i : ℕ)
      → Reach log s done
      → i < 3
      → 0 < starts i done
      → Reach log
          (handle (config log) s (expire i)).0
          (done ++ (handle (config log) s (expire i)).1)

pub record IsCaused (log : Bool) (s : Controller) (done : List Effect) : Type 0 where
  pub slots : HasSlots (config log) s
  pub started : (i : ℕ) → i < 3 → starts i done ≡ to_nat (has_event_occured s boost)
  pub lockout : has_event_occured s noseover_lockout ≡ true → has_event_occured s boost ≡ true

pub timers_fit : (log : Bool) → (1 < 4) × ((3 < 4) × ((0 < 4) × Unit {0}))
timers_fit log = (omega arith, (omega arith, (omega arith, tt)))

starts_at_boost : (i : ℕ) → i < 3 → (get_or (config true).timer_events i no_timer).start ≡ boost
starts_at_boost zero h = refl
starts_at_boost (suc zero) h = refl
starts_at_boost (suc (suc zero)) h = refl
starts_at_boost (suc (suc (suc i))) h = absurd (omega arith)

started_step :
    (log : Bool) (s : Controller) (done : List Effect) (x : Input) (i : ℕ)
    → IsCaused log s done
    → Fits (config log) x
    → i < 3
    → starts i (done ++ (handle (config log) s x).1)
      ≡ to_nat (has_event_occured (handle (config log) s x).0 boost)
started_step log s done x i v f h =
    let step = starts-handle (config log) (timers_fit log) s x i v.slots f h in
    omega (
      arith,
      v.started i h,
      starts-append i done (handle (config log) s x).1,
      (rw (starts_at_boost i h) at step),
    )

step-IsCaused :
    (log : Bool) (s : Controller) (done : List Effect) (x : Input)
    → IsCaused log s done
    → Fits (config log) x
    → (event_of (config log) x ≡ noseover_lockout → has_event_occured s boost ≡ true)
    → IsCaused log (handle (config log) s x).0 (done ++ (handle (config log) s x).1)
step-IsCaused log s done x v f cause = record {
  slots = handle-HasSlots (config log) s x v.slots;
  started = λ i h. started_step log s done x i v f h;
  lockout = λ h. ground (
    arith,
    v.lockout,
    cause,
    has_event_occured-handle (config log) (timers_fit log) s x boost v.slots f,
    has_event_occured-handle (config log) (timers_fit log) s x noseover_lockout v.slots f,
  );
}

started_none :
    (log : Bool) (i : ℕ) → starts i [] ≡ to_nat (has_event_occured (initial (config log)) boost)
unfolding starts
started_none log i = rw (initial_quiet (config log) boost)

pub Reach-IsCaused :
    {log : Bool} {s : Controller} {done : List Effect} → Reach log s done → IsCaused log s done
Reach-IsCaused {log} boot = record {
  slots = initial-HasSlots (config log);
  started = λ i h. started_none log i;
  lockout = λ h. cc (initial_quiet (config log) noseover_lockout);
}
Reach-IsCaused {log} (sense {s = s} {done = done} source event r h ne) =
    step-IsCaused log s done (submit source event) (Reach-IsCaused r) h (λ e. absurd (ne e))
Reach-IsCaused {log} (fire {s = s} {done = done} i r h k) =
    let v = Reach-IsCaused r in
    step-IsCaused log s done (expire i) v h (λ e. ground (arith, v.started i h))

-- Where timers expire only after they were started, and no sensor submits the lockout, the lockout
-- has not occured before boost.
pub lockout_needs_boost :
    {log : Bool} {s : Controller} {done : List Effect}
    → Reach log s done
    → has_event_occured s noseover_lockout ≡ true
    → has_event_occured s boost ≡ true
lockout_needs_boost r h = (Reach-IsCaused r).lockout h

-- What the expiry of the third timer does, once boost has occured.
expire_zeroed :
    (log : Bool) (s : Controller)
    → 0 < length s.source_states
    → 0 < length (row s boost)
    → has_event_occured s boost ≡ true
    → let (s', logged) = handle (config log) s (expire 2) in
      (get_or (row s' boost) low_g_imu false ≡ true)
      × (logged ≡ (if log then log_source boost low_g_imu ∷ log_confirmed boost true ∷ [] else []))
unfolding handle submit_event mark_source decide dispatch has_event_occured
expire_zeroed log s a b h = ground (
  arith,
  get_or-set s.source_states boost boost (set (row s boost) low_g_imu true) [],
  get_or-set (row s boost) low_g_imu low_g_imu true false,
)

-- After any inputs in range by which boost has occured, the timer without an initialiser has been
-- started once, and when it expires the low-g IMU counts as a source of boost and, with a flight log, is
-- logged as one.
pub zeroed_timer_blames_imu :
    (log : Bool) (xs : List Input)
    → AllFit (config log) xs
    → has_event_occured (run (config log) (initial (config log)) xs).0 boost ≡ true
    → let (s, effects) = run (config log) (initial (config log)) xs in
      let (s', logged) = handle (config log) s (expire 2) in
      (starts 2 effects ≡ 1)
      × ((get_or (row s' boost) low_g_imu false ≡ true)
          × (logged
              ≡ (if log then log_source boost low_g_imu ∷ log_confirmed boost true ∷ [] else [])))
zeroed_timer_blames_imu log xs f occured =
    let c = config log in
    let s = (run c (initial c) xs).0 in
    let v =
      run-IsCurrent c (timers_fit log) (deciders-IsMonotone log) (initial c) xs
        (initial-IsCurrent c (deciders-IsMonotone log)) f in
    (
      timer_started_once c (timers_fit log) xs 2 f (omega arith) ∙ ap to_nat occured,
      expire_zeroed log s (omega (arith, v.rows)) (omega (arith, v.width 0 (omega arith))) occured,
    )
