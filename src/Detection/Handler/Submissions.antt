-- ===== src/Detection/Handler/Submissions.antt =====
-- One submission of the detection handler, and the steps that the controller takes by it.
use mathlib.Core.List.{append-nil}
use backplane_flight_compute.Base.{
  ℕ, ◌<◌, ◌≡◌, ◌≢◌, ◌⊎◌, inl, inr, refl, ◌∙◌, Bool, true, false, ◌&&◌, ◌||◌, List, ◌++◌, ◌==◌,
  get_or, get_or-set, Bool-cases, arith,
}
use backplane_flight_compute.Flight.Controller.{
  Controller, Effect, Input, submit, has_event_occured, handle, mark_source, decide,
}
use backplane_flight_compute.Flight.Runs.{Fits, event_of, source_of, has_event_occured-handle}
use backplane_flight_compute.Flight.Decisions.{IsCurrent, row, row-handle, handle-IsCurrent}
use backplane_flight_compute.Flight.SensorModule.{
  config, noseover, noseover_lockout, ground_hit, full_flight_timer,
}
use backplane_flight_compute.Flight.SensorModule.Causes.{
  Reach, sense, deciders-IsMonotone, timers_fit,
}
use backplane_flight_compute.Detection.Handler.{submit_when}

-- A noseover has a lockout before it; a ground hit has a noseover before it, or the timer of the full
-- flight as a source.
pub record IsInOrder (log : Bool) (s : Controller) : Type 0 where
  pub current : IsCurrent (config log) s
  pub locked : has_event_occured s noseover ≡ true → has_event_occured s noseover_lockout ≡ true
  pub landed :
      has_event_occured s ground_hit ≡ true
      → (has_event_occured s noseover ≡ true)
        ⊎ (get_or (row s ground_hit) full_flight_timer false ≡ true)

module _ (log : Bool) where
  pub occured_step :
      (s : Controller) (x : Input) (e : ℕ)
      → IsInOrder log s
      → Fits (config log) x
      → has_event_occured (handle (config log) s x).0 e ≡ (
          has_event_occured s e
          || (event_of (config log) x == e
              && decide
                  (config log)
                  (mark_source s (source_of (config log) x) (event_of (config log) x))
                  (event_of (config log) x)))
  occured_step s x e v f =
      has_event_occured-handle (config log) (timers_fit log) s x e v.current.slots f

  -- The row of the ground hit after a step
  timer_row :
      (s : Controller) (x : Input)
      → IsInOrder log s
      → get_or (row (handle (config log) s x).0 ground_hit) full_flight_timer false ≡ (
          get_or (row s ground_hit) full_flight_timer false
          || (event_of (config log) x == ground_hit
              && source_of (config log) x == full_flight_timer))
  timer_row s x v = ground (
    arith,
    row-handle (config log) s x ground_hit,
    get_or-set (row s ground_hit) (source_of (config log) x) full_flight_timer true false,
    v.current.rows,
    v.current.width ground_hit (omega arith),
  )

  landed_step :
      (s : Controller) (x : Input)
      → IsInOrder log s
      → Fits (config log) x
      → (event_of (config log) x ≡ ground_hit
          → (has_event_occured s noseover ≡ true) ⊎ (source_of (config log) x ≡ full_flight_timer))
      → has_event_occured (handle (config log) s x).0 ground_hit ≡ true
      → (has_event_occured (handle (config log) s x).0 noseover ≡ true)
        ⊎ (get_or (row (handle (config log) s x).0 ground_hit) full_flight_timer false ≡ true)
  landed_step s x v f lands h = ground (
    arith,
    v.landed,
    lands,
    timer_row s x v,
    occured_step s x ground_hit v f,
    occured_step s x noseover v f,
  )

  pub step-IsInOrder :
      (s : Controller) (x : Input)
      → IsInOrder log s
      → Fits (config log) x
      → (event_of (config log) x ≡ noseover → has_event_occured s noseover_lockout ≡ true)
      → (event_of (config log) x ≡ ground_hit
          → (has_event_occured s noseover ≡ true) ⊎ (source_of (config log) x ≡ full_flight_timer))
      → IsInOrder log (handle (config log) s x).0
  step-IsInOrder s x v f locks lands = record {
    current =
        handle-IsCurrent (config log) (timers_fit log) (deciders-IsMonotone log) s x v.current f;
    locked = λ h. ground (
      arith,
      v.locked,
      locks,
      occured_step s x noseover v f,
      occured_step s x noseover_lockout v f,
    );
    landed = λ h. landed_step s x v f lands h;
  }

  module _ (test : Bool) (source event : ℕ) (fits : event < 4) where
    pub submit_when-Reach :
        {s : Controller} {done : List Effect}
        → event ≢ noseover_lockout
        → Reach log s done
        → Reach log
            (submit_when (config log) test source event s).0
            (done ++ (submit_when (config log) test source event s).1)
    unfolding submit_when handle
    submit_when-Reach {s} {done} ne r = elim (Bool-cases test) [
      | inl e ↦ rw e (sense source event r fits ne)
      | inr e ↦ rw (e, append-nil done) r
    ]

    pub submit_when_keeps :
        (s : Controller) (e : ℕ)
        → IsInOrder log s
        → has_event_occured s e ≡ true
        → has_event_occured (submit_when (config log) test source event s).0 e ≡ true
    unfolding submit_when handle
    submit_when_keeps s e v h = elim (Bool-cases test) [
      | inl on ↦ rw on (occured_step s (submit source event) e v fits ∙ rw h)
      | inr off ↦ rw off h
    ]

    pub submit_when-IsInOrder :
        (s : Controller)
        → IsInOrder log s
        → (test ≡ true → event ≡ noseover → has_event_occured s noseover_lockout ≡ true)
        → (test ≡ true → event ≡ ground_hit → has_event_occured s noseover ≡ true)
        → IsInOrder log (submit_when (config log) test source event s).0
    unfolding submit_when handle
    submit_when-IsInOrder s v locks lands = elim (Bool-cases test) [
      | inl on ↦
          rw on (step-IsInOrder s (submit source event) v fits (locks on) (λ e. inl (lands on e)))
      | inr off ↦ rw off v
    ]

    -- Only the submitted event may come to have occured.
    pub submit_when_leaves :
        (s : Controller) (e : ℕ)
        → IsInOrder log s
        → event ≢ e
        → has_event_occured (submit_when (config log) test source event s).0 e
          ≡ has_event_occured s e
    unfolding submit_when handle
    submit_when_leaves s e v ne = elim (Bool-cases test) [
      | inl on ↦ rw on (ground (arith, occured_step s (submit source event) e v fits))
      | inr off ↦ rw off refl
    ]
