-- ===== src/Detection/Debouncer/Held.antt =====
-- What a debouncer reports, against the samples that it has been fed.
use backplane_flight_compute.Base.{
  ℕ, ◌+◌, ◌-◌, ◌%◌, ◌^◌, ◌≤◌, ◌<◌, ◌≡◌, ◌≢◌, ◌↔◌, ◌⊎◌, inl, inr, refl, sym, subst, Bool, true,
  Bool-cases, List, [], ◌∷◌, ltb, ltb→lt, lt→ltb, ◌∙◌, arith,
}
use backplane_flight_compute.Detection.Debouncer.{
  Debouncer, new_debouncer, not_passed, feed, passed,
}

-- Samples with their times, the newest first.
abbrev pub History : Type 0 → Type 0
History R = List (ℕ × R)

abbrev pub newest : {R : Type 0} → History R → ℕ
newest [] = 0
newest ((t, v) ∷ h) = t

-- The times never fall, and the mark of no time is not among them.
abbrev pub InOrder : {R : Type 0} → History R → Type 0
InOrder [] = Unit
InOrder ((t, v) ∷ h) = (t < not_passed) × (newest h ≤ t) × InOrder h

never_passed : (duration : ℕ) (d : Debouncer) → d ≡ new_debouncer → passed duration d ≢ true
unfolding passed
never_passed duration d e p = ground arith

passed_at :
    (duration : ℕ) (d : Debouncer)
    → d.first_time_passed ≤ d.last_time_passed
    → d.last_time_passed < not_passed
    → passed duration d ≡ ltb duration (d.last_time_passed - d.first_time_passed)
unfolding passed
passed_at duration d le lt = ground arith

module _ {R : Type 0} (passes_one : R → Bool) where
  -- A debouncer that has been fed these samples
  unfoldable pub after : History R → Debouncer
  after [] = new_debouncer
  after ((t, v) ∷ h) = feed passes_one (after h) t v

  -- There is a sample at time `from`, and it and all after it pass.
  abbrev pub HeldSince : ℕ → History R → Type 0
  HeldSince from [] = ⊥
  HeldSince from ((t, v) ∷ h) = (passes_one v ≡ true) × ((from ≡ t) ⊎ HeldSince from h)

  -- What the two times are: none, or those of the newest passing samples.
  after_lem :
      (h : History R)
      → InOrder h
      → ((after h ≡ new_debouncer) × ((from : ℕ) → ¬ HeldSince from h))
        ⊎ (HeldSince (after h).first_time_passed h
            × ((after h).last_time_passed ≡ newest h)
            × ((after h).first_time_passed ≤ newest h)
            × (newest h < not_passed)
            × ((from : ℕ) → HeldSince from h → (after h).first_time_passed ≤ from))
  unfolding after feed
  after_lem [] o = inl (refl, λ from k. k)
  after_lem ((t, v) ∷ h) o = elim (Bool-cases (passes_one v)) [
    | inr fails ↦ rw fails (inl (refl, λ from k. cc))
    | inl passes ↦
        let small : t % 2 ^ 32 ≡ t = omega (arith, o.0) in
        let last_is : (feed passes_one (after h) t v).last_time_passed ≡ t = ground arith in
        elim (after_lem h o.2) [
          | inl (e, none) ↦
              let first_is : (feed passes_one (after h) t v).first_time_passed ≡ t = ground arith in
              inr (
                (passes, inl first_is),
                last_is,
                omega (arith, first_is),
                o.0,
                λ from k. elim k.1 [
                  | inl same ↦ omega (arith, first_is, same)
                  | inr older ↦ absurd (none from older)
                ],
              )
          | inr (held, last, le, lt, least) ↦
              let first_is : (feed passes_one (after h) t v).first_time_passed
                  ≡ (after h).first_time_passed =
                ground arith in
              inr (
                (passes, inr (subst (λ x. HeldSince x h) (sym first_is) held)),
                last_is,
                omega (arith, first_is, le, o.1),
                o.0,
                λ from k. elim k.1 [
                  | inl same ↦ omega (arith, first_is, same, le, o.1)
                  | inr older ↦ omega (arith, first_is, least from older)
                ],
              )
        ]
  ]

  -- With times that never fall and are below 2 ^ 32 - 1: the debouncer has passed exactly when some sample
  -- and all after it pass, and the newest of them is more than the duration after it.
  pub passed_lem :
      (duration : ℕ) (h : History R)
      → InOrder h
      → (passed duration (after h) ≡ true)
        ↔ ((from : ℕ) × HeldSince from h × (from + duration < newest h))
  passed_lem duration h o = elim (after_lem h o) [
    | inl (e, none) ↦
        (λ p. absurd (never_passed duration (after h) e p), λ k. absurd (none k.0 k.1))
    | inr (held, last, le, lt, least) ↦
        let test =
          passed_at duration (after h) (omega (arith, last, le)) (omega (arith, last, lt)) in
        (
          λ p. (
            (after h).first_time_passed,
            held,
            omega (arith, ltb→lt duration _ (sym test ∙ p), le, last),
          ),
          λ k. test ∙ lt→ltb duration _ (omega (arith, least k.0 k.1, k.2, last)),
        )
  ]
