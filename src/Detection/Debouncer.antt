-- ===== src/Detection/Debouncer.antt =====
-- CDebouncer of include/f_core/utils/debouncer.hpp, with `uint32_t` time stamps. The direction is the test
-- that a value passes.
pub mod Held
use backplane_flight_compute.Base.{
  ℕ, ◌+◌, ◌-◌, ◌%◌, ◌^◌, Bool, true, false, ◌||◌, if◌then◌else◌, ltb, ◌==◌,
}

-- `NOT_PASSED`
abbrev pub not_passed : ℕ
not_passed = 2 ^ 32 - 1

pub record Debouncer : Type 0 where
  pub first_time_passed : ℕ
  pub last_time_passed : ℕ

abbrev pub new_debouncer : Debouncer
new_debouncer = record { first_time_passed = not_passed; last_time_passed = not_passed }

-- A `t` of another type becomes a `uint32_t` at the call.
unfoldable pub feed : {R : Type 0} → (R → Bool) → Debouncer → ℕ → R → Debouncer
feed passes_one d t new_value =
    let now = t % 2 ^ 32 in
    if passes_one new_value
    then record {
      first_time_passed = if d.first_time_passed == not_passed then now else d.first_time_passed;
      last_time_passed = now;
    }
    else new_debouncer

unfoldable pub passed : ℕ → Debouncer → Bool
passed duration d =
    if d.first_time_passed == not_passed || d.last_time_passed == not_passed
    then false
    else ltb duration ((d.last_time_passed + 2 ^ 32 - d.first_time_passed) % 2 ^ 32)
