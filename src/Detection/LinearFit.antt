-- ===== src/Detection/LinearFit.antt =====
-- LinearFitSample and FindSlope of include/f_core/utils/linear_fit.hpp.
use backplane_flight_compute.Base.{ℕ, Bool, Option, none, some, if◌then◌else◌}
use backplane_flight_compute.Detection.Buffer.{size}
use backplane_flight_compute.Detection.Window.{Additive, RollingSum}

-- The arithmetic of `double`: `of_decimal n k` is the literal n / 10^k, and `pow` that of math.h.
pub record Real (R : Type 0) : Type 0 where
  pub add : R → R → R
  pub sub : R → R → R
  pub mul : R → R → R
  pub div : R → R → R
  pub lt : R → R → Bool
  pub eq : R → R → Bool
  pub fabs : R → R
  pub pow : R → R → R
  pub of_decimal : ℕ → ℕ → R

pub record LinearFitSample (R : Type 0) : Type 0 where
  pub x : R
  pub y : R
  pub xx : R
  pub xy : R

module _ {R : Type 0} (num : Real R) where
  abbrev pub of_nat : ℕ → R
  of_nat n = num.of_decimal n 0

  -- The constructor from two values
  abbrev pub fit_sample : R → R → LinearFitSample R
  fit_sample x y = record { x = x; y = y; xx = num.mul x x; xy = num.mul x y }

  -- operator+ and operator-
  abbrev pub fit_additive : Additive (LinearFitSample R)
  fit_additive = record {
    add = λ a o. record {
      x = num.add a.x o.x;
      y = num.add a.y o.y;
      xx = num.add a.xx o.xx;
      xy = num.add a.xy o.xy;
    };
    sub = λ a o. record {
      x = num.sub a.x o.x;
      y = num.sub a.y o.y;
      xx = num.sub a.xx o.xx;
      xy = num.sub a.xy o.xy;
    };
  }

  -- `none` for `false`; `slope` is then not written.
  unfoldable pub find_slope : RollingSum (LinearFitSample R) → Option R
  find_slope w =
      let n = of_nat (size w.buf) in
      let e = w.total in
      let denom = num.sub (num.mul n e.xx) (num.mul e.x e.x) in
      if num.eq denom (of_nat 0)
      then none
      else some (num.div (num.sub (num.mul n e.xy) (num.mul e.x e.y)) denom)
