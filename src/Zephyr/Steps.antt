-- ===== src/Zephyr/Steps.antt =====
-- A driver function as a state monad with early return. What it wrote before it returned stays
-- written, as in C.
use backplane_flight_compute.Base.{Bool, true, false, ◌≡◌, refl, ◌⊎◌, inl, inr}
use backplane_flight_compute.Zephyr.Codes.{Code, is_negative, is_nonzero}

-- `go` carries on with a value, `stop` has returned a code.
pub data Outcome {ℓ} (A : Type ℓ) : Type ℓ where
  go : A → Outcome A
  stop : Code → Outcome A

abbrev pub Driver : Type 0 → Type 0 → Type 0
Driver S A = S → Outcome A × S

abbrev pub resume : {S A B : Type 0} → Outcome A × S → (A → Driver S B) → Outcome B × S
resume (go a, s) f = f a s
resume (stop c, s) f = (stop c, s)

infixl 5 ◌>>=◌ ◌>>◌
abbrev pub ◌>>=◌ : {S A B : Type 0} → Driver S A → (A → Driver S B) → Driver S B
◌>>=◌ m f s = resume (m s) f

abbrev pub ◌>>◌ : {S B : Type 0} → Driver S (Unit {0}) → Driver S B → Driver S B
◌>>◌ m k s = resume (m s) (λ _. k)

abbrev pub pure : {S A : Type 0} → A → Driver S A
pure a s = (go a, s)

-- `return c;`
abbrev pub return : {S A : Type 0} → Code → Driver S A
return c s = (stop c, s)

abbrev pub modify : {S : Type 0} → (S → S) → Driver S (Unit {0})
modify f s = (go tt, f s)

abbrev pub gets : {S A : Type 0} → (S → A) → Driver S A
gets f s = (go (f s), s)

-- `if (test) return c;`
abbrev pub return_if : {S : Type 0} → Bool → Code → Driver S (Unit {0})
return_if true c s = (stop c, s)
return_if false c s = (go tt, s)

-- `if (ret < 0) return ret;`
abbrev pub check : {S : Type 0} → Code → Driver S (Unit {0})
check c = return_if (is_negative c) c

-- `if (ret != 0) return ret;`
abbrev pub check_zero : {S : Type 0} → Code → Driver S (Unit {0})
check_zero c = return_if (is_nonzero c) c

abbrev pub code_of : Outcome Code → Code
code_of (go c) = c
code_of (stop c) = c

-- A whole C function: it ends with the code that it returns.
abbrev pub run : {S : Type 0} → Driver S Code → S → Code × S
run m s = let (o, s') = m s in (code_of o, s')

-- The call of such a function from another one.
abbrev pub call : {S : Type 0} → Driver S Code → Driver S Code
call m s = let (o, s') = m s in (go (code_of o), s')

-- To split on how a step has ended.
pub Outcome-cases {ℓ} :
    {A : Type ℓ} (o : Outcome A) → ((c : Code) × (o ≡ stop c)) ⊎ ((a : A) × (o ≡ go a))
Outcome-cases (go a) = inr (a, refl)
Outcome-cases (stop c) = inl (c, refl)

-- How a step has ended, as its value.
abbrev pub attempt : {S : Type 0} {A : Type 0} → Driver S A → Driver S (Outcome A)
attempt m s = let (o, s') = m s in (go o, s')
