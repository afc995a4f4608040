-- ===== src/Logs/TextLog/Lines.antt =====
-- The lines of the log.
use mathlib.Core.List.{append_assoc}
use backplane_flight_compute.Base.{
  take-append, ℕ, zero, suc, ◌+◌, ◌-◌, ◌*◌, ◌/◌, ◌%◌, ◌≤◌, ◌<◌, ◌^◌, ◌≡◌, refl, sym, ap, ◌∙◌, subst,
  true, some, List, [], ◌∷◌, ◌++◌, ltb, leb, length, length-append, length-replicate, take,
  replicate, arith, Bool-cases, inl, inr,
}
use backplane_flight_compute.Zephyr.{value, success}
use backplane_flight_compute.Logs.TextLog.{
  Store, digits, most_digits, padding, printed, buf_size, buffer_of, write, write_timestamp,
}

-- 10 ^ k
abbrev ten : ℕ → ℕ
ten zero = 1
ten (suc k) = 10 * ten k

-- The number that digits stand for
abbrev pub value_from : ℕ → List ℕ → ℕ
value_from acc [] = acc
value_from acc (d ∷ ds) = value_from (acc * 10 + (d - b'0')) ds

value_from-append :
    (acc : ℕ) (ds : List ℕ) (d : ℕ)
    → value_from acc (ds ++ (d ∷ [])) ≡ value_from acc ds * 10 + (d - b'0')
value_from-append acc [] d = refl
value_from-append acc (x ∷ ds) d = value_from-append (acc * 10 + (x - b'0')) ds d

take-length : (xs : List ℕ) → take (length xs) xs ≡ xs
take-length [] = refl
take-length (x ∷ xs) = ap (λ (r : List ℕ). x ∷ r) (take-length xs)

value-digits : (fuel n : ℕ) → n < ten fuel → value_from 0 (digits fuel n) ≡ n
unfolding digits
value-digits zero n h = omega arith
value-digits (suc fuel) n h = elim (Bool-cases (ltb n 10)) [
  | inl small ↦ rw small (omega arith)
  | inr large ↦ rw large (
      omega (
        arith,
        value_from-append 0 (digits fuel (n / 10)) (b'0' + n % 10),
        value-digits fuel (n / 10) (omega arith),
      ))
]

length-digits : (fuel k n : ℕ) → n < ten (suc k) → length (digits fuel n) ≤ suc k
unfolding digits
length-digits zero k n h = omega arith
length-digits (suc fuel) zero n h = ground arith
length-digits (suc fuel) (suc k) n h = elim (Bool-cases (ltb n 10)) [
  | inl small ↦ rw small (omega arith)
  | inr large ↦ rw large (
      omega (
        arith,
        length-append (digits fuel (n / 10)) ((b'0' + n % 10) ∷ []),
        length-digits fuel k (n / 10) (omega arith),
      ))
]

length-printed : (t : ℕ) → t < ten 9 → length (printed t) ≡ 11
length-printed t h =
    let ds = digits most_digits t in
    omega (
      arith,
      length-append (padding ds) (ds ++ (b':' ∷ b' ' ∷ [])),
      length-append ds (b':' ∷ b' ' ∷ []),
      length-replicate {A = ℕ} (9 - length ds) b' ',
      length-digits most_digits 8 t h,
    )

-- A text of 11 characters stands in the buffer.
buffered : (text : List ℕ) → length text ≡ 11 → take (length text) (buffer_of text) ≡ text
buffered text l =
    let whole : take 11 text ≡ text = subst (λ (k : ℕ). take k text ≡ text) l (take-length text) in
    subst
      (λ (kept : List ℕ). take (length text) (kept ++ replicate (buf_size - length kept) 0) ≡ text)
      (sym whole) (take-append text _)

module _ {W : Type 0} (store : Store W) (content : W → List ℕ)
    (returns : (bytes : List ℕ) (w : W) → (store.fs_write bytes w).0 ≡ value (length bytes))
    (appends : (bytes : List ℕ) (w : W)
      → content (store.fs_write bytes w).1 ≡ content w ++ bytes) where
  stamped :
      (t : ℕ) (w : W) → t < ten 9 → write_timestamp store t w ≡ some (store.fs_write (printed t) w)
  unfolding write_timestamp
  stamped t w h =
      let l = length-printed t h in
      let fits : leb (length (printed t)) 12 ≡ true = ground (arith, l) in
      rw fits (ap (λ (bytes : List ℕ). some (store.fs_write bytes w)) (buffered (printed t) l))

  -- On a file that stores what is written, at a time of less than 10 ^ 9 ms: a message is written as a line of
  -- spaces and the digits of the time, nine characters together, a colon, a space, the message and a
  -- newline, at the end of the file; the result is 0, and the digits can be read back as the time.
  pub line_lem :
      (t : ℕ) (msg : List ℕ) (w : W)
      → t < 10 ^ 9
      → (ds : List ℕ) × (w' : W) × (write store t msg w ≡ some (success, w'))
        × (content w' ≡ content w ++ (padding ds ++ (ds ++ (b':' ∷ b' ' ∷ (msg ++ (b'\n' ∷ []))))))
        × (length (padding ds ++ ds) ≡ 9)
        × (value_from 0 ds ≡ t)
  unfolding write
  line_lem t msg w h =
      let ds = digits most_digits t in
      let w₁ = (store.fs_write (printed t) w).1 in
      let w₂ = (store.fs_write msg w₁).1 in
      let there =
        appends (b'\n' ∷ []) w₂
        ∙ ap (λ (c : List ℕ). c ++ (b'\n' ∷ []))
            (appends msg w₁ ∙ ap (λ (c : List ℕ). c ++ msg) (appends (printed t) w)) in
      (
        ds,
        (store.fs_write (b'\n' ∷ []) w₂).1,
        rw (stamped t w h)
            (rw (returns (printed t) w) (rw (returns msg w₁) (rw (returns (b'\n' ∷ []) w₂) refl))),
        there ∙ simp append_assoc,
        omega (
          arith,
          length-append (padding ds) ds,
          length-replicate {A = ℕ} (9 - length ds) b' ',
          length-digits most_digits 8 t h,
        ),
        value-digits most_digits t (omega arith),
      )
