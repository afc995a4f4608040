-- ===== src/Radio/Alerts/Signature.antt =====
-- Which packets are alerts.
use backplane_flight_compute.Base.{
  ℕ, zero, suc, ◌+◌, ◌≤◌, ◌<◌, ◌≡◌, ◌↔◌, refl, ap, ◌∙◌, true, some, List, [], ◌∷◌, length, arith,
  take, drop, get_or, Bool-cases, inl, inr,
}
use backplane_flight_compute.Zephyr.{value}
use backplane_flight_compute.Radio.Alerts.{magic_byte_signature, is_signed, alert_of}

next : (i : ℕ) → suc (i + 1) ≡ suc i + 1
next i = omega arith

drop-get_or :
    (buffer : List ℕ) (i : ℕ)
    → i < length buffer
    → drop i buffer ≡ get_or buffer i 0 ∷ drop (i + 1) buffer
drop-get_or [] i h = absurd (omega arith)
drop-get_or (x ∷ buffer) zero h = refl
drop-get_or (x ∷ buffer) (suc i) h =
    drop-get_or buffer i (omega arith)
    ∙ ap (λ (k : ℕ). get_or buffer i 0 ∷ drop k (x ∷ buffer)) (next i)

-- The loop finds the signature exactly where it stands.
is_signed_lem :
    (signature buffer : List ℕ) (i : ℕ)
    → i + length signature ≤ length buffer
    → (is_signed signature i buffer ≡ true) ↔ (take (length signature) (drop i buffer) ≡ signature)
unfolding is_signed
is_signed_lem [] buffer i h = (λ e. refl, λ e. refl)
is_signed_lem (byte ∷ signature) buffer i h =
    let (there, back) = is_signed_lem signature buffer (i + 1) (omega arith) in
    rw (drop-get_or buffer i (omega arith)) (λ e. ground (arith, there), λ e. ground (arith, back))

-- What Run finds in the buffer of an alert packet: an alert type exactly when something was received, the
-- buffer starts with the signature, and the byte after that is the type.
alert_of_lem :
    (n kind : ℕ) (buffer : List ℕ)
    → length buffer ≡ 8
    → (alert_of (value n) buffer ≡ some kind)
      ↔ ((0 < n) × (take 6 buffer ≡ magic_byte_signature) × (get_or buffer 6 0 ≡ kind))
unfolding alert_of
alert_of_lem zero kind buffer l = (λ e. cc, λ e. absurd (omega (arith, e.0)))
alert_of_lem (suc n) kind buffer l = elim (Bool-cases (is_signed magic_byte_signature 0 buffer)) [
  | inl signed ↦
      let there = (is_signed_lem magic_byte_signature buffer 0 (omega arith)).0 signed in
      rw signed (λ e. (omega arith, there, ground (arith, e)), λ e. ap some e.2)
  | inr unsigned ↦
      let back = (is_signed_lem magic_byte_signature buffer 0 (omega arith)).1 in
      rw unsigned (λ e. cc, λ e. cc (back e.1))
]
