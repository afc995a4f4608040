-- ===== src/Detection/Buffer/Samples.antt =====
-- A circular buffer as the sequence of its samples, the oldest first.
use native.Mathlib.Nat.{mod-eq_of_lt, mod-eq-sub-mod}
use mathlib.Core.List.{append_assoc, append-nil}
use backplane_flight_compute.Base.{
  ℕ, zero, suc, ◌+◌, ◌-◌, ◌%◌, ◌^◌, ◌≤◌, ◌<◌, ◌≡◌, ◌⊎◌, inl, inr, refl, ap, ◌∙◌, sym, Bool-cases,
  none, List, [], ◌∷◌, ◌++◌, set, get_elem?, take, drop, length, length-append, length-set,
  length-drop, length-take, if◌then◌else◌, ltb, arith,
}
use backplane_flight_compute.Detection.Buffer.{
  CircularBuffer, size, add_sample, newest_sample, sample_at,
}

wrap_index :
    (k i n : ℕ)
    → k < n
    → i ≤ n
    → n < 2 ^ 31
    → (k + i) % 2 ^ 32 % n ≡ (if ltb (k + i) n then k + i else k + i - n)
wrap_index k i n h g fits =
    let small : (k + i) % 2 ^ 32 ≡ k + i = omega arith in
    rw small (grind (arith, mod-eq_of_lt, mod-eq-sub-mod))

module _ {A : Type 0} where
  drop-set : (xs : List A) (i : ℕ) (v : A) → drop (suc i) (set xs i v) ≡ drop (suc i) xs
  drop-set [] i v = refl
  drop-set (x ∷ xs) zero v = refl
  drop-set (x ∷ xs) (suc i) v = drop-set xs i v

  take-set :
      (xs : List A) (i : ℕ) (v : A)
      → i < length xs
      → take (suc i) (set xs i v) ≡ take i xs ++ (v ∷ [])
  take-set [] i v h = absurd (omega arith)
  take-set (x ∷ xs) zero v h = refl
  take-set (x ∷ xs) (suc i) v h = ap (λ l. x ∷ l) (take-set xs i v (omega arith))

  -- The first of a sequence that starts with a part of another one
  drop-append :
      (xs ys : List A) (i : ℕ) → i < length xs → drop 1 (drop i xs ++ ys) ≡ drop (suc i) xs ++ ys
  drop-append [] ys i h = absurd (omega arith)
  drop-append (x ∷ xs) ys zero h = refl
  drop-append (x ∷ xs) ys (suc i) h = drop-append xs ys i (omega arith)

  drop_all : (xs : List A) → drop (length xs) xs ≡ []
  drop_all [] = refl
  drop_all (x ∷ xs) = drop_all xs

  take_all : (xs : List A) → take (length xs) xs ≡ xs
  take_all [] = refl
  take_all (x ∷ xs) = ap (λ l. x ∷ l) (take_all xs)

  get_elem?-append :
      (xs ys : List A) (i : ℕ)
      → get_elem? (xs ++ ys) i
        ≡ (if ltb i (length xs) then get_elem? xs i else get_elem? ys (i - length xs))
  get_elem?-append [] ys i = ground arith
  get_elem?-append (x ∷ xs) ys zero = ground arith
  get_elem?-append (x ∷ xs) ys (suc i) = ground (arith, get_elem?-append xs ys i)

  get_elem?-drop : (xs : List A) (k i : ℕ) → get_elem? (drop k xs) i ≡ get_elem? xs (k + i)
  get_elem?-drop xs zero i = ground arith
  get_elem?-drop [] (suc k) i = refl
  get_elem?-drop (x ∷ xs) (suc k) i = ground (arith, get_elem?-drop xs k i)

  get_elem?-take : (xs : List A) (k i : ℕ) → i < k → get_elem? (take k xs) i ≡ get_elem? xs i
  get_elem?-take xs zero i h = absurd (omega arith)
  get_elem?-take [] (suc k) i h = refl
  get_elem?-take (x ∷ xs) (suc k) zero h = refl
  get_elem?-take (x ∷ xs) (suc k) (suc i) h = get_elem?-take xs k i (omega arith)

  -- The index is inside the array, which is not so large that adding to the index wraps.
  pub record IsRing (b : CircularBuffer A) : Type 0 where
    pub inside : b.oldest_index < size b
    pub fits : size b < 2 ^ 31

  -- The samples, the oldest first.
  unfoldable pub samples : CircularBuffer A → List A
  samples b = drop b.oldest_index b.underlying ++ take b.oldest_index b.underlying

  pub add_sample-IsRing :
      (b : CircularBuffer A) (value : A) → IsRing b → IsRing (add_sample b value)
  unfolding add_sample
  add_sample-IsRing b value r = record {
    inside = ground (
      arith,
      length-set b.underlying b.oldest_index value,
      wrap_index b.oldest_index 1 (size b) r.inside,
    );
    fits = omega (arith, length-set b.underlying b.oldest_index value, r.fits);
  }

  -- A new sample comes last, and the oldest one goes.
  pub samples-add_sample :
      (b : CircularBuffer A) (value : A)
      → IsRing b
      → samples (add_sample b value) ≡ drop 1 (samples b) ++ (value ∷ [])
  unfolding samples add_sample
  samples-add_sample b value r =
      let xs = b.underlying in
      let k = b.oldest_index in
      elim (Bool-cases (ltb (k + 1) (size b))) [
        | inl more ↦
            let e : (k + 1) % 2 ^ 32 % size b ≡ suc k =
              ground (arith, wrap_index k 1 (size b) r.inside) in
            rw
              (
                e,
                drop-set xs k value,
                take-set xs k value r.inside,
                drop-append xs (take k xs) k r.inside,
              )
              (sym (append_assoc (drop (suc k) xs) (take k xs) (value ∷ [])))
        | inr last ↦
            let e : (k + 1) % 2 ^ 32 % size b ≡ 0 =
              ground (arith, wrap_index k 1 (size b) r.inside) in
            let end : suc k ≡ length xs = ground (arith, r.inside) in
            let whole : set xs k value ≡ take k xs ++ (value ∷ []) =
              sym (take_all (set xs k value))
              ∙ (rw (length-set xs k value, ← end) (take-set xs k value r.inside)) in
            let none_left : drop (suc k) xs ≡ [] = rw end (drop_all xs) in
            rw (e, drop-append xs (take k xs) k r.inside, none_left)
              (append-nil (set xs k value) ∙ whole)
      ]

  -- The indices count the samples from the oldest.
  pub sample_at-eq-get_elem? :
      (b : CircularBuffer A) (i : ℕ)
      → IsRing b
      → i < size b
      → sample_at b i ≡ get_elem? (samples b) i
  unfolding sample_at samples
  sample_at-eq-get_elem? b i r h = ground (
    arith,
    wrap_index b.oldest_index i (size b) r.inside,
    get_elem?-append (drop b.oldest_index b.underlying) (take b.oldest_index b.underlying) i,
    get_elem?-drop b.underlying b.oldest_index i,
    get_elem?-take b.underlying b.oldest_index (i - (size b - b.oldest_index)),
    length-drop b.oldest_index b.underlying,
  )

  length-samples : (b : CircularBuffer A) → IsRing b → length (samples b) ≡ size b
  unfolding samples
  length-samples b r = omega (
    arith,
    length-append (drop b.oldest_index b.underlying) (take b.oldest_index b.underlying),
    length-drop b.oldest_index b.underlying,
    length-take b.oldest_index b.underlying,
    r.inside,
  )

  -- A buffer after additions, in their order
  abbrev pub add_samples : CircularBuffer A → List A → CircularBuffer A
  add_samples b [] = b
  add_samples b (v ∷ vs) = add_samples (add_sample b v) vs

  drop_first :
      (xs ys : List A) (k : ℕ) → 0 < length xs → drop (suc k) (xs ++ ys) ≡ drop k (drop 1 xs ++ ys)
  drop_first [] ys k h = absurd (omega arith)
  drop_first (x ∷ xs) ys k h = refl

  -- With the index inside an array of less than 2 ^ 31 elements: after any additions the buffer holds the
  -- samples that it had followed by the added ones, less as many of the oldest as were added.
  pub samples-add_samples :
      (b : CircularBuffer A) (vs : List A)
      → IsRing b
      → samples (add_samples b vs) ≡ drop (length vs) (samples b ++ vs)
  samples-add_samples b [] r = sym (append-nil (samples b))
  samples-add_samples b (v ∷ vs) r =
      samples-add_samples (add_sample b v) vs (add_sample-IsRing b v r)
      ∙ rw (samples-add_sample b v r, append_assoc (drop 1 (samples b)) (v ∷ []) vs)
          (sym (
            drop_first (samples b) (v ∷ vs) (length vs)
              (omega (arith, length-samples b r, r.inside))))

  get_elem?-none : (xs : List A) (i : ℕ) → length xs ≤ i → get_elem? xs i ≡ none
  get_elem?-none [] i h = refl
  get_elem?-none (x ∷ xs) zero h = absurd (omega arith)
  get_elem?-none (x ∷ xs) (suc i) h = get_elem?-none xs i (omega arith)

  -- With the index inside an array of less than 2 ^ 31 elements: `NewestSample` gives the last sample, or,
  -- when the index of the oldest one is 0, reads outside the array.
  newest_sample_lem :
      (b : CircularBuffer A)
      → IsRing b
      → ((0 < b.oldest_index) × (newest_sample b ≡ get_elem? (samples b) (size b - 1)))
        ⊎ ((b.oldest_index ≡ 0) × (newest_sample b ≡ none))
  unfolding newest_sample sample_at
  newest_sample_lem b r = elim (Bool-cases (ltb 0 b.oldest_index)) [
    | inl later ↦
        let h : 0 < b.oldest_index = ground arith in
        inl (
          h,
          ap (get_elem? b.underlying)
                (ground (arith, wrap_index b.oldest_index (size b - 1) (size b) r.inside, r.inside))
              ∙ sample_at-eq-get_elem? b (size b - 1) r (omega (arith, r.inside)),
        )
    | inr first ↦
        let zero_index : b.oldest_index ≡ 0 = ground arith in
        inr (zero_index, get_elem?-none b.underlying _ (omega (arith, zero_index, r.fits)))
  ]
