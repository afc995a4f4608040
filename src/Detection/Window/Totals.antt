-- ===== src/Detection/Window/Totals.antt =====
-- The total of a rolling sum against the values that it was fed.
use mathlib.Core.List.{append-nil, append_assoc}
use backplane_flight_compute.Base.{
  ℕ, zero, suc, ◌+◌, ◌-◌, ◌%◌, ◌^◌, ◌<◌, ◌≡◌, refl, ◌∙◌, List, [], ◌∷◌, ◌++◌, drop, take, get_or,
  get_or-replicate, replicate, length, length-replicate, arith,
}
use backplane_flight_compute.Detection.Buffer.{CircularBuffer, new_buffer, fill}
use backplane_flight_compute.Detection.Buffer.Samples.{
  IsRing, samples, samples-add_sample, add_sample-IsRing,
}
use backplane_flight_compute.Detection.Window.{Additive, RollingSum, total_from, feed, new_sum}

module _ {A : Type 0} (num : Additive A) where
  -- A number of copies of a value, added one after the other
  unfoldable pub add_copies : ℕ → A → A → A
  add_copies zero x total = total
  add_copies (suc n) x total = add_copies n x (num.add total x)

  -- For each new value, the old one in its place is taken off, then the new one added.
  unfoldable pub slide : A → List A → List A → A
  slide total olds [] = total
  slide total [] (v ∷ news) = total
  slide total (o ∷ olds) (v ∷ news) = slide (num.add (num.sub total o) v) olds news

  -- A window after feeds, in their order
  abbrev pub feeds : RollingSum A → List A → RollingSum A
  feeds w [] = w
  feeds w (v ∷ vs) = feeds (feed num w v) vs

  drop_head :
      (xs ys : List A) (i : ℕ) (d : A)
      → i < length xs
      → drop i xs ++ ys ≡ get_or xs i d ∷ drop 1 (drop i xs ++ ys)
  drop_head [] ys i d h = absurd (omega arith)
  drop_head (x ∷ xs) ys zero d h = refl
  drop_head (x ∷ xs) ys (suc i) d h = drop_head xs ys i d (omega arith)

  samples_head :
      (b : CircularBuffer A) (d : A)
      → IsRing b
      → samples b ≡ get_or b.underlying b.oldest_index d ∷ drop 1 (samples b)
  unfolding samples
  samples_head b d r =
      drop_head b.underlying (take b.oldest_index b.underlying) b.oldest_index d r.inside

  -- From any window, what has been fed slides over what the buffer held.
  feeds_lem :
      (w : RollingSum A) (values : List A)
      → IsRing w.buf
      → (feeds w values).total ≡ slide w.total (samples w.buf ++ values) values
  unfolding feed slide
  feeds_lem w [] r = refl
  feeds_lem w (v ∷ vs) r =
      feeds_lem (feed num w v) vs (add_sample-IsRing w.buf v r)
      ∙ rw
          (
            samples-add_sample w.buf v r,
            append_assoc (drop 1 (samples w.buf)) (v ∷ []) vs,
            samples_head w.buf v r,
          )
          refl

  total_from_lem :
      (n i len : ℕ) (b : CircularBuffer A) (start total : A)
      → b.underlying ≡ replicate len start
      → total_from num n i b start total ≡ add_copies n start total
  unfolding total_from add_copies
  total_from_lem zero i len b start total h = refl
  total_from_lem (suc n) i len b start total h =
      total_from_lem n (suc i) len b start _ h
      ∙ rw
          (
            h,
            get_or-replicate len ((b.oldest_index + i) % 2 ^ 32 % length (replicate len start))
                start,
          )
          refl

  -- Whatever the arithmetic, rounding included: a window of `len` elements, above 0 and below 2 ^ 31, that
  -- starts full of one value and is fed any values has the total that comes of adding `len` copies of the
  -- starting value, and then for each value, in order, taking off the one fed `len` feeds before it, or
  -- the starting value where there were fewer, and adding it.
  pub rolling_sum_lem :
      (len : ℕ) (start : A) (values : List A)
      → 0 < len
      → len < 2 ^ 31
      → (feeds (new_sum num len start) values).total
        ≡ slide (add_copies (len - 1) start start) (replicate len start ++ values) values
  unfolding new_sum fill samples
  rolling_sum_lem zero start values h fits = absurd (omega arith)
  rolling_sum_lem (suc len) start values h fits =
      let count = length-replicate len start in
      let again = length-replicate (length (replicate len start)) start in
      let rounds : suc (length (replicate (length (replicate len start)) start)) - 1 ≡ len =
        omega (arith, count, again) in
      let less : suc len - 1 ≡ len = omega arith in
      let ring : IsRing (new_sum num (suc len) start).buf = record {
        inside = omega arith;
        fits = omega (arith, count, again);
      } in
      feeds_lem (new_sum num (suc len) start) values ring
      ∙ rw
          (
            rounds,
            less,
            count,
            append-nil (replicate len start),
            total_from_lem len 1 (suc len) (new_buffer (suc len) start) start start refl,
          )
          refl
