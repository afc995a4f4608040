-- ===== src/Detection/Window.antt =====
-- CRollingSum of include/f_core/utils/linear_fit.hpp, over the numbers of any type, and
-- the slope of a linear fit over such a window.
pub mod Totals
use backplane_flight_compute.Base.{ℕ, zero, suc, ◌+◌, ◌-◌, ◌%◌, ◌^◌, get_or}
use backplane_flight_compute.Detection.Buffer.{CircularBuffer, size, new_buffer, fill, add_sample}

-- `+` and `-` of the template's type
pub record Additive {ℓ} (A : Type ℓ) : Type ℓ where
  pub add : A → A → A
  pub sub : A → A → A

pub record RollingSum {ℓ} (A : Type ℓ) : Type ℓ where
  pub total : A
  pub buf : CircularBuffer A

module _ {ℓ} {A : Type ℓ} (num : Additive A) where
  -- `buf[i]`, of an array that is not empty
  abbrev pub element : CircularBuffer A → A → ℕ → A
  element b start i = get_or b.underlying ((b.oldest_index + i) % 2 ^ 32 % size b) start

  -- The loop of Fill, with `n` rounds left at `i`.
  unfoldable pub total_from : ℕ → ℕ → CircularBuffer A → A → A → A
  total_from zero i b start total = total
  total_from (suc n) i b start total =
      total_from n (suc i) b start (num.add total (element b start i))

  unfoldable pub fill_sum : A → RollingSum A → RollingSum A
  fill_sum start w =
      let buf = fill start w.buf in
      record {
        total =
            total_from (size buf - 1) 1 buf start (get_or buf.underlying buf.oldest_index start);
        buf = buf;
      }

  -- The constructor, for `len` elements
  unfoldable pub new_sum : ℕ → A → RollingSum A
  unfolding fill_sum
  new_sum len start = fill_sum start (record { total = start; buf = new_buffer len start })

  unfoldable pub feed : RollingSum A → A → RollingSum A
  feed w value =
      let oldest = get_or w.buf.underlying w.buf.oldest_index value in
      record { total = num.add (num.sub w.total oldest) value; buf = add_sample w.buf value }
