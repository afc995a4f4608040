-- ===== src/Detection/Buffer.antt =====
-- CCircularBuffer of include/f_core/utils/circular_buffer.hpp. `std::size_t` has 32 bits on the flight
-- computer. `none` is a read outside the array.
pub mod Samples
use backplane_flight_compute.Base.{
  ℕ, suc, ◌+◌, ◌-◌, ◌%◌, ◌^◌, Option, List, set, get_elem?, replicate, length,
}

pub record CircularBuffer {ℓ} (A : Type ℓ) : Type ℓ where
  pub oldest_index : ℕ
  pub underlying : List A

module _ {ℓ} {A : Type ℓ} where
  abbrev pub size : CircularBuffer A → ℕ
  size b = length b.underlying

  -- The constructor, for `Length` elements
  abbrev pub new_buffer : ℕ → A → CircularBuffer A
  new_buffer n value = record { oldest_index = 0; underlying = replicate n value }

  unfoldable pub fill : A → CircularBuffer A → CircularBuffer A
  fill value b = record b { underlying = replicate (size b) value }

  unfoldable pub add_sample : CircularBuffer A → A → CircularBuffer A
  add_sample b value = record {
    oldest_index = (b.oldest_index + 1) % 2 ^ 32 % size b;
    underlying = set b.underlying b.oldest_index value;
  }

  unfoldable pub oldest_sample : CircularBuffer A → Option A
  oldest_sample b = get_elem? b.underlying b.oldest_index

  -- The test `newset_index < 0` is of an unsigned number: it never holds.
  unfoldable pub newest_sample : CircularBuffer A → Option A
  newest_sample b = get_elem? b.underlying ((b.oldest_index + 2 ^ 32 - 1) % 2 ^ 32)

  -- operator[]
  unfoldable pub sample_at : CircularBuffer A → ℕ → Option A
  sample_at b index = get_elem? b.underlying ((b.oldest_index + index) % 2 ^ 32 % size b)
