-- ===== src/Base/Bits.antt =====
-- `|` of numbers without a common bit.
use Prim.Native.Nat.{ℕ, ◌+◌, ◌*◌, ◌<◌, bit_or}
use mathlib.Core.Path.{◌≡◌, refl}
use mathlib.Core.Bool.{Bool, true}
use native.Mathlib.Omega.{arith}
use backplane_flight_compute.Base.Tests.{◌==◌, passes_below, passes_below-at}

-- The join of every high part below `bound` with every low part below `weight` is their sum.
abbrev pub joins_below : ℕ → ℕ → Bool
joins_below bound weight =
    passes_below bound
      (λ high. passes_below weight (λ low. bit_or (high * weight) low == high * weight + low))

pub joined :
    (bound weight high low : ℕ)
    → joins_below bound weight ≡ true
    → high < bound
    → low < weight
    → bit_or (high * weight) low ≡ high * weight + low
joined bound weight high low table h l =
    let row = passes_below-at bound _ high table h in
    let entry = passes_below-at weight _ low row l in ground (arith, entry)

byte_table : joins_below 256 256 ≡ true
unfolding passes_below
byte_table = refl

-- Two bytes as a word.
pub word_of_bytes :
    (high low : ℕ) → high < 256 → low < 256 → bit_or (high * 256) low ≡ high * 256 + low
word_of_bytes high low h l = joined 256 256 high low byte_table h l
