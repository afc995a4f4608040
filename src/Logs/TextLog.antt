-- ===== src/Logs/TextLog.antt =====
-- CFlightLog's messages (lib/f_core/os/flight_log.cpp), over Zephyr's file system, at times that are not
-- negative. `none` is a read outside the buffer of writeTimestamp.
pub mod Lines
use backplane_flight_compute.Base.{
  ℕ, zero, suc, ◌+◌, ◌-◌, ◌/◌, ◌%◌, min, Option, some, none, List, [], ◌∷◌, ◌++◌, if◌then◌else◌,
  ltb, leb, length, take, replicate,
}
use backplane_flight_compute.Zephyr.{Code, success, is_negative}

pub record Store (W : Type 0) : Type 0 where
  pub fs_write : List ℕ → W → Code × W

-- The decimal digits of a number below 10 ^ fuel
unfoldable pub digits : (fuel : ℕ) → ℕ → List ℕ
digits zero n = []
digits (suc fuel) n =
    let front = digits fuel (n / 10) in
    if ltb n 10 then (b'0' + n) ∷ [] else front ++ ((b'0' + n % 10) ∷ [])

-- 64 bits have at most 20 digits.
abbrev pub most_digits : ℕ
most_digits = 20

abbrev pub padding : List ℕ → List ℕ
padding ds = replicate (9 - length ds) b' '

-- What "%9lld: " is to print
abbrev pub printed : ℕ → List ℕ
printed timestamp =
    let ds = digits most_digits timestamp in padding ds ++ (ds ++ (b':' ∷ b' ' ∷ []))

abbrev pub buf_size : ℕ
buf_size = 12

-- What snprintf leaves in the buffer
abbrev pub buffer_of : List ℕ → List ℕ
buffer_of text = let kept = take (buf_size - 1) text in kept ++ replicate (buf_size - length kept) 0

module _ {W : Type 0} (store : Store W) where
  open store use {fs_write}

  unfoldable pub write_timestamp : ℕ → W → Option (Code × W)
  write_timestamp timestamp w =
      if leb (length (printed timestamp)) buf_size
      then some (fs_write (take (length (printed timestamp)) (buffer_of (printed timestamp))) w)
      else none

  abbrev pub write_newline : Code × W → Code × W
  write_newline (ret, w) =
      if is_negative ret
      then (ret, w)
      else let (ret', w') = fs_write (b'\n' ∷ []) w in
        (if is_negative ret' then ret' else success, w')

  abbrev pub write_message : List ℕ → Option (Code × W) → Option (Code × W)
  write_message msg none = none
  write_message msg (some (ret, w)) =
      some (if is_negative ret then (ret, w) else write_newline (fs_write msg w))

  unfoldable pub write : ℕ → List ℕ → W → Option (Code × W)
  write timestamp msg w = write_message msg (write_timestamp timestamp w)
