-- ===== src/Zephyr/Codes.antt =====
-- The `int` that Zephyr's functions and the drivers return: a value of at least 0, or a negative
-- error code. The codes are told apart by name; their numbers are the C library's.
use backplane_flight_compute.Base.{ℕ, zero, suc, Bool, true, false}

pub data Errno : Type 0 where
  einval enotsup eio enodev enospc edom enotinit ealready enodata eperm : Errno
  other : ℕ → Errno

pub data Code : Type 0 where
  value : ℕ → Code
  error : Errno → Code

abbrev pub success : Code
success = value 0

-- `ret < 0`
abbrev pub is_negative : Code → Bool
is_negative (value n) = false
is_negative (error e) = true

-- `if (rc)`, `rc != 0`
abbrev pub is_nonzero : Code → Bool
is_nonzero (value zero) = false
is_nonzero (value (suc n)) = true
is_nonzero (error e) = true
