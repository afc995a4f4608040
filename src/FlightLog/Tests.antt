-- ===== src/FlightLog/Tests.antt =====
-- A circular log of two frames, on a file system that is its position.
use backplane_flight_compute.Base.{ℕ, ◌+◌, ◌≢◌, refl, true, none, [], ◌∷◌, length, arith}
use backplane_flight_compute.Zephyr.{Code, value, success, error, eio}
use backplane_flight_compute.FlightLog.File.{FileSystem, LogFile, slog_circ, other_mode, l_fs_write}
use backplane_flight_compute.FlightLog.Frames.{IsSeekable, IsInside, l_fs_write-IsInside}

abbrev place : Code → ℕ
place (value p) = p
place (error e) = 0

abbrev fs : FileSystem ℕ
fs = record {
  open_or_create = λ w. (success, w);
  sync = λ w. (success, w);
  seek = λ p w. (success, place p);
  write = λ bytes w. (value (length bytes), w + length bytes);
  read = λ n w. (success, [], w + n);
  tell = λ w. value w;
  number = λ e. 5;
}

-- One that can write nothing.
abbrev full : FileSystem ℕ
full = record fs { write = λ bytes w. (error eio, w) }

fs-IsSeekable : IsSeekable fs
fs-IsSeekable = record {
  seek_tell = λ p w h. refl;
  write_tell = λ bytes w p h at. (w + length bytes, refl, ground (arith, at));
}

abbrev log : LogFile
log = record { initialized = true; mode = slog_circ; width = 3; size = 6; wpos = value 6 }

slog_circ_is_known : slog_circ ≢ other_mode
slog_circ_is_known h = cc

l_fs_write-IsInside_example : IsInside (l_fs_write fs log (1 ∷ 2 ∷ 3 ∷ []) none 6).2
l_fs_write-IsInside_example =
    l_fs_write-IsInside fs fs-IsSeekable log (1 ∷ 2 ∷ 3 ∷ []) none 6 slog_circ_is_known refl
      (omega arith, omega arith)
