-- ===== src/Logs/Tests.antt =====
-- The logs over a file in memory.
use backplane_flight_compute.Base.{
  ℕ, ◌+◌, ◌*◌, ◌≤◌, ◌≡◌, refl, List, [], ◌∷◌, ◌++◌, if◌then◌else◌, leb, length, arith, inl, some,
}
use backplane_flight_compute.Zephyr.{value, success}
use backplane_flight_compute.Logs.Datalogger.{Disk, circular}
use backplane_flight_compute.Logs.Datalogger.Sizes.{IsFile, writes_all, log_stays_within}
use backplane_flight_compute.Logs.TextLog.{Store, padding}
use backplane_flight_compute.Logs.TextLog as TextLog
use backplane_flight_compute.Logs.TextLog.Lines.{value_from, line_lem}

-- Position and size
abbrev disk : Disk (ℕ × ℕ)
disk = record {
  fs_write = λ bytes w. (
    value (length bytes),
    (w.0 + length bytes, if leb (w.0 + length bytes) w.1 then w.1 else w.0 + length bytes),
  );
  fs_tell = λ w. value w.0;
  fs_seek_start = λ w. (success, (0, w.1));
  enospc = 28;
}

disk-IsFile : IsFile disk (λ w. w.0) (λ w. w.1)
disk-IsFile = record {
  tells = λ w. refl;
  rewinds = λ w. refl;
  rewind_keeps = λ w. refl;
  writes = λ bytes w. inl (refl, refl);
}

abbrev packets : List (List ℕ)
packets = (1 ∷ 2 ∷ []) ∷ (3 ∷ 4 ∷ []) ∷ (5 ∷ 6 ∷ []) ∷ (7 ∷ 8 ∷ []) ∷ []

log_stays_within_example :
    (writes_all disk (record { mode = circular; num_packets = 3 }) packets (0, 0)).1 ≤ 3 * 2
log_stays_within_example =
    log_stays_within disk (λ w. w.0) (λ w. w.1) disk-IsFile 3 2 (omega arith) (omega arith) circular
      packets (0, 0) refl refl (λ e. cc) (refl, (refl, (refl, (refl, tt))))

-- A file as its content
abbrev store : Store (List ℕ)
store = record { fs_write = λ bytes w. (value (length bytes), w ++ bytes) }

line_lem_example :
    (ds : List ℕ) × (w' : List ℕ) × (TextLog.write store 12345 (b'h' ∷ b'i' ∷ []) []
      ≡ some (success, w'))
    × (w' ≡ padding ds ++ (ds ++ (b':' ∷ b' ' ∷ b'h' ∷ b'i' ∷ b'\n' ∷ [])))
    × (length (padding ds ++ ds) ≡ 9)
    × (value_from 0 ds ≡ 12345)
line_lem_example =
    line_lem store (λ w. w) (λ bytes w. refl) (λ bytes w. refl) 12345 (b'h' ∷ b'i' ∷ []) []
      (omega arith)
