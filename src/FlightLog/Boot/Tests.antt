-- ===== src/FlightLog/Boot/Tests.antt =====
-- The count of boots in a file that is kept in memory.
use backplane_flight_compute.Base.{
  ℕ, ◌+◌, ◌≡◌, refl, ap, Bool, true, false, Option, none, some, List, [], ◌++◌, if◌then◌else◌,
  length, take, drop, arith,
}
use backplane_flight_compute.Zephyr.{
  Code, value, success, error, ealready, enodata, run, is_negative,
}
use backplane_flight_compute.FlightLog.Boot.{BootFile, boot_count_check}
use backplane_flight_compute.FlightLog.Boot.Counts.{IsKept, boot, after_boots, boot_counts}

-- The file's bytes, and the position in it
abbrev Disk : Type 0
Disk = Option (List ℕ) × ℕ

abbrev content : Option (List ℕ) → List ℕ
content none = []
content (some bytes) = bytes

abbrev stat_of : Option (List ℕ) → Code
stat_of none = error enodata
stat_of (some bytes) = success

abbrev open_of : Bool → Option (List ℕ) → Code × Disk
open_of create none = if create then (success, (some [], 0)) else (error enodata, (none, 0))
open_of create (some bytes) = (success, (some bytes, 0))

abbrev disk : BootFile Disk
disk = record {
  fs_stat = λ w. stat_of w.0;
  fs_open = λ create w. open_of create w.0;
  fs_write = λ new w. (
    value (length new),
    (
      some (take w.1 (content w.0) ++ (new ++ drop (w.1 + length new) (content w.0))),
      w.1 + length new,
    ),
  );
  fs_read = λ len w.
      let found = take len (drop w.1 (content w.0)) in
      (value (length found), found, (w.0, w.1 + length found));
  fs_rewind = λ w. (success, (w.0, 0));
  fs_close = λ w. (success, w);
}

disk-IsKept : IsKept disk (λ c w. w.0 ≡ c) (λ bytes p w. w ≡ (some bytes, p))
disk-IsKept = record {
  missing = λ w h. ap (λ c. is_negative (stat_of c)) h;
  found = λ bytes w h. ap (λ c. is_negative (stat_of c)) h;
  created = λ w h. (ap (λ c. (open_of true c).0) h, ap (λ c. (open_of true c).1) h);
  opened = λ bytes w h. (ap (λ c. (open_of false c).0) h, ap (λ c. (open_of false c).1) h);
  writes = λ bytes new p w e. (refl, ap (λ v. (disk.fs_write new v).1) e);
  reads = λ bytes p len w e. (
    ap (λ v. (disk.fs_read len v).0) e,
    ap (λ v. (disk.fs_read len v).1) e,
    ap (λ v. (disk.fs_read len v).2) e,
  );
  rewound = λ bytes p w e. (refl, ap (λ v. (disk.fs_rewind v).1) e);
  closed = λ bytes p w e. (refl, ap (λ v. v.0) e);
}

boot_counts_example :
    let (ret, m) = boot disk (after_boots disk 2 (none, 0)) in
    (ret ≡ value 3) × (run (boot_count_check disk) m ≡ (error ealready, m))
boot_counts_example =
    boot_counts disk (λ c w. w.0 ≡ c) (λ bytes p w. w ≡ (some bytes, p)) disk-IsKept 2 (none, 0)
      (omega arith) refl
