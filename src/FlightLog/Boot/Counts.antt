-- ===== src/FlightLog/Boot/Counts.antt =====
-- What the boots count to.
use backplane_flight_compute.Base.{
  ℕ, zero, suc, ◌+◌, ◌^◌, ◌<◌, ◌≡◌, refl, sym, subst, ap, Bool, true, false, Option, none, some,
  List, [], ◌++◌, length, take, drop, ltb, arith,
}
use backplane_flight_compute.Zephyr.{
  Code, value, success, error, ealready, is_negative, run, Machine,
}
use backplane_flight_compute.FlightLog.Boot.{
  BootFile, bytes_of, count_of, next_count, returned, boot_count_check,
}

-- A file system that keeps the file: closed it `Holds` its bytes, or nothing before it is made; open it
-- `IsAt` a position with its bytes. No call fails.
pub record IsKept {W : Type 0} (file : BootFile W) (Holds : Option (List ℕ) → W → Type 0)
    (IsAt : List ℕ → ℕ → W → Type 0) : Type 0 where
  pub missing : (w : W) → Holds none w → is_negative (file.fs_stat w) ≡ true
  pub found : (bytes : List ℕ) (w : W) → Holds (some bytes) w → is_negative (file.fs_stat w) ≡ false
  pub created :
      (w : W)
      → Holds none w
      → ((file.fs_open true w).0 ≡ success) × IsAt [] 0 (file.fs_open true w).1
  pub opened :
      (bytes : List ℕ) (w : W)
      → Holds (some bytes) w
      → ((file.fs_open false w).0 ≡ success) × IsAt bytes 0 (file.fs_open false w).1
  pub writes :
      (bytes new : List ℕ) (p : ℕ) (w : W)
      → IsAt bytes p w
      → ((file.fs_write new w).0 ≡ value (length new))
        × IsAt
            (take p bytes ++ (new ++ drop (p + length new) bytes))
            (p + length new)
            (file.fs_write new w).1
  pub reads :
      (bytes : List ℕ) (p len : ℕ) (w : W)
      → IsAt bytes p w
      → let found = take len (drop p bytes) in
        ((file.fs_read len w).0 ≡ value (length found))
        × ((file.fs_read len w).1 ≡ found)
        × IsAt bytes (p + length found) (file.fs_read len w).2
  pub rewound :
      (bytes : List ℕ) (p : ℕ) (w : W)
      → IsAt bytes p w
      → ((file.fs_rewind w).0 ≡ success) × IsAt bytes 0 (file.fs_rewind w).1
  pub closed :
      (bytes : List ℕ) (p : ℕ) (w : W)
      → IsAt bytes p w
      → ((file.fs_close w).0 ≡ success) × Holds (some bytes) (file.fs_close w).1

next_count-bytes_of : (n : ℕ) → n + 1 < 2 ^ 31 → next_count (bytes_of n) ≡ n + 1
unfolding next_count count_of bytes_of
next_count-bytes_of n h = omega arith

-- What the file holds after `n` boots
abbrev pub kept : ℕ → Option (List ℕ)
kept zero = none
kept (suc n) = some (bytes_of (suc n))

module _ {W : Type 0} (file : BootFile W) where
  -- A check in a new boot
  abbrev pub boot : W → Code × Machine Bool W
  boot w = run (boot_count_check file) (record { dev = false; world = w })

  -- The world after `n` boots
  abbrev pub after_boots : ℕ → W → W
  after_boots zero w = w
  after_boots (suc n) w = (boot (after_boots n w)).1.world

module _ {W : Type 0} (file : BootFile W) (Holds : Option (List ℕ) → W → Type 0)
    (IsAt : List ℕ → ℕ → W → Type 0) (k : IsKept file Holds IsAt) where
  first_boot :
      (w : W)
      → Holds none w
      → (w' : W) × (boot file w ≡ (value 1, record { dev = true; world = w' }))
        × Holds (some (bytes_of 1)) w'
  unfolding boot_count_check bytes_of next_count count_of returned
  first_boot w h =
      let (opens, at₁) = k.created w h in
      let (zeroed, at₂) = k.writes [] (bytes_of 0) 0 _ at₁ in
      let (reads, bytes, at₃) = k.reads (bytes_of 0) 4 4 _ at₂ in
      let (rewinds, at₄) = k.rewound (bytes_of 0) 4 _ at₃ in
      let (writes, at₅) = k.writes (bytes_of 0) (bytes_of 1) 0 _ at₄ in
      let (closes, held) = k.closed (bytes_of 1) 4 _ at₅ in
      (_, rw (k.missing w h, opens, zeroed, reads, bytes, rewinds, writes, closes) refl, held)

  later_boot :
      (n : ℕ) (w : W)
      → n + 1 < 2 ^ 31
      → Holds (some (bytes_of n)) w
      → (w' : W) × (boot file w ≡ (value (n + 1), record { dev = true; world = w' }))
        × Holds (some (bytes_of (n + 1))) w'
  unfolding boot_count_check bytes_of returned
  later_boot n w small h =
      let (opens, at₁) = k.opened (bytes_of n) w h in
      let (reads, bytes, at₂) = k.reads (bytes_of n) 0 4 _ at₁ in
      let (rewinds, at₃) = k.rewound (bytes_of n) 4 _ at₂ in
      let (writes, at₄) = k.writes (bytes_of n) (bytes_of (n + 1)) 0 _ at₃ in
      let (closes, held) = k.closed (bytes_of (n + 1)) 4 _ at₄ in
      let next = next_count-bytes_of n small in
      let positive : ltb (n + 1) (2 ^ 31) ≡ true = ground arith in
      (
        _,
        rw (k.found (bytes_of n) w h, opens, reads, bytes, rewinds, next, writes, closes, positive)
            refl,
        held,
      )

  -- A check returns the count, and a second one in the same boot fails and changes nothing.
  boot_lem :
      (n : ℕ) (w : W)
      → n + 1 < 2 ^ 31
      → Holds (kept n) w
      → (w' : W) × (boot file w ≡ (value (n + 1), record { dev = true; world = w' }))
        × Holds (kept (suc n)) w'
  boot_lem zero w small h = first_boot w h
  boot_lem (suc n) w small h =
      let same : suc n + 1 ≡ suc (suc n) = omega arith in
      let (w', e, held) = later_boot (suc n) w small h in
      (w', e, subst (λ m. Holds (some (bytes_of m)) w') same held)

  after_boots-kept :
      (n : ℕ) (w : W) → n < 2 ^ 31 → Holds none w → Holds (kept n) (after_boots file n w)
  after_boots-kept zero w small h = h
  after_boots-kept (suc n) w small h =
      let (w', e, held) =
        boot_lem n (after_boots file n w) (omega arith) (after_boots-kept n w (omega arith) h) in
      subst (λ r. Holds (kept (suc n)) r.1.world) (sym e) held

  already :
      (m : Machine Bool W) → m.dev ≡ true → run (boot_count_check file) m ≡ (error ealready, m)
  unfolding boot_count_check
  already m e = rw e refl

  -- On a file system that keeps the file, from one on which it is missing: after n boots, n + 1 below
  -- 2 ^ 31, the check of the next boot returns n + 1, and a second check in that boot returns -EALREADY and
  -- changes nothing.
  pub boot_counts :
      (n : ℕ) (w : W)
      → n + 1 < 2 ^ 31
      → Holds none w
      → let (ret, m) = boot file (after_boots file n w) in
        (ret ≡ value (n + 1)) × (run (boot_count_check file) m ≡ (error ealready, m))
  boot_counts n w small h =
      let (w', e, held) =
        boot_lem n (after_boots file n w) small (after_boots-kept n w (omega arith) h) in
      (ap (λ r. r.0) e, already (boot file (after_boots file n w)).1 (ap (λ r. r.1.dev) e))
