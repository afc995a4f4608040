-- ===== src/Logs/Datalogger/Sizes.antt =====
-- The size of a log.
use native.Mathlib.Nat.{mul-div_cancel, mul-le-mul_right}
use backplane_flight_compute.Base.{
  ltb→lt, ◌≢◌, ℕ, ◌+◌, ◌*◌, ◌/◌, ◌≤◌, ◌<◌, ◌⊎◌, ◌≡◌, refl, sym, ap, ◌∙◌, subst, Bool, List, [], ◌∷◌,
  if◌then◌else◌, ltb, leb, length, arith, Bool-cases, inl, inr,
}
use backplane_flight_compute.Zephyr.{value}
use backplane_flight_compute.Logs.Datalogger.{
  Disk, LogMode, growing, fixed_size, circular, Datalogger, write, write_fixed_size, write_circular,
}

-- A file system whose open file has a position and a size: it tells the position, goes to the start when it is
-- asked to, and writes a whole packet at the position or fails and leaves both.
pub record IsFile {W : Type 0} (disk : Disk W) (at size : W → ℕ) : Type 0 where
  pub tells : (w : W) → disk.fs_tell w ≡ value (at w)
  pub rewinds : (w : W) → at (disk.fs_seek_start w).1 ≡ 0
  pub rewind_keeps : (w : W) → size (disk.fs_seek_start w).1 ≡ size w
  pub writes :
      (bytes : List ℕ) (w : W)
      → ((at (disk.fs_write bytes w).1 ≡ at w + length bytes)
          × (size (disk.fs_write bytes w).1
              ≡ (if leb (at w + length bytes) (size w) then size w else at w + length bytes)))
        ⊎ ((at (disk.fs_write bytes w).1 ≡ at w) × (size (disk.fs_write bytes w).1 ≡ size w))

abbrev pub writes_all : {W : Type 0} → Disk W → Datalogger → List (List ℕ) → W → W
writes_all disk d [] w = w
writes_all disk d (packet ∷ packets) w = writes_all disk d packets (write disk d packet w).1

-- All packets have this many bytes.
abbrev pub AllOf : ℕ → List (List ℕ) → Type 0
AllOf bytes [] = Unit {0}
AllOf bytes (packet ∷ packets) = (length packet ≡ bytes) × AllOf bytes packets

module _ {W : Type 0} (disk : Disk W) (at size : W → ℕ) (file : IsFile disk at size) (num bytes : ℕ)
    (some_packets : 0 < num) (some_bytes : 0 < bytes) where
  -- The position is at a packet of the log or at its end, and the file is no longer than the log.
  record IsWithin (w : W) : Type 0 where
    pub index : ℕ
    pub aligned : at w ≡ index * bytes
    pub inside : index ≤ num
    pub bounded : size w ≤ num * bytes

  index_of : (w : W) (v : IsWithin w) → (at w) / bytes ≡ v.index
  index_of w v = ap (λ (o : ℕ). o / bytes) v.aligned ∙ mul-div_cancel v.index some_bytes

  fs_write-IsWithin :
      (packet : List ℕ) (w : W) (v : IsWithin w)
      → length packet ≡ bytes
      → v.index < num
      → IsWithin (disk.fs_write packet w).1
  fs_write-IsWithin packet w v l h =
      let next : (v.index + 1) * bytes ≡ v.index * bytes + bytes = grind arith in
      let end : at w + length packet ≡ (v.index + 1) * bytes = omega (arith, next, l, v.aligned) in
      let fits : (v.index + 1) * bytes ≤ num * bytes = mul-le-mul_right bytes (omega (arith, h)) in
      elim (file.writes packet w) [
        | inl (moved, grown) ↦ record {
          index = v.index + 1;
          aligned = moved ∙ end;
          inside = omega (arith, h);
          bounded = ground (arith, grown, end, fits, v.bounded);
        }
        | inr (still, same) ↦ record {
          index = v.index;
          aligned = still ∙ v.aligned;
          inside = v.inside;
          bounded = omega (arith, same, v.bounded);
        }
      ]

  rewound : (w : W) → IsWithin w → IsWithin (disk.fs_seek_start w).1
  rewound w v = record {
    index = 0;
    aligned = omega (arith, file.rewinds w);
    inside = omega arith;
    bounded = omega (arith, file.rewind_keeps w, v.bounded);
  }

  write_fixed_size-IsWithin :
      (packet : List ℕ) (w : W) (v : IsWithin w)
      → length packet ≡ bytes
      → IsWithin (write_fixed_size disk num v.index packet w).1
  unfolding write_fixed_size
  write_fixed_size-IsWithin packet w v l = elim (Bool-cases (ltb v.index num)) [
    | inl room ↦ rw room (fs_write-IsWithin packet w v l (ltb→lt v.index num room))
    | inr full ↦ rw full v
  ]

  write_circular-IsWithin :
      (packet : List ℕ) (w : W) (v : IsWithin w)
      → length packet ≡ bytes
      → IsWithin (write_circular disk num v.index packet w).1
  unfolding write_circular rewound
  write_circular-IsWithin packet w v l =
      let Within = λ (b : Bool).
        IsWithin (disk.fs_write packet (if b then (disk.fs_seek_start w).1 else w)).1 in
      elim (Bool-cases (leb num v.index)) [
        | inl full ↦
            subst Within (sym full)
              (fs_write-IsWithin packet (disk.fs_seek_start w).1 (rewound w v) l some_packets)
        | inr room ↦ subst Within (sym room) (fs_write-IsWithin packet w v l (ground (arith, room)))
      ]

  write-IsWithin :
      (mode : LogMode) (packet : List ℕ) (w : W) (v : IsWithin w)
      → mode ≢ growing
      → length packet ≡ bytes
      → IsWithin (write disk (record { mode = mode; num_packets = num }) packet w).1
  unfolding write
  write-IsWithin growing packet w v m l = absurd (m refl)
  write-IsWithin fixed_size packet w v m l =
      rw (file.tells w) (rw l (rw (index_of w v) (write_fixed_size-IsWithin packet w v l)))
  write-IsWithin circular packet w v m l =
      rw (file.tells w) (rw l (rw (index_of w v) (write_circular-IsWithin packet w v l)))

  all-IsWithin :
      (mode : LogMode) (packets : List (List ℕ)) (w : W)
      → IsWithin w
      → mode ≢ growing
      → AllOf bytes packets
      → IsWithin (writes_all disk (record { mode = mode; num_packets = num }) packets w)
  all-IsWithin mode [] w v m l = v
  all-IsWithin mode (packet ∷ packets) w v m l =
      all-IsWithin mode packets _ (write-IsWithin mode packet w v m l.0) m l.1

  -- A log of a fixed size or a circular one, for at least one packet, of packets of one size above 0, over a
  -- file that tells its position, always goes to the start when it is asked to, and writes a whole packet or
  -- fails and changes nothing: from an empty file on, whatever packets are written, the file never
  -- has more bytes than the log's number of packets.
  pub log_stays_within :
      (mode : LogMode) (packets : List (List ℕ)) (w : W)
      → at w ≡ 0
      → size w ≡ 0
      → mode ≢ growing
      → AllOf bytes packets
      → size (writes_all disk (record { mode = mode; num_packets = num }) packets w) ≤ num * bytes
  log_stays_within mode packets w start nothing m l =
      let empty : IsWithin w = record {
        index = 0;
        aligned = omega (arith, start);
        inside = omega arith;
        bounded = omega (arith, nothing);
      } in
      (all-IsWithin mode packets w empty m l).bounded
