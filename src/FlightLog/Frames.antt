-- ===== src/FlightLog/Frames.antt =====
-- Where the frames of a flight log go, and what its error flag tells.
use backplane_flight_compute.Base.{
  ℕ, ◌+◌, ◌≤◌, ◌≡◌, ◌≢◌, ◌⊎◌, refl, true, false, Option, List, length, inl, inr, Bool-cases, ltb,
  arith,
}
use backplane_flight_compute.Zephyr.{Errno, Code, value, error, is_negative}
use backplane_flight_compute.FlightLog.File.{
  FileSystem, LogFile, Mode, next_end, slog_once, slog_circ, other_mode, put_frame, at_end,
  l_fs_write,
}

-- A seek that succeeds goes to its place, which is told, and after a write that succeeds a place is told that
-- is no more than its bytes on.
pub record IsSeekable {W : Type 0} (fs : FileSystem W) : Type 0 where
  pub seek_tell :
      (p : ℕ) (w : W)
      → is_negative (fs.seek (value p) w).0 ≡ false
      → fs.tell (fs.seek (value p) w).1 ≡ value p
  pub write_tell :
      (bytes : List ℕ) (w : W) (p : ℕ)
      → is_negative (fs.write bytes w).0 ≡ false
      → fs.tell w ≡ value p
      → (q : ℕ) × (fs.tell (fs.write bytes w).1 ≡ value q) × (q ≤ p + length bytes)

-- A position, not an error code, and not past the end
abbrev pub IsWithin : ℕ → Code → Type 0
IsWithin size (value p) = p ≤ size
IsWithin size (error e) = ⊥

-- A frame fits the log, and its position is within its size.
abbrev pub IsInside : LogFile → Type 0
IsInside f = (f.width ≤ f.size) × IsWithin f.size f.wpos

module _ {W : Type 0} (fs : FileSystem W) (seekable : IsSeekable fs) where
  put_frame-IsInside :
      (f : LogFile) (src : List ℕ) (err_flag : Option Errno) (w : W) (p : ℕ)
      → f.wpos ≡ value p
      → length src ≡ f.width
      → p + f.width ≤ f.size
      → IsInside (put_frame fs f src err_flag w).2
  unfolding put_frame
  put_frame-IsInside f src err_flag w p at h room =
      let w₁ = (fs.seek (value p) w).1 in
      let still : (f.width ≤ f.size) × (p ≤ f.size) = (omega (arith, room), omega (arith, room)) in
      rw at (elim (Bool-cases (is_negative (fs.seek (value p) w).0)) [
        | inl bad ↦ rw bad still
        | inr sought ↦ elim (Bool-cases (is_negative (fs.write src w₁).0)) [
          | inl bad ↦ rw (sought, bad) still
          | inr written ↦
              let (q, told, le) =
                seekable.write_tell src w₁ p written (seekable.seek_tell p w sought) in
              rw (sought, written, told) (omega (arith, room), omega (arith, room, le, h))
        ]
      ])

  at_end-IsInside :
      (f : LogFile) (mode : Mode) (src : List ℕ) (err_flag : Option Errno) (w : W)
      → mode ≢ other_mode
      → length src ≡ f.width
      → IsInside f
      → IsInside (at_end fs mode f src err_flag w).2
  unfolding at_end
  at_end-IsInside f slog_once src err_flag w m h inside = inside
  at_end-IsInside f slog_circ src err_flag w m h inside =
      put_frame-IsInside (record f { wpos = value 0 }) src err_flag w 0 refl h
        (omega (arith, inside.0))
  at_end-IsInside f other_mode src err_flag w m h inside = absurd (m refl)

  -- The position of a log that is inside
  position : (f : LogFile) → IsInside f → (p : ℕ) × (f.wpos ≡ value p)
  position f inside = at f.wpos inside.1
    where
      at : (c : Code) → IsWithin f.size c → (p : ℕ) × (c ≡ value p)
      at (value p) v = (p, refl)
      at (error e) v = absurd v

  -- On a seekable file, where fs_tell gives the position after a seek and a write that succeed: a write of
  -- one frame to a log of either mode keeps its position a position within its size, whatever fs_sync,
  -- fs_seek and fs_write return.
  pub l_fs_write-IsInside :
      (f : LogFile) (src : List ℕ) (err_flag : Option Errno) (w : W)
      → f.mode ≢ other_mode
      → length src ≡ f.width
      → IsInside f
      → IsInside (l_fs_write fs f src err_flag w).2
  unfolding l_fs_write at_end
  l_fs_write-IsInside f src err_flag w m h inside =
      let synced = (fs.sync w).1 in
      let (p, at) = position f inside in
      elim (Bool-cases f.initialized) [
        | inr e ↦ simp e inside
        | inl e ↦ elim (Bool-cases (ltb f.size (next_end fs.number f.wpos f.width))) [
          | inr room ↦
              let fits : p + f.width ≤ f.size = ground (arith, room, at) in
              simp (e, room) (put_frame-IsInside f src err_flag w p at h fits)
          | inl full ↦ simp (e, full) (at_end-IsInside f f.mode src err_flag synced m h inside)
        ]
      ]

-- Where every call of the file system may fail as it likes: on an initialised circular log, a write
-- reports no failure in its flag, and one that returns a negative code keeps at most the wrapped
-- position.
circular_write_flags_nothing :
    {W : Type 0} (fs : FileSystem W) (f : LogFile) (src : List ℕ) (err_flag : Option Errno) (w : W)
    → f.initialized ≡ true
    → f.mode ≡ slog_circ
    → let (ret, err_flag', f', w') = l_fs_write fs f src err_flag w in
      (err_flag' ≡ err_flag)
      × ((is_negative ret ≡ false) ⊎ ((f'.wpos ≡ f.wpos) ⊎ (f'.wpos ≡ value 0)))
unfolding l_fs_write at_end put_frame
circular_write_flags_nothing fs f src err_flag w i m = ground arith
