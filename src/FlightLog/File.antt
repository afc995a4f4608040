-- ===== src/FlightLog/File.antt =====
-- l_fs_init, l_fs_write and l_fs_read of fs.c. Zephyr's file system is a parameter, with the open file in
-- its world. A size_t result is given by the code that becomes it, and an off_t is a code too, where a function
-- that failed may have given it.
use backplane_flight_compute.Base.{
  ℕ, ◌+◌, ◌*◌, ◌-◌, ◌%◌, ◌^◌, Bool, true, not, Option, some, List, [], if◌then◌else◌, ltb,
}
use backplane_flight_compute.Zephyr.{
  Errno, Code, value, success, error, enotinit, enospc, enotsup, edom, is_negative,
}

-- `fs_open` with FS_O_CREATE | FS_O_RDWR, `fs_sync`, `fs_seek` from the start, `fs_write`, `fs_read` and
-- `fs_tell`, and the numbers of the error codes
pub record FileSystem (W : Type 0) : Type 0 where
  pub open_or_create : W → Code × W
  pub sync : W → Code × W
  pub seek : Code → W → Code × W
  pub write : List ℕ → W → Code × W
  pub read : ℕ → W → Code × List ℕ × W
  pub tell : W → Code
  pub number : Errno → ℕ

-- The mode of a log; `other_mode` is any other value of the enum's type.
pub data Mode : Type 0 where
  slog_once slog_circ other_mode : Mode

-- `l_fs_file_t`, less the file's name and its entries of the directory and the volume
pub record LogFile : Type 0 where
  pub initialized : Bool
  pub mode : Mode
  pub width : ℕ
  pub size : ℕ
  pub wpos : Code

-- `wpos + width` as it is compared with the `uint64_t` of the size
abbrev pub next_end : (Errno → ℕ) → Code → ℕ → ℕ
next_end number (value p) width = p + width
next_end number (error e) width = (2 ^ 64 + width - number e) % 2 ^ 64

module _ {W : Type 0} (fs : FileSystem W) where
  unfoldable pub l_fs_init : LogFile → W → Code × LogFile × W
  l_fs_init f w =
      let (ret, w') = fs.open_or_create w in
      if is_negative ret
      then (ret, f, w')
      else if ltb f.size f.width
      then (error edom, f, w')
      else (success, record f { initialized = true }, w')

  -- From `fs_seek` on. A failed call of the file system leaves `err_flag` as it was.
  unfoldable pub put_frame : LogFile → List ℕ → Option Errno → W → Code × Option Errno × LogFile × W
  put_frame f src err_flag w =
      let (ret, w₁) = fs.seek f.wpos w in
      let (ret', w₂) = fs.write src w₁ in
      if is_negative ret
      then (ret, err_flag, f, w₁)
      else if is_negative ret'
      then (ret', err_flag, f, w₂)
      else (ret', err_flag, record f { wpos = fs.tell w₂ }, w₂)

  -- The `switch` at the end of the file. The default sets the flag and goes on.
  unfoldable pub at_end :
      Mode → LogFile → List ℕ → Option Errno → W → Code × Option Errno × LogFile × W
  at_end slog_once f src err_flag w = (value 0, some enospc, f, w)
  at_end slog_circ f src err_flag w = put_frame (record f { wpos = value 0 }) src err_flag w
  at_end other_mode f src err_flag w = put_frame f src (some enotsup) w

  unfoldable pub l_fs_write :
      LogFile → List ℕ → Option Errno → W → Code × Option Errno × LogFile × W
  l_fs_write f src err_flag w =
      let (ret, synced) = fs.sync w in
      if not f.initialized
      then (value 0, some enotinit, f, w)
      else if ltb f.size (next_end fs.number f.wpos f.width)
      then at_end f.mode f src err_flag synced
      else put_frame f src err_flag w

  -- The bytes of frame `idx`
  unfoldable pub l_fs_read : LogFile → ℕ → W → Code × List ℕ × W
  l_fs_read f idx w =
      let (ret, w') = fs.seek (value (idx * f.width)) w in
      if not f.initialized
      then (error enotinit, [], w)
      else if ltb f.size (idx * f.width + f.width)
      then (error edom, [], w)
      else if is_negative ret
      then (ret, [], w')
      else fs.read f.width w'
