-- ===== src/FlightLog/Boot.antt =====
-- l_fs_boot_count_check of fs.c. The calls of the file system on "/lfs/.boot_count" are parameters. A
-- uint32_t lies in memory with its least byte first.
pub mod Counts
mod Tests
use backplane_flight_compute.Base.{
  ℕ, ◌+◌, ◌-◌, ◌*◌, ◌/◌, ◌%◌, ◌^◌, Bool, true, false, List, [], ◌∷◌, ◌++◌, if◌then◌else◌, ltb,
  get_or, drop, length,
}
use backplane_flight_compute.Zephyr.{
  Code, value, success, error, ealready, other, is_negative, Driver, ◌>>=◌, ◌>>◌, check, return_if,
  pure, gets, Machine, act, fill, device, set_device,
}

-- `fs_stat`, `fs_open` with FS_O_RDWR and, if asked, FS_O_CREATE, `fs_write`, `fs_read` with the bytes that it
-- read, `fs_seek` to the start, and `fs_close`
pub record BootFile (W : Type 0) : Type 0 where
  pub fs_stat : W → Code
  pub fs_open : Bool → W → Code × W
  pub fs_write : List ℕ → W → Code × W
  pub fs_read : ℕ → W → Code × List ℕ × W
  pub fs_rewind : W → Code × W
  pub fs_close : W → Code × W

-- A uint32_t and its bytes
unfoldable pub bytes_of : ℕ → List ℕ
bytes_of n = (n % 256) ∷ (n / 2 ^ 8 % 256) ∷ (n / 2 ^ 16 % 256) ∷ (n / 2 ^ 24 % 256) ∷ []

unfoldable pub count_of : List ℕ → ℕ
count_of bytes =
    get_or bytes 0 0
    + get_or bytes 1 0 * 2 ^ 8
    + get_or bytes 2 0 * 2 ^ 16
    + get_or bytes 3 0 * 2 ^ 24

-- `boot_count` after the read into it, of a count that was 0, and `boot_count++`
unfoldable pub next_count : List ℕ → ℕ
unfolding count_of bytes_of
next_count bytes = (count_of (bytes ++ drop (length bytes) (bytes_of 0)) + 1) % 2 ^ 32

-- `return boot_count`, as an int32_t
unfoldable pub returned : ℕ → Code
returned count = if ltb count (2 ^ 31) then value count else error (other (2 ^ 32 - count))

module _ {W : Type 0} (file : BootFile W) where
  -- The file just created is given a 0.
  abbrev pub write_zero : Bool → Driver (Machine Bool W) Code
  write_zero create = if create then act (file.fs_write (bytes_of 0)) else pure success

  -- `boot_count_checked` is the driver's data.
  unfoldable pub boot_count_check : Driver (Machine Bool W) Code
  boot_count_check = do
    checked ← device
    return_if checked (error ealready)
    set_device true
    create ← gets (λ m. is_negative (file.fs_stat m.world))
    ret ← act (file.fs_open create)
    check ret
    ret ← write_zero create
    check ret
    (ret, bytes) ← fill (file.fs_read 4)
    check ret
    ret ← act file.fs_rewind
    check ret
    ret ← act (file.fs_write (bytes_of (next_count bytes)))
    check ret
    ret ← act file.fs_close
    check ret
    pure (returned (next_count bytes))
