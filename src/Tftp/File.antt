-- ===== src/Tftp/File.antt =====
-- CFile (lib/f_core/os/c_file.cpp). Zephyr's file system is a parameter, with the open file in its state
-- `F`. `off_t` and `size_t` have 32 bits; an `off_t` is its 32 bits as a natural number.
use backplane_flight_compute.Base.{
  ℕ, ◌^◌, Bool, not, ◌&&◌, List, [], if◌then◌else◌, ltb, leb, ◌==◌, bit_and,
}
use backplane_flight_compute.Zephyr.{Errno, Code, value, error, eperm, is_negative}

-- `fs_open`, `fs_close`, `fs_stat` with the size of the entry, `fs_seek` from the start, `fs_read` with the
-- bytes that it read, and `fs_write`; `number` has the numbers of the error codes.
pub record Files (F : Type 0) : Type 0 where
  pub fs_open : List ℕ → ℕ → F → Code × F
  pub fs_close : F → F
  pub fs_stat : List ℕ → F → Code × ℕ
  pub fs_seek : ℕ → F → Code × F
  pub fs_read : ℕ → F → Code × List ℕ × F
  pub fs_write : List ℕ → F → Code × F
  pub number : Errno → ℕ

-- `FS_O_READ`, `FS_O_WRITE` and `FS_O_CREATE`
abbrev pub fs_o_read : ℕ
fs_o_read = 0x01

abbrev pub fs_o_write : ℕ
fs_o_write = 0x02

abbrev pub fs_o_create : ℕ
fs_o_create = 0x10

pub record File : Type 0 where
  pub path : List ℕ
  pub flags : ℕ
  pub init_status : Code

-- `offset < 0` of an `off_t`
abbrev pub is_below_zero : ℕ → Bool
is_below_zero offset = leb (2 ^ 31) offset

module _ {F : Type 0} (fs : Files F) where
  -- The constructor
  unfoldable pub open_file : List ℕ → ℕ → F → File × F
  open_file path flags f =
      let (init_status, f') = fs.fs_open path flags f in
      (record { path = path; flags = flags; init_status = init_status }, f')

  -- The destructor
  unfoldable pub close_file : File → F → F
  close_file file f = elim file.init_status [
    | value n ↦ if n == 0 then fs.fs_close f else f
    | error e ↦ f
  ]

  unfoldable pub get_file_size : File → F → ℕ
  get_file_size file f =
      let (err, size) = fs.fs_stat file.path f in if is_negative err then 0 else size

  -- The -1 of a failure is that of EPERM.
  unfoldable pub read : File → ℕ → ℕ → F → Code × List ℕ × F
  read file len offset f =
      let (sought, f') = fs.fs_seek offset f in
      if is_negative file.init_status
      then (error eperm, [], f)
      else if bit_and file.flags fs_o_read == 0
      then (error eperm, [], f)
      else if ltb 0 offset && not (is_below_zero offset)
      then (if is_negative sought then (error eperm, [], f') else fs.fs_read len f')
      else fs.fs_read len f

  unfoldable pub write : File → List ℕ → F → Code × F
  write file bytes f =
      if is_negative file.init_status
      then (error eperm, f)
      else if bit_and file.flags fs_o_write == 0
      then (error eperm, f)
      else fs.fs_write bytes f
