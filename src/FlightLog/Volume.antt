-- ===== src/FlightLog/Volume.antt =====
-- The queries of fs.c for the size of a file and the free space of its volume, and the format. A `size_t`
-- result is given by the code that becomes it, which for a failure is a huge number.
use backplane_flight_compute.Base.{ℕ, ◌*◌, ◌%◌, ◌^◌, if◌then◌else◌}
use backplane_flight_compute.Zephyr.{Code, value, success, is_negative}

-- `fs_stat` with the entry's size after the call, `fs_sync`, `fs_statvfs` with `f_bfree` and `f_frsize` after
-- it, and `fs_mkfs` of a partition
pub record Volume (W : Type 0) : Type 0 where
  pub fs_stat : W → Code × ℕ
  pub fs_sync : W → Code × W
  pub fs_statvfs : W → Code × ℕ × ℕ
  pub fs_mkfs : ℕ → W → Code × W

-- What the two queries write into `l_fs_file_t`: the size in `dirent`, and the free blocks and their size
-- in `vfs`
pub record Entries : Type 0 where
  pub size : ℕ
  pub bfree : ℕ
  pub frsize : ℕ

module _ {W : Type 0} (volume : Volume W) where
  unfoldable pub l_fs_stat : Entries → W → Code × Entries
  l_fs_stat d w = let (ret, size) = volume.fs_stat w in (ret, record d { size = size })

  unfoldable pub l_fs_stat_vfs : Entries → W → Code × Entries
  l_fs_stat_vfs d w =
      let (ret, bfree, frsize) = volume.fs_statvfs w in
      (ret, record d { bfree = bfree; frsize = frsize })

  unfoldable pub l_fs_file_size : Entries → W → Code × Entries
  l_fs_file_size d w =
      let (ret, d') = l_fs_stat d w in
      (if is_negative ret then ret else value (d'.size % 2 ^ 32), d')

  unfoldable pub l_fs_volume_free_space : Entries → W → Code × Entries × W
  l_fs_volume_free_space d w =
      let (synced, w') = volume.fs_sync w in
      let (ret, d') = l_fs_stat_vfs d w' in
      if is_negative synced
      then (synced, d, w')
      else if is_negative ret
      then (ret, d', w')
      else (value (d'.bfree * d'.frsize % 2 ^ 32), d', w')

  unfoldable pub l_fs_format : ℕ → W → Code × W
  l_fs_format partition_id w =
      let (ret, w') = volume.fs_mkfs partition_id w in
      (if is_negative ret then ret else success, w')
