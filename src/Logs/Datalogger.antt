-- ===== src/Logs/Datalogger.antt =====
-- datalogger (lib/f_core/os/c_datalogger.cpp), over Zephyr's file system. A packet has at least a byte.
pub mod Sizes
use backplane_flight_compute.Base.{
  ℕ, ◌+◌, ◌/◌, Bool, true, false, List, if◌then◌else◌, ltb, leb, length,
}
use backplane_flight_compute.Zephyr.{Code, value, error, is_negative}

-- fs_write, fs_tell and fs_seek to the start of the open file, and the number ENOSPC
pub record Disk (W : Type 0) : Type 0 where
  pub fs_write : List ℕ → W → Code × W
  pub fs_tell : W → Code
  pub fs_seek_start : W → Code × W
  pub enospc : ℕ

pub data LogMode : Type 0 where
  growing fixed_size circular : LogMode

pub record Datalogger : Type 0 where
  pub mode : LogMode
  pub num_packets : ℕ

module _ {W : Type 0} (disk : Disk W) where
  open disk use {fs_write, fs_tell, fs_seek_start, enospc}

  -- A write at a known position
  unfoldable pub write_fixed_size : (num_packets index : ℕ) → List ℕ → W → Code × W
  write_fixed_size num_packets index packet w =
      if ltb index num_packets then fs_write packet w else (value enospc, w)

  unfoldable pub write_circular : (num_packets index : ℕ) → List ℕ → W → Code × W
  write_circular num_packets index packet w =
      fs_write packet (if leb num_packets index then (fs_seek_start w).1 else w)

  abbrev pub at_index : Code → List ℕ → (ℕ → Code × W) → W → Code × W
  at_index (error e) packet then_write w = (error e, w)
  at_index (value offset) packet then_write w = then_write (offset / length packet)

  abbrev pub write_in : LogMode → ℕ → List ℕ → W → Code × W
  write_in growing num_packets packet w = fs_write packet w
  write_in fixed_size num_packets packet w =
      at_index (fs_tell w) packet (λ index. write_fixed_size num_packets index packet w) w
  write_in circular num_packets packet w =
      at_index (fs_tell w) packet (λ index. write_circular num_packets index packet w) w

  unfoldable pub write : Datalogger → List ℕ → W → Code × W
  unfolding write_fixed_size write_circular
  write d packet w = write_in d.mode d.num_packets packet w
