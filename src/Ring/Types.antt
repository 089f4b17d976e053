-- ===== src/Ring/Types.antt =====
-- crates/carriage/src/ring.rs: the ring's state, what a read returns, and the errors.
use open_ot_experiments.Prelude.{ℕ, Bool, List, Outcome, ◌+◌, ◌-◌, ◌^◌, add64}
use open_ot_experiments.Wire.{Record, WireError}
use open_ot_experiments.Control.{ControlBlockError}

abbrev pub default_buffer_id : ℕ
default_buffer_id = 1

pub record ReadRecord : Type 0 where
  pub start_abs : ℕ
  pub end_abs : ℕ
  pub value : Record

pub record ReadBatch : Type 0 where
  pub records : List ReadRecord
  pub next_abs : ℕ
  pub lapped : Bool

pub record RecordIndex : Type 0 where
  pub start_abs : ℕ
  pub end_abs : ℕ
  pub run_id : ℕ
  pub source_id : ℕ
  pub seq : ℕ

pub record LossRange : Type 0 where
  pub run_id : ℕ
  pub source_id : ℕ
  pub first_seq : ℕ
  pub last_seq : ℕ

-- `LossRange::count`
unfoldable pub range_count : LossRange → ℕ
range_count range = add64 (2 ^ 64 + range.last_seq - range.first_seq) 1

pub record RingBuffer : Type 0 where
  pub bytes : List ℕ
  pub head_abs : ℕ
  pub oldest_abs : ℕ
  pub lost_count : ℕ
  pub wraps : ℕ
  pub index : List RecordIndex
  pub producer_loss_ranges : List LossRange

pub data RingError : Type 0 where
  overwritten_mid_read : (read_abs oldest_abs : ℕ) → RingError
  record_crosses_boundary : (abs : ℕ) → RingError
  record_exceeds_capacity : (record_len capacity : ℕ) → RingError
  encoded_record_length_mismatch : (declared_len actual_len : ℕ) → RingError
  encoded_record_missing_crc : (flags : ℕ) → RingError
  control_block_capacity_mismatch : (snapshot_bytes capacity : ℕ) → RingError
  captured_capacity_zero : RingError
  invalid_captured_window : (head_abs oldest_abs capacity : ℕ) → RingError
  control_block : ControlBlockError → RingError
  unexpected_wrap_marker : (abs : ℕ) → RingError
  wire : WireError → RingError

abbrev pub RingResult : Type 0 → Type 0
RingResult A = Outcome RingError A
