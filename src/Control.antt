-- ===== src/Control.antt =====
-- crates/carriage/src/control.rs: the control block and its seqlock-checked snapshot.
mod Tests
pub mod RoundTrip
pub mod Reencode
use open_ot_experiments.Prelude.{
  ℕ, ◌+◌, ◌%◌, Bool, not, ◌||◌, List, [], ◌∷◌, ◌&&◌, Option, none, some, ltb, leb, ◌==◌,
  if◌then◌else◌, length, get_or, replicate, slice, to_le_bytes, from_le_bytes, write_at, Outcome,
  ok, err, ◌>>=◌, ◌>>◌, ensure,
}
use open_ot_experiments.Wire.{has_sync, sync}

abbrev pub control_block_len : ℕ
control_block_len = 88

abbrev pub off_sync : ℕ
off_sync = 0

abbrev pub off_version : ℕ
off_version = 4

abbrev pub off_caps : ℕ
off_caps = 5

abbrev pub off_reserved : ℕ
off_reserved = 6

abbrev pub off_buffer_id : ℕ
off_buffer_id = 8

abbrev pub off_buffer_bytes : ℕ
off_buffer_bytes = 12

abbrev pub off_seq_lock : ℕ
off_seq_lock = 16

abbrev pub off_reserved2 : ℕ
off_reserved2 = 20

abbrev pub off_head_abs : ℕ
off_head_abs = 24

abbrev pub off_oldest_abs : ℕ
off_oldest_abs = 32

abbrev pub off_lost_count : ℕ
off_lost_count = 40

abbrev pub off_run_id : ℕ
off_run_id = 48

abbrev pub off_epoch_id : ℕ
off_epoch_id = 56

abbrev pub off_epoch_first_abs : ℕ
off_epoch_first_abs = 64

abbrev pub off_definition_hash : ℕ
off_definition_hash = 72

abbrev pub off_prev_definition_hash : ℕ
off_prev_definition_hash = 80

-- A hash prefix `[u8; 8]` is a list of eight bytes.
pub record ControlBlockSnapshot : Type 0 where
  pub version : ℕ
  pub caps : ℕ
  pub buffer_id : ℕ
  pub buffer_bytes : ℕ
  pub head_abs : ℕ
  pub oldest_abs : ℕ
  pub lost_count : ℕ
  pub run_id : ℕ
  pub epoch_id : ℕ
  pub epoch_first_abs : ℕ
  pub definition_hash : List ℕ
  pub prev_definition_hash : List ℕ

pub data ControlBlockError : Type 0 where
  truncated : (needed available : ℕ) → ControlBlockError
  wrong_sync : ControlBlockError
  updating : (seq_lock : ℕ) → ControlBlockError
  stale_snapshot : (first second : ℕ) → ControlBlockError
  reserved_non_zero : ControlBlockError

abbrev pub write_u32 : List ℕ → ℕ → ℕ → List ℕ
write_u32 bytes offset value = write_at bytes offset (to_le_bytes 4 value)

abbrev pub write_u64 : List ℕ → ℕ → ℕ → List ℕ
write_u64 bytes offset value = write_at bytes offset (to_le_bytes 8 value)

abbrev pub read_u32 : List ℕ → ℕ → ℕ
read_u32 bytes offset = from_le_bytes (slice bytes offset (offset + 4))

abbrev pub read_u64 : List ℕ → ℕ → ℕ
read_u64 bytes offset = from_le_bytes (slice bytes offset (offset + 8))

abbrev pub is_even : ℕ → Bool
is_even n = n % 2 == 0

-- The writes of `ControlBlockSnapshot::encode`, in their order.
unfoldable pub encode_image : ControlBlockSnapshot → ℕ → List ℕ
encode_image s seq_lock =
    let b0 = write_at (replicate control_block_len 0) off_sync sync in
    let b1 = write_at b0 off_version (s.version ∷ []) in
    let b2 = write_at b1 off_caps (s.caps ∷ []) in
    let b3 = write_u32 b2 off_buffer_id s.buffer_id in
    let b4 = write_u32 b3 off_buffer_bytes s.buffer_bytes in
    let b5 = write_u32 b4 off_seq_lock seq_lock in
    let b6 = write_u64 b5 off_head_abs s.head_abs in
    let b7 = write_u64 b6 off_oldest_abs s.oldest_abs in
    let b8 = write_u64 b7 off_lost_count s.lost_count in
    let b9 = write_u64 b8 off_run_id s.run_id in
    let b10 = write_u64 b9 off_epoch_id s.epoch_id in
    let b11 = write_u64 b10 off_epoch_first_abs s.epoch_first_abs in
    let b12 = write_at b11 off_definition_hash s.definition_hash in
    write_at b12 off_prev_definition_hash s.prev_definition_hash

-- `ControlBlockSnapshot::encode`; `none` is the panic on an odd `seq_lock`.
unfoldable pub encode : ControlBlockSnapshot → ℕ → Option (List ℕ)
encode s seq_lock = if is_even seq_lock then some (encode_image s seq_lock) else none

-- The two reserved ranges are zero.
unfoldable pub reserved_zero : List ℕ → Bool
reserved_zero bytes =
    let zero_at = λ (i : ℕ). get_or bytes i 0 == 0 in
    zero_at 6 && zero_at 7 && zero_at 20 && zero_at 21 && zero_at 22 && zero_at 23

-- The fields that `decode_with_locks` reads once the checks have passed.
unfoldable pub decode_fields : List ℕ → ControlBlockSnapshot
decode_fields bytes = record {
  version = get_or bytes off_version 0;
  caps = get_or bytes off_caps 0;
  buffer_id = read_u32 bytes off_buffer_id;
  buffer_bytes = read_u32 bytes off_buffer_bytes;
  head_abs = read_u64 bytes off_head_abs;
  oldest_abs = read_u64 bytes off_oldest_abs;
  lost_count = read_u64 bytes off_lost_count;
  run_id = read_u64 bytes off_run_id;
  epoch_id = read_u64 bytes off_epoch_id;
  epoch_first_abs = read_u64 bytes off_epoch_first_abs;
  definition_hash = slice bytes off_definition_hash (off_definition_hash + 8);
  prev_definition_hash = slice bytes off_prev_definition_hash (off_prev_definition_hash + 8);
}

-- `ControlBlockSnapshot::decode_with_locks`
unfoldable pub decode_with_locks : List ℕ → ℕ → ℕ → Outcome ControlBlockError ControlBlockSnapshot
decode_with_locks bytes first second = do
  ensure (leb control_block_len (length bytes)) (truncated control_block_len (length bytes))
  ensure (has_sync bytes) wrong_sync
  ensure (is_even first) (updating first)
  ensure (first == second) (stale_snapshot first second)
  let stored = read_u32 bytes off_seq_lock
  ensure (stored == first) (stale_snapshot first stored)
  ensure (reserved_zero bytes) reserved_non_zero
  ok (decode_fields bytes)

-- `ControlBlockSnapshot::overwrote_record_at`
unfoldable pub overwrote_record_at : ControlBlockSnapshot → ℕ → Bool
overwrote_record_at s record_abs = ltb record_abs s.oldest_abs
