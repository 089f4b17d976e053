-- ===== src/Shm.antt =====
-- crates/open-ot-shm/src/lib.rs: the store of the concurrent ring in shared memory. A mapping is the
-- list of its bytes; an atomic of several bytes is read and written in one step.
pub mod View
pub mod Seqlock
pub mod Snapshot
pub mod Create
pub mod Publish
mod Tests
use Prim.Native.String.{String}
use open_ot_experiments.Prelude.{
  ℕ, zero, suc, ◌+◌, ◌-◌, ◌*◌, ◌/◌, ◌%◌, ◌^◌, Bool, true, false, not, ◌&&◌, List, [], ◌∷◌, ltb, leb,
  ◌==◌, if◌then◌else◌, length, get_or, set, replicate, write_at, add64, Outcome, ok, err, stuck,
  ◌>>=◌, ◌>>◌, ensure,
}
use open_ot_experiments.Wire.{Record, sync}
use open_ot_experiments.Control.{
  ControlBlockSnapshot, ControlBlockError, updating, stale_snapshot, decode_with_locks,
  control_block_len, off_sync, off_version, off_caps, off_reserved, off_reserved2, off_buffer_id,
  off_buffer_bytes, off_seq_lock, off_head_abs, off_oldest_abs, off_lost_count, off_run_id,
  off_epoch_id, off_epoch_first_abs, off_definition_hash, off_prev_definition_hash, read_u32,
  read_u64, write_u32, write_u64, is_even,
}
use open_ot_experiments.Ring.Types.{default_buffer_id}
use open_ot_experiments.Concurrent.{
  StoreOp, begin_control_update, end_control_update_release, fetch_add_lost_release,
  store_oldest_relaxed, release_before_clobber, store_byte_relaxed, store_head_release,
}
use open_ot_experiments.Concurrent.Walk.{ConcurrentStore, capacity_u32}

abbrev pub align_up : ℕ → ℕ → ℕ
align_up value alignment =
    (if value % alignment == 0 then value / alignment else value / alignment + 1) * alignment

abbrev pub data_offset : ℕ
data_offset = align_up control_block_len 64

abbrev pub control_snapshot_retries : ℕ
control_snapshot_retries = 1000

-- The errors that the code makes itself; those of the operating system are not modelled.
pub data IoError : Type 0 where
  invalid_input : String → IoError
  invalid_data : String → IoError

abbrev pub IoResult : Type 0 → Type 0
IoResult A = Outcome IoError A

unfoldable pub validate_capacity : ℕ → IoResult Unit
validate_capacity capacity =
    if capacity == 0 then err (invalid_input "ring capacity must be non-zero") else ok tt

-- `checked_add` on `usize`
unfoldable pub mapping_len : ℕ → IoResult ℕ
mapping_len capacity =
    let len = data_offset + capacity in
    if ltb len (2 ^ 64) then ok len else err (invalid_input "mapping length overflow")

-- The assertions of `validate_layout`; `stuck` is a failed one.
unfoldable pub validate_layout : IoResult Unit
validate_layout =
    if control_block_len == 88
      && off_sync == 0
      && off_version == 4
      && off_caps == 5
      && off_reserved == 6
      && off_buffer_id == 8
      && off_buffer_bytes == 12
      && off_seq_lock == 16
      && off_reserved2 == 20
      && off_head_abs % 8 == 0
      && off_oldest_abs % 8 == 0
      && off_lost_count % 8 == 0
      && off_run_id % 8 == 0
      && off_epoch_id % 8 == 0
      && off_epoch_first_abs % 8 == 0
      && off_definition_hash == 72
      && off_prev_definition_hash == 80
      && data_offset % 64 == 0
    then ok tt
    else stuck

-- The stores of `initialize_counters`, in their order; the first loop is one write.
unfoldable pub initialize_counters : List ℕ → ℕ → List ℕ
initialize_counters region capacity =
    let b0 = write_at region 0 (replicate data_offset 0) in
    let b1 = write_at b0 off_sync sync in
    let b2 = set b1 off_version 2 in
    let b3 = set b2 off_caps 0 in
    let b4 = write_u32 b3 off_buffer_id default_buffer_id in
    let b5 = write_u32 b4 off_buffer_bytes (capacity_u32 capacity) in
    let b6 = write_u32 b5 off_seq_lock 0 in
    let b7 = write_u64 b6 off_head_abs 0 in
    let b8 = write_u64 b7 off_oldest_abs 0 in
    let b9 = write_u64 b8 off_lost_count 0 in
    let b10 = write_u64 b9 off_run_id 0 in
    let b11 = write_u64 b10 off_epoch_id 0 in write_u64 b11 off_epoch_first_abs 0

-- `SharedConcurrentStore::create`: the mapping. A new file of the given length holds zeros, which is
-- what the operating system documents.
unfoldable pub create : ℕ → IoResult (List ℕ)
create capacity = do
  validate_capacity capacity
  validate_layout
  len ← mapping_len capacity
  ok (initialize_counters (replicate len 0) capacity)

-- `SharedConcurrentStore::open_existing`, on the bytes of the file: the capacity.
unfoldable pub open_existing : List ℕ → IoResult ℕ
open_existing file = do
  validate_layout
  let len = length file
  ensure (leb data_offset len) (invalid_data "shared mapping shorter than control block")
  let capacity = len - data_offset
  validate_capacity capacity
  ok capacity

-- What the operations that a producer calls do to the mapping. Fences do nothing here.
unfoldable pub apply_shared : List ℕ → StoreOp → List ℕ
apply_shared region begin_control_update =
    write_u32 region off_seq_lock ((read_u32 region off_seq_lock + 1) % 2 ^ 32)
apply_shared region end_control_update_release =
    write_u32 region off_seq_lock ((read_u32 region off_seq_lock + 1) % 2 ^ 32)
apply_shared region (fetch_add_lost_release value) =
    write_u64 region off_lost_count (add64 (read_u64 region off_lost_count) value)
apply_shared region (store_oldest_relaxed value) = write_u64 region off_oldest_abs value
apply_shared region release_before_clobber = region
apply_shared region (store_byte_relaxed phys value) = set region (data_offset + phys) value
apply_shared region (store_head_release value) = write_u64 region off_head_abs value

unfoldable pub apply_shared_all : List ℕ → List StoreOp → List ℕ
apply_shared_all region [] = region
apply_shared_all region (op ∷ ops) = apply_shared_all (apply_shared region op) ops

-- The first loop of `read_control_image`. `region n` is the mapping at load number `n`.
unfoldable pub load_image : (ℕ → List ℕ) → ℕ → ℕ → ℕ → List ℕ
load_image region at offset zero = []
load_image region at offset (suc n) =
    get_or (region at) offset 0 ∷ load_image region (at + 1) (offset + 1) n

-- `read_control_image`: 88 loads of bytes, then eight of fields.
unfoldable pub read_control_image : (ℕ → List ℕ) → ℕ → ℕ → List ℕ
read_control_image region at seq_lock =
    let field32 = λ (bytes : List ℕ) (n offset : ℕ).
      write_u32 bytes offset (read_u32 (region (at + n)) offset) in
    let field64 = λ (bytes : List ℕ) (n offset : ℕ).
      write_u64 bytes offset (read_u64 (region (at + n)) offset) in
    let b0 = write_u32 (load_image region at 0 control_block_len) off_seq_lock seq_lock in
    let b1 = field32 b0 88 off_buffer_id in
    let b2 = field32 b1 89 off_buffer_bytes in
    let b3 = field64 b2 90 off_head_abs in
    let b4 = field64 b3 91 off_oldest_abs in
    let b5 = field64 b4 92 off_lost_count in
    let b6 = field64 b5 93 off_run_id in
    let b7 = field64 b6 94 off_epoch_id in field64 b7 95 off_epoch_first_abs

-- The `match` on the decoded image: what is returned, or the error with which the loop goes on.
pub data Attempt : Type 0 where
  done : Outcome ControlBlockError (ControlBlockSnapshot × ℕ) → Attempt
  retry : ControlBlockError → Attempt

unfoldable pub attempt_of : Outcome ControlBlockError ControlBlockSnapshot → ℕ → Attempt
attempt_of (ok snapshot) next = done (ok (snapshot, next))
attempt_of (err (updating seq_lock)) next = retry (updating seq_lock)
attempt_of (err (stale_snapshot first second)) next = retry (stale_snapshot first second)
attempt_of (err e) next = done (err e)
attempt_of stuck next = done stuck

-- One round of `read_control_snapshot`, with the number of its loads.
unfoldable pub attempt : (ℕ → List ℕ) → ℕ → Attempt × ℕ
attempt region at =
    let first = read_u32 (region at) off_seq_lock in
    let second = read_u32 (region (at + 97)) off_seq_lock in
    if is_even first
    then (
      attempt_of (decode_with_locks (read_control_image region (at + 1) first) first second)
          (at + 98),
      98,
    )
    else (retry (updating first), 1)

-- The loop of `read_control_snapshot`, with the retries left and the last error.
unfoldable pub snapshot_loop :
    (ℕ → List ℕ) → ℕ → ControlBlockError → ℕ → Outcome ControlBlockError (ControlBlockSnapshot × ℕ)
snapshot_loop region zero last_error at = err last_error
snapshot_loop region (suc retries) last_error at = elim (attempt region at).0 [
  | done result ↦ result
  | retry error ↦ snapshot_loop region retries error (at + (attempt region at).1)
]

unfoldable pub read_control_snapshot :
    (ℕ → List ℕ) → ℕ → Outcome ControlBlockError (ControlBlockSnapshot × ℕ)
read_control_snapshot region at = snapshot_loop region control_snapshot_retries (updating 1) at

-- `SharedConcurrentStore` as a reader's store.
unfoldable pub shared_store : (ℕ → List ℕ) → ℕ → ConcurrentStore
shared_store region capacity = record {
  cap = capacity;
  load_byte_relaxed = λ at phys. get_or (region at) (data_offset + phys) 0;
  load_oldest_acquire = λ at. read_u64 (region at) off_oldest_abs;
  read_control_snapshot = λ at. read_control_snapshot region at;
  read_oldest_after_record = λ at. ok (read_u64 (region at) off_oldest_abs, at + 1);
}
