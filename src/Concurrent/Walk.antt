-- ===== src/Concurrent/Walk.antt =====
-- crates/carriage/src/concurrent.rs: the raw consumer, which reads while the producer writes.
use open_ot_experiments.Prelude.{
  ℕ, zero, suc, ◌+◌, ◌-◌, ◌%◌, ◌^◌, Bool, true, false, not, ◌&&◌, List, [], ◌∷◌, ltb, leb, ◌==◌,
  if◌then◌else◌, get_or, replicate, add64, from_le_bytes, Outcome, ok, err, stuck, ◌>>=◌, ◌>>◌,
  ensure, map_err,
}
use open_ot_experiments.Wire.{WireError, DecodedRecord, decode, has_sync, header_len}
use open_ot_experiments.Control.{ControlBlockSnapshot, ControlBlockError}
use open_ot_experiments.Ring.Types.{
  ReadRecord, ReadBatch, RingResult, default_buffer_id, overwritten_mid_read,
  record_crosses_boundary, control_block_capacity_mismatch, control_block, unexpected_wrap_marker,
  wire,
}
use open_ot_experiments.Concurrent.{ConcurrentRing, capacity}

-- The operations of `ConcurrentStore` that the consumer calls. The first argument numbers the
-- loads of one read from 0 on; an operation of several loads hands the next number on.
pub record ConcurrentStore : Type 0 where
  pub cap : ℕ
  pub load_byte_relaxed : ℕ → ℕ → ℕ
  pub load_oldest_acquire : ℕ → ℕ
  pub read_control_snapshot : ℕ → Outcome ControlBlockError (ControlBlockSnapshot × ℕ)
  pub read_oldest_after_record : ℕ → Outcome ControlBlockError (ℕ × ℕ)

-- `u32::try_from(capacity).unwrap_or(u32::MAX)`
abbrev pub capacity_u32 : ℕ → ℕ
capacity_u32 n = if ltb n (2 ^ 32) then n else 2 ^ 32 - 1

unfoldable pub owned_snapshot : (ℕ → ConcurrentRing) → ℕ → ControlBlockSnapshot
owned_snapshot ring at = record {
  version = 2;
  caps = 0;
  buffer_id = default_buffer_id;
  buffer_bytes = capacity_u32 (capacity (ring 0));
  head_abs = (ring at).head_abs;
  oldest_abs = (ring (at + 1)).oldest_abs;
  lost_count = (ring (at + 2)).lost_count;
  run_id = 0;
  epoch_id = 0;
  epoch_first_abs = 0;
  definition_hash = replicate 8 0;
  prev_definition_hash = replicate 8 0;
}

-- `OwnedConcurrentStore`; `ring n` is the ring at the reader's load number `n`.
unfoldable pub owned : (ℕ → ConcurrentRing) → ConcurrentStore
owned ring = record {
  cap = capacity (ring 0);
  load_byte_relaxed = λ at phys. get_or (ring at).bytes phys 0;
  load_oldest_acquire = λ at. (ring at).oldest_abs;
  read_control_snapshot = λ at. ok (owned_snapshot ring at, at + 3);
  read_oldest_after_record = λ at. ok ((ring at).oldest_abs, at + 1);
}

-- Bytes loaded one after another.
unfoldable pub load_bytes : ConcurrentStore → ℕ → ℕ → ℕ → List ℕ
load_bytes s at phys zero = []
load_bytes s at phys (suc n) = s.load_byte_relaxed at phys ∷ load_bytes s (at + 1) (phys + 1) n

-- The record at `abs`, its length, and the number of the next load.
unfoldable pub load_record : ConcurrentStore → ℕ → ℕ → RingResult (DecodedRecord × ℕ × ℕ)
load_record s at abs = do
  let phys = abs % s.cap
  ensure (leb (phys + header_len) s.cap) (record_crosses_boundary abs)
  ensure (has_sync (load_bytes s at phys 4)) (wire WireError.wrong_sync)
  let total_len = from_le_bytes (load_bytes s (at + 4) (phys + 4) 2)
  ensure (leb header_len total_len) (wire (WireError.invalid_length total_len (s.cap - phys)))
  ensure (leb (phys + total_len) s.cap) (record_crosses_boundary abs)
  let bytes = load_bytes s (at + 6) phys total_len
  (oldest_after, next) ← map_err control_block (s.read_oldest_after_record (at + 6 + total_len))
  ensure (not (ltb abs oldest_after)) (overwritten_mid_read abs oldest_after)
  d ← map_err wire (decode bytes)
  ok (d, total_len, next)

-- The loop of `read_raw_from_store`, on fuel, with the number of the next load.
unfoldable pub read_loop : ℕ → ConcurrentStore → ℕ → ℕ → ℕ → ℕ → RingResult (List ReadRecord × ℕ)
read_loop zero s head_abs first_oldest at abs = if ltb abs head_abs then stuck else ok ([], at)
read_loop (suc fuel) s head_abs first_oldest at abs =
    let phys = abs % s.cap in
    let skip = read_loop fuel s head_abs first_oldest (at + 1) (add64 abs (s.cap - phys)) in
    let wrap : RingResult (List ReadRecord × ℕ) =
      if phys == 0 then err (unexpected_wrap_marker abs) else skip in
    let deliver : RingResult (List ReadRecord × ℕ) = (do
      (d, total_len, next) ← load_record s (at + 1) abs
      (records, last) ← read_loop fuel s head_abs first_oldest next (add64 abs total_len)
      ok (
        record { start_abs = abs; end_abs = add64 abs d.consumed; value = d.decoded } ∷ records,
        last,
      )) in
    let step : RingResult (List ReadRecord × ℕ) =
      if ltb abs first_oldest
      then err (overwritten_mid_read abs first_oldest)
      else if s.load_byte_relaxed at phys == 0
      then wrap
      else deliver in
    if ltb abs head_abs then step else ok ([], at)

-- Every round moves the position on, so the bytes up to the head are fuel enough.
unfoldable pub read_raw_from_store : ConcurrentStore → ℕ → RingResult ReadBatch
read_raw_from_store s cursor_abs = do
  (snapshot, at) ← map_err control_block (s.read_control_snapshot 0)
  ensure (snapshot.buffer_bytes == s.cap)
      (control_block_capacity_mismatch snapshot.buffer_bytes s.cap)
  let first_oldest = snapshot.oldest_abs
  let lapped = ltb cursor_abs first_oldest
  let abs = (if lapped then first_oldest else cursor_abs)
  (records, last) ← read_loop (snapshot.head_abs - abs) s snapshot.head_abs first_oldest at abs
  let final_oldest = s.load_oldest_acquire last
  ensure (not (not (final_oldest == first_oldest) && ltb cursor_abs final_oldest))
      (overwritten_mid_read cursor_abs final_oldest)
  ok (record { records = records; next_abs = snapshot.head_abs; lapped = lapped })

pub record ConcurrentRawConsumer : Type 0 where
  pub cursor_abs : ℕ
  pub lapped_batches : ℕ
  pub overwritten_retries : ℕ
  pub rejected_records : ℕ

-- `ConcurrentRawConsumer::with_store`
abbrev pub new_consumer : ConcurrentRawConsumer
new_consumer = record {
  cursor_abs = 0;
  lapped_batches = 0;
  overwritten_retries = 0;
  rejected_records = 0;
}

-- The batch that a recovery returns.
abbrev pub empty_batch : ℕ → Bool → ReadBatch
empty_batch next_abs lapped = record { records = []; next_abs = next_abs; lapped = lapped }

-- The arms of the `match` in `poll`. `oldest` is what `load_oldest_acquire` returns after the read.
unfoldable pub settle :
    ConcurrentRawConsumer → RingResult ReadBatch → ℕ → RingResult ReadBatch × ConcurrentRawConsumer
settle c (ok batch) oldest = (
  ok batch,
  record c {
    lapped_batches = if batch.lapped then add64 c.lapped_batches 1 else c.lapped_batches;
    cursor_abs = batch.next_abs;
  },
)
settle c (err (overwritten_mid_read read_abs oldest_abs)) oldest = (
  ok (empty_batch oldest_abs true),
  record c { cursor_abs = oldest_abs; overwritten_retries = add64 c.overwritten_retries 1 },
)
settle c (err (control_block e)) oldest = (
  ok (empty_batch c.cursor_abs false),
  record c { overwritten_retries = add64 c.overwritten_retries 1 },
)
settle c (err (wire e)) oldest =
    if ltb c.cursor_abs oldest
    then (
      ok (empty_batch oldest true),
      record c { cursor_abs = oldest; rejected_records = add64 c.rejected_records 1 },
    )
    else (err (wire e), c)
settle c (err e) oldest = (err e, c)
settle c stuck oldest = (stuck, c)

unfoldable pub poll :
    ConcurrentStore → ConcurrentRawConsumer → ℕ → RingResult ReadBatch × ConcurrentRawConsumer
poll s c oldest = settle c (read_raw_from_store s c.cursor_abs) oldest
