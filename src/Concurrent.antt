-- ===== src/Concurrent.antt =====
-- crates/carriage/src/concurrent.rs: the ring of atomics and its one producer.
-- The atomics are taken as sequentially consistent: every load and store is one step of one order.
pub mod Walk
pub mod Publish
pub mod Stable
pub mod Order
pub mod Kept
pub mod Loads
pub mod Linear
pub mod System
pub mod Window
pub mod Append
pub mod Invariant
pub mod Safe
pub mod Quiescent
pub mod Published
pub mod Encoded
pub mod Poll
mod Tests
use open_ot_experiments.Prelude.{
  ℕ, zero, suc, ◌+◌, ◌-◌, ◌*◌, ◌%◌, ◌^◌, Bool, true, false, not, ◌&&◌, ◌||◌, List, [], ◌∷◌, ◌++◌,
  Option, none, some, ltb, leb, ◌==◌, if◌then◌else◌, length, get_or, set, replicate, slice, add64,
  from_le_bytes, Outcome, ok, err, stuck, ◌>>=◌, ◌>>◌, ensure, map_err,
}
use open_ot_experiments.Wire.{
  Record, WireError, DecodedRecord, encode, decode, validate_record, has_sync, has_crc, header_len,
}
use open_ot_experiments.Control.{ControlBlockSnapshot, ControlBlockError}
use open_ot_experiments.Ring.Types.{
  ReadRecord, ReadBatch, RingError, RingResult, default_buffer_id, overwritten_mid_read,
  record_crosses_boundary, record_exceeds_capacity, encoded_record_length_mismatch,
  encoded_record_missing_crc, control_block_capacity_mismatch, control_block,
  unexpected_wrap_marker, wire,
}

pub record ConcurrentRing : Type 0 where
  pub bytes : List ℕ
  pub head_abs : ℕ
  pub oldest_abs : ℕ
  pub lost_count : ℕ

abbrev pub capacity : ConcurrentRing → ℕ
capacity m = length m.bytes

-- `ConcurrentRing::new`; `none` is the panic on a zero capacity.
unfoldable pub new : ℕ → Option ConcurrentRing
new cap =
    if cap == 0
    then none
    else some (record { bytes = replicate cap 0; head_abs = 0; oldest_abs = 0; lost_count = 0 })

-- The operations of `ConcurrentStore` that the producer calls.
pub data StoreOp : Type 0 where
  begin_control_update : StoreOp
  end_control_update_release : StoreOp
  fetch_add_lost_release : (value : ℕ) → StoreOp
  store_oldest_relaxed : (value : ℕ) → StoreOp
  release_before_clobber : StoreOp
  store_byte_relaxed : (phys value : ℕ) → StoreOp
  store_head_release : (value : ℕ) → StoreOp

-- What the operations of `OwnedConcurrentStore` do.
unfoldable pub apply_op : ConcurrentRing → StoreOp → ConcurrentRing
apply_op m begin_control_update = m
apply_op m end_control_update_release = m
apply_op m (fetch_add_lost_release value) = record m { lost_count = add64 m.lost_count value }
apply_op m (store_oldest_relaxed value) = record m { oldest_abs = value }
apply_op m release_before_clobber = m
apply_op m (store_byte_relaxed phys value) = record m { bytes = set m.bytes phys value }
apply_op m (store_head_release value) = record m { head_abs = value }

unfoldable pub apply_all : ConcurrentRing → List StoreOp → ConcurrentRing
apply_all m [] = m
apply_all m (op ∷ ops) = apply_all (apply_op m op) ops

-- The producer without its store, of which it reads the capacity only.
pub record ConcurrentProducer : Type 0 where
  pub spans : List (ℕ × ℕ)
  pub head_abs : ℕ

-- `ConcurrentProducer::with_store`
abbrev pub new_producer : ConcurrentProducer
new_producer = record { spans = []; head_abs = 0 }

unfoldable pub next_start_abs : ℕ → ConcurrentProducer → ℕ → ℕ
next_start_abs cap p encoded_len =
    let start_phys = p.head_abs % cap in
    if start_phys == 0 || leb (start_phys + encoded_len) cap
    then p.head_abs
    else add64 p.head_abs (cap - start_phys)

-- The loop of `evict_before_clobber`: the spans left, and the number evicted.
unfoldable pub evict_spans : ℕ → List (ℕ × ℕ) → ℕ → List (ℕ × ℕ) × ℕ
evict_spans floor [] evicted = ([], evicted)
evict_spans floor ((start_abs, end_abs) ∷ spans) evicted =
    if ltb start_abs floor
    then evict_spans floor spans (evicted + 1)
    else ((start_abs, end_abs) ∷ spans, evicted)

abbrev pub first_span : List (ℕ × ℕ) → ℕ → ℕ
first_span [] otherwise = otherwise
first_span ((start_abs, end_abs) ∷ spans) otherwise = start_abs

-- `if evicted > 0 { fetch_add_lost_release(evicted) }`
unfoldable pub count_lost : ℕ → List StoreOp
count_lost evicted = if evicted == 0 then [] else fetch_add_lost_release evicted ∷ []

-- The producer's spans after the eviction, and the operations on the store.
unfoldable pub evict_before_clobber : ℕ → ConcurrentProducer → ℕ → ℕ → List (ℕ × ℕ) × List StoreOp
evict_before_clobber cap p final_head next_record_start =
    let (spans, evicted) = evict_spans (final_head - cap) p.spans 0 in
    (
      spans,
      count_lost evicted
          ++ store_oldest_relaxed (first_span spans next_record_start)
            ∷ release_before_clobber
            ∷ [],
    )

-- The wrap marker.
unfoldable pub mark_wrap : ConcurrentProducer → ℕ → ℕ → List StoreOp
mark_wrap p record_start_abs start_phys =
    if record_start_abs == p.head_abs then [] else store_byte_relaxed start_phys 0 ∷ []

-- The loop over the record's bytes.
unfoldable pub store_bytes : ℕ → List ℕ → List StoreOp
store_bytes phys [] = []
store_bytes phys (byte ∷ bytes) = store_byte_relaxed phys byte ∷ store_bytes (phys + 1) bytes

-- The producer after the append, and the operations on the store in their order.
unfoldable pub append_bytes_core :
    ℕ → ConcurrentProducer → List ℕ → ConcurrentProducer × List StoreOp
append_bytes_core cap p bytes =
    let start_phys = p.head_abs % cap in
    let record_start_abs = next_start_abs cap p (length bytes) in
    let final_head = add64 record_start_abs (length bytes) in
    let (spans, evict_ops) = evict_before_clobber cap p final_head record_start_abs in
    (
      record { spans = spans ++ (record_start_abs, final_head) ∷ []; head_abs = final_head },
      begin_control_update
          ∷ (evict_ops
              ++ (mark_wrap p record_start_abs start_phys
                  ++ (store_bytes (record_start_abs % cap) bytes
                      ++ store_head_release final_head ∷ end_control_update_release ∷ []))),
    )

unfoldable pub write_record :
    ℕ → ConcurrentProducer → Record → RingResult (ConcurrentProducer × List StoreOp)
write_record cap p x = do
  encoded ← map_err wire (encode x true)
  ensure (leb (length encoded) cap) (record_exceeds_capacity (length encoded) cap)
  ok (append_bytes_core cap p encoded)

-- `stuck` is the `unreachable!`.
unfoldable pub append_encoded :
    ℕ → ConcurrentProducer → List ℕ → RingResult (ConcurrentProducer × List StoreOp)
append_encoded cap p bytes =
    let flags = from_le_bytes (slice bytes 6 (6 + 2)) in
    let too_short : RingResult (ConcurrentProducer × List StoreOp) =
      map_err wire (validate_record bytes) >>= λ _. stuck in
    let long_enough : RingResult (ConcurrentProducer × List StoreOp) = (do
      ensure (has_crc flags) (encoded_record_missing_crc flags)
      consumed ← map_err wire (validate_record bytes)
      ensure (consumed == length bytes) (encoded_record_length_mismatch consumed (length bytes))
      ensure (leb (length bytes) cap) (record_exceeds_capacity (length bytes) cap)
      ok (append_bytes_core cap p bytes)) in
    if ltb (length bytes) header_len then too_short else long_enough
