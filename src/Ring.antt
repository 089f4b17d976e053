-- ===== src/Ring.antt =====
-- crates/carriage/src/ring.rs: the byte-pool ring, its writer and its two readers.
pub mod Types
pub mod Disjoint
pub mod Stored
pub mod Place
pub mod Write
pub mod Read
pub mod RawRead
pub mod Window
pub mod Run
pub mod Takes
pub mod Accepts
mod Tests
use open_ot_experiments.Prelude.{
  ℕ, zero, suc, ◌+◌, ◌-◌, ◌%◌, ◌^◌, Bool, true, false, not, ◌&&◌, ◌||◌, List, [], ◌∷◌, ◌++◌, Option,
  none, some, ltb, leb, ◌==◌, if◌then◌else◌, length, get_or, set, replicate, slice, write_at, add64,
  from_le_bytes, Outcome, ok, err, stuck, ◌>>=◌, ◌>>◌, ensure, map_err,
}
use open_ot_experiments.Wire.{
  Record, WireError, DecodedRecord, encode, decode, has_sync, header_len,
}
use open_ot_experiments.Control.{ControlBlockSnapshot}
use open_ot_experiments.Ring.Types.{
  ReadRecord, ReadBatch, RecordIndex, LossRange, RingBuffer, RingError, RingResult,
  overwritten_mid_read, record_crosses_boundary, record_exceeds_capacity,
  control_block_capacity_mismatch, captured_capacity_zero, invalid_captured_window,
  unexpected_wrap_marker, wire,
}

abbrev pub capacity : RingBuffer → ℕ
capacity r = length r.bytes

-- `RingBuffer::new`; `none` is the panic on a zero capacity.
unfoldable pub new : ℕ → Option RingBuffer
new cap =
    if cap == 0
    then none
    else some (record {
      bytes = replicate cap 0;
      head_abs = 0;
      oldest_abs = 0;
      lost_count = 0;
      wraps = 0;
      index = [];
      producer_loss_ranges = [];
    })

unfoldable pub from_captured : List ℕ → ℕ → ℕ → ℕ → RingResult RingBuffer
from_captured bytes head_abs oldest_abs lost_count = do
  let cap = length bytes
  ensure (not (cap == 0)) captured_capacity_zero
  ensure (not (ltb head_abs oldest_abs)) (invalid_captured_window head_abs oldest_abs cap)
  ensure (not (ltb cap (head_abs - oldest_abs))) (invalid_captured_window head_abs oldest_abs cap)
  ok (record {
    bytes = bytes;
    head_abs = head_abs;
    oldest_abs = oldest_abs;
    lost_count = lost_count;
    wraps = 0;
    index = [];
    producer_loss_ranges = [];
  })

-- The drained ranges, and the ring without them.
unfoldable pub take_producer_loss_ranges : RingBuffer → List LossRange × RingBuffer
take_producer_loss_ranges r = (r.producer_loss_ranges, record r { producer_loss_ranges = [] })

abbrev pub physical_offset : RingBuffer → ℕ → ℕ
physical_offset r abs = abs % capacity r

-- `record_producer_loss` looks at the last range only.
unfoldable pub record_producer_loss : List LossRange → ℕ → ℕ → ℕ → List LossRange
record_producer_loss [] run_id source_id seq =
    record { run_id = run_id; source_id = source_id; first_seq = seq; last_seq = seq } ∷ []
record_producer_loss (last ∷ []) run_id source_id seq =
    if last.run_id == run_id && last.source_id == source_id && add64 last.last_seq 1 == seq
    then record last { last_seq = seq } ∷ []
    else last
      ∷ record { run_id = run_id; source_id = source_id; first_seq = seq; last_seq = seq }
      ∷ []
record_producer_loss (range ∷ next ∷ ranges) run_id source_id seq =
    range ∷ record_producer_loss (next ∷ ranges) run_id source_id seq

-- The loop of `evict_before_clobber`: the index left, the loss ranges, and the number evicted.
unfoldable pub evict_loop :
    ℕ → List RecordIndex → List LossRange → ℕ → List RecordIndex × List LossRange × ℕ
evict_loop floor [] ranges evicted = ([], ranges, evicted)
evict_loop floor (i ∷ index) ranges evicted =
    if ltb i.start_abs floor
    then evict_loop floor index (record_producer_loss ranges i.run_id i.source_id i.seq)
        (evicted + 1)
    else (i ∷ index, ranges, evicted)

abbrev pub first_start : List RecordIndex → ℕ → ℕ
first_start [] otherwise = otherwise
first_start (i ∷ index) otherwise = i.start_abs

unfoldable pub evict_before_clobber : RingBuffer → ℕ → ℕ → RingBuffer
evict_before_clobber r final_head next_record_start =
    let (index, ranges, evicted) =
      evict_loop (final_head - capacity r) r.index r.producer_loss_ranges 0 in
    record r {
      lost_count = add64 r.lost_count evicted;
      oldest_abs = first_start index next_record_start;
      index = index;
      producer_loss_ranges = ranges;
    }

-- Where `write_record` puts a record of `len` bytes.
unfoldable pub next_start : RingBuffer → ℕ → ℕ
next_start r len =
    let start_phys = physical_offset r r.head_abs in
    if start_phys == 0 || leb (start_phys + len) (capacity r)
    then r.head_abs
    else add64 r.head_abs (capacity r - start_phys)

-- The wrap marker that `write_record` leaves when it skips to the front of the pool.
unfoldable pub mark_wrap : RingBuffer → ℕ → ℕ → RingBuffer
mark_wrap r start_abs start_phys =
    if start_abs == r.head_abs
    then r
    else record r { bytes = set r.bytes start_phys 0; wraps = add64 r.wraps 1 }

-- The copy and the index entry at the end of `write_record`.
unfoldable pub append_record : RingBuffer → ℕ → ℕ → List ℕ → Record → RingBuffer
append_record r start_abs end_abs encoded x = record r {
  bytes = write_at r.bytes (physical_offset r start_abs) encoded;
  head_abs = end_abs;
  index =
      r.index
      ++ record {
        start_abs = start_abs;
        end_abs = end_abs;
        run_id = x.run_id;
        source_id = x.source_id;
        seq = x.seq;
      }
        ∷ [];
}

-- The record's absolute span, and the ring after the write.
unfoldable pub write_record : RingBuffer → Record → RingResult ((ℕ × ℕ) × RingBuffer)
write_record r x = do
  encoded ← map_err wire (encode x true)
  ensure (leb (length encoded) (capacity r)) (record_exceeds_capacity (length encoded) (capacity r))
  let start_abs = next_start r (length encoded)
  let end_abs = add64 start_abs (length encoded)
  let evicted = evict_before_clobber r end_abs start_abs
  let marked = mark_wrap evicted start_abs (physical_offset r r.head_abs)
  ok ((start_abs, end_abs), append_record marked start_abs end_abs encoded x)

-- The loop of `read_from` over the index.
unfoldable pub read_indexed : List ℕ → ℕ → List RecordIndex → RingResult (List ReadRecord)
read_indexed bytes cursor [] = ok []
read_indexed bytes cursor (i ∷ index) =
    let start = i.start_abs % length bytes in
    let later = read_indexed bytes cursor index in
    let here : RingResult (List ReadRecord) = (do
      d ← map_err wire (decode (slice bytes start (start + (i.end_abs - i.start_abs))))
      records ← later
      ok (record { start_abs = i.start_abs; end_abs = i.end_abs; value = d.decoded } ∷ records)) in
    if leb cursor i.start_abs then here else later

unfoldable pub read_from : RingBuffer → ℕ → RingResult ReadBatch
read_from r cursor_abs = do
  let lapped = ltb cursor_abs r.oldest_abs
  records ← read_indexed r.bytes (if lapped then r.oldest_abs else cursor_abs) r.index
  ok (record { records = records; next_abs = r.head_abs; lapped = lapped })

-- The record that the raw walk finds at `abs`, and its length.
unfoldable pub read_raw_record : List ℕ → ℕ → RingResult (DecodedRecord × ℕ)
read_raw_record bytes abs = do
  let cap = length bytes
  let phys = abs % cap
  ensure (leb (phys + header_len) cap) (record_crosses_boundary abs)
  ensure (has_sync (slice bytes phys (phys + 4))) (wire WireError.wrong_sync)
  let total_len = from_le_bytes (slice bytes (phys + 4) (phys + 4 + 2))
  ensure (leb header_len total_len) (wire (WireError.invalid_length total_len (cap - phys)))
  ensure (leb (phys + total_len) cap) (record_crosses_boundary abs)
  d ← map_err wire (decode (slice bytes phys (phys + total_len)))
  ok (d, total_len)

-- The loop of `read_raw_window`, on fuel. `oldest_after n` is what the `n`th call of the closure
-- returns; the loop hands the number of calls on.
unfoldable pub read_raw_loop :
    ℕ → List ℕ → ℕ → ℕ → (ℕ → ℕ) → ℕ → ℕ → RingResult (List ReadRecord × ℕ)
read_raw_loop zero bytes head_abs first_oldest oldest_after calls abs =
    if ltb abs head_abs then stuck else ok ([], calls)
read_raw_loop (suc fuel) bytes head_abs first_oldest oldest_after calls abs =
    let cap = length bytes in
    let phys = abs % cap in
    let skip =
      read_raw_loop fuel bytes head_abs first_oldest oldest_after calls (add64 abs (cap - phys)) in
    let wrap : RingResult (List ReadRecord × ℕ) =
      if phys == 0 then err (unexpected_wrap_marker abs) else skip in
    let deliver : RingResult (List ReadRecord × ℕ) = (do
      (d, total_len) ← read_raw_record bytes abs
      let oldest = oldest_after calls
      ensure (not (ltb abs oldest)) (overwritten_mid_read abs oldest)
      (records, calls') ←
          read_raw_loop fuel bytes head_abs first_oldest oldest_after (calls + 1)
            (add64 abs total_len)
      ok (
        record { start_abs = abs; end_abs = add64 abs d.consumed; value = d.decoded } ∷ records,
        calls',
      )) in
    let step : RingResult (List ReadRecord × ℕ) =
      if ltb abs first_oldest
      then err (overwritten_mid_read abs first_oldest)
      else if get_or bytes phys 0 == 0
      then wrap
      else deliver in
    if ltb abs head_abs then step else ok ([], calls)

-- Every round moves the position on, so the bytes up to the head are fuel enough.
unfoldable pub read_raw_window : List ℕ → ℕ → ℕ → ℕ → (ℕ → ℕ) → RingResult ReadBatch
read_raw_window bytes cursor_abs head_abs first_oldest oldest_after = do
  let lapped = ltb cursor_abs first_oldest
  let abs = (if lapped then first_oldest else cursor_abs)
  (records, calls) ← read_raw_loop (head_abs - abs) bytes head_abs first_oldest oldest_after 0 abs
  let final_oldest = oldest_after calls
  ensure (not (not (final_oldest == first_oldest) && ltb cursor_abs final_oldest))
      (overwritten_mid_read cursor_abs final_oldest)
  ok (record { records = records; next_abs = head_abs; lapped = lapped })

unfoldable pub read_raw_from : RingBuffer → ℕ → RingResult ReadBatch
read_raw_from r cursor_abs =
    read_raw_window r.bytes cursor_abs r.head_abs r.oldest_abs (λ _. r.oldest_abs)

unfoldable pub read_raw_from_snapshot : RingBuffer → ℕ → ControlBlockSnapshot → RingResult ReadBatch
read_raw_from_snapshot r cursor_abs s = do
  ensure (s.buffer_bytes == capacity r)
      (control_block_capacity_mismatch s.buffer_bytes (capacity r))
  read_raw_window r.bytes cursor_abs s.head_abs s.oldest_abs (λ _. s.oldest_abs)
