-- ===== src/Concurrent/Tests.antt =====
-- A concrete ring that is read while it is written, and the theorems about the concurrent ring at it.
use open_ot_experiments.Prelude.{
  ℕ, zero, suc, ◌%◌, ◌^◌, ◌≡◌, ◌⊎◌, refl, true, false, List, [], ◌∷◌, ◌++◌, All, ok, err, arith,
  replicate, length, IsByte,
}
use open_ot_experiments.Crc.{crc32c, crc_loop, crc_rounds, crc_round}
use open_ot_experiments.Wire.{
  Record, encode, decode, encode_slots, slots_len, encode_into, encoded_len, wire_flags,
  encode_header, validate_record, validate_slots, check_crc, check_padding, has_sync, decode_slots,
  decode_header,
}
use open_ot_experiments.Wire.Layout.{IsRecord}
use open_ot_experiments.Ring
use open_ot_experiments.Ring.Types.{RingBuffer, RingError, ReadBatch}
use open_ot_experiments.Ring.Read.{as_read, values, all_as_read}
use open_ot_experiments.Ring.Run.{Run}
use open_ot_experiments.Concurrent.{
  ConcurrentRing, ConcurrentProducer, StoreOp, new, new_producer, write_record, append_encoded,
  append_bytes_core, evict_before_clobber, evict_spans, count_lost, mark_wrap, store_bytes,
  next_start_abs, apply_op, apply_all,
}
use open_ot_experiments.Concurrent.Walk.{
  owned, owned_snapshot, load_bytes, load_record, read_loop, read_raw_from_store, poll,
  new_consumer,
}
use open_ot_experiments.Concurrent.System.{
  System, Steps, Reached, begin, store, done, then, start, step,
}
use open_ot_experiments.Concurrent.Publish.{shared, producer_of, write_record-eq-Ring}
use open_ot_experiments.Concurrent.Safe.{read_raw_from_store-Written}
use open_ot_experiments.Concurrent.Quiescent.{read_raw_from_store-eq-read_raw_from}
use open_ot_experiments.Concurrent.Published.{Published, read_raw_from_store-delivers}
use open_ot_experiments.Concurrent.Encoded.{append_encoded-encode, append_encoded-decode}
use open_ot_experiments.Concurrent.Poll.{Advances, poll-Advances}

-- A record without slots: 44 bytes with its CRC.
abbrev message : Record
message = record {
  flags = 0;
  source_time = 1;
  run_id = 2;
  seq = 3;
  source_id = 4;
  event_type_id = 5;
  slots = [];
}

message-IsRecord : IsRecord message
message-IsRecord = record {
  flags_fits = omega arith;
  source_time_fits = omega arith;
  run_id_fits = omega arith;
  seq_fits = omega arith;
  source_id_fits = omega arith;
  event_type_id_fits = omega arith;
  slots_fit = tt;
}

abbrev message_bytes : List ℕ
message_bytes =
    79 ∷ 79 ∷ 84 ∷ 50 ∷ 44 ∷ 0 ∷ 8 ∷ 0 ∷ 1 ∷ 0 ∷ 0 ∷ 0 ∷ 0 ∷ 0 ∷ 0 ∷ 0 ∷ 2 ∷ 0 ∷ 0 ∷ 0 ∷ 0 ∷ 0 ∷ 0
    ∷ 0 ∷ 3 ∷ 0 ∷ 0 ∷ 0 ∷ 0 ∷ 0 ∷ 0 ∷ 0 ∷ 4 ∷ 0 ∷ 0 ∷ 0 ∷ 5 ∷ 0 ∷ 0 ∷ 0 ∷ 139 ∷ 129 ∷ 78 ∷ 253 ∷ []

message-encode : encode message true ≡ ok message_bytes
unfolding encode encode_slots slots_len encode_into encoded_len wire_flags encode_header crc32c
    crc_loop crc_rounds crc_round
message-encode = refl

-- The system does its pending stores one by one.
abbrev advance : ConcurrentRing → ConcurrentProducer → List StoreOp → System
advance m p [] = record { ring = m; producer = p; pending = [] }
advance m p (op ∷ ops) = record { ring = apply_op m op; producer = p; pending = ops }

abbrev drain : ℕ → System → System
drain zero s = s
drain (suc n) s = let t = drain n s in advance t.ring t.producer t.pending

advance-Steps :
    (xs : List Record) (m : ConcurrentRing) (p : ConcurrentProducer) (ops : List StoreOp)
    → Steps xs (record { ring = m; producer = p; pending = ops }) xs (advance m p ops)
advance-Steps xs m p [] = done
advance-Steps xs m p (op ∷ ops) = then done store

drain-Reached :
    {pool : ℕ} {xs : List Record} (n : ℕ) (s : System)
    → Reached pool xs s
    → Reached pool xs (drain n s)
drain-Reached zero s h = h
drain-Reached {pool} {xs} (suc n) s h =
    let t = drain n s in go t.ring t.producer t.pending (drain-Reached n s h)
  where
    go :
        (m : ConcurrentRing) (p : ConcurrentProducer) (ops : List StoreOp)
        → Reached pool xs (record { ring = m; producer = p; pending = ops })
        → Reached pool xs (advance m p ops)
    go m p [] h = h
    go m p (op ∷ ops) h = step h store

abbrev ring_empty : ConcurrentRing
ring_empty = record { bytes = replicate 100 0; head_abs = 0; oldest_abs = 0; lost_count = 0 }

abbrev ring_full : ConcurrentRing
ring_full = record {
  bytes = message_bytes ++ replicate 56 0;
  head_abs = 44;
  oldest_abs = 0;
  lost_count = 0;
}

abbrev first_write : System
first_write = record {
  ring = ring_empty;
  producer = record { spans = (0, 44) ∷ []; head_abs = 44 };
  pending = (append_bytes_core 100 new_producer message_bytes).1;
}

-- The first record is in the ring, the write of the second begins.
abbrev second_write : System
second_write = record {
  ring = ring_full;
  producer = record { spans = (0, 44) ∷ (44, 88) ∷ []; head_abs = 88 };
  pending = (append_bytes_core 100 first_write.producer message_bytes).1;
}

first_write-Reached : Reached 100 (message ∷ []) first_write
unfolding new write_record encode encode_slots slots_len encode_into encoded_len wire_flags
    encode_header crc32c crc_loop crc_rounds crc_round append_bytes_core evict_before_clobber
    evict_spans next_start_abs
first_write-Reached =
    step (start refl) (begin message message-IsRecord (omega arith) (omega arith) refl)

second_write-Reached : Reached 100 (message ∷ message ∷ []) second_write
unfolding write_record encode encode_slots slots_len encode_into encoded_len wire_flags
    encode_header crc32c crc_loop crc_rounds crc_round append_bytes_core evict_before_clobber
    evict_spans next_start_abs count_lost mark_wrap store_bytes apply_op
second_write-Reached =
    step (drain-Reached 50 first_write first_write-Reached)
      (begin message message-IsRecord (omega arith) (omega arith) refl)

abbrev one_batch : ReadBatch
one_batch = record {
  records = record { start_abs = 0; end_abs = 44; value = as_read message } ∷ [];
  next_abs = 44;
  lapped = false;
}

-- The producer does one store between any two loads.
read_torn : read_raw_from_store (owned (λ n. (drain n second_write).ring)) 0 ≡ ok one_batch
unfolding read_raw_from_store read_loop load_record load_bytes owned owned_snapshot
    append_bytes_core evict_before_clobber evict_spans next_start_abs count_lost mark_wrap
    store_bytes apply_op decode validate_record validate_slots check_crc check_padding has_sync
    decode_slots decode_header wire_flags crc32c crc_loop crc_rounds crc_round
read_torn = refl

read_raw_from_store-Written_example :
    (before xs after : List Record) × (message ∷ message ∷ [] ≡ before ++ (xs ++ after))
    × (values one_batch.records ≡ all_as_read xs)
    × (one_batch.next_abs ≡ 44)
unfolding append_bytes_core evict_before_clobber evict_spans next_start_abs count_lost mark_wrap
    store_bytes apply_op
read_raw_from_store-Written_example =
    read_raw_from_store-Written (λ _. message ∷ message ∷ []) (λ n. drain n second_write) 0
      second_write-Reached
      (λ n.
        let t = drain n second_write in
        advance-Steps (message ∷ message ∷ []) t.ring t.producer t.pending)
      (omega arith) refl (omega arith) read_torn

abbrev buffer_empty : RingBuffer
buffer_empty = record {
  bytes = replicate 100 0;
  head_abs = 0;
  oldest_abs = 0;
  lost_count = 0;
  wraps = 0;
  index = [];
  producer_loss_ranges = [];
}

abbrev buffer_full : RingBuffer
buffer_full = record buffer_empty {
  bytes = message_bytes ++ replicate 56 0;
  head_abs = 44;
  index = record { start_abs = 0; end_abs = 44; run_id = 2; source_id = 4; seq = 3 } ∷ [];
}

buffer_write : Ring.write_record buffer_empty message ≡ ok ((0, 44), buffer_full)
unfolding Ring.write_record encode encode_slots slots_len encode_into encoded_len wire_flags
    encode_header crc32c crc_loop crc_rounds crc_round Ring.next_start Ring.mark_wrap
    Ring.append_record Ring.evict_before_clobber Ring.evict_loop
buffer_write = refl

buffer_run : Run 100 (message ∷ []) buffer_full
unfolding Ring.new
buffer_run = Run.write message (Run.start refl) message-IsRecord (omega arith) buffer_write

write_record-eq-Ring_example :
    ((e : RingError) × (Ring.write_record buffer_full message ≡ err e)
      × (write_record 100 (producer_of buffer_full) message ≡ err e))
    ⊎ ((span : ℕ × ℕ) × (r' : RingBuffer) × (ops : List StoreOp) × (Ring.write_record buffer_full
            message
          ≡ ok (span, r'))
        × (write_record 100 (producer_of buffer_full) message ≡ ok (producer_of r', ops))
        × (apply_all (shared buffer_full) ops ≡ shared r'))
write_record-eq-Ring_example =
    write_record-eq-Ring buffer_full message (omega arith) (omega arith) (omega arith)

read_raw_from_store-eq-read_raw_from_example :
    read_raw_from_store (owned (λ _. shared buffer_full)) 0 ≡ Ring.read_raw_from buffer_full 0
read_raw_from_store-eq-read_raw_from_example =
    read_raw_from_store-eq-read_raw_from buffer_full 0 (omega arith)

-- What the producer makes of a first record.
abbrev publishes : ConcurrentProducer × List StoreOp
publishes = append_bytes_core 100 new_producer message_bytes

abbrev empty_ring : ConcurrentRing
empty_ring = shared buffer_empty

first_published : Published 100 (message ∷ []) publishes.0 (apply_all empty_ring publishes.1)
unfolding new write_record encode encode_slots slots_len encode_into encoded_len wire_flags
    encode_header crc32c crc_loop crc_rounds crc_round
first_published = Published.write message (Published.start refl) message-IsRecord (omega arith) refl

read_raw_from_store-delivers_example :
    (dropped : List Record) × (kept : List Record) × (batch : ReadBatch) × (message ∷ []
      ≡ dropped ++ kept)
    × ((apply_all empty_ring publishes.1).lost_count ≡ length dropped % 2 ^ 64)
    × (read_raw_from_store (owned (λ _. apply_all empty_ring publishes.1)) 0 ≡ ok batch)
    × (values batch.records ≡ all_as_read kept)
    × (batch.next_abs ≡ publishes.0.head_abs)
unfolding apply_all apply_op append_bytes_core evict_before_clobber evict_spans next_start_abs
    count_lost mark_wrap store_bytes
read_raw_from_store-delivers_example =
    read_raw_from_store-delivers first_published (omega arith) (omega arith)

append_encoded-encode_example :
    append_encoded 100 new_producer message_bytes ≡ write_record 100 new_producer message
append_encoded-encode_example =
    append_encoded-encode 100 new_producer message message-IsRecord message-encode

message_bytes-IsByte : All IsByte message_bytes
message_bytes-IsByte = ground arith

append_message :
    append_encoded 100 new_producer message_bytes
    ≡ ok (append_bytes_core 100 new_producer message_bytes)
unfolding append_encoded validate_record validate_slots check_crc check_padding has_sync crc32c
    crc_loop crc_rounds crc_round
append_message = refl

append_encoded-decode_example :
    (x : Record) × (decode message_bytes ≡ ok (record { decoded = x; consumed = 44 }))
    × (encode x true ≡ ok message_bytes)
    × (write_record 100 new_producer x ≡ ok (append_bytes_core 100 new_producer message_bytes))
append_encoded-decode_example =
    append_encoded-decode 100 new_producer message_bytes message_bytes-IsByte append_message

poll-Advances_example : Advances new_consumer (poll (owned (λ _. ring_full)) new_consumer 0)
poll-Advances_example =
    poll-Advances (λ _. ring_full) new_consumer 0 (omega arith) (omega arith) (omega arith)
