-- ===== src/Ring/Tests.antt =====
-- Concrete rings, and the theorems about the ring at them.
use open_ot_experiments.Prelude.{
  ℕ, ◌%◌, ◌^◌, ◌≤◌, ◌≡◌, ◌≢◌, ◌⊎◌, refl, true, false, List, [], ◌∷◌, ◌++◌, ok, stuck, arith,
  replicate, length, ltb,
}
use open_ot_experiments.Crc.{crc32c, crc_loop, crc_rounds, crc_round}
use open_ot_experiments.Wire.{
  Record, encode, decode, encode_slots, slots_len, encode_into, encoded_len, wire_flags,
  encode_header, validate_record, validate_slots, check_crc, check_padding, has_sync, decode_slots,
  decode_header,
}
use open_ot_experiments.Wire.Layout.{IsRecord}
use open_ot_experiments.Ring.{
  new, write_record, read_from, read_raw_from, read_raw_window, read_raw_loop, read_raw_record,
  evict_before_clobber, evict_loop, record_producer_loss, mark_wrap, append_record, next_start,
}
use open_ot_experiments.Ring.Types.{RingBuffer, ReadBatch}
use open_ot_experiments.Ring.Stored.{IsValid, adjacent}
use open_ot_experiments.Ring.Write.{Wrote, write_record-Wrote}
use open_ot_experiments.Ring.Read.{reads, values, all_as_read, read_from-IsValid}
use open_ot_experiments.Ring.RawRead.{read_raw_from-eq-read_from}
use open_ot_experiments.Ring.Window.{Fresh, read_raw_window-ne-stuck, read_raw_window_safe}
use open_ot_experiments.Ring.Run.{Run, start, write, Run-reads}

-- A record without slots: 44 bytes with its CRC.
abbrev sample : Record
sample = record {
  flags = 0;
  source_time = 1;
  run_id = 2;
  seq = 3;
  source_id = 4;
  event_type_id = 5;
  slots = [];
}

sample-IsRecord : IsRecord sample
sample-IsRecord = record {
  flags_fits = omega arith;
  source_time_fits = omega arith;
  run_id_fits = omega arith;
  seq_fits = omega arith;
  source_id_fits = omega arith;
  event_type_id_fits = omega arith;
  slots_fit = tt;
}

abbrev sample_bytes : List ℕ
sample_bytes =
    79 ∷ 79 ∷ 84 ∷ 50 ∷ 44 ∷ 0 ∷ 8 ∷ 0 ∷ 1 ∷ 0 ∷ 0 ∷ 0 ∷ 0 ∷ 0 ∷ 0 ∷ 0 ∷ 2 ∷ 0 ∷ 0 ∷ 0 ∷ 0 ∷ 0 ∷ 0
    ∷ 0 ∷ 3 ∷ 0 ∷ 0 ∷ 0 ∷ 0 ∷ 0 ∷ 0 ∷ 0 ∷ 4 ∷ 0 ∷ 0 ∷ 0 ∷ 5 ∷ 0 ∷ 0 ∷ 0 ∷ 139 ∷ 129 ∷ 78 ∷ 253 ∷ []

sample-encode : encode sample true ≡ ok sample_bytes
unfolding encode encode_slots slots_len encode_into encoded_len wire_flags encode_header crc32c
    crc_loop crc_rounds crc_round
sample-encode = refl

-- A pool of 60 bytes, which holds one such record.
abbrev ring_new : RingBuffer
ring_new = record {
  bytes = replicate 60 0;
  head_abs = 0;
  oldest_abs = 0;
  lost_count = 0;
  wraps = 0;
  index = [];
  producer_loss_ranges = [];
}

abbrev ring_one : RingBuffer
ring_one = record ring_new {
  bytes = sample_bytes ++ replicate 16 0;
  head_abs = 44;
  index = record { start_abs = 0; end_abs = 44; run_id = 2; source_id = 4; seq = 3 } ∷ [];
}

-- The second write wraps, and evicts the first record.
abbrev ring_two : RingBuffer
ring_two = record ring_one {
  head_abs = 104;
  oldest_abs = 60;
  lost_count = 1;
  wraps = 1;
  index = record { start_abs = 60; end_abs = 104; run_id = 2; source_id = 4; seq = 3 } ∷ [];
  producer_loss_ranges = record { run_id = 2; source_id = 4; first_seq = 3; last_seq = 3 } ∷ [];
}

write_one : write_record ring_new sample ≡ ok ((0, 44), ring_one)
unfolding write_record encode encode_slots slots_len encode_into encoded_len wire_flags
    encode_header crc32c crc_loop crc_rounds crc_round next_start mark_wrap append_record
    evict_before_clobber evict_loop
write_one = refl

write_two : write_record ring_one sample ≡ ok ((60, 104), ring_two)
unfolding write_record encode encode_slots slots_len encode_into encoded_len wire_flags
    encode_header crc32c crc_loop crc_rounds crc_round next_start mark_wrap append_record
    evict_before_clobber evict_loop record_producer_loss
write_two = refl

run_two : Run 60 (sample ∷ sample ∷ []) ring_two
unfolding new
run_two =
    write sample (write sample (start refl) sample-IsRecord (omega arith) write_one) sample-IsRecord
      (omega arith) write_two

ring_one-IsValid : IsValid ring_one (sample ∷ [])
ring_one-IsValid = record {
  pool = omega arith;
  oldest_le_head = omega arith;
  window = omega arith;
  stored = (
    adjacent refl,
    record {
      encoded = sample_bytes;
      is_encoded = sample-encode;
      is_record = sample-IsRecord;
      in_pool = omega arith;
      span = refl;
      bytes_at = refl;
      run_at = refl;
      source_at = refl;
      seq_at = refl;
    },
    refl,
  );
}

write_record-Wrote_example : Wrote ring_one (sample ∷ []) sample (60, 104) ring_two
write_record-Wrote_example =
    write_record-Wrote ring_one (sample ∷ []) sample ring_one-IsValid sample-IsRecord (omega arith)
      write_two

read_from-IsValid_example :
    (read_from ring_one 0
      ≡ ok (record { records = reads ring_one.index (sample ∷ []); next_abs = 44; lapped = false }))
    × (values (reads ring_one.index (sample ∷ [])) ≡ all_as_read (sample ∷ []))
read_from-IsValid_example =
    read_from-IsValid ring_one (sample ∷ []) 0 ring_one-IsValid (omega arith)

read_raw_from-eq-read_from_example : read_raw_from ring_one 0 ≡ read_from ring_one 0
read_raw_from-eq-read_from_example =
    read_raw_from-eq-read_from ring_one (sample ∷ []) 0 ring_one-IsValid (omega arith) (omega arith)

Run-reads_example :
    (dropped : List Record) × (kept : List Record) × (batch : ReadBatch) × (sample ∷ sample ∷ []
      ≡ dropped ++ kept)
    × (1 ≡ length dropped % 2 ^ 64)
    × (read_from ring_two 0 ≡ ok batch)
    × (read_raw_from ring_two 0 ≡ ok batch)
    × (values batch.records ≡ all_as_read kept)
    × (batch.next_abs ≡ 104)
Run-reads_example = Run-reads run_two (omega arith)

-- A writer that reclaims the first record while it is read.
abbrev overtaken : ℕ → ℕ
overtaken n = 44

read_raw_window-ne-stuck_example :
    read_raw_window (sample_bytes ++ replicate 16 0) 0 44 0 overtaken ≢ stuck
read_raw_window-ne-stuck_example =
    read_raw_window-ne-stuck (sample_bytes ++ replicate 16 0) 0 44 0 overtaken (omega arith)
      (omega arith)

abbrev batch_one : ReadBatch
batch_one = record {
  records = record { start_abs = 0; end_abs = 44; value = record sample { flags = 8 } } ∷ [];
  next_abs = 44;
  lapped = false;
}

window_one : read_raw_window (sample_bytes ++ replicate 16 0) 0 44 0 (λ n. 0) ≡ ok batch_one
unfolding read_raw_window read_raw_loop read_raw_record decode validate_record validate_slots
    check_crc check_padding has_sync decode_slots decode_header crc32c crc_loop crc_rounds crc_round
window_one = refl

read_raw_window_safe_example :
    Fresh (λ n. 0) 0 0 44 batch_one.records
    × (batch_one.next_abs ≡ 44)
    × (batch_one.lapped ≡ ltb 0 0)
    × ((◌≡◌ {A = ℕ} 0 0) ⊎ (0 ≤ 0))
read_raw_window_safe_example =
    read_raw_window_safe (sample_bytes ++ replicate 16 0) 0 44 0 (λ n. 0) (omega arith)
      (omega arith) window_one
