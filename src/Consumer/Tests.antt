-- ===== src/Consumer/Tests.antt =====
-- A concrete poll, and the theorem about the first poll at it.
use open_ot_experiments.Prelude.{
  ℕ, ◌<◌, ◌-◌, ◌%◌, ◌^◌, ◌≡◌, refl, List, [], ◌∷◌, ◌++◌, arith, ok, length, ◌==◌, if◌then◌else◌,
  replicate,
}
use open_ot_experiments.Crc.{crc32c, crc_loop, crc_rounds, crc_round}
use open_ot_experiments.Wire.{
  Record, encode, encode_slots, slots_len, encode_into, encoded_len, wire_flags, encode_header,
}
use open_ot_experiments.Wire.Layout.{IsRecord}
use open_ot_experiments.Ring.{
  new, write_record, evict_before_clobber, evict_loop, record_producer_loss, mark_wrap,
  append_record, next_start,
}
use open_ot_experiments.Ring.Types.{RingBuffer, ReadBatch}
use open_ot_experiments.Ring.Read.{values, all_as_read}
use open_ot_experiments.Ring.Run.{Run, start, write}
use open_ot_experiments.Loss.Numbered.{count_of, Numbered}
use open_ot_experiments.Consumer.Raw.{
  RawByteConsumer, with_buffer_id, poll, delivered_in_run, lost_in_run,
}
use open_ot_experiments.Consumer.Exact.{IsData, poll-exact}

-- The records 0 and 1 of a source, without slots: 44 bytes each with the CRC.
abbrev sample : ℕ → Record
sample seq = record {
  flags = 0;
  source_time = 1;
  run_id = 2;
  seq = seq;
  source_id = 4;
  event_type_id = 5;
  slots = [];
}

sample-IsRecord : (seq : ℕ) → seq < 2 ^ 64 → IsRecord (sample seq)
sample-IsRecord seq h = record {
  flags_fits = omega arith;
  source_time_fits = omega arith;
  run_id_fits = omega arith;
  seq_fits = h;
  source_id_fits = omega arith;
  event_type_id_fits = omega arith;
  slots_fit = tt;
}

-- A pool of 60 bytes, which holds one such record.
abbrev ring_new : RingBuffer
ring_new = record {
  bytes = replicate 60 0;
  head_abs = 0;
  oldest_abs = 0;
  lost_count = 0;
  wraps = 0;
  index = [];
  producer_loss_ranges = [];
}

abbrev ring_one : RingBuffer
ring_one = record {
  bytes =
      79 ∷ 79 ∷ 84 ∷ 50 ∷ 44 ∷ 0 ∷ 8 ∷ 0 ∷ 1 ∷ 0 ∷ 0 ∷ 0 ∷ 0 ∷ 0 ∷ 0 ∷ 0 ∷ 2 ∷ 0 ∷ 0 ∷ 0 ∷ 0 ∷ 0 ∷ 0
      ∷ 0 ∷ 0 ∷ 0 ∷ 0 ∷ 0 ∷ 0 ∷ 0 ∷ 0 ∷ 0 ∷ 4 ∷ 0 ∷ 0 ∷ 0 ∷ 5 ∷ 0 ∷ 0 ∷ 0 ∷ 120 ∷ 225 ∷ 182 ∷ 238
      ∷ 0 ∷ 0 ∷ 0 ∷ 0 ∷ 0 ∷ 0 ∷ 0 ∷ 0 ∷ 0 ∷ 0 ∷ 0 ∷ 0 ∷ 0 ∷ 0 ∷ 0 ∷ 0 ∷ [];
  head_abs = 44;
  oldest_abs = 0;
  lost_count = 0;
  wraps = 0;
  index = record { start_abs = 0; end_abs = 44; run_id = 2; source_id = 4; seq = 0 } ∷ [];
  producer_loss_ranges = [];
}

-- The second write wraps, and evicts the first record.
abbrev ring_two : RingBuffer
ring_two = record {
  bytes =
      79 ∷ 79 ∷ 84 ∷ 50 ∷ 44 ∷ 0 ∷ 8 ∷ 0 ∷ 1 ∷ 0 ∷ 0 ∷ 0 ∷ 0 ∷ 0 ∷ 0 ∷ 0 ∷ 2 ∷ 0 ∷ 0 ∷ 0 ∷ 0 ∷ 0 ∷ 0
      ∷ 0 ∷ 1 ∷ 0 ∷ 0 ∷ 0 ∷ 0 ∷ 0 ∷ 0 ∷ 0 ∷ 4 ∷ 0 ∷ 0 ∷ 0 ∷ 5 ∷ 0 ∷ 0 ∷ 0 ∷ 134 ∷ 236 ∷ 186 ∷ 28 ∷ 0
      ∷ 0 ∷ 0 ∷ 0 ∷ 0 ∷ 0 ∷ 0 ∷ 0 ∷ 0 ∷ 0 ∷ 0 ∷ 0 ∷ 0 ∷ 0 ∷ 0 ∷ 0 ∷ [];
  head_abs = 104;
  oldest_abs = 60;
  lost_count = 1;
  wraps = 1;
  index = record { start_abs = 60; end_abs = 104; run_id = 2; source_id = 4; seq = 1 } ∷ [];
  producer_loss_ranges = record { run_id = 2; source_id = 4; first_seq = 0; last_seq = 0 } ∷ [];
}

write_one : write_record ring_new (sample 0) ≡ ok ((0, 44), ring_one)
unfolding write_record encode encode_slots slots_len encode_into encoded_len wire_flags
    encode_header crc32c crc_loop crc_rounds crc_round next_start mark_wrap append_record
    evict_before_clobber evict_loop
write_one = refl

write_two : write_record ring_one (sample 1) ≡ ok ((60, 104), ring_two)
unfolding write_record encode encode_slots slots_len encode_into encoded_len wire_flags
    encode_header crc32c crc_loop crc_rounds crc_round next_start mark_wrap append_record
    evict_before_clobber evict_loop record_producer_loss
write_two = refl

run_two : Run 60 (sample 0 ∷ sample 1 ∷ []) ring_two
unfolding new
run_two =
    write (sample 1)
      (write (sample 0) (start refl) (sample-IsRecord 0 (omega arith)) (omega arith) write_one)
      (sample-IsRecord 1 (omega arith)) (omega arith) write_two

samples-Numbered : Numbered [] (sample 0 ∷ sample 1 ∷ [])
unfolding count_of
samples-Numbered = (refl, (refl, tt))

sample-IsData : (seq : ℕ) → seq < 2 ^ 64 - 1 → IsData (sample seq)
sample-IsData seq h = record { no_report = refl; below = h }

poll-exact_example :
    (dropped : List Record) × (kept : List Record) × (batch : ReadBatch) × (c : RawByteConsumer)
    × (sample 0 ∷ sample 1 ∷ [] ≡ dropped ++ kept)
    × (1 ≡ length dropped % 2 ^ 64)
    × (poll (with_buffer_id 1) ring_two ≡ ok (batch, c))
    × (values batch.records ≡ all_as_read kept)
    × (c.cursor_abs ≡ 104)
    × ((run source : ℕ)
        → (delivered_in_run c run source ≡ count_of kept run source)
          × (lost_in_run c run source
              ≡ (if count_of kept run source == 0 then 0 else count_of dropped run source)))
poll-exact_example =
    poll-exact 1 run_two (omega arith) samples-Numbered
      (sample-IsData 0 (omega arith), (sample-IsData 1 (omega arith), tt))
