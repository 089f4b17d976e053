-- ===== src/Shm/Tests.antt =====
-- A mapping with a pool of four bytes, and the theorems about the shared-memory store at it.
use open_ot_experiments.Prelude.{
  ℕ, zero, suc, ◌+◌, ◌^◌, ◌≤◌, ◌≡◌, ◌⊎◌, refl, List, [], ◌∷◌, arith, replicate, ok, err, stuck,
}
use open_ot_experiments.Crc.{crc32c, crc_loop, crc_rounds, crc_round}
use open_ot_experiments.Wire.{
  Record, encode, encode_slots, slots_len, encode_into, encoded_len, wire_flags, encode_header,
}
use open_ot_experiments.Wire.Layout.{IsRecord}
use open_ot_experiments.Ring
use open_ot_experiments.Ring.Types.{RingBuffer, RingResult}
use open_ot_experiments.Ring.Stored.{IsValid}
use open_ot_experiments.Concurrent.{
  StoreOp, begin_control_update, end_control_update_release, store_oldest_relaxed,
  store_byte_relaxed, store_head_release, fetch_add_lost_release, apply_all, write_record,
}
use open_ot_experiments.Concurrent.Publish.{shared, producer_of}
use open_ot_experiments.Shm.Publish.{write_record-shared}
use open_ot_experiments.Shm.{data_offset, apply_shared, apply_shared_all, create, invalid_input}
use open_ot_experiments.Shm.View.{view, OpsFit, view-apply_shared_all}
use open_ot_experiments.Shm.Create.{Fresh, create_outcome}

-- An update is under way.
abbrev updating_region : List ℕ
updating_region =
    79
    ∷ 79
    ∷ 84
    ∷ 50
    ∷ 2
    ∷ 0
    ∷ 0
    ∷ 0
    ∷ 1
    ∷ 0
    ∷ 0
    ∷ 0
    ∷ 4
    ∷ 0
    ∷ 0
    ∷ 0
    ∷ 1
    ∷ 0
    ∷ 0
    ∷ 0
    ∷ replicate 112 0

abbrev settled_region : List ℕ
settled_region =
    79
    ∷ 79
    ∷ 84
    ∷ 50
    ∷ 2
    ∷ 0
    ∷ 0
    ∷ 0
    ∷ 1
    ∷ 0
    ∷ 0
    ∷ 0
    ∷ 4
    ∷ 0
    ∷ 0
    ∷ 0
    ∷ 2
    ∷ 0
    ∷ 0
    ∷ 0
    ∷ replicate 112 0

-- The update ends between the first two loads.
abbrev regions : ℕ → List ℕ
regions zero = updating_region
regions (suc n) = settled_region

end_of_update : apply_shared updating_region end_control_update_release ≡ settled_region
unfolding apply_shared
end_of_update = refl

abbrev some_ops : List StoreOp
some_ops =
    begin_control_update
    ∷ fetch_add_lost_release 1
    ∷ store_oldest_relaxed 4
    ∷ store_byte_relaxed 3 7
    ∷ store_head_release 8
    ∷ end_control_update_release
    ∷ []

some_ops-OpsFit : OpsFit 4 some_ops
some_ops-OpsFit = (tt, (tt, (omega arith, (omega arith, (omega arith, (tt, tt))))))

view-apply_shared_all_example :
    view 4 (apply_shared_all settled_region some_ops) ≡ apply_all (view 4 settled_region) some_ops
view-apply_shared_all_example = view-apply_shared_all 4 settled_region some_ops refl some_ops-OpsFit

abbrev pool : ℕ
pool = 4

create_outcome_example :
    ((pool ≡ 0) × (create pool ≡ err (invalid_input "ring capacity must be non-zero")))
    ⊎ (((2 ^ 64 ≤ data_offset + pool)
          × (create pool ≡ err (invalid_input "mapping length overflow")))
        ⊎ ((region : List ℕ) × (create pool ≡ ok region) × Fresh pool region))
create_outcome_example = create_outcome pool

-- A record without slots: 44 bytes with its CRC.
abbrev message : Record
message = record {
  flags = 0;
  source_time = 1;
  run_id = 2;
  seq = 3;
  source_id = 4;
  event_type_id = 5;
  slots = [];
}

message-IsRecord : IsRecord message
message-IsRecord = record {
  flags_fits = omega arith;
  source_time_fits = omega arith;
  run_id_fits = omega arith;
  seq_fits = omega arith;
  source_id_fits = omega arith;
  event_type_id_fits = omega arith;
  slots_fit = tt;
}

abbrev buffer_empty : RingBuffer
buffer_empty = record {
  bytes = replicate 60 0;
  head_abs = 0;
  oldest_abs = 0;
  lost_count = 0;
  wraps = 0;
  index = [];
  producer_loss_ranges = [];
}

abbrev buffer_or : RingBuffer → RingResult ((ℕ × ℕ) × RingBuffer) → RingBuffer
buffer_or otherwise (ok (span, r)) = r
buffer_or otherwise (err e) = otherwise
buffer_or otherwise stuck = otherwise

buffer_write :
    Ring.write_record buffer_empty message
    ≡ ok ((0, 44), buffer_or buffer_empty (Ring.write_record buffer_empty message))
unfolding Ring.write_record encode encode_slots slots_len encode_into encoded_len wire_flags
    encode_header crc32c crc_loop crc_rounds crc_round Ring.next_start Ring.mark_wrap
    Ring.append_record Ring.evict_before_clobber Ring.evict_loop
buffer_write = refl

buffer_empty-IsValid : IsValid buffer_empty []
buffer_empty-IsValid = record {
  pool = omega arith;
  oldest_le_head = omega arith;
  window = omega arith;
  stored = refl;
}

abbrev zeros : List ℕ
zeros = replicate 188 0

write_record-shared_example :
    (ops : List StoreOp) × (write_record 60 (producer_of buffer_empty) message
      ≡ ok (producer_of (buffer_or buffer_empty (Ring.write_record buffer_empty message)), ops))
    × (view 60 (apply_shared_all zeros ops)
        ≡ shared (buffer_or buffer_empty (Ring.write_record buffer_empty message)))
write_record-shared_example =
    write_record-shared zeros buffer_empty [] message refl refl buffer_empty-IsValid
      message-IsRecord (omega arith) (omega arith) buffer_write
