-- ===== src/Epoch/Tests.antt =====
-- A concrete producer, and the theorems about the protocol at it.
use open_ot_experiments.Prelude.{
  false, List, arith, ◌≡◌, refl, [], ◌∷◌, ok, err, replicate, some, none,
}
use open_ot_experiments.Crc.{crc32c, crc_loop, crc_rounds, crc_round}
use open_ot_experiments.Wire.{
  encode, encode_slots, slots_len, encode_into, encoded_len, wire_flags, encode_header, new_record,
}
use open_ot_experiments.Ring.{
  write_record, evict_before_clobber, evict_loop, mark_wrap, append_record, next_start,
}
use open_ot_experiments.Ring.Types.{RingBuffer, record_exceeds_capacity}
use open_ot_experiments.Epoch.{
  EpochProducer, EpochError, emit_definition_changed, emit_system, definition_changed_slots,
  no_transition_open, emit_data, and_then, write, write_step, tick, next_source_seq, data_record,
  make_record, set_seq, seq_of, new_producer, begin_epoch_transition, checkpoint_high_water,
  checkpoint_loop, high_water_record, finish_cold_start, start_epoch,
}
use open_ot_experiments.Epoch.Protocol.{
  Phase, Op, data_, begin_, announce, cold, warm, phase, run_op, next_phase, run_op-refused,
}
use open_ot_experiments.Epoch.Numbering.{Numbers}
use open_ot_experiments.Epoch.Produced.{run_ops, run_ops-numbered}
use open_ot_experiments.Epoch.Moves.{run_op-moves, emit_definition_changed-fails}

abbrev ring_new : RingBuffer
ring_new = record {
  bytes = replicate 60 0;
  head_abs = 0;
  oldest_abs = 0;
  lost_count = 0;
  wraps = 0;
  index = [];
  producer_loss_ranges = [];
}

abbrev idle : EpochProducer
idle = record {
  ring = ring_new;
  run_id = 1;
  epoch_id = 1;
  epoch_first_abs = 0;
  system_seq = 0;
  source_seq = [];
  source_time = 1_780_000_000_000_000_000;
  definition_hash = replicate 8 0;
  prev_definition_hash = replicate 8 0;
  transition = none;
}

refuses : next_phase Phase.idle warm ≡ err no_transition_open
unfolding next_phase
refuses = refl

run_op-refused_example : run_op idle warm ≡ (idle, err no_transition_open)
run_op-refused_example = run_op-refused idle warm no_transition_open refuses

-- One data record.
abbrev after_data : EpochProducer
after_data = record idle {
  ring = record {
    bytes =
        79 ∷ 79 ∷ 84 ∷ 50 ∷ 44 ∷ 0 ∷ 8 ∷ 0 ∷ 0 ∷ 0 ∷ 50 ∷ 180 ∷ 145 ∷ 212 ∷ 179 ∷ 24 ∷ 1 ∷ 0 ∷ 0 ∷ 0
        ∷ 0 ∷ 0 ∷ 0 ∷ 0 ∷ 0 ∷ 0 ∷ 0 ∷ 0 ∷ 0 ∷ 0 ∷ 0 ∷ 0 ∷ 4 ∷ 0 ∷ 0 ∷ 0 ∷ 5 ∷ 0 ∷ 0 ∷ 0 ∷ 148 ∷ 214
        ∷ 253 ∷ 221 ∷ 0 ∷ 0 ∷ 0 ∷ 0 ∷ 0 ∷ 0 ∷ 0 ∷ 0 ∷ 0 ∷ 0 ∷ 0 ∷ 0 ∷ 0 ∷ 0 ∷ 0 ∷ 0 ∷ [];
    head_abs = 44;
    oldest_abs = 0;
    lost_count = 0;
    wraps = 0;
    index = record { start_abs = 0; end_abs = 44; run_id = 1; source_id = 4; seq = 0 } ∷ [];
    producer_loss_ranges = [];
  };
  source_seq = record { source_id = 4; produced = 1 } ∷ [];
  source_time = 1_780_000_000_000_000_001;
}

emits : run_op idle (data_ 4 5) ≡ (after_data, ok tt)
unfolding run_op emit_data and_then write write_step tick next_source_seq data_record make_record
    new_record set_seq seq_of write_record encode encode_slots slots_len encode_into encoded_len
    wire_flags encode_header crc32c crc_loop crc_rounds crc_round next_start mark_wrap append_record
    evict_before_clobber evict_loop
emits = refl

run_op-moves_example : next_phase (phase idle) (data_ 4 5) ≡ ok (phase after_data)
run_op-moves_example = run_op-moves idle (data_ 4 5) after_data emits

-- A pool that holds no `DefinitionChanged` record.
abbrev begun : EpochProducer
begun = record idle {
  transition = some (record {
    def_hash_old = replicate 8 0;
    def_hash_new = replicate 8 1;
    epoch_id = 2;
    definition_changed_emitted = false;
  });
}

abbrev after_failure : EpochProducer
after_failure = record idle { system_seq = 1; source_time = 1_780_000_000_000_000_001 }

fails :
    emit_definition_changed begun
    ≡ (after_failure, err (EpochError.ring (record_exceeds_capacity 80 60)))
unfolding emit_definition_changed emit_system definition_changed_slots and_then write write_step
    tick make_record new_record write_record encode encode_slots slots_len encode_into encoded_len
    wire_flags encode_header crc32c crc_loop crc_rounds crc_round
fails = refl

emit_definition_changed-fails_example : phase after_failure ≡ Phase.idle
emit_definition_changed-fails_example =
    emit_definition_changed-fails begun _ after_failure
      (EpochError.ring (record_exceeds_capacity 80 60)) refl refl fails

-- Two data records, a change of the definition with its checkpoint, a cold start and a data record.
abbrev life : List Op
life =
    data_ 4 5
    ∷ data_ 4 5
    ∷ begin_ (replicate 8 0) (replicate 8 1) 2
    ∷ announce
    ∷ cold
    ∷ data_ 4 5
    ∷ []

abbrev pool : RingBuffer
pool = record ring_new { bytes = replicate 480 0 }

abbrev lived : EpochProducer
lived = (run_ops (new_producer pool 1 1) life).0

lives : run_ops (new_producer pool 1 1) life ≡ (lived, ok tt)
unfolding run_ops new_producer run_op emit_data and_then write write_step tick next_source_seq
    data_record make_record new_record set_seq seq_of write_record encode encode_slots slots_len
    encode_into encoded_len wire_flags encode_header crc32c crc_loop crc_rounds crc_round next_start
    mark_wrap append_record evict_before_clobber evict_loop emit_system definition_changed_slots
    emit_definition_changed begin_epoch_transition checkpoint_high_water checkpoint_loop
    high_water_record finish_cold_start start_epoch
lives = refl

run_ops-numbered_example : Numbers [] pool lived
run_ops-numbered_example =
    run_ops-numbered pool 1 1 life lived (omega arith)
      (omega arith, (omega arith, (tt, (tt, (tt, (omega arith, tt)))))) lives
