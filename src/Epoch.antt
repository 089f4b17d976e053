-- ===== src/Epoch.antt =====
-- crates/carriage/src/epoch.rs: the producer of records and of the lifecycle records around a change
-- of the definition.
pub mod Resolver
pub mod Protocol
pub mod Moves
pub mod Counters
pub mod Numbering
pub mod Checkpoint
pub mod Numbered
pub mod Bounds
pub mod Advances
pub mod Produced
mod Tests
use open_ot_experiments.Prelude.{
  ℕ, ◌+◌, ◌%◌, ◌^◌, Bool, true, false, not, List, [], ◌∷◌, ◌++◌, Option, none, some, ltb, ◌==◌,
  if◌then◌else◌, replicate, length, to_le_bytes, add64, Outcome, ok, err, stuck,
}
use open_ot_experiments.Registry.{
  event_definition_changed, event_logger_started, event_logger_stopped, event_message,
  event_source_high_water, key_cold_start, key_def_hash_new, key_def_hash_old, key_epoch_id,
  key_message_template_id, key_source_high_water, system_source_id, ty_bool, ty_bytes, ty_udint,
  ty_ulint,
}
use open_ot_experiments.Wire.{Record, Slot, new_record}
use open_ot_experiments.Control.{ControlBlockSnapshot}
use open_ot_experiments.Ring.{write_record, capacity}
use open_ot_experiments.Ring.Types.{RingBuffer, RingError, RingResult, default_buffer_id}

pub record PendingTransition : Type 0 where
  pub def_hash_old : List ℕ
  pub def_hash_new : List ℕ
  pub epoch_id : ℕ
  pub definition_changed_emitted : Bool

-- An entry of the `BTreeMap` from sources to their next sequence numbers.
pub record SourceSeq : Type 0 where
  pub source_id : ℕ
  pub produced : ℕ

pub record EpochProducer : Type 0 where
  pub ring : RingBuffer
  pub run_id : ℕ
  pub epoch_id : ℕ
  pub epoch_first_abs : ℕ
  pub system_seq : ℕ
  pub source_seq : List SourceSeq
  pub source_time : ℕ
  pub definition_hash : List ℕ
  pub prev_definition_hash : List ℕ
  pub transition : Option PendingTransition

pub data EpochError : Type 0 where
  definition_already_emitted : EpochError
  definition_not_emitted : EpochError
  emission_during_transition : EpochError
  no_transition_open : EpochError
  ring : RingError → EpochError
  transition_already_open : EpochError

-- The producer after an operation, also after one that fails, and what the operation returns.
abbrev pub Step : Type 0 → Type 0
Step A = EpochProducer × Outcome EpochError A

-- The `?` after an operation.
unfoldable pub and_then : {A B : Type 0} → Step A → (EpochProducer → A → Step B) → Step B
and_then (p, ok a) k = k p a
and_then (p, err e) k = (p, err e)
and_then (p, stuck) k = (p, stuck)

-- `EpochProducer::new`, with the ring that `RingBuffer::new` gives.
unfoldable pub new_producer : RingBuffer → ℕ → ℕ → EpochProducer
new_producer r run_id epoch_id = record {
  ring = r;
  run_id = run_id;
  epoch_id = epoch_id;
  epoch_first_abs = 0;
  system_seq = 0;
  source_seq = [];
  source_time = 1_780_000_000_000_000_000;
  definition_hash = replicate 8 0;
  prev_definition_hash = replicate 8 0;
  transition = none;
}

unfoldable pub control_snapshot : EpochProducer → ControlBlockSnapshot
control_snapshot p = record {
  version = 2;
  caps = 0;
  buffer_id = default_buffer_id;
  buffer_bytes = capacity p.ring % 2 ^ 32;
  head_abs = p.ring.head_abs;
  oldest_abs = p.ring.oldest_abs;
  lost_count = p.ring.lost_count;
  run_id = p.run_id;
  epoch_id = p.epoch_id;
  epoch_first_abs = p.epoch_first_abs;
  definition_hash = p.definition_hash;
  prev_definition_hash = p.prev_definition_hash;
}

-- `self.ring.write_record(&record)?`
unfoldable pub write_step : EpochProducer → RingResult ((ℕ × ℕ) × RingBuffer) → Step (ℕ × ℕ)
write_step p (ok (span, r)) = (record p { ring = r }, ok span)
write_step p (err e) = (p, err (EpochError.ring e))
write_step p stuck = (p, stuck)

unfoldable pub write : EpochProducer → Record → Step (ℕ × ℕ)
write p x = write_step p (write_record p.ring x)

-- `source_seq.get(&source_id)`, 0 where there is no entry, as in `or_insert(0)`.
unfoldable pub seq_of : List SourceSeq → ℕ → ℕ
seq_of [] source_id = 0
seq_of (e ∷ map) source_id = if e.source_id == source_id then e.produced else seq_of map source_id

-- `source_seq.insert(source_id, produced)`, which keeps the order of the keys.
unfoldable pub set_seq : List SourceSeq → ℕ → ℕ → List SourceSeq
set_seq [] source_id produced = record { source_id = source_id; produced = produced } ∷ []
set_seq (e ∷ map) source_id produced =
    if ltb source_id e.source_id
    then record { source_id = source_id; produced = produced } ∷ e ∷ map
    else if e.source_id == source_id
    then record { source_id = source_id; produced = produced } ∷ map
    else e ∷ set_seq map source_id produced

-- `record`: the record and the producer with the next source time.
unfoldable pub make_record : EpochProducer → ℕ → ℕ → ℕ → Record
make_record p source_id seq event_type_id =
    new_record p.source_time p.run_id seq source_id event_type_id

unfoldable pub tick : EpochProducer → EpochProducer
tick p = record p { source_time = add64 p.source_time 1 }

unfoldable pub next_source_seq : EpochProducer → ℕ → EpochProducer
next_source_seq p source_id = record p {
  source_seq = set_seq p.source_seq source_id (add64 (seq_of p.source_seq source_id) 1);
}

-- The record that `emit_data` writes.
unfoldable pub data_record : EpochProducer → ℕ → ℕ → Record
data_record p source_id event_type_id =
    let x = make_record p source_id (seq_of p.source_seq source_id) event_type_id in
    if event_type_id == event_message
    then record x {
      slots =
          record { key = key_message_template_id; ty = ty_udint; payload = to_le_bytes 4 0 } ∷ [];
    }
    else x

unfoldable pub emit_data : EpochProducer → ℕ → ℕ → Step Unit
emit_data p source_id event_type_id = elim p.transition [
  | some pending ↦ (p, err emission_during_transition)
  | none ↦
      and_then (write (tick (next_source_seq p source_id)) (data_record p source_id event_type_id))
        (λ p' span. (p', ok tt))
]

unfoldable pub emit_system : EpochProducer → ℕ → List Slot → Step (ℕ × ℕ)
emit_system p event_type_id slots =
    let x = record (make_record p system_source_id p.system_seq event_type_id) { slots = slots } in
    write (tick (record p { system_seq = add64 p.system_seq 1 })) x

unfoldable pub high_water_record : EpochProducer → SourceSeq → Record
high_water_record p e = record (make_record p e.source_id e.produced event_source_high_water) {
  slots =
      record { key = key_source_high_water; ty = ty_ulint; payload = to_le_bytes 8 e.produced }
      ∷ [];
}

-- The loop of `checkpoint_high_water` over the entries that it collected.
unfoldable pub checkpoint_loop : EpochProducer → List SourceSeq → Step Unit
checkpoint_loop p [] = (p, ok tt)
checkpoint_loop p (e ∷ entries) = and_then (write (tick p) (high_water_record p e)) (λ p' span.
    checkpoint_loop
      (record p' { source_seq = set_seq p'.source_seq e.source_id (add64 e.produced 1) }) entries)

unfoldable pub checkpoint_high_water : EpochProducer → Step Unit
checkpoint_high_water p = elim p.transition [
  | some pending ↦ (p, err emission_during_transition)
  | none ↦ checkpoint_loop p p.source_seq
]

unfoldable pub begin_epoch_transition : EpochProducer → List ℕ → List ℕ → ℕ → Step Unit
begin_epoch_transition p def_hash_old def_hash_new epoch_id = elim p.transition [
  | some pending ↦ (p, err transition_already_open)
  | none ↦ and_then (emit_system p event_logger_stopped []) (λ p1 span.
      and_then (checkpoint_high_water p1) (λ p2 done. (
        record p2 {
          transition = some (record {
            def_hash_old = def_hash_old;
            def_hash_new = def_hash_new;
            epoch_id = epoch_id;
            definition_changed_emitted = false;
          });
        },
        ok tt,
      )))
]

unfoldable pub definition_changed_slots : PendingTransition → List Slot
definition_changed_slots pending =
    record { key = key_def_hash_old; ty = ty_bytes; payload = pending.def_hash_old }
    ∷ record { key = key_def_hash_new; ty = ty_bytes; payload = pending.def_hash_new }
    ∷ record { key = key_epoch_id; ty = ty_ulint; payload = to_le_bytes 8 pending.epoch_id }
    ∷ []

-- The transition was taken out before the write, and is put back only when that succeeds.
unfoldable pub emit_definition_changed : EpochProducer → Step Unit
emit_definition_changed p = elim p.transition [
  | none ↦ (p, err no_transition_open)
  | some pending ↦
      if pending.definition_changed_emitted
      then (p, err definition_already_emitted)
      else and_then
          (emit_system (record p { transition = none }) event_definition_changed
            (definition_changed_slots pending))
          (λ p' span. (
            record p' { transition = some (record pending { definition_changed_emitted = true }) },
            ok tt,
          ))
]

-- The end of both ways to finish a transition: `LoggerStarted`, and the new epoch.
unfoldable pub start_epoch : EpochProducer → PendingTransition → ℕ → Step Unit
start_epoch p pending cold_start =
    and_then
      (emit_system p event_logger_started
        (record { key = key_cold_start; ty = ty_bool; payload = cold_start ∷ [] } ∷ []))
      (λ p' span. (
        record p' {
          epoch_first_abs = span.0;
          prev_definition_hash = pending.def_hash_old;
          definition_hash = pending.def_hash_new;
        },
        ok tt,
      ))

unfoldable pub finish_definition_change : EpochProducer → Step Unit
finish_definition_change p = elim p.transition [
  | none ↦ (p, err no_transition_open)
  | some pending ↦
      if pending.definition_changed_emitted
      then start_epoch (record p { transition = none; epoch_id = pending.epoch_id }) pending 0
      else (p, err definition_not_emitted)
]

unfoldable pub finish_cold_start : EpochProducer → Step Unit
finish_cold_start p = elim p.transition [
  | none ↦ (p, err no_transition_open)
  | some pending ↦
      if pending.definition_changed_emitted
      then start_epoch
          (record p {
            transition = none;
            run_id = add64 p.run_id 1;
            epoch_id = pending.epoch_id;
            system_seq = 0;
            source_seq = [];
          })
          pending 1
      else (p, err definition_not_emitted)
]
