-- ===== src/Epoch/Numbered.antt =====
-- crates/carriage/src/epoch.rs: a producer numbers its records source by source.
use open_ot_experiments.Prelude.{
  ℕ, ◌-◌, ◌<◌, ◌^◌, ◌≡◌, ap, ◌∙◌, sym, true, false, List, [], Option, none, some, add64, ok, arith,
}
use mathlib.Core.Path.{subst}
use open_ot_experiments.Wire.{Record}
use open_ot_experiments.Ring.Types.{RingBuffer}
use open_ot_experiments.Registry.{
  event_definition_changed, event_logger_started, event_logger_stopped,
}
use open_ot_experiments.Epoch.{
  EpochProducer, PendingTransition, and_then, emit_system, seq_of, checkpoint_high_water,
  begin_epoch_transition, emit_definition_changed, definition_changed_slots, start_epoch,
  finish_definition_change, finish_cold_start,
}
use open_ot_experiments.Epoch.Moves.{and_then-ok, emit_definition_changed_begun}
use open_ot_experiments.Epoch.Counters.{cold-Counters}
use open_ot_experiments.Epoch.Checkpoint.{checkpoint_high_water-Numbers}
use open_ot_experiments.Epoch.Numbering.{
  Counts, Numbers, Room, Numbers-join, emit_system-same, emit_system-Numbers,
}

pub begin_epoch_transition_idle :
    (p : EpochProducer) (old new : List ℕ) (epoch_id : ℕ)
    → p.transition ≡ none
    → begin_epoch_transition p old new epoch_id
      ≡ and_then (emit_system p event_logger_stopped []) (λ p1 span.
        and_then (checkpoint_high_water p1) (λ p2 done. (
          record p2 {
            transition = some (record {
              def_hash_old = old;
              def_hash_new = new;
              epoch_id = epoch_id;
              definition_changed_emitted = false;
            });
          },
          ok tt,
        )))
unfolding begin_epoch_transition
begin_epoch_transition_idle p old new epoch_id q = rw q

-- The counters do not read the transition.
with_transition :
    {before : List Record} {r : RingBuffer} {p : EpochProducer} (t : Option PendingTransition)
    → Numbers before r p
    → Numbers before r (record p { transition = t })
with_transition t n = record {
  records = n.records;
  written = n.written;
  numbered = n.numbered;
  counts = n.counts;
}

pub begin_epoch_transition-Numbers :
    {before : List Record} (p : EpochProducer) (old new : List ℕ) (epoch_id : ℕ)
    (p' : EpochProducer)
    → Counts before p
    → Room p
    → p.transition ≡ none
    → begin_epoch_transition p old new epoch_id ≡ (p', ok tt)
    → Numbers before p.ring p'
begin_epoch_transition-Numbers {before} p old new epoch_id p' c room q h =
    let (p1, span, first, rest) =
      and_then-ok _ _ p' tt (sym (begin_epoch_transition_idle p old new epoch_id q) ∙ h) in
    let (p2, done, second, last) = and_then-ok _ _ p' tt rest in
    let same = emit_system-same p event_logger_stopped [] p1 span first in
    let stopped = emit_system-Numbers p event_logger_stopped [] p1 span c room.system_room first in
    let checked =
      checkpoint_high_water-Numbers p1 p2 stopped.counts
        (subst (λ m. (s : ℕ) → seq_of m s < 2 ^ 64 - 1) (ap EpochProducer.source_seq same)
          room.source_room)
        (sym (ap EpochProducer.transition same) ∙ q) second in
    subst (Numbers before p.ring) (ap (λ s. s.0) last)
      (with_transition _ (Numbers-join stopped checked))

pub emit_definition_changed-Numbers :
    {before : List Record} (p : EpochProducer) (t : PendingTransition) (p' : EpochProducer)
    → Counts before p
    → Room p
    → p.transition ≡ some t
    → t.definition_changed_emitted ≡ false
    → emit_definition_changed p ≡ (p', ok tt)
    → Numbers before p.ring p'
emit_definition_changed-Numbers {before} p t p' c room q b h =
    let (p1, span, first, last) =
      and_then-ok _ _ p' tt (sym (emit_definition_changed_begun p t q b) ∙ h) in
    let changed =
      emit_system-Numbers (record p { transition = none }) event_definition_changed
        (definition_changed_slots t) p1 span c room.system_room first in
    subst (Numbers before p.ring) (ap (λ s. s.0) last) (with_transition _ changed)

pub finish_definition_change_announced :
    (p : EpochProducer) (t : PendingTransition)
    → p.transition ≡ some t
    → t.definition_changed_emitted ≡ true
    → finish_definition_change p
      ≡ start_epoch (record p { transition = none; epoch_id = t.epoch_id }) t 0
unfolding finish_definition_change
finish_definition_change_announced p t q b = rw (q, b)

-- The producer that a cold start goes on with.
abbrev pub cold_producer : EpochProducer → PendingTransition → EpochProducer
cold_producer p t = record p {
  transition = none;
  run_id = add64 p.run_id 1;
  epoch_id = t.epoch_id;
  system_seq = 0;
  source_seq = [];
}

pub finish_cold_start_announced :
    (p : EpochProducer) (t : PendingTransition)
    → p.transition ≡ some t
    → t.definition_changed_emitted ≡ true
    → finish_cold_start p ≡ start_epoch (cold_producer p t) t 1
unfolding finish_cold_start
finish_cold_start_announced p t q b = rw (q, b)

start_epoch-Numbers :
    {before : List Record} (p : EpochProducer) (t : PendingTransition) (cold_start : ℕ)
    (p' : EpochProducer)
    → Counts before p
    → p.system_seq < 2 ^ 64 - 1
    → start_epoch p t cold_start ≡ (p', ok tt)
    → Numbers before p.ring p'
unfolding start_epoch
start_epoch-Numbers {before} p t cold_start p' c room h =
    let (p1, span, first, last) = and_then-ok _ _ p' tt h in
    let started = emit_system-Numbers p event_logger_started _ p1 span c room first in
    subst (Numbers before p.ring) (ap (λ s. s.0) last) (record {
      records = started.records;
      written = started.written;
      numbered = started.numbered;
      counts = started.counts;
    })

pub finish_definition_change-Numbers :
    {before : List Record} (p : EpochProducer) (t : PendingTransition) (p' : EpochProducer)
    → Counts before p
    → Room p
    → p.transition ≡ some t
    → t.definition_changed_emitted ≡ true
    → finish_definition_change p ≡ (p', ok tt)
    → Numbers before p.ring p'
finish_definition_change-Numbers p t p' c room q b h =
    start_epoch-Numbers (record p { transition = none; epoch_id = t.epoch_id }) t 0 p' c
      room.system_room (sym (finish_definition_change_announced p t q b) ∙ h)

pub finish_cold_start-Numbers :
    {before : List Record} (p : EpochProducer) (t : PendingTransition) (p' : EpochProducer)
    → Counts before p
    → Room p
    → p.transition ≡ some t
    → t.definition_changed_emitted ≡ true
    → finish_cold_start p ≡ (p', ok tt)
    → Numbers before p.ring p'
finish_cold_start-Numbers p t p' c room q b h =
    start_epoch-Numbers (cold_producer p t) t 1 p' (cold-Counters c room.run_room) (omega arith)
      (sym (finish_cold_start_announced p t q b) ∙ h)
