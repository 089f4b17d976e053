-- ===== src/Epoch/Protocol.antt =====
-- crates/carriage/src/epoch.rs: the protocol of a change of the definition.
use open_ot_experiments.Prelude.{
  ℕ, ◌≡◌, true, false, List, Option, none, some, if◌then◌else◌, Outcome, ok, err, ◌⊎◌, Option-cases,
  Bool-cases, inl, inr,
}
use open_ot_experiments.Epoch.{
  EpochProducer, EpochError, PendingTransition, Step, emit_data, checkpoint_high_water,
  begin_epoch_transition, emit_definition_changed, finish_definition_change, finish_cold_start,
  definition_already_emitted, definition_not_emitted, emission_during_transition,
  no_transition_open, transition_already_open,
}

-- No transition; one that was begun; and one whose `DefinitionChanged` record was written.
pub data Phase : Type 0 where
  idle begun announced : Phase

abbrev pub phase_of : Option PendingTransition → Phase
phase_of none = Phase.idle
phase_of (some pending) =
    if pending.definition_changed_emitted then Phase.announced else Phase.begun

abbrev pub phase : EpochProducer → Phase
phase p = phase_of p.transition

-- The operations of a producer.
pub data Op : Type 0 where
  data_ : (source_id event_type_id : ℕ) → Op
  checkpoint : Op
  begin_ : (def_hash_old def_hash_new : List ℕ) (epoch_id : ℕ) → Op
  announce warm cold : Op

unfoldable pub run_op : EpochProducer → Op → Step Unit
run_op p (data_ source_id event_type_id) = emit_data p source_id event_type_id
run_op p checkpoint = checkpoint_high_water p
run_op p (begin_ def_hash_old def_hash_new epoch_id) =
    begin_epoch_transition p def_hash_old def_hash_new epoch_id
run_op p announce = emit_definition_changed p
run_op p warm = finish_definition_change p
run_op p cold = finish_cold_start p

-- The protocol: the phase after an operation, or the error that refuses it.
unfoldable pub next_phase : Phase → Op → Outcome EpochError Phase
next_phase Phase.idle (data_ s e) = ok Phase.idle
next_phase Phase.idle checkpoint = ok Phase.idle
next_phase Phase.idle (begin_ old new id) = ok Phase.begun
next_phase Phase.idle announce = err no_transition_open
next_phase Phase.idle warm = err no_transition_open
next_phase Phase.idle cold = err no_transition_open
next_phase Phase.begun (data_ s e) = err emission_during_transition
next_phase Phase.begun checkpoint = err emission_during_transition
next_phase Phase.begun (begin_ old new id) = err transition_already_open
next_phase Phase.begun announce = ok Phase.announced
next_phase Phase.begun warm = err definition_not_emitted
next_phase Phase.begun cold = err definition_not_emitted
next_phase Phase.announced (data_ s e) = err emission_during_transition
next_phase Phase.announced checkpoint = err emission_during_transition
next_phase Phase.announced (begin_ old new id) = err transition_already_open
next_phase Phase.announced announce = err definition_already_emitted
next_phase Phase.announced warm = ok Phase.idle
next_phase Phase.announced cold = ok Phase.idle

-- In which phase a producer is, with its transition.
pub phase_cases :
    (p : EpochProducer)
    → (p.transition ≡ none)
      ⊎ (((t : PendingTransition) × (p.transition ≡ some t)
            × (t.definition_changed_emitted ≡ false))
          ⊎ ((t : PendingTransition) × (p.transition ≡ some t)
              × (t.definition_changed_emitted ≡ true)))
phase_cases p = elim (Option-cases p.transition) [
  | inl q ↦ inl q
  | inr (t, q) ↦ elim (Bool-cases t.definition_changed_emitted) [
    | inl b ↦ inr (inr (t, q, b))
    | inr b ↦ inr (inl (t, q, b))
  ]
]

pub idle-refused :
    (p : EpochProducer) (op : Op) (e : EpochError)
    → p.transition ≡ none
    → next_phase Phase.idle op ≡ err e
    → run_op p op ≡ (p, err e)
unfolding run_op next_phase emit_data checkpoint_high_water begin_epoch_transition
    emit_definition_changed finish_definition_change finish_cold_start
idle-refused p (data_ s v) e q h = cc
idle-refused p checkpoint e q h = cc
idle-refused p (begin_ old new id) e q h = cc
idle-refused p announce e q h = let same : no_transition_open ≡ e = cc in rw (q, same)
idle-refused p warm e q h = let same : no_transition_open ≡ e = cc in rw (q, same)
idle-refused p cold e q h = let same : no_transition_open ≡ e = cc in rw (q, same)

pub begun-refused :
    (p : EpochProducer) (t : PendingTransition) (op : Op) (e : EpochError)
    → p.transition ≡ some t
    → t.definition_changed_emitted ≡ false
    → next_phase Phase.begun op ≡ err e
    → run_op p op ≡ (p, err e)
unfolding run_op next_phase emit_data checkpoint_high_water begin_epoch_transition
    emit_definition_changed finish_definition_change finish_cold_start
begun-refused p t (data_ s v) e q b h =
    let same : emission_during_transition ≡ e = cc in rw (q, same)
begun-refused p t checkpoint e q b h =
    let same : emission_during_transition ≡ e = cc in rw (q, same)
begun-refused p t (begin_ old new id) e q b h =
    let same : transition_already_open ≡ e = cc in rw (q, same)
begun-refused p t announce e q b h = cc
begun-refused p t warm e q b h = let same : definition_not_emitted ≡ e = cc in rw (q, b, same)
begun-refused p t cold e q b h = let same : definition_not_emitted ≡ e = cc in rw (q, b, same)

pub announced-refused :
    (p : EpochProducer) (t : PendingTransition) (op : Op) (e : EpochError)
    → p.transition ≡ some t
    → t.definition_changed_emitted ≡ true
    → next_phase Phase.announced op ≡ err e
    → run_op p op ≡ (p, err e)
unfolding run_op next_phase emit_data checkpoint_high_water begin_epoch_transition
    emit_definition_changed finish_definition_change finish_cold_start
announced-refused p t (data_ s v) e q b h =
    let same : emission_during_transition ≡ e = cc in rw (q, same)
announced-refused p t checkpoint e q b h =
    let same : emission_during_transition ≡ e = cc in rw (q, same)
announced-refused p t (begin_ old new id) e q b h =
    let same : transition_already_open ≡ e = cc in rw (q, same)
announced-refused p t announce e q b h =
    let same : definition_already_emitted ≡ e = cc in rw (q, b, same)
announced-refused p t warm e q b h = cc
announced-refused p t cold e q b h = cc

-- An operation in the wrong phase is refused with the error of the protocol, and changes nothing.
pub run_op-refused :
    (p : EpochProducer) (op : Op) (e : EpochError)
    → next_phase (phase p) op ≡ err e
    → run_op p op ≡ (p, err e)
run_op-refused p op e h = elim (phase_cases p) [
  | inl q ↦ idle-refused p op e q (rw q at h)
  | inr (inl (t, q, b)) ↦ begun-refused p t op e q b (rw (q, b) at h)
  | inr (inr (t, q, b)) ↦ announced-refused p t op e q b (rw (q, b) at h)
]
