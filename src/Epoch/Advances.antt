-- ===== src/Epoch/Advances.antt =====
-- crates/carriage/src/epoch.rs: the operations around a change of the definition advance no counter
-- by more than one.
use open_ot_experiments.Prelude.{
  ℕ, ◌+◌, ◌≡◌, ap, ◌∙◌, sym, true, false, List, [], Option, none, some, ok, arith,
}
use mathlib.Core.Path.{subst}
use open_ot_experiments.Registry.{
  event_definition_changed, event_logger_started, event_logger_stopped,
}
use open_ot_experiments.Epoch.{
  EpochProducer, PendingTransition, seq_of, begin_epoch_transition, emit_definition_changed,
  definition_changed_slots, start_epoch, finish_definition_change, finish_cold_start,
}
use open_ot_experiments.Epoch.Moves.{and_then-ok, emit_definition_changed_begun}
use open_ot_experiments.Epoch.Counters.{Above}
use open_ot_experiments.Epoch.Numbered.{
  begin_epoch_transition_idle, finish_definition_change_announced, cold_producer,
  finish_cold_start_announced,
}
use open_ot_experiments.Epoch.Bounds.{Bounds, emit_system-Bounds, checkpoint_high_water-Bounds}
use open_ot_experiments.Epoch.Numbering.{emit_system-same}

-- The bounds do not read the transition.
with_transition :
    {a b c : ℕ} {p : EpochProducer} (t : Option PendingTransition)
    → Bounds a b c p
    → Bounds a b c (record p { transition = t })
with_transition t k = record { run_at = k.run_at; system_at = k.system_at; source_at = k.source_at }

pub begin_epoch_transition-Bounds :
    {a b c : ℕ} (p : EpochProducer) (old new : List ℕ) (epoch_id : ℕ) (p' : EpochProducer)
    → Above 0 p.source_seq
    → Bounds a b c p
    → p.transition ≡ none
    → begin_epoch_transition p old new epoch_id ≡ (p', ok tt)
    → Bounds a (b + 1) (c + 1) p'
begin_epoch_transition-Bounds {a} {b} {c} p old new epoch_id p' above k q h =
    let (p1, span, first, rest) =
      and_then-ok _ _ p' tt (sym (begin_epoch_transition_idle p old new epoch_id q) ∙ h) in
    let (p2, done, second, last) = and_then-ok _ _ p' tt rest in
    let same = emit_system-same p event_logger_stopped [] p1 span first in
    let stopped = emit_system-Bounds p event_logger_stopped [] p1 span k first in
    let checked =
      checkpoint_high_water-Bounds p1 p2 (subst (Above 0) (ap EpochProducer.source_seq same) above)
        stopped (sym (ap EpochProducer.transition same) ∙ q) second in
    subst (Bounds a (b + 1) (c + 1)) (ap (λ s. s.0) last) (with_transition _ checked)

pub emit_definition_changed-Bounds :
    {a b c : ℕ} (p : EpochProducer) (t : PendingTransition) (p' : EpochProducer)
    → Bounds a b c p
    → p.transition ≡ some t
    → t.definition_changed_emitted ≡ false
    → emit_definition_changed p ≡ (p', ok tt)
    → Bounds a (b + 1) c p'
emit_definition_changed-Bounds {a} {b} {c} p t p' k q f h =
    let (p1, span, first, last) =
      and_then-ok _ _ p' tt (sym (emit_definition_changed_begun p t q f) ∙ h) in
    let changed =
      emit_system-Bounds (record p { transition = none }) event_definition_changed
        (definition_changed_slots t) p1 span (with_transition none k) first in
    subst (Bounds a (b + 1) c) (ap (λ s. s.0) last) (with_transition _ changed)

start_epoch-Bounds :
    {a b c : ℕ} (p : EpochProducer) (t : PendingTransition) (cold_start : ℕ) (p' : EpochProducer)
    → Bounds a b c p
    → start_epoch p t cold_start ≡ (p', ok tt)
    → Bounds a (b + 1) c p'
unfolding start_epoch
start_epoch-Bounds {a} {b} {c} p t cold_start p' k h =
    let (p1, span, first, last) = and_then-ok _ _ p' tt h in
    let m = emit_system-Bounds p event_logger_started _ p1 span k first in
    subst (Bounds a (b + 1) c) (ap (λ s. s.0) last)
      (record { run_at = m.run_at; system_at = m.system_at; source_at = m.source_at })

pub finish_definition_change-Bounds :
    {a b c : ℕ} (p : EpochProducer) (t : PendingTransition) (p' : EpochProducer)
    → Bounds a b c p
    → p.transition ≡ some t
    → t.definition_changed_emitted ≡ true
    → finish_definition_change p ≡ (p', ok tt)
    → Bounds a (b + 1) c p'
finish_definition_change-Bounds p t p' k q f h =
    start_epoch-Bounds (record p { transition = none; epoch_id = t.epoch_id }) t 0 p'
      (record { run_at = k.run_at; system_at = k.system_at; source_at = k.source_at })
      (sym (finish_definition_change_announced p t q f) ∙ h)

pub finish_cold_start-Bounds :
    {a b c : ℕ} (p : EpochProducer) (t : PendingTransition) (p' : EpochProducer)
    → Bounds a b c p
    → p.transition ≡ some t
    → t.definition_changed_emitted ≡ true
    → finish_cold_start p ≡ (p', ok tt)
    → Bounds (a + 1) (b + 1) c p'
unfolding seq_of
finish_cold_start-Bounds p t p' k q f h =
    start_epoch-Bounds (cold_producer p t) t 1 p'
      (record {
        run_at = let at = k.run_at in omega arith;
        system_at = omega arith;
        source_at = λ s. omega arith;
      })
      (sym (finish_cold_start_announced p t q f) ∙ h)
