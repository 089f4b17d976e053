-- ===== src/Epoch/Moves.antt =====
-- crates/carriage/src/epoch.rs: successful operations follow the protocol of a change of the
-- definition.
use open_ot_experiments.Prelude.{
  ℕ, ◌≡◌, refl, ap, ◌∙◌, sym, Bool, true, false, List, [], ◌∷◌, Option, none, some, if◌then◌else◌,
  add64, Outcome, ok, err, stuck, ◌⊎◌, inl, inr,
}
use open_ot_experiments.Registry.{event_definition_changed, event_logger_started}
use open_ot_experiments.Wire.{Slot}
use open_ot_experiments.Ring.Types.{RingBuffer, RingResult}
use open_ot_experiments.Epoch.{
  EpochProducer, EpochError, PendingTransition, SourceSeq, Step, and_then, write, write_step, tick,
  emit_data, emit_system, next_source_seq, data_record, checkpoint_loop, checkpoint_high_water,
  set_seq, begin_epoch_transition, emit_definition_changed, definition_changed_slots, start_epoch,
  finish_definition_change, finish_cold_start,
}
use open_ot_experiments.Epoch.Protocol.{
  Phase, Op, data_, checkpoint, begin_, announce, warm, cold, phase_of, phase, run_op, next_phase,
  phase_cases, idle-refused, begun-refused, announced-refused,
}

-- A successful step, taken apart.
pub and_then-ok :
    {A B : Type 0} (s : Step A) (k : EpochProducer → A → Step B) (p' : EpochProducer) (b : B)
    → and_then s k ≡ (p', ok b)
    → (p : EpochProducer) × (a : A) × (s ≡ (p, ok a)) × (k p a ≡ (p', ok b))
unfolding and_then
and_then-ok (p, ok a) k p' b h = (p, a, refl, h)
and_then-ok (p, err e) k p' b h = (let bad = ap (λ s. s.1) h in cc)
and_then-ok (p, stuck) k p' b h = (let bad = ap (λ s. s.1) h in cc)

-- A write changes the ring only.
write_step-transition :
    (p : EpochProducer) (o : RingResult ((ℕ × ℕ) × RingBuffer)) (p' : EpochProducer)
    (r : Outcome EpochError (ℕ × ℕ))
    → write_step p o ≡ (p', r)
    → p'.transition ≡ p.transition
unfolding write_step
write_step-transition p (ok (span, ring')) p' r h = sym (ap (λ s. EpochProducer.transition s.0) h)
write_step-transition p (err e) p' r h = sym (ap (λ s. EpochProducer.transition s.0) h)
write_step-transition p stuck p' r h = sym (ap (λ s. EpochProducer.transition s.0) h)

emit_system-transition :
    (p : EpochProducer) (event_type_id : ℕ) (slots : List Slot) (p' : EpochProducer)
    (r : Outcome EpochError (ℕ × ℕ))
    → emit_system p event_type_id slots ≡ (p', r)
    → p'.transition ≡ p.transition
unfolding emit_system write tick
emit_system-transition p event_type_id slots p' r h = write_step-transition _ _ p' r h

pub emit_data_idle :
    (p : EpochProducer) (source_id event_type_id : ℕ)
    → p.transition ≡ none
    → emit_data p source_id event_type_id
      ≡ and_then
          (write (tick (next_source_seq p source_id)) (data_record p source_id event_type_id))
          (λ p' span. (p', ok tt))
unfolding emit_data
emit_data_idle p source_id event_type_id q = rw q

emit_data-transition :
    (p : EpochProducer) (source_id event_type_id : ℕ) (p' : EpochProducer)
    → p.transition ≡ none
    → emit_data p source_id event_type_id ≡ (p', ok tt)
    → p'.transition ≡ none
unfolding write tick next_source_seq
emit_data-transition p source_id event_type_id p' q h =
    let (p1, span, first, last) =
      and_then-ok _ _ p' tt (sym (emit_data_idle p source_id event_type_id q) ∙ h) in
    sym (ap (λ s. EpochProducer.transition s.0) last)
    ∙ write_step-transition _ _ p1 (ok span) first
    ∙ q

checkpoint_loop-transition :
    (entries : List SourceSeq) (p p' : EpochProducer)
    → checkpoint_loop p entries ≡ (p', ok tt)
    → p'.transition ≡ p.transition
unfolding checkpoint_loop write tick
checkpoint_loop-transition [] p p' h = sym (ap (λ s. EpochProducer.transition s.0) h)
checkpoint_loop-transition (e ∷ entries) p p' h =
    let (p1, span, first, last) = and_then-ok _ _ p' tt h in
    checkpoint_loop-transition entries
      (record p1 { source_seq = set_seq p1.source_seq e.source_id (add64 e.produced 1) }) p' last
    ∙ write_step-transition _ _ p1 (ok span) first

pub checkpoint_high_water_idle :
    (p : EpochProducer)
    → p.transition ≡ none
    → checkpoint_high_water p ≡ checkpoint_loop p p.source_seq
unfolding checkpoint_high_water
checkpoint_high_water_idle p q = rw q

checkpoint_high_water-transition :
    (p p' : EpochProducer)
    → p.transition ≡ none
    → checkpoint_high_water p ≡ (p', ok tt)
    → p'.transition ≡ none
checkpoint_high_water-transition p p' q h =
    checkpoint_loop-transition p.source_seq p p' (sym (checkpoint_high_water_idle p q) ∙ h) ∙ q

begin_epoch_transition-transition :
    (p : EpochProducer) (old new : List ℕ) (epoch_id : ℕ) (p' : EpochProducer)
    → p.transition ≡ none
    → begin_epoch_transition p old new epoch_id ≡ (p', ok tt)
    → phase p' ≡ Phase.begun
unfolding begin_epoch_transition
begin_epoch_transition-transition p old new epoch_id p' q h =
    let (p1, span, first, rest) = and_then-ok _ _ p' tt (rw q at h) in
    let (p2, done, second, last) = and_then-ok _ _ p' tt rest in sym (ap (λ s. phase s.0) last)

emit_definition_changed-transition :
    (p : EpochProducer) (t : PendingTransition) (p' : EpochProducer)
    → p.transition ≡ some t
    → t.definition_changed_emitted ≡ false
    → emit_definition_changed p ≡ (p', ok tt)
    → phase p' ≡ Phase.announced
unfolding emit_definition_changed
emit_definition_changed-transition p t p' q b h =
    let (p1, span, first, last) = and_then-ok _ _ p' tt (rw (q, b) at h) in
    sym (ap (λ s. phase s.0) last)

start_epoch-transition :
    (p : EpochProducer) (t : PendingTransition) (cold_start : ℕ) (p' : EpochProducer)
    → start_epoch p t cold_start ≡ (p', ok tt)
    → p'.transition ≡ p.transition
unfolding start_epoch
start_epoch-transition p t cold_start p' h =
    let (p1, span, first, last) = and_then-ok _ _ p' tt h in
    sym (ap (λ s. EpochProducer.transition s.0) last)
    ∙ emit_system-transition p event_logger_started _ p1 (ok span) first

finish_definition_change-transition :
    (p : EpochProducer) (t : PendingTransition) (p' : EpochProducer)
    → p.transition ≡ some t
    → t.definition_changed_emitted ≡ true
    → finish_definition_change p ≡ (p', ok tt)
    → p'.transition ≡ none
unfolding finish_definition_change start_epoch
finish_definition_change-transition p t p' q b h = start_epoch-transition _ t 0 p' (rw (q, b) at h)

finish_cold_start-transition :
    (p : EpochProducer) (t : PendingTransition) (p' : EpochProducer)
    → p.transition ≡ some t
    → t.definition_changed_emitted ≡ true
    → finish_cold_start p ≡ (p', ok tt)
    → p'.transition ≡ none
unfolding finish_cold_start start_epoch
finish_cold_start-transition p t p' q b h = start_epoch-transition _ t 1 p' (rw (q, b) at h)

phase-idle : (p : EpochProducer) → p.transition ≡ none → Phase.idle ≡ phase p
phase-idle p q = sym (ap phase_of q)

phase_at :
    (p : EpochProducer) {t : Option PendingTransition} → p.transition ≡ t → phase p ≡ phase_of t
phase_at p q = ap phase_of q

pending_phase :
    (t : PendingTransition) (b : Bool)
    → t.definition_changed_emitted ≡ b
    → phase_of (some t) ≡ (if b then Phase.announced else Phase.begun)
pending_phase t b h = ap (λ x. if x then Phase.announced else Phase.begun) h

pub refused_not_ok :
    (p p' : EpochProducer) (op : Op) (e : EpochError)
    → run_op p op ≡ (p, err e)
    → run_op p op ≡ (p', ok tt)
    → ⊥
refused_not_ok p p' op e refused h = (let bad = ap (λ s. s.1) (sym refused ∙ h) in cc)

idle_moves :
    (p : EpochProducer) (op : Op) (p' : EpochProducer)
    → p.transition ≡ none
    → run_op p op ≡ (p', ok tt)
    → next_phase Phase.idle op ≡ ok (phase p')
unfolding run_op next_phase
idle_moves p (data_ s v) p' q h = ap ok (phase-idle p' (emit_data-transition p s v p' q h))
idle_moves p checkpoint p' q h = ap ok (phase-idle p' (checkpoint_high_water-transition p p' q h))
idle_moves p (begin_ old new id) p' q h =
    ap ok (sym (begin_epoch_transition-transition p old new id p' q h))
idle_moves p announce p' q h =
    absurd (refused_not_ok p p' announce _ (idle-refused p announce _ q refl) h)
idle_moves p warm p' q h = absurd (refused_not_ok p p' warm _ (idle-refused p warm _ q refl) h)
idle_moves p cold p' q h = absurd (refused_not_ok p p' cold _ (idle-refused p cold _ q refl) h)

begun_moves :
    (p : EpochProducer) (t : PendingTransition) (op : Op) (p' : EpochProducer)
    → p.transition ≡ some t
    → t.definition_changed_emitted ≡ false
    → run_op p op ≡ (p', ok tt)
    → next_phase Phase.begun op ≡ ok (phase p')
unfolding run_op next_phase
begun_moves p t (data_ s v) p' q b h =
    absurd (refused_not_ok p p' (data_ s v) _ (begun-refused p t (data_ s v) _ q b refl) h)
begun_moves p t checkpoint p' q b h =
    absurd (refused_not_ok p p' checkpoint _ (begun-refused p t checkpoint _ q b refl) h)
begun_moves p t (begin_ old new id) p' q b h =
    absurd (
      refused_not_ok p p' (begin_ old new id) _ (begun-refused p t (begin_ old new id) _ q b refl)
        h)
begun_moves p t announce p' q b h = ap ok (sym (emit_definition_changed-transition p t p' q b h))
begun_moves p t warm p' q b h =
    absurd (refused_not_ok p p' warm _ (begun-refused p t warm _ q b refl) h)
begun_moves p t cold p' q b h =
    absurd (refused_not_ok p p' cold _ (begun-refused p t cold _ q b refl) h)

announced_moves :
    (p : EpochProducer) (t : PendingTransition) (op : Op) (p' : EpochProducer)
    → p.transition ≡ some t
    → t.definition_changed_emitted ≡ true
    → run_op p op ≡ (p', ok tt)
    → next_phase Phase.announced op ≡ ok (phase p')
unfolding run_op next_phase
announced_moves p t (data_ s v) p' q b h =
    absurd (refused_not_ok p p' (data_ s v) _ (announced-refused p t (data_ s v) _ q b refl) h)
announced_moves p t checkpoint p' q b h =
    absurd (refused_not_ok p p' checkpoint _ (announced-refused p t checkpoint _ q b refl) h)
announced_moves p t (begin_ old new id) p' q b h = absurd (
    refused_not_ok p p' (begin_ old new id) _ (announced-refused p t (begin_ old new id) _ q b refl)
      h)
announced_moves p t announce p' q b h =
    absurd (refused_not_ok p p' announce _ (announced-refused p t announce _ q b refl) h)
announced_moves p t warm p' q b h =
    ap ok (phase-idle p' (finish_definition_change-transition p t p' q b h))
announced_moves p t cold p' q b h =
    ap ok (phase-idle p' (finish_cold_start-transition p t p' q b h))

-- An operation that succeeds was allowed by the protocol, and leaves the producer in the phase
-- that the protocol gives.
pub run_op-moves :
    (p : EpochProducer) (op : Op) (p' : EpochProducer)
    → run_op p op ≡ (p', ok tt)
    → next_phase (phase p) op ≡ ok (phase p')
run_op-moves p op p' h = elim (phase_cases p) [
  | inl q ↦ ap (λ f. next_phase f op) (phase_at p q) ∙ idle_moves p op p' q h
  | inr (inl (t, q, b)) ↦
      ap (λ f. next_phase f op) (phase_at p q ∙ pending_phase t false b)
      ∙ begun_moves p t op p' q b h
  | inr (inr (t, q, b)) ↦
      ap (λ f. next_phase f op) (phase_at p q ∙ pending_phase t true b)
      ∙ announced_moves p t op p' q b h
]

-- A failed step fails in its first part or in its second.
and_then-err :
    {A B : Type 0} (s : Step A) (k : EpochProducer → A → Step B) (p' : EpochProducer)
    (e : EpochError)
    → and_then s k ≡ (p', err e)
    → (s ≡ (p', err e)) ⊎ ((p : EpochProducer) × (a : A) × (k p a ≡ (p', err e)))
unfolding and_then
and_then-err (p, ok a) k p' e h = inr (p, a, h)
and_then-err (p, err f) k p' e h =
    let q = ap (λ s. s.0) h in
    let g = ap (λ s. s.1) h in let same : f ≡ e = cc in inl (λ i. (q i, err (same i)))
and_then-err (p, stuck) k p' e h = (let bad = ap (λ s. s.1) h in cc)

pub emit_definition_changed_begun :
    (p : EpochProducer) (t : PendingTransition)
    → p.transition ≡ some t
    → t.definition_changed_emitted ≡ false
    → emit_definition_changed p
      ≡ and_then
          (emit_system
            (record p { transition = none })
            event_definition_changed
            (definition_changed_slots t))
          (λ p' span. (
            record p' { transition = some (record t { definition_changed_emitted = true }) },
            ok tt,
          ))
unfolding emit_definition_changed definition_changed_slots
emit_definition_changed_begun p t q b = rw (q, b)

-- A transition that was begun is given up when its `DefinitionChanged` record cannot be written:
-- the operation fails, and no transition is open any more.
pub emit_definition_changed-fails :
    (p : EpochProducer) (t : PendingTransition) (p' : EpochProducer) (e : EpochError)
    → p.transition ≡ some t
    → t.definition_changed_emitted ≡ false
    → emit_definition_changed p ≡ (p', err e)
    → phase p' ≡ Phase.idle
emit_definition_changed-fails p t p' e q b h =
    elim (and_then-err _ _ p' e (sym (emit_definition_changed_begun p t q b) ∙ h)) [
      | inl first ↦ sym (
          phase-idle p' (
            emit_system-transition (record p { transition = none }) event_definition_changed
              (definition_changed_slots t) p' (err e) first))
      | inr (p1, span, bad) ↦ (let no = ap (λ s. s.1) bad in cc)
    ]
