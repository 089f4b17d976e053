-- ===== src/Epoch/Produced.antt =====
-- crates/carriage/src/epoch.rs: what a producer has written after any of its operations.
use open_ot_experiments.Prelude.{
  ℕ, ◌+◌, ◌-◌, ◌<◌, ◌≤◌, ◌^◌, ◌≡◌, refl, ap, true, false, List, [], ◌∷◌, All, length, none, some,
  ok, inl, inr, arith,
}
use mathlib.Core.Path.{subst}
use open_ot_experiments.Wire.{Record}
use open_ot_experiments.Ring.Types.{RingBuffer}
use open_ot_experiments.Loss.Numbered.{count_of}
use open_ot_experiments.Epoch.{
  EpochProducer, PendingTransition, Step, and_then, new_producer, seq_of,
}
use open_ot_experiments.Epoch.Protocol.{
  Op, data_, checkpoint, begin_, announce, warm, cold, run_op, next_phase, phase_cases,
  idle-refused, begun-refused, announced-refused,
}
use open_ot_experiments.Epoch.Moves.{and_then-ok, refused_not_ok}
use open_ot_experiments.Epoch.Numbering.{
  Counts, Numbers, Room, no_record, Numbers-join, emit_data-Numbers,
}
use open_ot_experiments.Epoch.Checkpoint.{checkpoint_high_water-Numbers}
use open_ot_experiments.Epoch.Bounds.{
  Bounds, Bounds-weaken, emit_data-Bounds, checkpoint_high_water-Bounds,
}
use open_ot_experiments.Epoch.Advances.{
  begin_epoch_transition-Bounds, emit_definition_changed-Bounds, finish_definition_change-Bounds,
  finish_cold_start-Bounds,
}
use open_ot_experiments.Epoch.Numbered.{
  begin_epoch_transition-Numbers, emit_definition_changed-Numbers, finish_definition_change-Numbers,
  finish_cold_start-Numbers,
}

-- Source 0 is the one of the system: the data of a program is of another.
abbrev pub OfProgram : Op → Type 0
OfProgram (data_ source_id event_type_id) = 0 < source_id
OfProgram checkpoint = Unit {0}
OfProgram (begin_ def_hash_old def_hash_new epoch_id) = Unit {0}
OfProgram announce = Unit {0}
OfProgram warm = Unit {0}
OfProgram cold = Unit {0}

-- What an operation wrote, and the bounds of its counters.
abbrev Advanced : List Record → ℕ → RingBuffer → EpochProducer → Type 0
Advanced before n r p = Numbers before r p × Bounds n n n p

advanced :
    {before : List Record} {n a b c : ℕ} {r : RingBuffer} {p : EpochProducer}
    → Numbers before r p
    → Bounds a b c p
    → a ≤ n
    → b ≤ n
    → c ≤ n
    → Advanced before n r p
advanced numbers k la lb lc = (numbers, Bounds-weaken la lb lc k)

Bounds-Room : {n : ℕ} {p : EpochProducer} → Bounds n n n p → n < 2 ^ 64 - 1 → Room p
Bounds-Room k lt = record {
  run_room = let at = k.run_at in omega arith;
  system_room = let at = k.system_at in omega arith;
  source_room = λ s. let at = k.source_at s in omega arith;
}

idle-Numbers :
    {before : List Record} {n : ℕ} (p : EpochProducer) (op : Op) (p' : EpochProducer)
    → Counts before p
    → Bounds n n n p
    → n < 2 ^ 64 - 1
    → OfProgram op
    → p.transition ≡ none
    → run_op p op ≡ (p', ok tt)
    → Advanced before (n + 1) p.ring p'
unfolding run_op next_phase
idle-Numbers p (data_ s v) p' c k lt of q h =
    advanced (emit_data-Numbers p s v p' c (Room.source_room (Bounds-Room k lt) s) of q h)
      (emit_data-Bounds p s v p' k q h) (omega arith) (omega arith) (omega arith)
idle-Numbers p checkpoint p' c k lt of q h =
    advanced (checkpoint_high_water-Numbers p p' c (Room.source_room (Bounds-Room k lt)) q h)
      (checkpoint_high_water-Bounds p p' c.keys k q h) (omega arith) (omega arith) (omega arith)
idle-Numbers p (begin_ old new id) p' c k lt of q h =
    advanced (begin_epoch_transition-Numbers p old new id p' c (Bounds-Room k lt) q h)
      (begin_epoch_transition-Bounds p old new id p' c.keys k q h) (omega arith) (omega arith)
      (omega arith)
idle-Numbers p announce p' c k lt of q h =
    absurd (refused_not_ok p p' announce _ (idle-refused p announce _ q refl) h)
idle-Numbers p warm p' c k lt of q h =
    absurd (refused_not_ok p p' warm _ (idle-refused p warm _ q refl) h)
idle-Numbers p cold p' c k lt of q h =
    absurd (refused_not_ok p p' cold _ (idle-refused p cold _ q refl) h)

begun-Numbers :
    {before : List Record} {n : ℕ} (p : EpochProducer) (t : PendingTransition) (op : Op)
    (p' : EpochProducer)
    → Counts before p
    → Bounds n n n p
    → n < 2 ^ 64 - 1
    → p.transition ≡ some t
    → t.definition_changed_emitted ≡ false
    → run_op p op ≡ (p', ok tt)
    → Advanced before (n + 1) p.ring p'
unfolding run_op next_phase
begun-Numbers p t (data_ s v) p' c k lt q b h =
    absurd (refused_not_ok p p' (data_ s v) _ (begun-refused p t (data_ s v) _ q b refl) h)
begun-Numbers p t checkpoint p' c k lt q b h =
    absurd (refused_not_ok p p' checkpoint _ (begun-refused p t checkpoint _ q b refl) h)
begun-Numbers p t (begin_ old new id) p' c k lt q b h =
    absurd (
      refused_not_ok p p' (begin_ old new id) _ (begun-refused p t (begin_ old new id) _ q b refl)
        h)
begun-Numbers p t announce p' c k lt q b h =
    advanced (emit_definition_changed-Numbers p t p' c (Bounds-Room k lt) q b h)
      (emit_definition_changed-Bounds p t p' k q b h) (omega arith) (omega arith) (omega arith)
begun-Numbers p t warm p' c k lt q b h =
    absurd (refused_not_ok p p' warm _ (begun-refused p t warm _ q b refl) h)
begun-Numbers p t cold p' c k lt q b h =
    absurd (refused_not_ok p p' cold _ (begun-refused p t cold _ q b refl) h)

announced-Numbers :
    {before : List Record} {n : ℕ} (p : EpochProducer) (t : PendingTransition) (op : Op)
    (p' : EpochProducer)
    → Counts before p
    → Bounds n n n p
    → n < 2 ^ 64 - 1
    → p.transition ≡ some t
    → t.definition_changed_emitted ≡ true
    → run_op p op ≡ (p', ok tt)
    → Advanced before (n + 1) p.ring p'
unfolding run_op next_phase
announced-Numbers p t (data_ s v) p' c k lt q b h =
    absurd (refused_not_ok p p' (data_ s v) _ (announced-refused p t (data_ s v) _ q b refl) h)
announced-Numbers p t checkpoint p' c k lt q b h =
    absurd (refused_not_ok p p' checkpoint _ (announced-refused p t checkpoint _ q b refl) h)
announced-Numbers p t (begin_ old new id) p' c k lt q b h = absurd (
    refused_not_ok p p' (begin_ old new id) _ (announced-refused p t (begin_ old new id) _ q b refl)
      h)
announced-Numbers p t announce p' c k lt q b h =
    absurd (refused_not_ok p p' announce _ (announced-refused p t announce _ q b refl) h)
announced-Numbers p t warm p' c k lt q b h =
    advanced (finish_definition_change-Numbers p t p' c (Bounds-Room k lt) q b h)
      (finish_definition_change-Bounds p t p' k q b h) (omega arith) (omega arith) (omega arith)
announced-Numbers p t cold p' c k lt q b h =
    advanced (finish_cold_start-Numbers p t p' c (Bounds-Room k lt) q b h)
      (finish_cold_start-Bounds p t p' k q b h) (omega arith) (omega arith) (omega arith)

-- An operation that succeeds numbers what it writes, and keeps the counters right.
run_op-Numbers :
    {before : List Record} {n : ℕ} (p : EpochProducer) (op : Op) (p' : EpochProducer)
    → Counts before p
    → Bounds n n n p
    → n < 2 ^ 64 - 1
    → OfProgram op
    → run_op p op ≡ (p', ok tt)
    → Advanced before (n + 1) p.ring p'
run_op-Numbers p op p' c k lt of h = elim (phase_cases p) [
  | inl q ↦ idle-Numbers p op p' c k lt of q h
  | inr (inl (t, q, b)) ↦ begun-Numbers p t op p' c k lt q b h
  | inr (inr (t, q, b)) ↦ announced-Numbers p t op p' c k lt q b h
]

-- Operations, one after the other, up to the first that fails.
unfoldable pub run_ops : EpochProducer → List Op → Step Unit
run_ops p [] = (p, ok tt)
run_ops p (op ∷ ops) = and_then (run_op p op) (λ p' done. run_ops p' ops)

new_producer-Counts :
    (r : RingBuffer) (run_id epoch_id : ℕ) → Counts [] (new_producer r run_id epoch_id)
unfolding new_producer count_of seq_of
new_producer-Counts r run_id epoch_id = record {
  system_at = refl;
  source_at = λ s pos. refl;
  keys = tt;
  fresh = λ q s later. refl;
}

run_ops-Numbers :
    (ops : List Op) {before : List Record} {n : ℕ} (p p' : EpochProducer)
    → Counts before p
    → Bounds n n n p
    → n + length ops < 2 ^ 64
    → All OfProgram ops
    → run_ops p ops ≡ (p', ok tt)
    → Numbers before p.ring p'
unfolding run_ops
run_ops-Numbers [] {before} p p' c k lt of h =
    subst (Numbers before p.ring) (ap (λ s. s.0) h) (no_record p c)
run_ops-Numbers (op ∷ ops) p p' c k lt (of, ofs) h =
    let (p1, done, first, rest) = and_then-ok _ _ p' tt h in
    let (numbers, m) = run_op-Numbers p op p1 c k (omega arith) of first in
    Numbers-join numbers (run_ops-Numbers ops p1 p' numbers.counts m (omega arith) ofs rest)

-- After any operations of a new producer that succeeded, the ring has taken records, one after the
-- other, each with the number of the records of its run and source before it as its sequence
-- number, also over checkpoints, changes of the definition and cold starts; and the counters stand
-- at the numbers of the records of the run. The data of the program is not of source 0, which is
-- the system's, and the first run's number with that of the operations is below 2^64.
pub run_ops-numbered :
    (r : RingBuffer) (run_id epoch_id : ℕ) (ops : List Op) (p : EpochProducer)
    → run_id + length ops < 2 ^ 64
    → All OfProgram ops
    → run_ops (new_producer r run_id epoch_id) ops ≡ (p, ok tt)
    → Numbers [] r p
unfolding new_producer seq_of
run_ops-numbered r run_id epoch_id ops p lt of h =
    run_ops-Numbers ops {n = run_id} (new_producer r run_id epoch_id) p
      (new_producer-Counts r run_id epoch_id)
      (record { run_at = omega arith; system_at = omega arith; source_at = λ s. omega arith }) lt of
      h
