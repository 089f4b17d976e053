-- ===== src/Epoch/Checkpoint.antt =====
-- crates/carriage/src/epoch.rs: the records of a checkpoint are numbered source by source.
use open_ot_experiments.Prelude.{
  ℕ, ◌-◌, ◌<◌, ◌^◌, ◌≡◌, refl, ap, ◌∙◌, sym, List, [], ◌∷◌, ◌++◌, none, add64, ok, arith,
}
use mathlib.Core.Path.{subst}
use open_ot_experiments.Wire.{Record, new_record}
use open_ot_experiments.Epoch.{
  EpochProducer, SourceSeq, write, tick, make_record, seq_of, set_seq, checkpoint_loop,
  high_water_record, checkpoint_high_water,
}
use open_ot_experiments.Epoch.Moves.{and_then-ok, checkpoint_high_water_idle}
use open_ot_experiments.Epoch.Counters.{
  Above, Holds, Counters, source-Counters, Holds-self, set_seq-Holds,
}
use open_ot_experiments.Epoch.Numbering.{
  Counts, Numbers, no_record, one_record, Numbers-join, write_step-ok,
}

-- The entries that are left of the checkpoint still hold, and each counter can be advanced once.
checkpoint_loop-Numbers :
    (entries old : List SourceSeq) (k : ℕ) {before : List Record} (p p' : EpochProducer)
    → Counts before p
    → ((s : ℕ) → seq_of old s < 2 ^ 64 - 1)
    → Holds old entries
    → Holds p.source_seq entries
    → Above k entries
    → checkpoint_loop p entries ≡ (p', ok tt)
    → Numbers before p.ring p'
unfolding checkpoint_loop write tick high_water_record make_record new_record
checkpoint_loop-Numbers [] old k {before} p p' c room was is a h =
    subst (Numbers before p.ring) (ap (λ s. s.0) h) (no_record p c)
checkpoint_loop-Numbers (e ∷ entries) old k {before} p p' c room (old_is, was) (here, is) (lo, a)
      h =
    let (p1, span, first, last) = and_then-ok _ _ p' tt h in
    let (wrote, same) = write_step-ok _ _ p1 span first in
    let bound = room e.source_id in
    let next = record p1 { source_seq = set_seq p1.source_seq e.source_id (add64 e.produced 1) } in
    let kept = ap EpochProducer.source_seq same in
    let counted =
      source-Counters (high_water_record p e) e.source_id e.produced c refl refl (omega arith) here
        (omega arith) in
    let one : Numbers before p.ring next =
      one_record p.ring (high_water_record p e) span next wrote
        (sym here ∙ c.source_at e.source_id (omega arith))
        (subst
          (λ q.
            Counts (before ++ high_water_record p e ∷ [])
              (record q { source_seq = set_seq q.source_seq e.source_id (add64 e.produced 1) }))
          same counted) in
    Numbers-join one (
      checkpoint_loop-Numbers entries old e.source_id next p' one.counts room was
        (set_seq-Holds e.source_id p1.source_seq entries e.source_id (add64 e.produced 1)
          (omega arith) a (subst (λ m. Holds m entries) kept is))
        a last)

pub checkpoint_high_water-Numbers :
    {before : List Record} (p p' : EpochProducer)
    → Counts before p
    → ((s : ℕ) → seq_of p.source_seq s < 2 ^ 64 - 1)
    → p.transition ≡ none
    → checkpoint_high_water p ≡ (p', ok tt)
    → Numbers before p.ring p'
checkpoint_high_water-Numbers p p' c room q h =
    let holds = Holds-self 0 p.source_seq (Counters.keys c) in
    checkpoint_loop-Numbers p.source_seq p.source_seq 0 p p' c room holds holds (Counters.keys c)
      (sym (checkpoint_high_water_idle p q) ∙ h)
