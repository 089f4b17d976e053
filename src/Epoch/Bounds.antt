-- ===== src/Epoch/Bounds.antt =====
-- crates/carriage/src/epoch.rs: an operation of a producer advances no counter by more than one.
use open_ot_experiments.Prelude.{
  ℕ, ◌+◌, ◌≤◌, ◌≡◌, ap, ◌∙◌, sym, List, [], ◌∷◌, none, add64, ok, arith,
}
use mathlib.Core.Path.{subst}
use open_ot_experiments.Wire.{Record, Slot}
use open_ot_experiments.Epoch.{
  EpochProducer, SourceSeq, next_source_seq, write, tick, emit_data, emit_system, seq_of, set_seq,
  checkpoint_loop, high_water_record, checkpoint_high_water,
}
use open_ot_experiments.Epoch.Moves.{and_then-ok, emit_data_idle, checkpoint_high_water_idle}
use open_ot_experiments.Epoch.Counters.{Above, Holds, seq_of-set_seq, Holds-self}
use open_ot_experiments.Epoch.Numbering.{write_step-ok}

-- Bounds of the counters of a producer.
pub record Bounds (run system source : ℕ) (p : EpochProducer) : Type 0 where
  pub run_at : p.run_id ≤ run
  pub system_at : p.system_seq ≤ system
  pub source_at : (s : ℕ) → seq_of p.source_seq s ≤ source

pub Bounds-weaken :
    {a b c a' b' c' : ℕ} {p : EpochProducer}
    → a ≤ a'
    → b ≤ b'
    → c ≤ c'
    → Bounds a b c p
    → Bounds a' b' c' p
Bounds-weaken la lb lc k = record {
  run_at = let h = k.run_at in omega arith;
  system_at = let h = k.system_at in omega arith;
  source_at = λ s. let h = k.source_at s in omega arith;
}

set_seq-bound :
    (map : List SourceSeq) (source n c s : ℕ)
    → seq_of map s ≤ c
    → n ≤ c
    → seq_of (set_seq map source n) s ≤ c
set_seq-bound map source n c s h le = let set = seq_of-set_seq map source n s in ground arith

write-Bounds :
    {a b c : ℕ} (p : EpochProducer) (x : Record) (p' : EpochProducer) (span : ℕ × ℕ)
    → Bounds a b c p
    → write p x ≡ (p', ok span)
    → Bounds a b c p'
unfolding write
write-Bounds {a} {b} {c} p x p' span k h =
    let (wrote, same) = write_step-ok p _ p' span h in
    subst (Bounds a b c) same
      (record { run_at = k.run_at; system_at = k.system_at; source_at = k.source_at })

pub emit_system-Bounds :
    {a b c : ℕ} (p : EpochProducer) (event_type_id : ℕ) (slots : List Slot) (p' : EpochProducer)
    (span : ℕ × ℕ)
    → Bounds a b c p
    → emit_system p event_type_id slots ≡ (p', ok span)
    → Bounds a (b + 1) c p'
unfolding emit_system tick
emit_system-Bounds p event_type_id slots p' span k h =
    write-Bounds _ _ p' span
      (record {
        run_at = k.run_at;
        system_at = let at = k.system_at in omega arith;
        source_at = k.source_at;
      })
      h

pub emit_data-Bounds :
    {a b c : ℕ} (p : EpochProducer) (source_id event_type_id : ℕ) (p' : EpochProducer)
    → Bounds a b c p
    → p.transition ≡ none
    → emit_data p source_id event_type_id ≡ (p', ok tt)
    → Bounds a b (c + 1) p'
unfolding tick next_source_seq
emit_data-Bounds {a} {b} {c} p source_id event_type_id p' k q h =
    let (p1, span, first, last) =
      and_then-ok _ _ p' tt (sym (emit_data_idle p source_id event_type_id q) ∙ h) in
    let advanced = λ (s : ℕ).
      let at = k.source_at s in
      let old = k.source_at source_id in
      set_seq-bound p.source_seq source_id (add64 (seq_of p.source_seq source_id) 1) (c + 1) s
        (omega arith) (omega arith) in
    subst (Bounds a b (c + 1)) (ap (λ s. s.0) last) (
      write-Bounds _ _ p1 span
        (record { run_at = k.run_at; system_at = k.system_at; source_at = advanced }) first)

checkpoint_loop-Bounds :
    (entries old : List SourceSeq) {a b c : ℕ} (p p' : EpochProducer)
    → ((s : ℕ) → seq_of old s ≤ c)
    → Holds old entries
    → Bounds a b (c + 1) p
    → checkpoint_loop p entries ≡ (p', ok tt)
    → Bounds a b (c + 1) p'
unfolding checkpoint_loop tick
checkpoint_loop-Bounds [] old {a} {b} {c} p p' was is k h =
    subst (Bounds a b (c + 1)) (ap (λ s. s.0) h) k
checkpoint_loop-Bounds (e ∷ entries) old {a} {b} {c} p p' was (here, is) k h =
    let (p1, span, first, last) = and_then-ok _ _ p' tt h in
    let m =
      write-Bounds (tick p) (high_water_record p e) p1 span
        (record { run_at = k.run_at; system_at = k.system_at; source_at = k.source_at }) first in
    let produced = was e.source_id in
    checkpoint_loop-Bounds entries old _ p' was is
      (record {
        run_at = m.run_at;
        system_at = m.system_at;
        source_at = λ s.
            set_seq-bound p1.source_seq e.source_id (add64 e.produced 1) (c + 1) s (m.source_at s)
              (omega arith);
      })
      last

pub checkpoint_high_water-Bounds :
    {a b c : ℕ} (p p' : EpochProducer)
    → Above 0 p.source_seq
    → Bounds a b c p
    → p.transition ≡ none
    → checkpoint_high_water p ≡ (p', ok tt)
    → Bounds a b (c + 1) p'
checkpoint_high_water-Bounds p p' above k q h =
    checkpoint_loop-Bounds p.source_seq p.source_seq p p' k.source_at
      (Holds-self 0 p.source_seq above) (Bounds-weaken (omega arith) (omega arith) (omega arith) k)
      (sym (checkpoint_high_water_idle p q) ∙ h)
