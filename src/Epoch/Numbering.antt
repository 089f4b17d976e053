-- ===== src/Epoch/Numbering.antt =====
-- crates/carriage/src/epoch.rs: the records that the operations of a producer write.
use open_ot_experiments.Prelude.{
  ℕ, ◌-◌, ◌<◌, ◌^◌, ◌≡◌, refl, ap, ap₂, ◌∙◌, sym, List, [], ◌∷◌, ◌++◌, append_assoc, append-nil,
  none, add64, ok, err, stuck, ok-injective, Bool-cases, inl, inr, ◌==◌,
}
use mathlib.Core.Path.{subst}
use open_ot_experiments.Wire.{Record, Slot, new_record}
use open_ot_experiments.Ring.{write_record}
use open_ot_experiments.Ring.Types.{RingBuffer, RingResult}
use open_ot_experiments.Registry.{event_message}
use open_ot_experiments.Loss.Numbered.{Numbered, count_of}
use open_ot_experiments.Epoch.{
  EpochProducer, write, write_step, tick, emit_data, emit_system, next_source_seq, data_record,
  make_record, seq_of,
}
use open_ot_experiments.Epoch.Moves.{and_then-ok, emit_data_idle}
use open_ot_experiments.Epoch.Counters.{Counters, system-Counters, source-Counters}

-- The ring after it took the records, one after the other.
pub data Written : RingBuffer → List Record → RingBuffer → Type 0 where
  nothing : (r : RingBuffer) → Written r [] r
  then_ :
      (r : RingBuffer) (x : Record) (span : ℕ × ℕ) (r' : RingBuffer) (xs : List Record)
      (last : RingBuffer)
      → write_record r x ≡ ok (span, r')
      → Written r' xs last
      → Written r (x ∷ xs) last

Written-append :
    {a b c : RingBuffer} {xs ys : List Record}
    → Written a xs b
    → Written b ys c
    → Written a (xs ++ ys) c
Written-append (nothing r) w = w
Written-append (then_ r x span r' xs last h v) w = then_ r x span r' _ _ h (Written-append v w)

Numbered-join :
    (before xs ys : List Record)
    → Numbered before xs
    → Numbered (before ++ xs) ys
    → Numbered before (xs ++ ys)
Numbered-join before [] ys n m = subst (λ l. Numbered l ys) (append-nil before) m
Numbered-join before (x ∷ xs) ys (is, n) m = (
  is,
  Numbered-join (before ++ x ∷ []) xs ys n
      (subst (λ l. Numbered l ys) (sym (append_assoc before (x ∷ []) xs)) m),
)

-- The counters of a producer are right for the records before.
abbrev pub Counts : List Record → EpochProducer → Type 0
Counts before p = Counters before p.run_id p.system_seq p.source_seq

-- Records were written to the ring up to that of the producer, each numbered by the records of its
-- source before it, and the counters went along.
pub record Numbers (before : List Record) (r : RingBuffer) (p : EpochProducer) : Type 0 where
  pub records : List Record
  pub written : Written r records p.ring
  pub numbered : Numbered before records
  pub counts : Counts (before ++ records) p

-- Every counter can be advanced once.
pub record Room (p : EpochProducer) : Type 0 where
  pub run_room : p.run_id < 2 ^ 64 - 1
  pub system_room : p.system_seq < 2 ^ 64 - 1
  pub source_room : (s : ℕ) → seq_of p.source_seq s < 2 ^ 64 - 1

pub no_record :
    {before : List Record} (p : EpochProducer) → Counts before p → Numbers before p.ring p
no_record {before} p c = record {
  records = [];
  written = nothing p.ring;
  numbered = tt;
  counts = subst (λ l. Counts l p) (sym (append-nil before)) c;
}

pub one_record :
    {before : List Record} (r : RingBuffer) (x : Record) (span : ℕ × ℕ) (p : EpochProducer)
    → write_record r x ≡ ok (span, p.ring)
    → x.seq ≡ count_of before x.run_id x.source_id
    → Counts (before ++ x ∷ []) p
    → Numbers before r p
one_record r x span p h seq c = record {
  records = x ∷ [];
  written = then_ r x span p.ring [] p.ring h (nothing p.ring);
  numbered = (seq, tt);
  counts = c;
}

pub Numbers-join :
    {before : List Record} {r : RingBuffer} {p q : EpochProducer} (n : Numbers before r p)
    → Numbers (before ++ Numbers.records n) p.ring q
    → Numbers before r q
Numbers-join {before} {r} {p} {q} n m = record {
  records = n.records ++ m.records;
  written = Written-append n.written m.written;
  numbered = Numbered-join before n.records m.records n.numbered m.numbered;
  counts = subst (λ l. Counts l q) (append_assoc before n.records m.records) m.counts;
}

-- A write, taken apart: it takes the record, and changes the ring only.
pub write_step-ok :
    (p : EpochProducer) (o : RingResult ((ℕ × ℕ) × RingBuffer)) (p' : EpochProducer) (span : ℕ × ℕ)
    → write_step p o ≡ (p', ok span)
    → (o ≡ ok (span, p'.ring)) × (record p { ring = p'.ring } ≡ p')
unfolding write_step
write_step-ok p (ok (s, r)) p' span h =
    let q = ap (λ s. s.0) h in
    let same : s ≡ span = ok-injective (ap (λ s. s.1) h) in
    let ring : r ≡ p'.ring = ap EpochProducer.ring q in
    ((λ i. ok (same i, ring i)), ap (λ x. record p { ring = x }) (sym ring) ∙ q)
write_step-ok p (err e) p' span h = (let bad = ap (λ s. s.1) h in cc)
write_step-ok p stuck p' span h = (let bad = ap (λ s. s.1) h in cc)

-- What a system record changes of the producer.
pub emit_system-same :
    (p : EpochProducer) (event_type_id : ℕ) (slots : List Slot) (p' : EpochProducer) (span : ℕ × ℕ)
    → emit_system p event_type_id slots ≡ (p', ok span)
    → record p {
      ring = p'.ring;
      source_time = add64 p.source_time 1;
      system_seq = add64 p.system_seq 1;
    }
      ≡ p'
unfolding emit_system write tick
emit_system-same p event_type_id slots p' span h =
    let (wrote, same) = write_step-ok _ _ p' span h in same

pub emit_system-Numbers :
    {before : List Record} (p : EpochProducer) (event_type_id : ℕ) (slots : List Slot)
    (p' : EpochProducer) (span : ℕ × ℕ)
    → Counts before p
    → p.system_seq < 2 ^ 64 - 1
    → emit_system p event_type_id slots ≡ (p', ok span)
    → Numbers before p.ring p'
unfolding emit_system write tick make_record new_record
emit_system-Numbers {before} p event_type_id slots p' span c room h =
    let (wrote, same) = write_step-ok _ _ p' span h in
    let counted = system-Counters _ c refl refl room in
    one_record p.ring _ span p' wrote c.system_at (subst (Counts _) same counted)

-- What the data record says, with its slots put aside.
data_record-fields :
    (p : EpochProducer) (source_id event_type_id : ℕ)
    → let x = data_record p source_id event_type_id in
      (x.run_id ≡ p.run_id) × (x.source_id ≡ source_id) × (x.seq ≡ seq_of p.source_seq source_id)
unfolding data_record make_record new_record
data_record-fields p source_id event_type_id = elim (Bool-cases (event_type_id == event_message)) [
  | inl q ↦ rw q (refl, refl, refl)
  | inr q ↦ rw q (refl, refl, refl)
]

pub emit_data-Numbers :
    {before : List Record} (p : EpochProducer) (source_id event_type_id : ℕ) (p' : EpochProducer)
    → Counts before p
    → seq_of p.source_seq source_id < 2 ^ 64 - 1
    → 0 < source_id
    → p.transition ≡ none
    → emit_data p source_id event_type_id ≡ (p', ok tt)
    → Numbers before p.ring p'
unfolding write tick next_source_seq
emit_data-Numbers {before} p source_id event_type_id p' c room pos q h =
    let (p1, span, first, last) =
      and_then-ok _ _ p' tt (sym (emit_data_idle p source_id event_type_id q) ∙ h) in
    let (wrote, is) = write_step-ok _ _ p1 span first in
    let (run, source, seq) = data_record-fields p source_id event_type_id in
    let counted = source-Counters _ source_id _ c run source pos refl room in
    let numbers =
      one_record p.ring _ span p1 wrote
        (seq ∙ c.source_at source_id pos ∙ ap₂ (count_of before) (sym run) (sym source))
        (subst (Counts _) is counted) in
    subst (Numbers before p.ring) (ap (λ s. s.0) last) numbers
