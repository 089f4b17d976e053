-- ===== src/Concurrent/Published.antt =====
-- crates/carriage/src/concurrent.rs: what the producer has published, and a reader then delivers.
use open_ot_experiments.Prelude.{
  ℕ, ◌+◌, ◌*◌, ◌%◌, ◌<◌, ◌^◌, ◌≡◌, inl, inr, refl, ap, ◌∙◌, sym, List, [], ◌∷◌, ◌++◌, some, arith,
  length, ok, ok-injective, Bool-cases, ◌==◌,
}
use mathlib.Core.Path.{subst}
use open_ot_experiments.Wire.{Record}
use open_ot_experiments.Wire.Layout.{IsRecord}
use open_ot_experiments.Ring
use open_ot_experiments.Ring.Types.{RingBuffer, ReadBatch}
use open_ot_experiments.Ring.Read.{values, all_as_read}
use open_ot_experiments.Ring.Run.{Run, Run-Retains, Run-reads, fresh}
use open_ot_experiments.Concurrent.{
  ConcurrentRing, ConcurrentProducer, StoreOp, new, new_producer, apply_all, write_record,
}
use open_ot_experiments.Concurrent.Publish.{shared, producer_of, write_record-eq-Ring}
use open_ot_experiments.Concurrent.Walk.{owned, read_raw_from_store}
use open_ot_experiments.Concurrent.Quiescent.{read_raw_from_store-eq-read_raw_from}

-- The producer and the memory after it wrote the records to a new ring, the last one last, and all
-- stores of the writes are done.
pub data Published (pool : ℕ) : List Record → ConcurrentProducer → ConcurrentRing → Type 0 where
  start : {m : ConcurrentRing} → new pool ≡ some m → Published pool [] new_producer m
  write :
      {xs : List Record} {p p' : ConcurrentProducer} {m : ConcurrentRing} {ops : List StoreOp}
      (x : Record)
      → Published pool xs p m
      → IsRecord x
      → p.head_abs + 2 * length m.bytes < 2 ^ 64
      → write_record (length m.bytes) p x ≡ ok (p', ops)
      → Published pool (xs ++ x ∷ []) p' (apply_all m ops)

-- A ring buffer that the same records were written to.
pub record Mirrored (pool : ℕ) (xs : List Record) (p : ConcurrentProducer) (m : ConcurrentRing)
    : Type 0 where
  pub buffer : RingBuffer
  pub run : Run pool xs buffer
  pub same_producer : producer_of buffer ≡ p
  pub same_memory : shared buffer ≡ m

write-Mirrored :
    {pool : ℕ} {xs : List Record} (r : RingBuffer) (x : Record) {p' : ConcurrentProducer}
    {ops : List StoreOp}
    → Run pool xs r
    → IsRecord x
    → r.head_abs + 2 * length r.bytes < 2 ^ 64
    → write_record (length r.bytes) (producer_of r) x ≡ ok (p', ops)
    → Mirrored pool (xs ++ x ∷ []) p' (apply_all (shared r) ops)
write-Mirrored r x {p'} {ops} run is_record room h =
    let k = Run-Retains run in
    let pos = k.valid.pool in
    let counted = k.counted in
    elim (write_record-eq-Ring r x pos (omega arith) (omega arith)) [
      | inl (e, _, refused) ↦ (let bad = sym h ∙ refused in cc)
      | inr (span, r', ops', written, published, memory) ↦
          let same = ok-injective (sym published ∙ h) in
          record {
            buffer = r';
            run = Run.write x run is_record room written;
            same_producer = ap (λ s. s.0) same;
            same_memory = sym memory ∙ ap (λ s. apply_all (shared r) s.1) same;
          }
    ]

new-Mirrored :
    (pool : ℕ) {m : ConcurrentRing}
    → new pool ≡ some m
    → (Ring.new pool ≡ some (fresh pool)) × (shared (fresh pool) ≡ m)
unfolding new Ring.new
new-Mirrored pool h = elim (Bool-cases (pool == 0)) [
  | inl t ↦ (let bad = rw t at h in cc)
  | inr f ↦ (rw f refl, (let same = rw f at h in cc))
]

Published-Mirrored :
    {pool : ℕ} {xs : List Record} {p : ConcurrentProducer} {m : ConcurrentRing}
    → Published pool xs p m
    → Mirrored pool xs p m
Published-Mirrored {pool} (start {m} h) =
    let (made, same) = new-Mirrored pool h in
    record { buffer = fresh pool; run = Run.start made; same_producer = refl; same_memory = same }
Published-Mirrored {pool} (write {xs} {p} {p'} {m} {ops} x before is_record room h) =
    let k = Published-Mirrored before in
    let both : ◌≡◌ {A = ConcurrentProducer × ConcurrentRing} (producer_of k.buffer, shared k.buffer)
        (p, m) =
      λ i. (k.same_producer i, k.same_memory i) in
    subst
      (λ s.
        s.0.head_abs + 2 * length s.1.bytes < 2 ^ 64
        → write_record (length s.1.bytes) s.0 x ≡ ok (p', ops)
        → Mirrored pool (xs ++ x ∷ []) p' (apply_all s.1 ops))
      both (λ room' h'. write-Mirrored k.buffer x k.run is_record room' h') room h

-- When the producer has written records to a new ring and pauses, one read from the start returns
-- a batch with exactly the newest of them, in their order and with the CRC flag set, up to the
-- head that the producer published, and the loss count in memory is the number of the others,
-- modulo 2^64. The fields of the records fit their widths, every write finds the head, with two
-- laps, below 2^64, the last head is below 2^64, and the pool is smaller than 2^32 bytes.
pub read_raw_from_store-delivers :
    {pool : ℕ} {xs : List Record} {p : ConcurrentProducer} {m : ConcurrentRing}
    → Published pool xs p m
    → p.head_abs < 2 ^ 64
    → length m.bytes < 2 ^ 32
    → (dropped : List Record) × (kept : List Record) × (batch : ReadBatch) × (xs ≡ dropped ++ kept)
      × (m.lost_count ≡ length dropped % 2 ^ 64)
      × (read_raw_from_store (owned (λ _. m)) 0 ≡ ok batch)
      × (values batch.records ≡ all_as_read kept)
      × (batch.next_abs ≡ p.head_abs)
read_raw_from_store-delivers {pool} {xs} {p} {m} published small little =
    let k = Published-Mirrored published in
    let r = k.buffer in
    let head : r.head_abs ≡ p.head_abs = ap ConcurrentProducer.head_abs k.same_producer in
    let size : length r.bytes ≡ length m.bytes =
      ap (λ n. length (ConcurrentRing.bytes n)) k.same_memory in
    let (dropped, kept, batch, split, counted, _, raw, same, next) =
      Run-reads k.run (omega arith) in
    (
      dropped,
      kept,
      batch,
      split,
      ap ConcurrentRing.lost_count (sym k.same_memory) ∙ counted,
      ap (λ n. read_raw_from_store (owned (λ _. n)) 0) (sym k.same_memory)
          ∙ read_raw_from_store-eq-read_raw_from r 0 (omega arith)
          ∙ raw,
      same,
      next ∙ head,
    )
