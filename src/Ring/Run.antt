-- ===== src/Ring/Run.antt =====
-- crates/carriage/src/ring.rs: the rings that writes reach from a new one.
use open_ot_experiments.Prelude.{
  ℕ, ◌+◌, ◌*◌, ◌%◌, ◌<◌, ◌^◌, ◌≡◌, refl, ap, ◌∙◌, sym, List, [], ◌∷◌, ◌++◌, append_assoc, some,
  arith, length, length-append, ◌==◌, ok, replicate, length-replicate, Bool-cases, inl, inr,
}
use mathlib.Core.Path.{subst}
use open_ot_experiments.Wire.{Record}
use open_ot_experiments.Wire.Layout.{IsRecord}
use open_ot_experiments.Ring.{new, write_record, read_from, read_raw_from}
use open_ot_experiments.Ring.Types.{RingBuffer, ReadBatch}
use open_ot_experiments.Ring.Stored.{IsValid}
use open_ot_experiments.Ring.Write.{write_record-Wrote}
use open_ot_experiments.Ring.Read.{values, all_as_read, read_from-IsValid}
use open_ot_experiments.Ring.RawRead.{read_raw_from-eq-read_from}

-- The ring that writing the records, the last one last, makes of a new one. The condition on the
-- head keeps the 64-bit offsets from wrapping.
pub data Run (pool : ℕ) : List Record → RingBuffer → Type 0 where
  start : {r : RingBuffer} → new pool ≡ some r → Run pool [] r
  write :
      {xs : List Record} {r r' : RingBuffer} {span : ℕ × ℕ} (x : Record)
      → Run pool xs r
      → IsRecord x
      → r.head_abs + 2 * length r.bytes < 2 ^ 64
      → write_record r x ≡ ok (span, r')
      → Run pool (xs ++ x ∷ []) r'

-- What is retained of the records written, and how the rest is counted.
pub record Retains (xs : List Record) (r : RingBuffer) : Type 0 where
  pub dropped : List Record
  pub kept : List Record
  pub split : xs ≡ dropped ++ kept
  pub valid : IsValid r kept
  pub counted : r.lost_count ≡ length dropped % 2 ^ 64

abbrev pub fresh : ℕ → RingBuffer
fresh pool = record {
  bytes = replicate pool 0;
  head_abs = 0;
  oldest_abs = 0;
  lost_count = 0;
  wraps = 0;
  index = [];
  producer_loss_ranges = [];
}

new-fresh : (pool : ℕ) {r : RingBuffer} → new pool ≡ some r → (0 < pool) × (fresh pool ≡ r)
unfolding new
new-fresh pool h = elim (Bool-cases (pool == 0)) [
  | inl t ↦ let bad = rw t at h in cc
  | inr f ↦ let same = rw f at h in (ground arith, cc)
]

pub fresh-Retains : (pool : ℕ) → 0 < pool → Retains [] (fresh pool)
fresh-Retains pool pos = record {
  dropped = [];
  kept = [];
  split = refl;
  valid = record {
    pool = omega (arith, length-replicate {A = ℕ} pool 0);
    oldest_le_head = omega arith;
    window = omega arith;
    stored = refl;
  };
  counted = omega arith;
}

-- After any writes to a new ring, the ring is valid, retains the newest of the records written, in their order, and its loss counter is the number of the others, modulo 2^64.
pub Run-Retains : {pool : ℕ} {xs : List Record} {r : RingBuffer} → Run pool xs r → Retains xs r
Run-Retains (start {r} h) =
    (let (pos, same) = new-fresh _ h in subst (Retains []) same (fresh-Retains _ pos))
Run-Retains (write {xs} {r} {r'} {span} x run is_record room h) =
    let before = Run-Retains run in
    let w = write_record-Wrote r before.kept x before.valid is_record room h in
    record {
      dropped = before.dropped ++ w.dropped;
      kept = w.kept ++ x ∷ [];
      split =
          ap (λ l. l ++ x ∷ [])
            (before.split
              ∙ ap (λ l. before.dropped ++ l) w.split
              ∙ sym (append_assoc before.dropped w.dropped w.kept))
          ∙ append_assoc (before.dropped ++ w.dropped) w.kept (x ∷ []);
      valid = w.valid;
      counted = w.lost ∙ omega (arith, before.counted, length-append before.dropped w.dropped);
    }

-- After any writes to a new ring, both readers, from its start, deliver exactly the newest of the
-- records written, in their order, with the CRC flag set, and the loss counter is the number of
-- those that they do not deliver, modulo 2^64. The fields of the records fit their widths, every
-- write finds the head, with two laps, below 2^64, and the last head is below 2^64.
pub Run-reads :
    {pool : ℕ} {xs : List Record} {r : RingBuffer}
    → Run pool xs r
    → r.head_abs < 2 ^ 64
    → (dropped : List Record) × (kept : List Record) × (batch : ReadBatch) × (xs ≡ dropped ++ kept)
      × (r.lost_count ≡ length dropped % 2 ^ 64)
      × (read_from r 0 ≡ ok batch)
      × (read_raw_from r 0 ≡ ok batch)
      × (values batch.records ≡ all_as_read kept)
      × (batch.next_abs ≡ r.head_abs)
Run-reads {xs} {r} run small =
    let k = Run-Retains run in
    let (indexed, same) = read_from-IsValid r k.kept 0 k.valid (omega arith) in
    let raw = read_raw_from-eq-read_from r k.kept 0 k.valid small (omega arith) in
    (k.dropped, k.kept, _, k.split, k.counted, indexed, raw ∙ indexed, same, refl)
