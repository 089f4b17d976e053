-- ===== src/Concurrent/Append.antt =====
-- crates/carriage/src/concurrent.rs: the ring holds written records after each store of an append.
use open_ot_experiments.Prelude.{
  ℕ, ◌+◌, ◌-◌, ◌*◌, ◌%◌, ◌^◌, ◌≤◌, ◌<◌, ◌≡◌, ◌⊎◌, inl, inr, refl, ap, ◌∙◌, sym, List, [], ◌∷◌, ◌++◌,
  append_assoc, arith, length, add64,
}
use mathlib.Core.Path.{subst}
use open_ot_experiments.Wire.{Record}
use open_ot_experiments.Ring.{evict_loop, first_start, next_start}
use open_ot_experiments.Ring.Types.{RecordIndex, RingBuffer}
use open_ot_experiments.Ring.Stored.{Stored, IsValid}
use open_ot_experiments.Ring.Place.{next_start-Placed, Placed-le}
use open_ot_experiments.Ring.Write.{evict_loop-Evicted}
use open_ot_experiments.Concurrent.{
  ConcurrentRing, StoreOp, apply_op, apply_all, begin_control_update, end_control_update_release,
  store_oldest_relaxed, release_before_clobber, store_head_release, store_bytes, mark_wrap,
  count_lost, append_bytes_core,
}
use open_ot_experiments.Concurrent.Publish.{
  shared, producer_of, append_bytes_core_at, apply_all-append, apply_all-count_lost,
}
use open_ot_experiments.Concurrent.Stable.{InOrder}
use open_ot_experiments.Concurrent.Window.{
  Holding, Along, AreQuiet-append, store_bytes-AreQuiet, count_lost-AreQuiet, mark_wrap-AreQuiet,
  Along-quiet,
}

-- The append's operations between its two moves of an offset.
abbrev between : RingBuffer → ℕ → List ℕ → List StoreOp
between r start encoded =
    release_before_clobber
    ∷ (mark_wrap (producer_of r) start (r.head_abs % length r.bytes)
        ++ store_bytes (start % length r.bytes) encoded)

abbrev pub append_ops : RingBuffer → ℕ → ℕ → ℕ → List ℕ → ℕ → List StoreOp
append_ops r evicted oldest start encoded end =
    (begin_control_update ∷ count_lost evicted)
    ++ store_oldest_relaxed oldest
      ∷ (between r start encoded ++ store_head_release end ∷ end_control_update_release ∷ [])

-- The append's operations in that order.
append_bytes_core-append_ops :
    (r : RingBuffer) (encoded : List ℕ)
    → let start = next_start r (length encoded) in
      let end = add64 start (length encoded) in
      let (index, _, m) = evict_loop (end - length r.bytes) r.index r.producer_loss_ranges 0 in
      (append_bytes_core (length r.bytes) (producer_of r) encoded).1
      ≡ append_ops r m (first_start index start) start encoded end
append_bytes_core-append_ops r encoded =
    let start = next_start r (length encoded) in
    let end = add64 start (length encoded) in
    let (index, _, m) = evict_loop (end - length r.bytes) r.index r.producer_loss_ranges 0 in
    let publish = store_head_release end ∷ end_control_update_release ∷ [] in
    let marks = mark_wrap (producer_of r) start (r.head_abs % length r.bytes) in
    let bytes = store_bytes (start % length r.bytes) encoded in
    rw
      (
        append_bytes_core_at r encoded,
        append_assoc marks bytes publish,
        append_assoc (count_lost m)
            (store_oldest_relaxed (first_start index start) ∷ release_before_clobber ∷ [])
            (marks ++ (bytes ++ publish)),
      )
      refl

Holding-valid :
    (r : RingBuffer) (written before xs after : List Record)
    → IsValid r xs
    → written ≡ before ++ (xs ++ after)
    → Holding written (shared r)
Holding-valid r written before xs after v split = record {
  index = r.index;
  xs = xs;
  before = before;
  after = after;
  split = split;
  held = inr v.stored;
}

-- What is held once the oldest offset has moved.
Holding-evicted :
    (r : RingBuffer) (m : ConcurrentRing) (written before xs after : List Record) (floor start : ℕ)
    → IsValid r xs
    → written ≡ before ++ (xs ++ after)
    → r.head_abs ≤ start
    → m.bytes ≡ r.bytes
    → m.head_abs ≡ r.head_abs
    → let (index, _, _) = evict_loop floor r.index r.producer_loss_ranges 0 in
      Holding written (record m { oldest_abs = first_start index start })
Holding-evicted r m written before xs after floor start v split le bytes head =
    let pool = length r.bytes in
    let e =
      evict_loop-Evicted r.bytes pool floor r.oldest_abs r.index xs r.head_abs
        r.producer_loss_ranges 0 v.stored in
    let index = (evict_loop floor r.index r.producer_loss_ranges 0).0 in
    record {
      index = index;
      xs = e.kept;
      before = before ++ e.dropped;
      after = after;
      split =
          split
          ∙ ap (λ (l : List Record). before ++ (l ++ after)) e.split
          ∙ ap (λ (l : List Record). before ++ l) (append_assoc e.dropped e.kept after)
          ∙ sym (append_assoc before e.dropped (e.kept ++ after));
      held = rw (bytes, head) (kept_at r.bytes pool index e.kept r.head_abs start le e.still);
    }
  where
    kept_at :
        (bytes : List ℕ) (pool : ℕ) (index : List RecordIndex) (kept : List Record) (head start : ℕ)
        → head ≤ start
        → Stored bytes pool (first_start index head) index kept head
        → ((head ≤ first_start index start) × (kept ≡ []))
          ⊎ Stored bytes pool (first_start index start) index kept head
    kept_at bytes pool [] [] head start le h = inl (le, refl)
    kept_at bytes pool [] (x ∷ kept) head start le h = absurd h
    kept_at bytes pool (i ∷ index) kept head start le h = inr h

-- An append, from a valid ring to one that holds written records again.
module _ (r : RingBuffer) (after : ConcurrentRing) (written before xs tail : List Record)
    (v : IsValid r xs) (split : written ≡ before ++ (xs ++ tail)) (small : r.lost_count < 2 ^ 64)
    (held_after : Holding written after) where
  append_ops-Along :
      (start end : ℕ) (encoded : List ℕ) (floor evicted : ℕ)
      → r.head_abs ≤ start
      → let (index, _, _) = evict_loop floor r.index r.producer_loss_ranges 0 in
        let ops = append_ops r evicted (first_start index start) start encoded end in
        InOrder (length r.bytes) r.oldest_abs r.head_abs ops
        → apply_all (shared r) ops ≡ after
        → Along written ops (shared r)
  unfolding apply_all apply_op
  append_ops-Along start end encoded floor evicted le order leads =
      let index = (evict_loop floor r.index r.producer_loss_ranges 0).0 in
      let oldest = first_start index start in
      let mid = between r start encoded in
      let publish = store_head_release end ∷ end_control_update_release ∷ [] in
      let first = begin_control_update ∷ count_lost evicted in
      let rest = store_oldest_relaxed oldest ∷ (mid ++ publish) in
      let m1 = apply_all (shared r) first in
      let m2 = record m1 { oldest_abs = oldest } in
      let m1_at : m1 ≡ record (shared r) { lost_count = add64 r.lost_count evicted } =
        apply_all-count_lost (shared r) evicted small in
      let published : apply_all (apply_all m2 mid) publish ≡ after =
        sym (apply_all-append (shared r) first rest ∙ apply_all-append m2 mid publish) ∙ leads in
      Along-quiet written first rest (shared r) (tt, count_lost-AreQuiet evicted) v.pool order
        (Holding-valid r written before xs tail v split)
        (λ pos1 order1 hold1. (
          hold1,
          Along-quiet written mid publish m2
              (
                tt,
                AreQuiet-append _ _ (mark_wrap-AreQuiet r start _) (store_bytes-AreQuiet _ encoded),
              )
              pos1 order1.1
              (Holding-evicted r m1 written before xs tail floor start v split le
                (ap (λ (m : ConcurrentRing). m.bytes) m1_at)
                (ap (λ (m : ConcurrentRing). m.head_abs) m1_at))
              (λ pos3 order3 hold3. (
                hold3,
                (
                  subst (Holding written) (sym published) held_after,
                  subst (Holding written) (sym published) held_after,
                ),
              )),
        ))

  pub append_bytes_core-Along :
      (encoded : List ℕ)
      → length encoded ≤ length r.bytes
      → r.head_abs + 2 * length r.bytes < 2 ^ 64
      → let ops = (append_bytes_core (length r.bytes) (producer_of r) encoded).1 in
        InOrder (length r.bytes) r.oldest_abs r.head_abs ops
        → apply_all (shared r) ops ≡ after
        → Along written ops (shared r)
  append_bytes_core-Along encoded fits room order leads =
      let start = next_start r (length encoded) in
      let end = add64 start (length encoded) in
      let floor = end - length r.bytes in
      let (_, _, m) = evict_loop floor r.index r.producer_loss_ranges 0 in
      let (placed, _) = next_start-Placed r (length encoded) v.pool fits (omega arith) in
      let same = append_bytes_core-append_ops r encoded in
      rw same (
        append_ops-Along start end encoded floor m (Placed-le placed) (rw same at order)
          (rw same at leads))
