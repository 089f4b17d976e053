-- ===== src/Concurrent/Invariant.antt =====
-- crates/carriage/src/concurrent.rs: the invariant of the producer and its ring between two stores.
use open_ot_experiments.Prelude.{
  ℕ, ◌+◌, ◌*◌, ◌^◌, ◌≤◌, ◌<◌, ◌≡◌, inl, inr, refl, ap, ◌∙◌, sym, List, [], ◌∷◌, ◌++◌, append_assoc,
  append-nil, arith, length, ok, ok-injective, leb, true, add64, ◌-◌,
}
use open_ot_experiments.Wire.{Record}
use open_ot_experiments.Wire.Layout.{IsRecord}
use open_ot_experiments.Ring
use open_ot_experiments.Ring.{evict_loop, first_start, next_start}
use open_ot_experiments.Ring.Types.{RingBuffer}
use open_ot_experiments.Ring.Stored.{IsValid}
use open_ot_experiments.Ring.Write.{write_record-Wrote, write_record-ok, after_write-eq}
use open_ot_experiments.Concurrent.{
  ConcurrentRing, ConcurrentProducer, StoreOp, apply_op, apply_all, append_bytes_core, write_record,
}
use open_ot_experiments.Concurrent.Publish.{shared, producer_of, write_record-eq-Ring}
use open_ot_experiments.Concurrent.Stable.{Stable, InOrder, apply_op-Stable}
use open_ot_experiments.Concurrent.Order.{append_bytes_core-InOrder}
use open_ot_experiments.Concurrent.Window.{Holding, Along}
use open_ot_experiments.Concurrent.Append.{append_bytes_core-Along}
use open_ot_experiments.Concurrent.System.{System}

-- The pending stores lead to a valid ring buffer that retains the newest of the records written,
-- they are in order, and the shared ring holds written records after each of them.
pub record Sound (written : List Record) (s : System) : Type 0 where
  pub target : RingBuffer
  pub dropped : List Record
  pub kept : List Record
  pub split : written ≡ dropped ++ kept
  pub valid : IsValid target kept
  pub producer_at : s.producer ≡ producer_of target
  pub leads : apply_all s.ring s.pending ≡ shared target
  pub size : length s.ring.bytes ≡ length target.bytes
  pub ordered : InOrder (length s.ring.bytes) s.ring.oldest_abs s.ring.head_abs s.pending
  pub along : Along written s.pending s.ring

-- What a write of the ring buffer says of the concurrent one.
pub write_record-appends :
    (r : RingBuffer) (xs : List Record) (x : Record) {span : ℕ × ℕ} {r' : RingBuffer}
    → IsValid r xs
    → IsRecord x
    → r.head_abs + 2 * length r.bytes < 2 ^ 64
    → Ring.write_record r x ≡ ok (span, r')
    → (encoded : List ℕ) × (length encoded ≤ length r.bytes)
      × (write_record (length r.bytes) (producer_of r) x
          ≡ ok (append_bytes_core (length r.bytes) (producer_of r) encoded))
      × InOrder
          (length r.bytes)
          r.oldest_abs
          r.head_abs
          (append_bytes_core (length r.bytes) (producer_of r) encoded).1
      × (let start = next_start r (length encoded) in
          let end = add64 start (length encoded) in
          let (index, _, _) = evict_loop (end - length r.bytes) r.index r.producer_loss_ranges 0 in
          first_start index start ≤ end)
unfolding write_record
write_record-appends r xs x {span} {r'} v is_record room h =
    let (encoded, is_encoded, fits, _, _, same) = write_record-ok r x h in
    let w = write_record-Wrote r xs x v is_record room h in
    let after = same ∙ after_write-eq r x encoded in
    let window = rw w.same_pool at w.valid.window in
    let t : leb (length encoded) (length r.bytes) ≡ true = ground arith in
    (
      encoded,
      fits,
      rw (is_encoded, t) refl,
      append_bytes_core-InOrder r xs encoded v fits room (rw after at window),
      rw after at w.valid.oldest_le_head,
    )

pub Sound-begin :
    {written : List Record} {m : ConcurrentRing} {p p' : ConcurrentProducer} {ops : List StoreOp}
    (x : Record)
    → Sound written (record { ring = m; producer = p; pending = [] })
    → IsRecord x
    → m.head_abs + 2 * length m.bytes < 2 ^ 64
    → m.lost_count < 2 ^ 64
    → write_record (length m.bytes) p x ≡ ok (p', ops)
    → Sound (written ++ x ∷ []) (record { ring = m; producer = p'; pending = ops })
unfolding apply_all
Sound-begin {written} {m} {p} {p'} {ops} x s is_record room lost h =
    let r = s.target in
    let v = s.valid in
    let at : m ≡ shared r = s.leads in
    let room' : r.head_abs + 2 * length r.bytes < 2 ^ 64 = rw at at room in
    let lost' : r.lost_count < 2 ^ 64 = rw at at lost in
    let h' : write_record (length r.bytes) (producer_of r) x ≡ ok (p', ops) =
      ap (λ (q : ConcurrentRing). write_record (length q.bytes) (producer_of r) x) (sym at)
      ∙ ap (λ (q : ConcurrentProducer). write_record (length m.bytes) q x) (sym s.producer_at)
      ∙ h in
    elim (write_record-eq-Ring r x v.pool (omega arith) lost') [
      | inl (e, _, bad) ↦ (let no = sym bad ∙ h' in cc)
      | inr (span, r', ops', wrote, same, leads) ↦
          let (encoded, fits, appended, order, _) =
            write_record-appends r s.kept x v is_record room' wrote in
          let w = write_record-Wrote r s.kept x v is_record room' wrote in
          let both = ok-injective (sym same ∙ h') in
          let ops_at : ops ≡ (append_bytes_core (length r.bytes) (producer_of r) encoded).1 =
            ap (λ q. q.1) (ok-injective (sym h' ∙ appended)) in
          let leads' : apply_all (shared r) ops ≡ shared r' =
            ap (apply_all (shared r)) (sym (ap (λ q. q.1) both)) ∙ leads in
          let split' : written ++ x ∷ [] ≡ s.dropped ++ (s.kept ++ x ∷ []) =
            ap (λ l. l ++ x ∷ []) s.split ∙ append_assoc s.dropped s.kept (x ∷ []) in
          let kept_at : s.dropped ++ (s.kept ++ x ∷ [])
              ≡ (s.dropped ++ w.dropped) ++ (w.kept ++ x ∷ []) =
            ap (λ (l : List Record). s.dropped ++ (l ++ x ∷ [])) w.split
            ∙ ap (λ (l : List Record). s.dropped ++ l) (append_assoc w.dropped w.kept (x ∷ []))
            ∙ sym (append_assoc s.dropped w.dropped (w.kept ++ x ∷ [])) in
          let final : Holding (written ++ x ∷ []) (shared r') = record {
            index = r'.index;
            xs = w.kept ++ x ∷ [];
            before = s.dropped ++ w.dropped;
            after = [];
            split = rw append-nil (split' ∙ kept_at);
            held = inr w.valid.stored;
          } in
          record {
            target = r';
            dropped = s.dropped ++ w.dropped;
            kept = w.kept ++ x ∷ [];
            split = split' ∙ kept_at;
            valid = w.valid;
            producer_at = sym (ap (λ q. q.0) both);
            leads = rw at leads';
            size = s.size ∙ sym w.same_pool;
            ordered = rw (at, ops_at) order;
            along =
                rw (at, ops_at)
                  (append_bytes_core-Along r (shared r') (written ++ x ∷ []) s.dropped s.kept
                    (x ∷ []) v split' lost' final encoded fits room' order (rw ops_at at leads'));
          }
    ]

pub Sound-store :
    {written : List Record} {m : ConcurrentRing} {p : ConcurrentProducer} {op : StoreOp}
    {ops : List StoreOp}
    → Sound written (record { ring = m; producer = p; pending = op ∷ ops })
    → Sound written (record { ring = apply_op m op; producer = p; pending = ops })
      × Stable m (apply_op m op)
unfolding apply_all
Sound-store {written} {m} {p} {op} {ops} s =
    let pos : 0 < length m.bytes = omega (arith, s.size, s.valid.pool) in
    let (stable, order) = apply_op-Stable m op ops pos s.ordered in
    (
      record {
        target = s.target;
        dropped = s.dropped;
        kept = s.kept;
        split = s.split;
        valid = s.valid;
        producer_at = s.producer_at;
        leads = s.leads;
        size = stable.same_size ∙ s.size;
        ordered = order;
        along = s.along.1;
      },
      stable,
    )
