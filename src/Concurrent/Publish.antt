-- ===== src/Concurrent/Publish.antt =====
-- crates/carriage/src/concurrent.rs: the producer's stores make of the ring what `RingBuffer` does.
use open_ot_experiments.Prelude.{
  ℕ, zero, suc, ◌+◌, ◌-◌, ◌%◌, ◌^◌, ◌≤◌, ◌<◌, ◌≡◌, ◌⊎◌, inl, inr, refl, ap, ◌∙◌, sym, List, [], ◌∷◌,
  ◌++◌, ok, err, arith, length, set, length-set, write_at, ltb, leb, ◌==◌, add64, Bool-cases, true,
  false, take-append-drop,
}
use open_ot_experiments.Wire.{Record}
use open_ot_experiments.Ring.{evict_loop, first_start, next_start, record_producer_loss}
use open_ot_experiments.Ring.Types.{RecordIndex, RingBuffer, RingError, LossRange, wire}
use open_ot_experiments.Ring.Place.{next_start-Placed, marked_bytes}
use open_ot_experiments.Ring.Write.{ring_after, after_write-eq, write_record-ok}
use open_ot_experiments.Ring.Accepts.{write_record_outcome}
use open_ot_experiments.Ring
use open_ot_experiments.Concurrent.{
  ConcurrentRing, ConcurrentProducer, StoreOp, apply_op, apply_all, next_start_abs, evict_spans,
  first_span, count_lost, evict_before_clobber, mark_wrap, store_bytes, append_bytes_core,
  store_oldest_relaxed, store_head_release, end_control_update_release, release_before_clobber,
  begin_control_update, write_record,
}

-- What the concurrent ring keeps of a ring buffer, in the shared memory and in the producer.
abbrev pub shared : RingBuffer → ConcurrentRing
shared r = record {
  bytes = r.bytes;
  head_abs = r.head_abs;
  oldest_abs = r.oldest_abs;
  lost_count = r.lost_count;
}

abbrev pub spans_of : List RecordIndex → List (ℕ × ℕ)
spans_of [] = []
spans_of (i ∷ index) = (i.start_abs, i.end_abs) ∷ spans_of index

length-marked_bytes :
    (bytes : List ℕ) (head start : ℕ) → length (marked_bytes bytes head start) ≡ length bytes
unfolding marked_bytes
length-marked_bytes bytes head start = ground (arith, length-set bytes (head % length bytes) 0)

abbrev pub producer_of : RingBuffer → ConcurrentProducer
producer_of r = record { spans = spans_of r.index; head_abs = r.head_abs }

pub spans_of-append :
    (index later : List RecordIndex) → spans_of (index ++ later) ≡ spans_of index ++ spans_of later
spans_of-append [] later = refl
spans_of-append (i ∷ index) later =
    ap (λ l. (i.start_abs, i.end_abs) ∷ l) (spans_of-append index later)

first_span-spans_of :
    (index : List RecordIndex) (otherwise : ℕ)
    → first_span (spans_of index) otherwise ≡ first_start index otherwise
first_span-spans_of [] otherwise = refl
first_span-spans_of (i ∷ index) otherwise = refl

evict_spans-spans_of :
    (floor : ℕ) (index : List RecordIndex) (ranges : List LossRange) (n : ℕ)
    → let (index', _, m) = evict_loop floor index ranges n in
      evict_spans floor (spans_of index) n ≡ (spans_of index', m)
unfolding evict_spans evict_loop
evict_spans-spans_of floor [] ranges n = refl
evict_spans-spans_of floor (i ∷ index) ranges n = elim (Bool-cases (ltb i.start_abs floor)) [
  | inl old ↦
      let later = record_producer_loss ranges i.run_id i.source_id i.seq in
      rw old (evict_spans-spans_of floor index later (n + 1))
  | inr young ↦ rw young refl
]

pub apply_all-append :
    (m : ConcurrentRing) (first later : List StoreOp)
    → apply_all m (first ++ later) ≡ apply_all (apply_all m first) later
unfolding apply_all
apply_all-append m [] later = refl
apply_all-append m (op ∷ first) later = apply_all-append (apply_op m op) first later

set-write_at :
    (bytes : List ℕ) (at v : ℕ) (values : List ℕ)
    → at < length bytes
    → write_at (set bytes at v) (at + 1) values ≡ write_at bytes at (v ∷ values)
set-write_at [] at v values h = absurd (omega arith)
set-write_at (b ∷ bytes) zero v values h =
    let e : 0 + 1 + length values ≡ suc (length values) = omega arith in
    let e' : 0 + length (v ∷ values) ≡ suc (length values) = omega arith in rw (e, e') refl
set-write_at (b ∷ bytes) (suc at) v values h =
    let e : suc at + 1 ≡ suc (at + 1) = omega arith in
    let e' : suc (at + 1) + length values ≡ suc (at + 1 + length values) = omega arith in
    let e'' : suc at + length (v ∷ values) ≡ suc (at + length (v ∷ values)) = omega arith in
    rw (e, e', e'') (ap (λ l. b ∷ l) (set-write_at bytes at v values (omega arith)))

-- The loop over the bytes is one copy.
pub apply_all-store_bytes :
    (m : ConcurrentRing) (phys : ℕ) (values : List ℕ)
    → phys + length values ≤ length m.bytes
    → apply_all m (store_bytes phys values) ≡ record m { bytes = write_at m.bytes phys values }
unfolding apply_all apply_op store_bytes
apply_all-store_bytes m phys [] h =
    let e : phys + 0 ≡ phys = omega arith in
    let same : write_at m.bytes phys [] ≡ m.bytes = rw e (take-append-drop phys m.bytes) in
    ap (λ (l : List ℕ). record m { bytes = l }) (sym same)
apply_all-store_bytes m phys (v ∷ values) h =
    apply_all-store_bytes (record m { bytes = set m.bytes phys v }) (phys + 1) values
      (omega (arith, length-set m.bytes phys v))
    ∙ ap (λ (l : List ℕ). record m { bytes = l }) (set-write_at m.bytes phys v values (omega arith))

next_start_abs-eq :
    (r : RingBuffer) (n : ℕ) → next_start_abs (length r.bytes) (producer_of r) n ≡ next_start r n
unfolding next_start_abs next_start
next_start_abs-eq r n = refl

pub apply_all-count_lost :
    (m : ConcurrentRing) (n : ℕ)
    → m.lost_count < 2 ^ 64
    → apply_all m (count_lost n) ≡ record m { lost_count = add64 m.lost_count n }
unfolding apply_all apply_op count_lost
apply_all-count_lost m n h = elim (Bool-cases (n == 0)) [
  | inl t ↦
      let e : m.lost_count ≡ add64 m.lost_count n = ground arith in
      rw t (ap (λ (k : ℕ). record m { lost_count = k }) e)
  | inr f ↦ rw f refl
]

apply_all-mark_wrap :
    (r : RingBuffer) (m : ConcurrentRing) (start : ℕ)
    → m.bytes ≡ r.bytes
    → apply_all m (mark_wrap (producer_of r) start (r.head_abs % length r.bytes))
      ≡ record m { bytes = marked_bytes r.bytes r.head_abs start }
unfolding apply_all apply_op mark_wrap marked_bytes
apply_all-mark_wrap r m start e = elim (Bool-cases (start == r.head_abs)) [
  | inl t ↦ rw t (ap (λ (l : List ℕ). record m { bytes = l }) e)
  | inr f ↦ rw f (ap (λ (l : List ℕ). record m { bytes = set l (r.head_abs % length r.bytes) 0 }) e)
]

-- What a list of operations does, from what its parts do.
pub apply_all-then :
    (m : ConcurrentRing) {m' m'' : ConcurrentRing} (first later : List StoreOp)
    → apply_all m first ≡ m'
    → apply_all m' later ≡ m''
    → apply_all m (first ++ later) ≡ m''
apply_all-then m first later e e' =
    apply_all-append m first later ∙ ap (λ n. apply_all n later) e ∙ e'

-- The operations of an append, from what the eviction left.
abbrev pub evict_ops : ℕ → ℕ → List StoreOp
evict_ops evicted oldest =
    count_lost evicted ++ store_oldest_relaxed oldest ∷ release_before_clobber ∷ []

abbrev pub write_ops : RingBuffer → List ℕ → ℕ → ℕ → List StoreOp
write_ops r encoded start end =
    mark_wrap (producer_of r) start (r.head_abs % length r.bytes)
    ++ (store_bytes (start % length r.bytes) encoded
        ++ store_head_release end ∷ end_control_update_release ∷ [])

apply_all-evict_ops :
    (m : ConcurrentRing) (evicted oldest : ℕ)
    → m.lost_count < 2 ^ 64
    → apply_all m (evict_ops evicted oldest)
      ≡ record m { lost_count = add64 m.lost_count evicted; oldest_abs = oldest }
unfolding apply_all apply_op
apply_all-evict_ops m evicted oldest lost =
    apply_all-then m (count_lost evicted)
      (store_oldest_relaxed oldest ∷ release_before_clobber ∷ [])
      (apply_all-count_lost m evicted lost) refl

apply_all-write_ops :
    (r : RingBuffer) (m : ConcurrentRing) (encoded : List ℕ) (start end : ℕ)
    → m.bytes ≡ r.bytes
    → start % length r.bytes + length encoded ≤ length r.bytes
    → apply_all m (write_ops r encoded start end) ≡ record m {
      bytes = write_at (marked_bytes r.bytes r.head_abs start) (start % length r.bytes) encoded;
      head_abs = end;
    }
unfolding apply_all apply_op
apply_all-write_ops r m encoded start end e in_pool =
    let publish = store_head_release end ∷ end_control_update_release ∷ [] in
    let phys = start % length r.bytes in
    let marked = record m { bytes = marked_bytes r.bytes r.head_abs start } in
    let size = length-marked_bytes r.bytes r.head_abs start in
    apply_all-then m (mark_wrap (producer_of r) start (r.head_abs % length r.bytes))
      (store_bytes phys encoded ++ publish) (apply_all-mark_wrap r m start e)
      (apply_all-then marked (store_bytes phys encoded) publish
        (apply_all-store_bytes marked phys encoded (omega (arith, size))) refl)

-- An append, with the eviction's result named.
pub append_bytes_core_at :
    (r : RingBuffer) (encoded : List ℕ)
    → let start = next_start r (length encoded) in
      let end = add64 start (length encoded) in
      let (index, _, m) = evict_loop (end - length r.bytes) r.index r.producer_loss_ranges 0 in
      append_bytes_core (length r.bytes) (producer_of r) encoded ≡ (
        record { spans = spans_of index ++ (start, end) ∷ []; head_abs = end },
        begin_control_update
            ∷ (evict_ops m (first_start index start) ++ write_ops r encoded start end),
      )
unfolding append_bytes_core evict_before_clobber
append_bytes_core_at r encoded =
    let start = next_start r (length encoded) in
    let end = add64 start (length encoded) in
    let floor = end - length r.bytes in
    let (index, _, m) = evict_loop floor r.index r.producer_loss_ranges 0 in
    let evicted = evict_spans-spans_of floor r.index r.producer_loss_ranges 0 in
    rw (next_start_abs-eq r (length encoded), evicted, first_span-spans_of index start) refl

-- The append's effect is the ring buffer's.
pub append_bytes_core-eq :
    (r : RingBuffer) (x : Record) (encoded : List ℕ)
    → 0 < length r.bytes
    → length encoded ≤ length r.bytes
    → r.head_abs + length r.bytes < 2 ^ 64
    → r.lost_count < 2 ^ 64
    → let start = next_start r (length encoded) in
      let r' = ring_after r x encoded start (add64 start (length encoded)) in
      let (p, ops) = append_bytes_core (length r.bytes) (producer_of r) encoded in
      (p ≡ producer_of r') × (apply_all (shared r) ops ≡ shared r')
unfolding apply_all apply_op
append_bytes_core-eq r x encoded pos fits room lost =
    let start = next_start r (length encoded) in
    let end = add64 start (length encoded) in
    let (index, _, m) = evict_loop (end - length r.bytes) r.index r.producer_loss_ranges 0 in
    let (placed, in_pool) = next_start-Placed r (length encoded) pos fits room in
    let size = length-marked_bytes r.bytes r.head_abs start in
    let evicted = record (shared r) {
      lost_count = add64 r.lost_count m;
      oldest_abs = first_start index start;
    } in
    rw (append_bytes_core_at r encoded) (
      ap (λ (l : List (ℕ × ℕ)). record { spans = l; head_abs = end })
          (sym (spans_of-append index _)),
      rw size (
          apply_all-then (shared r) (evict_ops m (first_start index start))
            (write_ops r encoded start end)
            (apply_all-evict_ops (shared r) m (first_start index start) lost)
            (apply_all-write_ops r evicted encoded start end refl in_pool)),
    )

-- A write of the concurrent producer, once its stores are done, and the write of a ring buffer in
-- the same state have the same outcome: they refuse the record with the same error, or they leave
-- the same bytes, offsets, loss count and retained spans. The pool is not empty, the head, with
-- one lap, is below 2^64, and so is the loss count.
pub write_record-eq-Ring :
    (r : RingBuffer) (x : Record)
    → 0 < length r.bytes
    → r.head_abs + length r.bytes < 2 ^ 64
    → r.lost_count < 2 ^ 64
    → ((e : RingError) × (Ring.write_record r x ≡ err e)
        × (write_record (length r.bytes) (producer_of r) x ≡ err e))
      ⊎ ((span : ℕ × ℕ) × (r' : RingBuffer) × (ops : List StoreOp) × (Ring.write_record r x
            ≡ ok (span, r'))
          × (write_record (length r.bytes) (producer_of r) x ≡ ok (producer_of r', ops))
          × (apply_all (shared r) ops ≡ shared r'))
unfolding write_record
write_record-eq-Ring r x pos room lost = elim (write_record_outcome r x) [
  | inl (e, bad, refused) ↦ inl (wire e, refused, rw bad refl)
  | inr (inl (bytes, good, long, refused)) ↦
      let f : leb (length bytes) (length r.bytes) ≡ false = ground arith in
      inl (_, refused, rw (good, f) refl)
  | inr (inr (bytes, good, fits, span, r', written)) ↦
      let (encoded, is_encoded, small, _, _, same) = write_record-ok r x written in
      let t : leb (length encoded) (length r.bytes) ≡ true = ground arith in
      let (producer, memory) = append_bytes_core-eq r x encoded pos small room lost in
      let after = same ∙ after_write-eq r x encoded in
      inr (
        span,
        r',
        (append_bytes_core (length r.bytes) (producer_of r) encoded).1,
        written,
        rw (is_encoded, t, after)
            (ap (λ q. ok (q, (append_bytes_core (length r.bytes) (producer_of r) encoded).1))
              producer),
        rw after memory,
      )
]
