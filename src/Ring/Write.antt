-- ===== src/Ring/Write.antt =====
-- crates/carriage/src/ring.rs: `write_record` keeps the newest records, and drops the oldest.
use open_ot_experiments.Prelude.{
  ℕ, ◌+◌, ◌-◌, ◌*◌, ◌%◌, ◌^◌, ◌≤◌, ◌<◌, ◌≡◌, ◌⊎◌, inl, inr, refl, ap, ◌∙◌, List, [], ◌∷◌, ◌++◌,
  true, ok, arith, length, length-set, write_at, ltb, leb, ◌==◌, if◌then◌else◌, add64, Bool-cases,
  >>=-eq-ok, map_err, map_err-eq-ok, ensure-eq-ok, ensure,
}
use native.Mathlib.Nat.{mod-eq_of_lt}
use open_ot_experiments.Wire.{Record, encode}
use open_ot_experiments.Wire.Layout.{IsRecord}
use open_ot_experiments.Wire.RoundTrip.{length-encode}
use open_ot_experiments.Ring.{
  record_producer_loss, next_start, evict_loop, evict_before_clobber, first_start, mark_wrap,
  append_record, write_record,
}
use open_ot_experiments.Ring.Types.{
  RecordIndex, RingBuffer, LossRange, wire, record_exceeds_capacity,
}
use open_ot_experiments.Ring.Disjoint.{length-write_at}
use open_ot_experiments.Ring.Stored.{Stored, Stored-le, IsValid, adjacent}
use open_ot_experiments.Ring.Place.{
  Placed, Placed-le, Placed-near, next_start-Placed, marked_bytes, new_index, Stored-Placed,
  Stored-alone,
}

-- What eviction below `floor` leaves of stored records.
pub record Evicted (bytes : List ℕ) (pool floor head : ℕ) (xs : List Record) (n : ℕ)
    (index : List RecordIndex) (m : ℕ) : Type 0 where
  pub dropped : List Record
  pub kept : List Record
  pub split : xs ≡ dropped ++ kept
  pub counted : m ≡ n + length dropped
  pub still : Stored bytes pool (first_start index head) index kept head
  pub above : (index ≡ []) ⊎ (floor ≤ first_start index head)

pub evict_loop-Evicted :
    (bytes : List ℕ) (pool floor p : ℕ) (index : List RecordIndex) (xs : List Record) (head : ℕ)
    (ranges : List LossRange) (n : ℕ)
    → Stored bytes pool p index xs head
    → let (index', _, m) = evict_loop floor index ranges n in
      Evicted bytes pool floor head xs n index' m
unfolding evict_loop
evict_loop-Evicted bytes pool floor p [] [] head ranges n h = record {
  dropped = [];
  kept = [];
  split = refl;
  counted = omega arith;
  still = refl;
  above = inl refl;
}
evict_loop-Evicted bytes pool floor p [] (x ∷ xs) head ranges n h = absurd h
evict_loop-Evicted bytes pool floor p (i ∷ index) [] head ranges n h = absurd h
evict_loop-Evicted bytes pool floor p (i ∷ index) (x ∷ xs) head ranges n (f, s, h) =
    elim (Bool-cases (ltb i.start_abs floor)) [
      | inl old ↦
          let later = record_producer_loss ranges i.run_id i.source_id i.seq in
          let e = evict_loop-Evicted bytes pool floor i.end_abs index xs head later (n + 1) h in
          let m = e.counted in
          rw old (record {
            dropped = x ∷ e.dropped;
            kept = e.kept;
            split = ap (λ l. x ∷ l) e.split;
            counted = omega arith;
            still = e.still;
            above = e.above;
          })
      | inr young ↦ rw young (record {
        dropped = [];
        kept = x ∷ xs;
        split = refl;
        counted = omega arith;
        still = (adjacent refl, s, h);
        above = inr (ground arith);
      })
    ]

-- What the ring holds once the record is in place.
module _ (bytes : List ℕ) (pool head start : ℕ) (x : Record) (encoded : List ℕ)
    (size : length bytes ≡ pool) (pos : 0 < pool) (some_bytes : 0 < length encoded)
    (in_pool : start % pool + length encoded ≤ pool) (is_encoded : encode x true ≡ ok encoded)
    (is_record : IsRecord x) (placed : Placed pool head start) where
  abbrev final : List ℕ
  final = write_at (marked_bytes bytes head start) (start % pool) encoded

  pub length-marked_bytes : length (marked_bytes bytes head start) ≡ pool
  unfolding marked_bytes
  length-marked_bytes = ground (arith, length-set bytes (head % length bytes) 0)

  Stored-kept :
      (index : List RecordIndex) (kept : List Record) (floor : ℕ)
      → start + length encoded ≤ floor + pool
      → Stored bytes pool (first_start index head) index kept head
      → (index ≡ []) ⊎ (floor ≤ first_start index head)
      → Stored final pool
          (first_start index start)
          (index ++ new_index start encoded x ∷ [])
          (kept ++ x ∷ [])
          (start + length encoded)
        × (first_start index start ≤ start + length encoded)
        × (start + length encoded ≤ first_start index start + pool)
  Stored-kept [] [] floor near h a = (
    Stored-alone bytes pool head start x encoded size pos some_bytes in_pool is_encoded is_record _
        length-marked_bytes,
    omega arith,
    omega arith,
  )
  Stored-kept [] (y ∷ kept) floor near h a = absurd h
  Stored-kept (i ∷ index) [] floor near h a = absurd h
  Stored-kept (i ∷ index) (y ∷ kept) floor near h (inl e) = cc
  Stored-kept (i ∷ index) (y ∷ kept) floor near h (inr above) =
      let le = Stored-le bytes pool i.start_abs (i ∷ index) (y ∷ kept) head h in
      (
        Stored-Placed bytes pool head start x encoded size pos some_bytes in_pool is_encoded
            is_record i.start_abs (i ∷ index) (y ∷ kept) placed h (omega arith),
        omega (arith, Placed-le placed),
        omega arith,
      )

-- The ring that `write_record` leaves.
abbrev pub after_write : RingBuffer → Record → List ℕ → RingBuffer
after_write r x encoded =
    let start = next_start r (length encoded) in
    let end = add64 start (length encoded) in
    append_record (mark_wrap (evict_before_clobber r end start) start (r.head_abs % length r.bytes))
      start end encoded x

pub write_record-ok :
    (r : RingBuffer) (x : Record) {span : ℕ × ℕ} {r' : RingBuffer}
    → write_record r x ≡ ok (span, r')
    → (encoded : List ℕ) × (encode x true ≡ ok encoded)
      × (length encoded ≤ length r.bytes)
      × (span.1 ≡ add64 span.0 (length encoded))
      × (span.0 ≡ next_start r (length encoded))
      × (r' ≡ after_write r x encoded)
unfolding write_record
write_record-ok r x h =
    let (encoded, e, h') = >>=-eq-ok (map_err wire (encode x true)) _ h in
    let n = length encoded in
    let too_long = record_exceeds_capacity n (length r.bytes) in
    let (_, fits, h'') = >>=-eq-ok (ensure (leb n (length r.bytes)) too_long) _ h' in
    let small = ensure-eq-ok _ too_long fits in
    (encoded, map_err-eq-ok wire _ e, ground arith, ground arith, ground arith, cc)

-- The write kept the ring valid, with the new record last and the oldest records dropped.
pub record Wrote (r : RingBuffer) (xs : List Record) (x : Record) (span : ℕ × ℕ) (r' : RingBuffer)
    : Type 0 where
  pub dropped : List Record
  pub kept : List Record
  pub split : xs ≡ dropped ++ kept
  pub valid : IsValid r' (kept ++ x ∷ [])
  pub lost : r'.lost_count ≡ add64 r.lost_count (length dropped)
  pub head_at : r'.head_abs ≡ span.1
  pub same_pool : length r'.bytes ≡ length r.bytes

mark_wrap-eq :
    (r : RingBuffer) (start : ℕ)
    → mark_wrap r start (r.head_abs % length r.bytes) ≡ record r {
      bytes = marked_bytes r.bytes r.head_abs start;
      wraps = if start == r.head_abs then r.wraps else add64 r.wraps 1;
    }
unfolding mark_wrap marked_bytes
mark_wrap-eq r start = elim (Bool-cases (start == r.head_abs)) [ inl e ↦ rw e | inr e ↦ rw e ]

-- The new ring's fields, with the eviction loop's result named.
abbrev pub ring_after : RingBuffer → Record → List ℕ → ℕ → ℕ → RingBuffer
ring_after r x encoded start end =
    let (index, ranges, m) = evict_loop (end - length r.bytes) r.index r.producer_loss_ranges 0 in
    let marked = marked_bytes r.bytes r.head_abs start in
    record {
      bytes = write_at marked (start % length marked) encoded;
      head_abs = end;
      oldest_abs = first_start index start;
      lost_count = add64 r.lost_count m;
      wraps = if start == r.head_abs then r.wraps else add64 r.wraps 1;
      index =
          index
          ++ record {
            start_abs = start;
            end_abs = end;
            run_id = x.run_id;
            source_id = x.source_id;
            seq = x.seq;
          }
            ∷ [];
      producer_loss_ranges = ranges;
    }

pub after_write-eq :
    (r : RingBuffer) (x : Record) (encoded : List ℕ)
    → let start = next_start r (length encoded) in
      after_write r x encoded ≡ ring_after r x encoded start (add64 start (length encoded))
unfolding append_record evict_before_clobber
after_write-eq r x encoded =
    let start = next_start r (length encoded) in
    let end = add64 start (length encoded) in
    ap (λ (m : RingBuffer). append_record m start end encoded x)
      (mark_wrap-eq (evict_before_clobber r end start) start)

ring_after-Wrote :
    (r : RingBuffer) (xs : List Record) (x : Record) (encoded : List ℕ) (start : ℕ)
    → IsValid r xs
    → IsRecord x
    → 0 < length encoded
    → encode x true ≡ ok encoded
    → length encoded ≤ length r.bytes
    → Placed (length r.bytes) r.head_abs start
    → start % length r.bytes + length encoded ≤ length r.bytes
    → let end = start + length encoded in
      Wrote r xs x (start, end) (ring_after r x encoded start end)
unfolding new_index
ring_after-Wrote r xs x encoded start v is_record some_bytes is_encoded fits placed in_pool =
    let pool = length r.bytes in
    let end = start + length encoded in
    let floor = end - pool in
    let e =
      evict_loop-Evicted r.bytes pool floor r.oldest_abs r.index xs r.head_abs
        r.producer_loss_ranges 0 v.stored in
    let index = (evict_loop floor r.index r.producer_loss_ranges 0).0 in
    let marked =
      length-marked_bytes r.bytes pool r.head_abs start x encoded refl v.pool some_bytes in_pool
        is_encoded is_record placed in
    let (stored, lo, hi) =
      Stored-kept r.bytes pool r.head_abs start x encoded refl v.pool some_bytes in_pool is_encoded
        is_record placed index e.kept floor (omega arith) e.still e.above in
    let size : length (write_at (marked_bytes r.bytes r.head_abs start) (start % pool) encoded)
        ≡ pool =
      length-write_at (marked_bytes r.bytes r.head_abs start) (start % pool) encoded (omega arith)
      ∙ marked in
    let counted = e.counted in
    record {
      dropped = e.dropped;
      kept = e.kept;
      split = e.split;
      valid = rw marked (record {
        pool = rw size v.pool;
        oldest_le_head = lo;
        window = rw size hi;
        stored = rw size stored;
      });
      lost = ap (add64 r.lost_count) (omega arith);
      head_at = refl;
      same_pool = rw marked size;
    }

-- A record that a valid ring takes is retained after those that were, of which only the oldest are
-- dropped and counted; the ring stays valid, also as the pool wraps, the head is the end of the
-- record's span and the pool keeps its size. The fields of the record fit their widths, and the
-- head, with two laps, is below 2^64.
pub write_record-Wrote :
    (r : RingBuffer) (xs : List Record) (x : Record) {span : ℕ × ℕ} {r' : RingBuffer}
    → IsValid r xs
    → IsRecord x
    → r.head_abs + 2 * length r.bytes < 2 ^ 64
    → write_record r x ≡ ok (span, r')
    → Wrote r xs x span r'
write_record-Wrote r xs x {span} {r'} v is_record room h =
    let (encoded, is_encoded, fits, end_at, start_at, same) = write_record-ok r x h in
    let n = length encoded in
    let some_bytes : 0 < n = omega (arith, length-encode x true is_encoded) in
    let (placed, in_pool) = next_start-Placed r n v.pool fits (omega arith) in
    let near : next_start r n ≤ r.head_abs + length r.bytes = Placed-near placed in
    let end : add64 (next_start r n) n ≡ next_start r n + n = mod-eq_of_lt (omega arith) in
    let span_at : span ≡ (next_start r n, next_start r n + n) =
      λ i. (start_at i, (end_at ∙ ap (λ (s : ℕ). add64 s n) start_at ∙ end) i) in
    rw (span_at, same, after_write-eq r x encoded, end)
      (ring_after-Wrote r xs x encoded (next_start r n) v is_record some_bytes is_encoded fits
        placed in_pool)
