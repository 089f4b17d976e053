-- ===== src/Concurrent/Order.antt =====
-- crates/carriage/src/concurrent.rs: an append's stores are in the order that readers rely on.
use open_ot_experiments.Prelude.{
  ℕ, ◌+◌, ◌-◌, ◌*◌, ◌%◌, ◌^◌, ◌≤◌, ◌<◌, ◌≡◌, inl, inr, refl, ◌∙◌, sym, List, [], ◌∷◌, ◌++◌, arith,
  length, ltb, ◌==◌, add64, Bool-cases, append_assoc,
}
use native.Mathlib.Nat.{mod-eq_of_lt, mod-add-mod}
use open_ot_experiments.Wire.{Record}
use open_ot_experiments.Ring.{evict_loop, first_start, next_start, record_producer_loss}
use open_ot_experiments.Ring.Types.{RecordIndex, RingBuffer, LossRange}
use open_ot_experiments.Ring.Stored.{Stored, Follows-le, IsValid}
use open_ot_experiments.Ring.Place.{next_start-Placed, Placed-le, Placed-near}
use open_ot_experiments.Concurrent.{
  StoreOp, count_lost, mark_wrap, store_bytes, append_bytes_core, store_head_release,
  end_control_update_release, store_oldest_relaxed, release_before_clobber,
}
use open_ot_experiments.Concurrent.Publish.{producer_of, append_bytes_core_at, write_ops}
use open_ot_experiments.Concurrent.Stable.{InOrder}

-- What eviction keeps starts no earlier than what was retained.
evict_loop-le :
    (bytes : List ℕ) (pool floor p : ℕ) (index : List RecordIndex) (xs : List Record)
    (head otherwise : ℕ) (ranges : List LossRange) (n : ℕ)
    → Stored bytes pool p index xs head
    → head ≤ otherwise
    → p ≤ first_start (evict_loop floor index ranges n).0 otherwise
unfolding evict_loop
evict_loop-le bytes pool floor p [] [] head otherwise ranges n h le = omega arith
evict_loop-le bytes pool floor p [] (x ∷ xs) head otherwise ranges n h le = absurd h
evict_loop-le bytes pool floor p (i ∷ index) [] head otherwise ranges n h le = absurd h
evict_loop-le bytes pool floor p (i ∷ index) (x ∷ xs) head otherwise ranges n (f, s, h) le =
    elim (Bool-cases (ltb i.start_abs floor)) [
      | inl old ↦
          let later = record_producer_loss ranges i.run_id i.source_id i.seq in
          let rest =
            evict_loop-le bytes pool floor i.end_abs index xs head otherwise later (n + 1) h le in
          let span = s.span in let start = Follows-le f in rw old (omega (arith, rest, span, start))
      | inr young ↦ rw young (Follows-le f)
    ]

count_lost-InOrder :
    (pool oldest head evicted : ℕ) (ops : List StoreOp)
    → InOrder pool oldest head ops
    → InOrder pool oldest head (count_lost evicted ++ ops)
unfolding count_lost
count_lost-InOrder pool oldest head evicted ops h = elim (Bool-cases (evicted == 0)) [
  | inl t ↦ rw t h
  | inr f ↦ rw f h
]

-- The bytes of a record that starts at `base`, from the one at `base + k` on.
store_bytes-InOrder :
    (pool oldest head base : ℕ) (ops : List StoreOp) (bytes : List ℕ) (phys k : ℕ)
    → head ≤ base
    → base + k + length bytes ≤ oldest + pool
    → base % pool + k + length bytes ≤ pool
    → phys ≡ base % pool + k
    → InOrder pool oldest head ops
    → InOrder pool oldest head (store_bytes phys bytes ++ ops)
unfolding store_bytes
store_bytes-InOrder pool oldest head base ops [] phys k after near in_pool e h = h
store_bytes-InOrder pool oldest head base ops (b ∷ bytes) phys k after near in_pool e h = (
  (
    base + k,
    e ∙ sym (mod-eq_of_lt (omega arith)) ∙ mod-add-mod base pool k,
    omega arith,
    omega arith,
  ),
  store_bytes-InOrder pool oldest head base ops bytes (phys + 1) (k + 1) after (omega arith)
      (omega arith) (omega arith) h,
)

mark_wrap-InOrder :
    (r : RingBuffer) (oldest start : ℕ) (ops : List StoreOp)
    → start ≤ oldest + length r.bytes
    → r.head_abs ≤ start
    → InOrder (length r.bytes) oldest r.head_abs ops
    → InOrder
        (length r.bytes)
        oldest
        r.head_abs
        (mark_wrap (producer_of r) start (r.head_abs % length r.bytes) ++ ops)
unfolding mark_wrap
mark_wrap-InOrder r oldest start ops near le h = elim (Bool-cases (start == r.head_abs)) [
  | inl t ↦ rw t h
  | inr f ↦ rw f ((r.head_abs, refl, omega arith, ground arith), h)
]

-- The append of `encoded`, behind which the window is no longer than the pool.
pub append_bytes_core-InOrder :
    (r : RingBuffer) (xs : List Record) (encoded : List ℕ)
    → IsValid r xs
    → length encoded ≤ length r.bytes
    → r.head_abs + 2 * length r.bytes < 2 ^ 64
    → let start = next_start r (length encoded) in
      let end = add64 start (length encoded) in
      let (index, _, _) = evict_loop (end - length r.bytes) r.index r.producer_loss_ranges 0 in
      end ≤ first_start index start + length r.bytes
      → InOrder
          (length r.bytes)
          r.oldest_abs
          r.head_abs
          (append_bytes_core (length r.bytes) (producer_of r) encoded).1
append_bytes_core-InOrder r xs encoded v fits room window =
    let n = length encoded in
    let pool = length r.bytes in
    let start = next_start r n in
    let (placed, in_pool) = next_start-Placed r n v.pool fits (omega arith) in
    let le = Placed-le placed in
    let near = Placed-near placed in
    let end : add64 start n ≡ start + n = mod-eq_of_lt (omega arith) in
    let floor = add64 start n - pool in
    let (index, _, m) = evict_loop floor r.index r.producer_loss_ranges 0 in
    let oldest = first_start index start in
    let older =
      evict_loop-le r.bytes pool floor r.oldest_abs r.index xs r.head_abs start
        r.producer_loss_ranges 0 v.stored le in
    let publish = store_head_release (add64 start n) ∷ end_control_update_release ∷ [] in
    let moved = store_oldest_relaxed oldest ∷ release_before_clobber ∷ [] in
    let writes = write_ops r encoded start (add64 start n) in
    rw (append_bytes_core_at r encoded, append_assoc (count_lost m) moved writes)
      (count_lost-InOrder pool r.oldest_abs r.head_abs m (moved ++ writes) (
        older,
        mark_wrap-InOrder r oldest start _ (omega arith) le (
            store_bytes-InOrder pool oldest r.head_abs start publish encoded (start % pool) 0 le
              (omega arith) (omega arith) (omega arith) (omega arith, tt)),
      ))
