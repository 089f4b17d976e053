-- ===== src/Shm/Publish.antt =====
-- crates/open-ot-shm/src/lib.rs: `SharedRecordPublisher::append_record` against the ring buffer.
use open_ot_experiments.Prelude.{
  ℕ, ◌+◌, ◌-◌, ◌*◌, ◌%◌, ◌^◌, ◌≤◌, ◌<◌, ◌≡◌, inl, inr, ap, ◌∙◌, sym, List, [], ◌∷◌, ◌++◌, arith,
  length, add64, ok, ok-injective, ◌==◌, Bool-cases,
}
use native.Mathlib.Nat.{mod-lt}
use open_ot_experiments.Wire.{Record}
use open_ot_experiments.Wire.Layout.{IsRecord}
use open_ot_experiments.Ring
use open_ot_experiments.Ring.{evict_loop, first_start, next_start}
use open_ot_experiments.Ring.Types.{RingBuffer}
use open_ot_experiments.Ring.Stored.{IsValid}
use open_ot_experiments.Ring.Place.{next_start-Placed}
use open_ot_experiments.Concurrent.{
  StoreOp, apply_all, count_lost, mark_wrap, store_bytes, append_bytes_core, write_record,
  store_oldest_relaxed, release_before_clobber, store_head_release, end_control_update_release,
}
use open_ot_experiments.Concurrent.Publish.{
  shared, producer_of, append_bytes_core_at, evict_ops, write_ops, write_record-eq-Ring,
}
use open_ot_experiments.Concurrent.Invariant.{write_record-appends}
use open_ot_experiments.Shm.{data_offset, apply_shared_all}
use open_ot_experiments.Shm.View.{view, OpsFit, view-apply_shared_all}

OpsFit-append :
    (cap : ℕ) (ops later : List StoreOp)
    → OpsFit cap ops
    → OpsFit cap later
    → OpsFit cap (ops ++ later)
OpsFit-append cap [] later h k = k
OpsFit-append cap (op ∷ ops) later (p, h) k = (p, OpsFit-append cap ops later h k)

count_lost-OpsFit : (cap n : ℕ) → OpsFit cap (count_lost n)
unfolding count_lost
count_lost-OpsFit cap n = elim (Bool-cases (n == 0)) [ inl t ↦ rw t tt | inr f ↦ rw f (tt, tt) ]

mark_wrap-OpsFit :
    (r : RingBuffer) (start phys : ℕ)
    → phys < length r.bytes
    → OpsFit (length r.bytes) (mark_wrap (producer_of r) start phys)
unfolding mark_wrap
mark_wrap-OpsFit r start phys h = elim (Bool-cases (start == r.head_abs)) [
  | inl t ↦ rw t tt
  | inr f ↦ rw f (h, tt)
]

store_bytes-OpsFit :
    (cap phys : ℕ) (bytes : List ℕ)
    → phys + length bytes ≤ cap
    → OpsFit cap (store_bytes phys bytes)
unfolding store_bytes
store_bytes-OpsFit cap phys [] h = tt
store_bytes-OpsFit cap phys (b ∷ bytes) h =
    (omega arith, store_bytes-OpsFit cap (phys + 1) bytes (omega arith))

append_bytes_core-OpsFit :
    (r : RingBuffer) (encoded : List ℕ)
    → 0 < length r.bytes
    → length encoded ≤ length r.bytes
    → r.head_abs + length r.bytes < 2 ^ 64
    → (let start = next_start r (length encoded) in
        let end = add64 start (length encoded) in
        let (index, _, _) = evict_loop (end - length r.bytes) r.index r.producer_loss_ranges 0 in
        first_start index start ≤ end)
    → OpsFit (length r.bytes) (append_bytes_core (length r.bytes) (producer_of r) encoded).1
append_bytes_core-OpsFit r encoded pos fits room below =
    let cap = length r.bytes in
    let start = next_start r (length encoded) in
    let end = add64 start (length encoded) in
    let (index, _, m) = evict_loop (end - cap) r.index r.producer_loss_ranges 0 in
    let oldest = first_start index start in
    let (placed, in_pool) = next_start-Placed r (length encoded) pos fits room in
    let small : end < 2 ^ 64 = omega arith in
    rw (append_bytes_core_at r encoded) (
      tt,
      OpsFit-append cap (evict_ops m oldest) (write_ops r encoded start end)
          (OpsFit-append cap (count_lost m)
            (store_oldest_relaxed oldest ∷ release_before_clobber ∷ []) (count_lost-OpsFit cap m)
            (omega arith, (tt, tt)))
          (OpsFit-append cap (mark_wrap (producer_of r) start (r.head_abs % cap)) _
            (mark_wrap-OpsFit r start (r.head_abs % cap) (mod-lt r.head_abs pos))
            (OpsFit-append cap (store_bytes (start % cap) encoded)
              (store_head_release end ∷ end_control_update_release ∷ [])
              (store_bytes-OpsFit cap (start % cap) encoded in_pool) (small, (tt, tt)))),
    )

-- A record that is appended through shared memory leaves there the ring that a ring buffer in the
-- same state would be: its bytes, offsets and loss count, for every record that the ring buffer
-- takes. The ring buffer is valid, the record's fields fit their widths, the head, with two laps,
-- and the loss count are below 2^64, and the mapping stands for the ring and has its size.
pub write_record-shared :
    (region : List ℕ) (r : RingBuffer) (xs : List Record) (x : Record) {span : ℕ × ℕ}
    {r' : RingBuffer}
    → length region ≡ data_offset + length r.bytes
    → view (length r.bytes) region ≡ shared r
    → IsValid r xs
    → IsRecord x
    → r.head_abs + 2 * length r.bytes < 2 ^ 64
    → r.lost_count < 2 ^ 64
    → Ring.write_record r x ≡ ok (span, r')
    → (ops : List StoreOp) × (write_record (length r.bytes) (producer_of r) x
        ≡ ok (producer_of r', ops))
      × (view (length r.bytes) (apply_shared_all region ops) ≡ shared r')
write_record-shared region r xs x {span} {r'} size same v is_record room lost wrote =
    elim (write_record-eq-Ring r x v.pool (omega arith) lost) [
      | inl (e, bad, _) ↦ (let no = sym bad ∙ wrote in cc)
      | inr (span', r'', ops, wrote', stored, leads) ↦
          let (encoded, fits, appended, _, below) =
            write_record-appends r xs x v is_record room wrote in
          let ring_at : r'' ≡ r' = ap (λ q. q.1) (ok-injective (sym wrote' ∙ wrote)) in
          let ops_at : ops ≡ (append_bytes_core (length r.bytes) (producer_of r) encoded).1 =
            ap (λ q. q.1) (ok-injective (sym stored ∙ appended)) in
          let fit = append_bytes_core-OpsFit r encoded v.pool fits (omega arith) below in
          let stored_all : view (length r.bytes) (apply_shared_all region ops) ≡ shared r'' =
            view-apply_shared_all (length r.bytes) region ops size (rw ops_at fit)
            ∙ ap (λ m. apply_all m ops) same
            ∙ leads in
          (
            ops,
            stored ∙ ap (λ (q : RingBuffer). ok (producer_of q, ops)) ring_at,
            stored_all ∙ ap shared ring_at,
          )
    ]
