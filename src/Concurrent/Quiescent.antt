-- ===== src/Concurrent/Quiescent.antt =====
-- crates/carriage/src/concurrent.rs: a reader that no store interrupts.
use open_ot_experiments.Prelude.{
  ℕ, zero, suc, ◌+◌, ◌-◌, ◌%◌, ◌^◌, ◌≤◌, ◌<◌, ◌≡◌, inl, inr, refl, ap, ◌∙◌, sym, List, ◌∷◌, true,
  false, arith, length, get_or, slice, slice-take, ok, err, stuck, ◌>>=◌, leb, ltb, ◌==◌,
  from_le_bytes, if◌then◌else◌, Bool-cases, add64, Outcome-cases, ==_refl,
}
use open_ot_experiments.Wire.{has_sync, header_len, decode}
use open_ot_experiments.Wire.Total.{decode-ne-stuck}
use open_ot_experiments.Ring.{read_raw_record, read_raw_loop, read_raw_window, read_raw_from}
use open_ot_experiments.Ring.Types.{ReadRecord, ReadBatch, RingBuffer, RingResult}
use open_ot_experiments.Ring.Window.{read_raw_record-ne-stuck}
use open_ot_experiments.Concurrent.{ConcurrentRing}
use open_ot_experiments.Concurrent.Publish.{shared}
use open_ot_experiments.Concurrent.Loads.{load_bytes-eq}
use open_ot_experiments.Concurrent.Walk.{
  owned, owned_snapshot, capacity_u32, load_bytes, load_record, read_loop, read_raw_from_store,
}

load_bytes-quiescent :
    (m : ConcurrentRing) (at phys n : ℕ)
    → phys + n ≤ length m.bytes
    → load_bytes (owned (λ _. m)) at phys n ≡ slice m.bytes phys (phys + n)
load_bytes-quiescent m at phys n h =
    load_bytes-eq (λ _. m) m.bytes at phys n h (λ k lt. refl) ∙ sym (slice-take m.bytes phys n)

load_record-quiescent :
    (m : ConcurrentRing) (at abs : ℕ)
    → ltb abs m.oldest_abs ≡ false
    → load_record (owned (λ _. m)) at abs
      ≡ (read_raw_record m.bytes abs >>= λ (d, n). ok (d, n, at + 6 + n + 1))
unfolding load_record read_raw_record owned
load_record-quiescent m at abs fresh =
    let cap = length m.bytes in
    let phys = abs % cap in
    elim (Bool-cases (leb (phys + header_len) cap)) [
      | inr f ↦ rw f refl
      | inl t ↦
          let sync_at = load_bytes-quiescent m at phys 4 (ground arith) in
          let len_at = load_bytes-quiescent m (at + 4) (phys + 4) 2 (ground arith) in
          rw (t, sync_at, len_at)
            (elim (Bool-cases (has_sync (slice m.bytes phys (phys + 4)))) [
              | inr f ↦ rw f refl
              | inl t1 ↦
                  let n = from_le_bytes (slice m.bytes (phys + 4) (phys + 4 + 2)) in
                  rw t1 (elim (Bool-cases (leb header_len n)) [
                    | inr f ↦ rw f refl
                    | inl t2 ↦ rw t2 (elim (Bool-cases (leb (phys + n) cap)) [
                      | inr f ↦ rw f refl
                      | inl t3 ↦
                          let all = load_bytes-quiescent m (at + 6) phys n (ground arith) in
                          let value = slice m.bytes phys (phys + n) in
                          rw (t3, all, fresh)
                            (elim (Outcome-cases (decode value) (decode-ne-stuck value)) [
                              | inl (e, bad) ↦ rw bad refl
                              | inr (d, good) ↦ rw good refl
                            ])
                    ])
                  ])
            ])
    ]

-- A result without the count that the loops hand on.
abbrev forget : RingResult (List ReadRecord × ℕ) → RingResult (List ReadRecord)
forget (ok (records, n)) = ok records
forget (err e) = err e
forget stuck = stuck

abbrev in_front : ReadRecord → RingResult (List ReadRecord) → RingResult (List ReadRecord)
in_front r (ok records) = ok (r ∷ records)
in_front r (err e) = err e
in_front r stuck = stuck

forget-in_front :
    (r : ReadRecord) (m : RingResult (List ReadRecord × ℕ))
    → forget (m >>= λ (records, n). ok (r ∷ records, n)) ≡ in_front r (forget m)
forget-in_front r (ok (records, n)) = refl
forget-in_front r (err e) = refl
forget-in_front r stuck = refl

-- Without stores, the loop does what the raw walk of a ring buffer does.
read_loop-quiescent :
    (m : ConcurrentRing) (head : ℕ) (fuel at calls abs : ℕ)
    → forget (read_loop fuel (owned (λ _. m)) head m.oldest_abs at abs)
      ≡ forget (read_raw_loop fuel m.bytes head m.oldest_abs (λ _. m.oldest_abs) calls abs)
unfolding read_loop read_raw_loop owned
read_loop-quiescent m head zero at calls abs = elim (Bool-cases (ltb abs head)) [
  | inl t ↦ rw t refl
  | inr f ↦ rw f refl
]
read_loop-quiescent m head (suc fuel) at calls abs = elim (Bool-cases (ltb abs head)) [
  | inr f ↦ rw f refl
  | inl t ↦ elim (Bool-cases (ltb abs m.oldest_abs)) [
    | inl t1 ↦ rw (t, t1) refl
    | inr fresh ↦
        let phys = abs % length m.bytes in
        elim (Bool-cases (get_or m.bytes phys 0 == 0)) [
          | inl t2 ↦ elim (Bool-cases (phys == 0)) [
            | inl t3 ↦ rw (t, fresh, t2, t3) refl
            | inr f3 ↦
                rw (t, fresh, t2, f3)
                  (read_loop-quiescent m head fuel (at + 1) calls
                    (add64 abs (length m.bytes - phys)))
          ]
          | inr f2 ↦
              rw (t, fresh, f2, load_record-quiescent m (at + 1) abs fresh)
                (elim (Outcome-cases (read_raw_record m.bytes abs)
                  (read_raw_record-ne-stuck m.bytes abs)) [
                    | inl (e, bad) ↦ rw bad refl
                    | inr ((d, n), good) ↦ rw good (
                        forget-in_front _ _
                        ∙ ap (in_front _) (
                            read_loop-quiescent m head fuel (at + 1 + 6 + n + 1) (calls + 1)
                              (add64 abs n))
                        ∙ sym (forget-in_front _ _))
                  ])
        ]
  ]
]

forget-batch :
    (f : List ReadRecord → ReadBatch) (m : RingResult (List ReadRecord × ℕ))
    → (m >>= λ (records, n). ok (f records)) ≡ (forget m >>= λ records. ok (f records))
forget-batch f (ok (records, n)) = refl
forget-batch f (err e) = refl
forget-batch f stuck = refl

-- A read during which the producer stores nothing has the outcome of the raw walk of a ring buffer
-- in the same state, whatever the bytes: the same batch or the same error. The pool is smaller
-- than 2^32 bytes.
pub read_raw_from_store-eq-read_raw_from :
    (r : RingBuffer) (cursor : ℕ)
    → length r.bytes < 2 ^ 32
    → read_raw_from_store (owned (λ _. shared r)) cursor ≡ read_raw_from r cursor
unfolding read_raw_from_store owned owned_snapshot read_raw_from read_raw_window
read_raw_from_store-eq-read_raw_from r cursor small =
    let o = r.oldest_abs in
    let abs = if ltb cursor o then o else cursor in
    let batch : List ReadRecord → ReadBatch =
      λ records. record { records = records; next_abs = r.head_abs; lapped = ltb cursor o } in
    let a : (capacity_u32 (length r.bytes) == length r.bytes) ≡ true = ground arith in
    rw (a, ==_refl o)
      (forget-batch batch _
        ∙ ap (λ q. q >>= λ records. ok (batch records))
            (read_loop-quiescent (shared r) r.head_abs (r.head_abs - abs) 3 0 abs)
        ∙ sym (forget-batch batch _))
