-- ===== src/Concurrent/Poll.antt =====
-- crates/carriage/src/concurrent.rs: a poll ends, and never moves its cursor back.
use open_ot_experiments.Prelude.{
  ℕ, zero, suc, ◌+◌, ◌-◌, ◌%◌, ◌^◌, ◌≤◌, ◌<◌, ◌≡◌, ◌≢◌, inl, inr, refl, ap, sym, List, ◌∷◌, arith,
  length, get_or, ok, err, stuck, ◌>>=◌, >>=-eq-err, >>=-eq-stuck, ltb, ◌==◌, from_le_bytes,
  if◌then◌else◌, Bool-cases, add64, ltb→lt, ok-injective,
}
use native.Mathlib.Nat.{mod-lt, mod-eq_of_lt}
use open_ot_experiments.Wire.{DecodedRecord}
use open_ot_experiments.Wire.Total.{decode-ne-stuck}
use open_ot_experiments.Ring.Types.{
  ReadRecord, ReadBatch, RingResult, overwritten_mid_read, control_block, wire,
  record_crosses_boundary, record_exceeds_capacity, encoded_record_length_mismatch,
  encoded_record_missing_crc, control_block_capacity_mismatch, captured_capacity_zero,
  invalid_captured_window, unexpected_wrap_marker,
}
use open_ot_experiments.Concurrent.{ConcurrentRing}
use open_ot_experiments.Concurrent.Walk.{
  ConcurrentRawConsumer, owned, owned_snapshot, load_bytes, load_record, read_loop,
  read_raw_from_store, settle, poll,
}

load_record-ne-stuck :
    (ring : ℕ → ConcurrentRing) (at abs : ℕ) → load_record (owned ring) at abs ≢ stuck
unfolding load_record owned
load_record-ne-stuck ring at abs h =
    let phys = abs % length (ring 0).bytes in
    let n = from_le_bytes (load_bytes (owned ring) (at + 4) (phys + 4) 2) in
    ground (arith, decode-ne-stuck (load_bytes (owned ring) (at + 6) phys n))

load_record_len :
    (ring : ℕ → ConcurrentRing) (at abs : ℕ) {d : DecodedRecord} {n next : ℕ}
    → load_record (owned ring) at abs ≡ ok (d, n, next)
    → (0 < n) × (n ≤ length (ring 0).bytes)
unfolding load_record owned
load_record_len ring at abs h = ground arith

load_record_overwritten :
    (ring : ℕ → ConcurrentRing) (at abs : ℕ) {a o : ℕ}
    → load_record (owned ring) at abs ≡ err (overwritten_mid_read a o)
    → (a ≡ abs) × (abs < o)
unfolding load_record owned
load_record_overwritten ring at abs h = ground arith

module _ (ring : ℕ → ConcurrentRing) (head first : ℕ) (pos : 0 < length (ring 0).bytes)
    (small : head + length (ring 0).bytes < 2 ^ 64) where
  abbrev pool : ℕ
  pool = length (ring 0).bytes

  abbrev walk : ℕ → ℕ → ℕ → RingResult (List ReadRecord × ℕ)
  walk fuel at abs = read_loop fuel (owned ring) head first at abs

  -- The branch of the loop that delivers.
  abbrev deliver : ℕ → ℕ → ℕ → RingResult (List ReadRecord × ℕ)
  deliver fuel at abs = do
    (d, n, next) ← load_record (owned ring) (at + 1) abs
    (records, last) ← walk fuel next (add64 abs n)
    ok (
      record { start_abs = abs; end_abs = add64 abs d.consumed; value = d.decoded } ∷ records,
      last,
    )

  deliver-ne-stuck :
      (fuel at abs : ℕ)
      → abs < head
      → ((at' next : ℕ) → abs < next → walk fuel at' next ≢ stuck)
      → deliver fuel at abs ≢ stuck
  deliver-ne-stuck fuel at abs inside later h =
      elim (>>=-eq-stuck (load_record (owned ring) (at + 1) abs) _ h) [
        | inl e ↦ load_record-ne-stuck ring (at + 1) abs e
        | inr ((d, n, next), e, h1) ↦
            let (some_, fits) = load_record_len ring (at + 1) abs e in
            let moved : add64 abs n ≡ abs + n = mod-eq_of_lt (omega arith) in
            elim (>>=-eq-stuck (walk fuel next (add64 abs n)) _ h1) [
              | inl e' ↦ later next (abs + n) (omega arith) (rw moved at e')
              | inr (_, _, bad) ↦ cc
            ]
      ]

  read_loop-ne-stuck : (fuel at abs : ℕ) → head ≤ abs + fuel → walk fuel at abs ≢ stuck
  unfolding read_loop owned
  read_loop-ne-stuck zero at abs h e = ground arith
  read_loop-ne-stuck (suc fuel) at abs h e =
      let phys = abs % pool in
      let below = mod-lt abs pos in
      let skip = add64 abs (pool - phys) in
      let deliver_on = λ (inside : abs < head).
        deliver-ne-stuck fuel at abs inside
          (λ at' next forward. read_loop-ne-stuck fuel at' next (omega arith)) in
      elim (Bool-cases (ltb abs head)) [
        | inr done ↦ let bad = rw done at e in cc
        | inl more ↦
            let inside = ltb→lt abs head more in
            let next : skip ≡ abs + (pool - phys) = mod-eq_of_lt (omega arith) in
            ground (arith, deliver_on inside, read_loop-ne-stuck fuel (at + 1) skip (omega arith))
      ]

  -- The position of an overwrite is not before the walk's start, and the oldest byte is behind it.
  read_loop_overwritten :
      (fuel at abs : ℕ) {a o : ℕ}
      → walk fuel at abs ≡ err (overwritten_mid_read a o)
      → (abs ≤ a) × (a < o)
  unfolding read_loop owned
  read_loop_overwritten zero at abs h = ground arith
  read_loop_overwritten (suc fuel) at abs h =
      let phys = abs % pool in
      let below = mod-lt abs pos in
      elim (Bool-cases (ltb abs head)) [
        | inr done ↦ let bad = rw done at h in cc
        | inl more ↦
            let inside = ltb→lt abs head more in
            let h1 = rw more at h in
            elim (Bool-cases (ltb abs first)) [
              | inl old ↦ let h2 = rw old at h1 in ground arith
              | inr fresh ↦
                  let h2 = rw fresh at h1 in
                  elim (Bool-cases (get_or (ring at).bytes phys 0 == 0)) [
                    | inl marker ↦
                        let h3 = rw marker at h2 in
                        elim (Bool-cases (phys == 0)) [
                          | inl front ↦ let bad = rw front at h3 in ground arith
                          | inr inner ↦
                              let next : add64 abs (pool - phys) ≡ abs + (pool - phys) =
                                mod-eq_of_lt (omega arith) in
                              let (lo, hi) =
                                read_loop_overwritten fuel (at + 1) _ (rw inner at h3) in
                              (omega arith, hi)
                        ]
                    | inr sync ↦
                        let h3 = rw sync at h2 in
                        elim (>>=-eq-err (load_record (owned ring) (at + 1) abs) _ h3) [
                          | inl e ↦
                              let (here, lt) = load_record_overwritten ring (at + 1) abs e in
                              (omega arith, omega arith)
                          | inr ((d, n, next), e, h4) ↦
                              let (some_, fits) = load_record_len ring (at + 1) abs e in
                              let moved : add64 abs n ≡ abs + n = mod-eq_of_lt (omega arith) in
                              elim (>>=-eq-err (walk fuel next (add64 abs n)) _ h4) [
                                | inl e' ↦
                                    let (lo, hi) = read_loop_overwritten fuel next _ e' in
                                    (omega arith, hi)
                                | inr (_, _, bad) ↦ cc
                              ]
                        ]
                  ]
            ]
      ]

-- What holds of a poll, from the result of its read.
abbrev pub Advances : ConcurrentRawConsumer → RingResult ReadBatch × ConcurrentRawConsumer → Type 0
Advances c (result, c') =
    (result ≢ stuck)
    × (c.cursor_abs ≤ c'.cursor_abs)
    × ((b : ReadBatch) → result ≡ ok b → b.next_abs ≡ c'.cursor_abs)

settle-Advances :
    (c : ConcurrentRawConsumer) (r : RingResult ReadBatch) (oldest : ℕ)
    → r ≢ stuck
    → ((b : ReadBatch) → r ≡ ok b → c.cursor_abs ≤ b.next_abs)
    → ((a o : ℕ) → r ≡ err (overwritten_mid_read a o) → c.cursor_abs ≤ o)
    → Advances c (settle c r oldest)
unfolding settle
settle-Advances c (ok b) oldest s f g =
    ((λ e. cc), f b refl, λ b' e. ap (λ (q : ReadBatch). q.next_abs) (sym (ok-injective e)))
settle-Advances c (err (overwritten_mid_read a o)) oldest s f g =
    ((λ e. cc), g a o refl, λ b e. ap (λ (q : ReadBatch). q.next_abs) (sym (ok-injective e)))
settle-Advances c (err (control_block e)) oldest s f g =
    ((λ e. cc), omega arith, λ b e. ap (λ (q : ReadBatch). q.next_abs) (sym (ok-injective e)))
settle-Advances c (err (wire e)) oldest s f g = elim (Bool-cases (ltb c.cursor_abs oldest)) [
  | inl t ↦
      rw t
        ((λ e. cc), ground arith, λ b e. ap (λ (q : ReadBatch). q.next_abs) (sym (ok-injective e)))
  | inr stay ↦ rw stay ((λ e. cc), omega arith, λ b e. cc)
]
settle-Advances c (err (record_crosses_boundary a)) oldest s f g =
    ((λ e. cc), omega arith, λ b e. cc)
settle-Advances c (err (record_exceeds_capacity a b)) oldest s f g =
    ((λ e. cc), omega arith, λ b e. cc)
settle-Advances c (err (encoded_record_length_mismatch a b)) oldest s f g =
    ((λ e. cc), omega arith, λ b e. cc)
settle-Advances c (err (encoded_record_missing_crc a)) oldest s f g =
    ((λ e. cc), omega arith, λ b e. cc)
settle-Advances c (err (control_block_capacity_mismatch a b)) oldest s f g =
    ((λ e. cc), omega arith, λ b e. cc)
settle-Advances c (err captured_capacity_zero) oldest s f g = ((λ e. cc), omega arith, λ b e. cc)
settle-Advances c (err (invalid_captured_window a b d)) oldest s f g =
    ((λ e. cc), omega arith, λ b e. cc)
settle-Advances c (err (unexpected_wrap_marker a)) oldest s f g =
    ((λ e. cc), omega arith, λ b e. cc)
settle-Advances c stuck oldest s f g = absurd (s refl)

module _ (ring : ℕ → ConcurrentRing) (cursor : ℕ) (pos : 0 < length (ring 0).bytes)
    (small : (ring 0).head_abs + length (ring 0).bytes < 2 ^ 64) where
  abbrev head0 : ℕ
  head0 = (ring 0).head_abs

  abbrev first0 : ℕ
  first0 = (ring 1).oldest_abs

  abbrev from0 : ℕ
  from0 = if ltb cursor first0 then first0 else cursor

  -- Whatever the ring holds, and whatever the producer stores meanwhile, the read ends.
  read_raw_from_store-ne-stuck : read_raw_from_store (owned ring) cursor ≢ stuck
  unfolding read_raw_from_store owned owned_snapshot
  read_raw_from_store-ne-stuck h =
      ground (
        arith,
        read_loop-ne-stuck ring head0 first0 pos small (head0 - from0) 3 from0 (omega arith),
      )

  read_raw_from_store_next :
      (b : ReadBatch) → read_raw_from_store (owned ring) cursor ≡ ok b → b.next_abs ≡ head0
  unfolding read_raw_from_store owned owned_snapshot
  read_raw_from_store_next b h = ground arith

  read_raw_from_store_overwritten :
      (a o : ℕ)
      → read_raw_from_store (owned ring) cursor ≡ err (overwritten_mid_read a o)
      → cursor < o
  unfolding read_raw_from_store owned owned_snapshot
  read_raw_from_store_overwritten a o h = ground (
    arith,
    λ (e : read_loop (head0 - from0) (owned ring) head0 first0 3 from0
          ≡ err (overwritten_mid_read a o)).
        read_loop_overwritten ring head0 first0 pos small (head0 - from0) 3 from0 e,
  )

-- Whatever the ring holds, and whatever the producer stores meanwhile, a poll ends, with a batch
-- or an error; on every branch its cursor is not behind the one before, and a batch's next
-- position is the new cursor. The cursor is not ahead of the head that the read loads, the pool is
-- not empty, and the head, with one lap, is below 2^64.
pub poll-Advances :
    (ring : ℕ → ConcurrentRing) (c : ConcurrentRawConsumer) (oldest : ℕ)
    → 0 < length (ring 0).bytes
    → (ring 0).head_abs + length (ring 0).bytes < 2 ^ 64
    → c.cursor_abs ≤ (ring 0).head_abs
    → Advances c (poll (owned ring) c oldest)
unfolding poll
poll-Advances ring c oldest pos small le =
    settle-Advances c (read_raw_from_store (owned ring) c.cursor_abs) oldest
      (read_raw_from_store-ne-stuck ring c.cursor_abs pos small)
      (λ b e. omega (arith, read_raw_from_store_next ring c.cursor_abs pos small b e))
      (λ a o e. omega (arith, read_raw_from_store_overwritten ring c.cursor_abs pos small a o e))
