-- ===== src/Shm/Seqlock.antt =====
-- crates/open-ot-shm/src/lib.rs: a control snapshot is the control block of one instant.
use open_ot_experiments.Prelude.{
  ℕ, zero, suc, ◌+◌, ◌-◌, ◌%◌, ◌^◌, ◌≤◌, ◌<◌, ◌≡◌, ◌⊎◌, inl, inr, refl, ap, ◌∙◌, sym, true, false,
  List, arith, length, to_le_bytes, from_le_bytes, add64,
}
use open_ot_experiments.Control.{
  read_u32, read_u64, write_u32, is_even, off_seq_lock, off_head_abs, off_oldest_abs,
  off_lost_count,
}
use open_ot_experiments.Concurrent.{
  StoreOp, begin_control_update, end_control_update_release, fetch_add_lost_release,
  store_oldest_relaxed, release_before_clobber, store_byte_relaxed, store_head_release,
}
use open_ot_experiments.Shm.{data_offset, apply_shared}
use open_ot_experiments.Shm.View.{OpFits, field_kept, field_written, field_set, length-apply_shared}

abbrev pub lock : List ℕ → ℕ
lock region = read_u32 region off_seq_lock

abbrev pub IsInside : StoreOp → Type 0
IsInside begin_control_update = ⊥
IsInside end_control_update_release = ⊥
IsInside op = Unit {0}

-- What a producer may do to the mapping between two loads of a reader: it stores between the begin
-- and the end of an update only, and both add one to the lock, which does not wrap.
pub data Locked (cap : ℕ) : List ℕ → List ℕ → Type 0 where
  pause : {region : List ℕ} → Locked cap region region
  enter :
      {region : List ℕ}
      → is_even (lock region) ≡ true
      → lock region + 1 < 2 ^ 32
      → Locked cap region (apply_shared region begin_control_update)
  inside :
      {region : List ℕ} (op : StoreOp)
      → is_even (lock region) ≡ false
      → IsInside op
      → OpFits cap op
      → Locked cap region (apply_shared region op)
  leave :
      {region : List ℕ}
      → is_even (lock region) ≡ false
      → lock region + 1 < 2 ^ 32
      → Locked cap region (apply_shared region end_control_update_release)

lock-write :
    (cap : ℕ) (region : List ℕ)
    → length region ≡ data_offset + cap
    → lock region + 1 < 2 ^ 32
    → lock (write_u32 region off_seq_lock ((lock region + 1) % 2 ^ 32)) ≡ lock region + 1
lock-write cap region size small =
    field_written cap region size 4 off_seq_lock _ (omega arith) (omega arith) ∙ omega arith

lock-inside :
    (cap : ℕ) (region : List ℕ) (op : StoreOp)
    → length region ≡ data_offset + cap
    → IsInside op
    → lock (apply_shared region op) ≡ lock region
unfolding apply_shared
lock-inside cap region begin_control_update size h = absurd h
lock-inside cap region end_control_update_release size h = absurd h
lock-inside cap region (fetch_add_lost_release v) size h =
    field_kept cap region size off_lost_count
      (to_le_bytes 8 (add64 (read_u64 region off_lost_count) v)) off_seq_lock 4 (omega arith)
      (omega arith) (inl (omega arith))
lock-inside cap region (store_oldest_relaxed v) size h =
    field_kept cap region size off_oldest_abs (to_le_bytes 8 v) off_seq_lock 4 (omega arith)
      (omega arith) (inl (omega arith))
lock-inside cap region release_before_clobber size h = refl
lock-inside cap region (store_byte_relaxed phys v) size h =
    ap from_le_bytes (field_set cap region size phys v off_seq_lock 4 (omega arith))
lock-inside cap region (store_head_release v) size h =
    field_kept cap region size off_head_abs (to_le_bytes 8 v) off_seq_lock 4 (omega arith)
      (omega arith) (inl (omega arith))

-- A step from an even lock changes nothing, or moves the lock on.
Locked-lock :
    (cap : ℕ) {region region' : List ℕ}
    → length region ≡ data_offset + cap
    → Locked cap region region'
    → (length region' ≡ data_offset + cap)
      × (lock region ≤ lock region')
      × (is_even (lock region) ≡ true → (region' ≡ region) ⊎ (lock region < lock region'))
unfolding apply_shared
Locked-lock cap size pause = (size, omega arith, λ even. inl refl)
Locked-lock cap {region} size (enter even small) =
    let e = lock-write cap region size small in
    (
      length-apply_shared cap region size begin_control_update,
      omega arith,
      λ even'. inr (omega arith),
    )
Locked-lock cap {region} size (inside op odd quiet h) = (
  length-apply_shared cap region size op,
  omega (arith, lock-inside cap region op size quiet),
  λ even. (let no = sym even ∙ odd in cc),
)
Locked-lock cap {region} size (leave odd small) =
    let e = lock-write cap region size small in
    (
      length-apply_shared cap region size end_control_update_release,
      omega arith,
      λ even. (let no = sym even ∙ odd in cc),
    )

module _ (cap : ℕ) (region : ℕ → List ℕ) (size : length (region 0) ≡ data_offset + cap)
    (trace : (n : ℕ) → Locked cap (region n) (region (suc n))) where
  pub size_at : (n : ℕ) → length (region n) ≡ data_offset + cap
  size_at zero = size
  size_at (suc n) = (Locked-lock cap (size_at n) (trace n)).0

  lock_later : (n k : ℕ) → lock (region n) ≤ lock (region (n + k))
  lock_later n zero = (let e : n + 0 ≡ n = omega arith in rw e (omega arith))
  lock_later n (suc k) =
      let e : n + suc k ≡ suc (n + k) = omega arith in
      let (_, le, _) = Locked-lock cap (size_at (n + k)) (trace (n + k)) in
      rw e (omega (arith, lock_later n k, le))

  same_or_later :
      (n k : ℕ)
      → is_even (lock (region n)) ≡ true
      → (region (n + k) ≡ region n) ⊎ (lock (region n) < lock (region (n + k)))
  same_or_later n zero even = (let e : n + 0 ≡ n = omega arith in inl (ap region e))
  same_or_later n (suc k) even =
      let e : n + suc k ≡ suc (n + k) = omega arith in
      let (_, le, moves) = Locked-lock cap (size_at (n + k)) (trace (n + k)) in
      rw e (elim (same_or_later n k even) [
        | inr later ↦ inr (omega (arith, later, le))
        | inl same ↦ elim (moves (ap (λ (r : List ℕ). is_even (lock r)) same ∙ even)) [
          | inl same' ↦ inl (same' ∙ same)
          | inr later ↦ inr (omega (arith, later, ap lock same))
        ]
      ])

  -- An even lock that is found again has not moved, and neither has anything else.
  pub unchanged :
      (n k j : ℕ)
      → is_even (lock (region n)) ≡ true
      → lock (region (n + k)) ≡ lock (region n)
      → j ≤ k
      → region (n + j) ≡ region n
  unchanged n k j even again le = elim (same_or_later n j even) [
    | inl same ↦ same
    | inr later ↦
        let e : n + j + (k - j) ≡ n + k = omega arith in
        let more = rw e at (lock_later (n + j) (k - j)) in
        absurd (omega (arith, more, later, again))
  ]
