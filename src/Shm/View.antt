-- ===== src/Shm/View.antt =====
-- crates/open-ot-shm/src/lib.rs: the shared mapping implements the concurrent ring.
use open_ot_experiments.Prelude.{
  ℕ, zero, suc, ◌+◌, ◌%◌, ◌^◌, ◌≤◌, ◌<◌, ◌≡◌, ◌⊎◌, inl, inr, refl, ap, ◌∙◌, sym, List, [], ◌∷◌,
  arith, length, length-set, set, take, drop, slice, slice-take, write_at, to_le_bytes,
  from_le_bytes, length-to_le_bytes, from_le_bytes-to_le_bytes, add64,
}
use open_ot_experiments.Control.{
  read_u32, read_u64, write_u32, off_seq_lock, off_head_abs, off_oldest_abs, off_lost_count,
}
use open_ot_experiments.Ring.Disjoint.{slice-write_at, slice-write_at_self, length-write_at}
use open_ot_experiments.Concurrent.{
  ConcurrentRing, StoreOp, begin_control_update, end_control_update_release, fetch_add_lost_release,
  store_oldest_relaxed, release_before_clobber, store_byte_relaxed, store_head_release, apply_op,
  apply_all,
}
use open_ot_experiments.Shm.{data_offset, apply_shared, apply_shared_all}

-- The concurrent ring that a mapping with a pool of `cap` bytes stands for.
abbrev pub view : ℕ → List ℕ → ConcurrentRing
view cap region = record {
  bytes = slice region data_offset (data_offset + cap);
  head_abs = read_u64 region off_head_abs;
  oldest_abs = read_u64 region off_oldest_abs;
  lost_count = read_u64 region off_lost_count;
}

-- The operation's arguments fit the mapping and their types.
abbrev pub OpFits : ℕ → StoreOp → Type 0
OpFits cap (store_byte_relaxed phys value) = phys < cap
OpFits cap (store_oldest_relaxed value) = value < 2 ^ 64
OpFits cap (store_head_release value) = value < 2 ^ 64
OpFits cap op = Unit {0}

abbrev pub OpsFit : ℕ → List StoreOp → Type 0
OpsFit cap [] = Unit {0}
OpsFit cap (op ∷ ops) = OpFits cap op × OpsFit cap ops

drop-set : (a p v : ℕ) (xs : List ℕ) → drop a (set xs (a + p) v) ≡ set (drop a xs) p v
drop-set zero p v xs = (let e : 0 + p ≡ p = omega arith in rw e refl)
drop-set (suc a) p v [] = refl
drop-set (suc a) p v (x ∷ xs) =
    (let e : suc a + p ≡ suc (a + p) = omega arith in rw e (drop-set a p v xs))

take-set : (n p v : ℕ) (xs : List ℕ) → p < n → take n (set xs p v) ≡ set (take n xs) p v
take-set zero p v xs h = absurd (omega arith)
take-set (suc n) p v [] h = refl
take-set (suc n) zero v (x ∷ xs) h = refl
take-set (suc n) (suc p) v (x ∷ xs) h = ap (λ l. x ∷ l) (take-set n p v xs (omega arith))

take-set_after : (n p v : ℕ) (xs : List ℕ) → n ≤ p → take n (set xs p v) ≡ take n xs
take-set_after zero p v xs h = refl
take-set_after (suc n) p v [] h = refl
take-set_after (suc n) zero v (x ∷ xs) h = absurd (omega arith)
take-set_after (suc n) (suc p) v (x ∷ xs) h =
    ap (λ l. x ∷ l) (take-set_after n p v xs (omega arith))

take-nil : (n : ℕ) → take {A = ℕ} n [] ≡ []
take-nil zero = refl
take-nil (suc n) = refl

drop-take : (a n : ℕ) (xs : List ℕ) → take n (drop a xs) ≡ drop a (take (a + n) xs)
drop-take zero n xs = (let e : 0 + n ≡ n = omega arith in rw e refl)
drop-take (suc a) n [] = (let e : suc a + n ≡ suc (a + n) = omega arith in rw e (take-nil n))
drop-take (suc a) n (x ∷ xs) =
    (let e : suc a + n ≡ suc (a + n) = omega arith in rw e (drop-take a n xs))

module _ (cap : ℕ) (region : List ℕ) (size : length region ≡ data_offset + cap) where
  -- A write to the control block leaves the pool and the other fields alone.
  pool_kept :
      (off : ℕ) (values : List ℕ)
      → off + length values ≤ data_offset
      → slice (write_at region off values) data_offset (data_offset + cap)
        ≡ slice region data_offset (data_offset + cap)
  pool_kept off values h =
      slice-write_at region off values data_offset cap (omega arith) (omega arith) (inr h)

  pub field_kept :
      (off : ℕ) (values : List ℕ) (f n : ℕ)
      → off + length values ≤ data_offset
      → f + n ≤ data_offset
      → (f + n ≤ off) ⊎ (off + length values ≤ f)
      → from_le_bytes (slice (write_at region off values) f (f + n))
        ≡ from_le_bytes (slice region f (f + n))
  field_kept off values f n h k apart =
      ap from_le_bytes (slice-write_at region off values f n (omega arith) (omega arith) apart)

  -- What was written is read.
  pub field_written :
      (n off v : ℕ)
      → off + n ≤ data_offset
      → v < 256 ^ n
      → from_le_bytes (slice (write_at region off (to_le_bytes n v)) off (off + n)) ≡ v
  field_written n off v h fits =
      let e = length-to_le_bytes n v in
      ap from_le_bytes (
        ap (λ (k : ℕ). slice (write_at region off (to_le_bytes n v)) off (off + k)) (sym e)
        ∙ slice-write_at_self region off (to_le_bytes n v) (omega arith))
      ∙ from_le_bytes-to_le_bytes n v fits

  pub length-write_field :
      (n off v : ℕ)
      → off + n ≤ data_offset
      → length (write_at region off (to_le_bytes n v)) ≡ data_offset + cap
  length-write_field n off v h =
      length-write_at region off (to_le_bytes n v) (omega (arith, length-to_le_bytes n v)) ∙ size

  -- A byte of the pool.
  pool_set :
      (phys v : ℕ)
      → phys < cap
      → slice (set region (data_offset + phys) v) data_offset (data_offset + cap)
        ≡ set (slice region data_offset (data_offset + cap)) phys v
  pool_set phys v h =
      slice-take (set region (data_offset + phys) v) data_offset cap
      ∙ ap (take cap) (drop-set data_offset phys v region)
      ∙ take-set cap phys v (drop data_offset region) h
      ∙ ap (λ l. set l phys v) (sym (slice-take region data_offset cap))

  pub field_set :
      (phys v f n : ℕ)
      → f + n ≤ data_offset
      → slice (set region (data_offset + phys) v) f (f + n) ≡ slice region f (f + n)
  field_set phys v f n h =
      let at = data_offset + phys in
      slice-take (set region at v) f n
      ∙ drop-take f n (set region at v)
      ∙ ap (drop f) (take-set_after (f + n) at v region (omega arith))
      ∙ sym (drop-take f n region)
      ∙ sym (slice-take region f n)

  -- The lock is no part of the ring.
  lock_kept : (v : ℕ) → view cap (write_u32 region off_seq_lock v) ≡ view cap region
  lock_kept v =
      let values = to_le_bytes 4 v in
      λ i. record {
        bytes = pool_kept off_seq_lock values (omega arith) i;
        head_abs =
            field_kept off_seq_lock values off_head_abs 8 (omega arith) (omega arith)
              (inr (omega arith)) i;
        oldest_abs =
            field_kept off_seq_lock values off_oldest_abs 8 (omega arith) (omega arith)
              (inr (omega arith)) i;
        lost_count =
            field_kept off_seq_lock values off_lost_count 8 (omega arith) (omega arith)
              (inr (omega arith)) i;
      }

  -- One operation.
  view-apply_shared :
      (op : StoreOp)
      → OpFits cap op
      → view cap (apply_shared region op) ≡ apply_op (view cap region) op
  unfolding apply_shared apply_op
  view-apply_shared begin_control_update h = lock_kept ((read_u32 region off_seq_lock + 1) % 2 ^ 32)
  view-apply_shared end_control_update_release h =
      lock_kept ((read_u32 region off_seq_lock + 1) % 2 ^ 32)
  view-apply_shared (fetch_add_lost_release value) h =
      let v = add64 (read_u64 region off_lost_count) value in
      let values = to_le_bytes 8 v in
      λ i. record {
        bytes = pool_kept off_lost_count values (omega arith) i;
        head_abs =
            field_kept off_lost_count values off_head_abs 8 (omega arith) (omega arith)
              (inl (omega arith)) i;
        oldest_abs =
            field_kept off_lost_count values off_oldest_abs 8 (omega arith) (omega arith)
              (inl (omega arith)) i;
        lost_count = field_written 8 off_lost_count v (omega arith) (omega arith) i;
      }
  view-apply_shared (store_oldest_relaxed v) h =
      let values = to_le_bytes 8 v in
      λ i. record {
        bytes = pool_kept off_oldest_abs values (omega arith) i;
        head_abs =
            field_kept off_oldest_abs values off_head_abs 8 (omega arith) (omega arith)
              (inl (omega arith)) i;
        oldest_abs = field_written 8 off_oldest_abs v (omega arith) (omega arith) i;
        lost_count =
            field_kept off_oldest_abs values off_lost_count 8 (omega arith) (omega arith)
              (inr (omega arith)) i;
      }
  view-apply_shared release_before_clobber h = refl
  view-apply_shared (store_byte_relaxed phys v) h = λ i. record {
    bytes = pool_set phys v h i;
    head_abs = from_le_bytes (field_set phys v off_head_abs 8 (omega arith) i);
    oldest_abs = from_le_bytes (field_set phys v off_oldest_abs 8 (omega arith) i);
    lost_count = from_le_bytes (field_set phys v off_lost_count 8 (omega arith) i);
  }
  view-apply_shared (store_head_release v) h =
      let values = to_le_bytes 8 v in
      λ i. record {
        bytes = pool_kept off_head_abs values (omega arith) i;
        head_abs = field_written 8 off_head_abs v (omega arith) (omega arith) i;
        oldest_abs =
            field_kept off_head_abs values off_oldest_abs 8 (omega arith) (omega arith)
              (inr (omega arith)) i;
        lost_count =
            field_kept off_head_abs values off_lost_count 8 (omega arith) (omega arith)
              (inr (omega arith)) i;
      }

  pub length-apply_shared : (op : StoreOp) → length (apply_shared region op) ≡ data_offset + cap
  unfolding apply_shared
  length-apply_shared begin_control_update = length-write_field 4 off_seq_lock _ (omega arith)
  length-apply_shared end_control_update_release = length-write_field 4 off_seq_lock _ (omega arith)
  length-apply_shared (fetch_add_lost_release v) =
      length-write_field 8 off_lost_count _ (omega arith)
  length-apply_shared (store_oldest_relaxed v) = length-write_field 8 off_oldest_abs _ (omega arith)
  length-apply_shared release_before_clobber = size
  length-apply_shared (store_byte_relaxed phys v) = length-set region (data_offset + phys) v ∙ size
  length-apply_shared (store_head_release v) = length-write_field 8 off_head_abs _ (omega arith)

-- The shared mapping implements the concurrent ring: whatever operations a producer does, the ring
-- that the mapping stands for changes as the ring of atomics does. The mapping is as long as the
-- control block and the pool, and the operations' offsets are in the pool and their values `u64`.
pub view-apply_shared_all :
    (cap : ℕ) (region : List ℕ) (ops : List StoreOp)
    → length region ≡ data_offset + cap
    → OpsFit cap ops
    → view cap (apply_shared_all region ops) ≡ apply_all (view cap region) ops
unfolding apply_shared_all apply_all
view-apply_shared_all cap region [] size h = refl
view-apply_shared_all cap region (op ∷ ops) size (p, h) =
    view-apply_shared_all cap (apply_shared region op) ops (length-apply_shared cap region size op)
      h
    ∙ ap (λ m. apply_all m ops) (view-apply_shared cap region size op p)
