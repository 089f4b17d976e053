-- ===== src/Shm/Create.antt =====
-- crates/open-ot-shm/src/lib.rs: a new mapping.
use open_ot_experiments.Prelude.{
  ℕ, zero, suc, ◌+◌, ◌-◌, ◌^◌, ◌≤◌, ◌<◌, ◌≡◌, ◌⊎◌, inl, inr, refl, ap, ◌∙◌, sym, true, false, List,
  ◌∷◌, ◌++◌, arith, length, replicate, length-replicate, take, take-all, ok, err, some, ltb, ◌==◌,
  Bool-cases, from_le_bytes-to_le_bytes, leb,
}
use mathlib.Core.Path.{subst}
use open_ot_experiments.Wire.{has_sync}
use open_ot_experiments.Control.{
  ControlBlockSnapshot, control_block_len, decode_with_locks, decode_fields, reserved_zero,
}
use open_ot_experiments.Ring.Types.{default_buffer_id}
use open_ot_experiments.Concurrent.{new}
use open_ot_experiments.Concurrent.Walk.{capacity_u32}
use open_ot_experiments.Shm.{
  data_offset, invalid_input, validate_capacity, validate_layout, mapping_len, initialize_counters,
  create, open_existing,
}
use open_ot_experiments.Shm.View.{view}

replicate-add : (a n v : ℕ) → replicate (a + n) v ≡ replicate a v ++ replicate n v
replicate-add zero n v = (let e : 0 + n ≡ n = omega arith in rw e refl)
replicate-add (suc a) n v =
    let e : suc a + n ≡ suc (a + n) = omega arith in rw e (ap (λ l. v ∷ l) (replicate-add a n v))

-- The control block of a new mapping.
abbrev pub first_snapshot : ℕ → ControlBlockSnapshot
first_snapshot cap = record {
  version = 2;
  caps = 0;
  buffer_id = default_buffer_id;
  buffer_bytes = capacity_u32 cap;
  head_abs = 0;
  oldest_abs = 0;
  lost_count = 0;
  run_id = 0;
  epoch_id = 0;
  epoch_first_abs = 0;
  definition_hash = replicate 8 0;
  prev_definition_hash = replicate 8 0;
}

-- What a new mapping is good for.
pub record Fresh (cap : ℕ) (region : List ℕ) : Type 0 where
  pub size : length region ≡ data_offset + cap
  pub opens : open_existing region ≡ ok cap
  pub is_new : new cap ≡ some (view cap region)
  pub control : decode_with_locks (take control_block_len region) 0 0 ≡ ok (first_snapshot cap)

capacity_u32-lt : (cap : ℕ) → capacity_u32 cap < 2 ^ 32
capacity_u32-lt cap = ground arith

module _ (cap : ℕ) where
  abbrev initial : List ℕ
  initial = initialize_counters (replicate (data_offset + cap) 0) cap

  length-initial : length initial ≡ data_offset + cap
  unfolding initialize_counters
  length-initial =
      rw (replicate-add data_offset cap 0) (omega (arith, length-replicate {A = ℕ} cap 0))

  view-initial :
      view cap initial
      ≡ record { bytes = replicate cap 0; head_abs = 0; oldest_abs = 0; lost_count = 0 }
  unfolding initialize_counters
  view-initial =
      let zeros : List ℕ = replicate cap 0 in
      let n : data_offset + cap - data_offset ≡ length zeros =
        omega (arith, length-replicate {A = ℕ} cap 0) in
      let all : take (data_offset + cap - data_offset) zeros ≡ zeros =
        ap (λ k. take k zeros) n ∙ take-all zeros in
      rw (replicate-add data_offset cap 0) (
        ap (λ (l : List ℕ). record { bytes = l; head_abs = 0; oldest_abs = 0; lost_count = 0 }) all)

  control-zeros :
      (rest : List ℕ)
      → decode_with_locks
          (take control_block_len (initialize_counters (replicate data_offset 0 ++ rest) cap))
          0
          0
        ≡ ok (first_snapshot cap)
  unfolding initialize_counters decode_with_locks decode_fields reserved_zero has_sync
  control-zeros rest =
      let back = from_le_bytes-to_le_bytes 4 (capacity_u32 cap) (capacity_u32-lt cap) in
      ap (λ (n : ℕ). ok (record (first_snapshot cap) { buffer_bytes = n })) back

  control-initial : decode_with_locks (take control_block_len initial) 0 0 ≡ ok (first_snapshot cap)
  control-initial =
      subst
        (λ zeros.
          decode_with_locks (take control_block_len (initialize_counters zeros cap)) 0 0
          ≡ ok (first_snapshot cap))
        (sym (replicate-add data_offset cap 0)) (control-zeros (replicate cap 0))

  initial-Fresh : 0 < cap → Fresh cap initial
  unfolding open_existing validate_layout validate_capacity new
  initial-Fresh pos =
      let z : (cap == 0) ≡ false = ground arith in
      let le : leb data_offset (data_offset + cap) ≡ true = ground arith in
      let left : data_offset + cap - data_offset ≡ cap = omega arith in
      record {
        size = length-initial;
        opens = rw (length-initial, le, left, z) refl;
        is_new = rw (view-initial, z) refl;
        control = control-initial;
      }

-- A ring of no bytes is refused, and so is one whose mapping would be longer than the address
-- space. Every other is created: the mapping is the control block and the pool, it opens with the
-- capacity that it was created with, its ring is the new ring of atomics, and its control block
-- reads back.
pub create_outcome :
    (cap : ℕ)
    → ((cap ≡ 0) × (create cap ≡ err (invalid_input "ring capacity must be non-zero")))
      ⊎ (((2 ^ 64 ≤ data_offset + cap)
            × (create cap ≡ err (invalid_input "mapping length overflow")))
          ⊎ ((region : List ℕ) × (create cap ≡ ok region) × Fresh cap region))
unfolding create validate_capacity validate_layout mapping_len
create_outcome cap = elim (Bool-cases (cap == 0)) [
  | inl z ↦ inl (ground arith, rw z refl)
  | inr some_ ↦ elim (Bool-cases (ltb (data_offset + cap) (2 ^ 64))) [
    | inr f ↦ inr (inl (ground arith, rw (some_, f) refl))
    | inl t ↦ inr (inr (initial cap, rw (some_, t) refl, initial-Fresh cap (ground arith)))
  ]
]
