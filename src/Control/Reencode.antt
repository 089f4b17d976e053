-- ===== src/Control/Reencode.antt =====
-- crates/carriage/src/control.rs: encoding what was read gives back the image.
use open_ot_experiments.Prelude.{
  ℕ, zero, suc, ◌+◌, ◌≤◌, ◌<◌, ◌≡◌, refl, ap, ap₂, ◌∙◌, sym, true, List, [], ◌∷◌, ◌++◌, some,
  length, take, drop, slice, slice_split, slice-take, get_or, to_le_bytes, from_le_bytes,
  to_le_bytes-slice, length-slice, All, IsByte, ok, arith,
}
use mathlib.Core.Path.{subst}
use open_ot_experiments.Wire.{sync, has_sync}
use open_ot_experiments.Wire.Reencode.{take-sync}
use open_ot_experiments.Control.{
  ControlBlockSnapshot, encode_image, encode, reserved_zero, decode_fields, decode_with_locks,
  is_even, read_u32,
}
use open_ot_experiments.Control.RoundTrip.{bytes_of_eight, decode_with_locks_checks}

-- The image, from its front to its end.
abbrev laid_out : ControlBlockSnapshot → ℕ → List ℕ
laid_out s seq_lock =
    sync
    ++ ((s.version ∷ [])
        ++ ((s.caps ∷ [])
            ++ ((0 ∷ [])
                ++ ((0 ∷ [])
                    ++ (to_le_bytes 4 s.buffer_id
                        ++ (to_le_bytes 4 s.buffer_bytes
                            ++ (to_le_bytes 4 seq_lock
                                ++ ((0 ∷ [])
                                    ++ ((0 ∷ [])
                                        ++ ((0 ∷ [])
                                            ++ ((0 ∷ [])
                                                ++ (to_le_bytes 8 s.head_abs
                                                    ++ (to_le_bytes 8 s.oldest_abs
                                                        ++ (to_le_bytes 8 s.lost_count
                                                            ++ (to_le_bytes 8 s.run_id
                                                            ++ (to_le_bytes 8 s.epoch_id
                                                            ++ (to_le_bytes 8 s.epoch_first_abs
                                                            ++ (s.definition_hash
                                                            ++ (s.prev_definition_hash)))))))))))))))))))

encode_image-laid_out :
    (s : ControlBlockSnapshot) (seq_lock : ℕ)
    → length s.definition_hash ≡ 8
    → length s.prev_definition_hash ≡ 8
    → encode_image s seq_lock ≡ laid_out s seq_lock
unfolding encode_image
encode_image-laid_out s seq_lock h h' =
    let (a, b, c, d, e, f, g, i, p) = bytes_of_eight s.definition_hash h in
    let (a', b', c', d', e', f', g', i', p') = bytes_of_eight s.prev_definition_hash h' in
    let same : s ≡ record s {
      definition_hash = a ∷ b ∷ c ∷ d ∷ e ∷ f ∷ g ∷ i ∷ [];
      prev_definition_hash = a' ∷ b' ∷ c' ∷ d' ∷ e' ∷ f' ∷ g' ∷ i' ∷ [];
    } =
      λ j. record s { definition_hash = p j; prev_definition_hash = p' j } in
    subst (λ u. encode_image u seq_lock ≡ laid_out u seq_lock) (sym same) refl

take_one :
    (bytes : List ℕ) (i : ℕ) → i < length bytes → get_or bytes i 0 ∷ [] ≡ take 1 (drop i bytes)
take_one [] i h = absurd (omega arith)
take_one (b ∷ bytes) zero h = refl
take_one (b ∷ bytes) (suc i) h = take_one bytes i (omega arith)

slice_one :
    (bytes : List ℕ) (i : ℕ) → i < length bytes → get_or bytes i 0 ∷ [] ≡ slice bytes i (i + 1)
slice_one bytes i h = take_one bytes i h ∙ sym (slice-take bytes i 1)

-- The fields of a sound image, laid out again.
module _ (bytes : List ℕ) (seq_lock : ℕ) (v : All IsByte bytes) (h : 88 ≤ length bytes)
    (synced : has_sync bytes ≡ true) (stored : read_u32 bytes 16 ≡ seq_lock)
    (reserved : reserved_zero bytes ≡ true) where
  laid_out-slice : laid_out (decode_fields bytes) seq_lock ≡ slice bytes 0 88
  unfolding decode_fields reserved_zero
  laid_out-slice =
      ap₂ ◌++◌ (sym (take-sync bytes synced)) (
        ap₂ ◌++◌ (one 4 (omega arith)) (
          ap₂ ◌++◌ (one 5 (omega arith)) (
            ap₂ ◌++◌ (nought 6 (ground arith) (omega arith)) (
              ap₂ ◌++◌ (nought 7 (ground arith) (omega arith)) (
                ap₂ ◌++◌ (word 8 4 (omega arith)) (
                  ap₂ ◌++◌ (word 12 4 (omega arith)) (
                    ap₂ ◌++◌ (ap (to_le_bytes 4) (sym stored) ∙ word 16 4 (omega arith)) (
                      ap₂ ◌++◌ (nought 20 (ground arith) (omega arith)) (
                        ap₂ ◌++◌ (nought 21 (ground arith) (omega arith)) (
                          ap₂ ◌++◌ (nought 22 (ground arith) (omega arith)) (
                            ap₂ ◌++◌ (nought 23 (ground arith) (omega arith)) (
                              ap₂ ◌++◌ (word 24 8 (omega arith)) (
                                ap₂ ◌++◌ (word 32 8 (omega arith)) (
                                  ap₂ ◌++◌ (word 40 8 (omega arith)) (
                                    ap₂ ◌++◌ (word 48 8 (omega arith)) (
                                      ap₂ ◌++◌ (word 56 8 (omega arith)) (
                                        ap₂ ◌++◌ (word 64 8 (omega arith))
                                          (join 72 80 (omega arith) (omega arith))
                                        ∙ join 64 72 (omega arith) (omega arith))
                                      ∙ join 56 64 (omega arith) (omega arith))
                                    ∙ join 48 56 (omega arith) (omega arith))
                                  ∙ join 40 48 (omega arith) (omega arith))
                                ∙ join 32 40 (omega arith) (omega arith))
                              ∙ join 24 32 (omega arith) (omega arith))
                            ∙ join 23 24 (omega arith) (omega arith))
                          ∙ join 22 23 (omega arith) (omega arith))
                        ∙ join 21 22 (omega arith) (omega arith))
                      ∙ join 20 21 (omega arith) (omega arith))
                    ∙ join 16 20 (omega arith) (omega arith))
                  ∙ join 12 16 (omega arith) (omega arith))
                ∙ join 8 12 (omega arith) (omega arith))
              ∙ join 7 8 (omega arith) (omega arith))
            ∙ join 6 7 (omega arith) (omega arith))
          ∙ join 5 6 (omega arith) (omega arith))
        ∙ join 4 5 (omega arith) (omega arith))
      ∙ join 0 4 (omega arith) (omega arith)
    where
      word :
          (a n : ℕ)
          → a + n ≤ 88
          → to_le_bytes n (from_le_bytes (slice bytes a (a + n))) ≡ slice bytes a (a + n)
      word a n k = to_le_bytes-slice bytes a n v (omega arith)

      one : (a : ℕ) → a < 88 → get_or bytes a 0 ∷ [] ≡ slice bytes a (a + 1)
      one a k = slice_one bytes a (omega arith)

      nought : (a : ℕ) → get_or bytes a 0 ≡ 0 → a < 88 → 0 ∷ [] ≡ slice bytes a (a + 1)
      nought a e k = ap (λ n. n ∷ []) (sym e) ∙ one a k

      join : (a b : ℕ) → a ≤ b → b ≤ 88 → slice bytes a b ++ slice bytes b 88 ≡ slice bytes a 88
      join a b k l = sym (slice_split bytes a b 88 k l)

-- Only an untorn image is accepted, and it has one encoding: where a read of a list of bytes
-- returns a snapshot, both locks that were observed are the even lock under which that snapshot
-- was encoded, and its encoding under it is the first 88 of the bytes.
pub encode-decode_with_locks :
    (bytes : List ℕ) (first second : ℕ) {s : ControlBlockSnapshot}
    → All IsByte bytes
    → decode_with_locks bytes first second ≡ ok s
    → (first ≡ second) × (encode s first ≡ some (take 88 bytes))
unfolding encode decode_fields
encode-decode_with_locks bytes first second {s} v h =
    let (even, same, stored, long, synced, reserved, fields) =
      decode_with_locks_checks bytes first second h in
    let is_even : is_even first ≡ true = ground arith in
    let image =
      encode_image-laid_out (decode_fields bytes) first
        (length-slice bytes 72 80 (omega arith) (omega arith))
        (length-slice bytes 80 88 (omega arith) (omega arith))
      ∙ laid_out-slice bytes first v long synced stored reserved in
    (same, rw (fields, is_even) (ap some image))
