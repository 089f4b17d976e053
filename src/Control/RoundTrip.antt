-- ===== src/Control/RoundTrip.antt =====
-- crates/carriage/src/control.rs: what a control block read back is, and what is rejected.
use open_ot_experiments.Prelude.{
  ℕ, ◌≤◌, ◌≡◌, ◌%◌, refl, sym, true, List, [], ◌∷◌, some, length, IsU32, IsU64,
  from_le_bytes-to_le_bytes, ok, leb, arith, ==_refl,
}
use mathlib.Core.Path.{subst}
use open_ot_experiments.Wire.{has_sync}
use open_ot_experiments.Control.{
  ControlBlockSnapshot, encode_image, encode, reserved_zero, decode_fields, decode_with_locks,
  is_even, read_u32,
}

-- The ranges of the fields' Rust types.
pub record IsSnapshot (s : ControlBlockSnapshot) : Type 0 where
  pub buffer_id_fits : IsU32 s.buffer_id
  pub buffer_bytes_fits : IsU32 s.buffer_bytes
  pub head_abs_fits : IsU64 s.head_abs
  pub oldest_abs_fits : IsU64 s.oldest_abs
  pub lost_count_fits : IsU64 s.lost_count
  pub run_id_fits : IsU64 s.run_id
  pub epoch_id_fits : IsU64 s.epoch_id
  pub epoch_first_abs_fits : IsU64 s.epoch_first_abs
  pub definition_hash_fits : length s.definition_hash ≡ 8
  pub prev_definition_hash_fits : length s.prev_definition_hash ≡ 8

abbrev pub Bytes8 : List ℕ → Type 0
Bytes8 l =
    (b0 : ℕ) × (b1 : ℕ) × (b2 : ℕ) × (b3 : ℕ) × (b4 : ℕ) × (b5 : ℕ) × (b6 : ℕ) × (b7 : ℕ) × (l
      ≡ b0 ∷ b1 ∷ b2 ∷ b3 ∷ b4 ∷ b5 ∷ b6 ∷ b7 ∷ [])

pub bytes_of_eight : (l : List ℕ) → length l ≡ 8 → Bytes8 l
bytes_of_eight [] h = absurd (omega arith)
bytes_of_eight (a ∷ []) h = absurd (omega arith)
bytes_of_eight (a ∷ b ∷ []) h = absurd (omega arith)
bytes_of_eight (a ∷ b ∷ c ∷ []) h = absurd (omega arith)
bytes_of_eight (a ∷ b ∷ c ∷ d ∷ []) h = absurd (omega arith)
bytes_of_eight (a ∷ b ∷ c ∷ d ∷ e ∷ []) h = absurd (omega arith)
bytes_of_eight (a ∷ b ∷ c ∷ d ∷ e ∷ f ∷ []) h = absurd (omega arith)
bytes_of_eight (a ∷ b ∷ c ∷ d ∷ e ∷ f ∷ g ∷ []) h = absurd (omega arith)
bytes_of_eight (a ∷ b ∷ c ∷ d ∷ e ∷ f ∷ g ∷ i ∷ []) h = (a, b, c, d, e, f, g, i, refl)
bytes_of_eight (a ∷ b ∷ c ∷ d ∷ e ∷ f ∷ g ∷ i ∷ j ∷ l) h = absurd (omega arith)

-- An image with the sixteen hash bytes written out.
module _ (s : ControlBlockSnapshot) (seq_lock a b c d e f g h a' b' c' d' e' f' g' h' : ℕ) where
  abbrev t : ControlBlockSnapshot
  t = record s {
    definition_hash = a ∷ b ∷ c ∷ d ∷ e ∷ f ∷ g ∷ h ∷ [];
    prev_definition_hash = a' ∷ b' ∷ c' ∷ d' ∷ e' ∷ f' ∷ g' ∷ h' ∷ [];
  }

  image_fields : IsSnapshot s → decode_fields (encode_image t seq_lock) ≡ t
  unfolding decode_fields encode_image
  image_fields v = λ i. record t {
    buffer_id = from_le_bytes-to_le_bytes 4 s.buffer_id (omega arith) i;
    buffer_bytes = from_le_bytes-to_le_bytes 4 s.buffer_bytes (omega arith) i;
    head_abs = from_le_bytes-to_le_bytes 8 s.head_abs (omega arith) i;
    oldest_abs = from_le_bytes-to_le_bytes 8 s.oldest_abs (omega arith) i;
    lost_count = from_le_bytes-to_le_bytes 8 s.lost_count (omega arith) i;
    run_id = from_le_bytes-to_le_bytes 8 s.run_id (omega arith) i;
    epoch_id = from_le_bytes-to_le_bytes 8 s.epoch_id (omega arith) i;
    epoch_first_abs = from_le_bytes-to_le_bytes 8 s.epoch_first_abs (omega arith) i;
  }

  image_checks :
      IsU32 seq_lock
      → (length (encode_image t seq_lock) ≡ 88)
        × (has_sync (encode_image t seq_lock) ≡ true)
        × (read_u32 (encode_image t seq_lock) 16 ≡ seq_lock)
        × (reserved_zero (encode_image t seq_lock) ≡ true)
  unfolding encode_image has_sync reserved_zero
  image_checks l = (refl, refl, from_le_bytes-to_le_bytes 4 seq_lock l, refl)

  image_reads :
      IsSnapshot s
      → IsU32 seq_lock
      → is_even seq_lock ≡ true
      → decode_with_locks (encode_image t seq_lock) seq_lock seq_lock ≡ ok t
  unfolding decode_with_locks
  image_reads v l even =
      let (len, sync, stored, zero) = image_checks l in
      let enough : leb 88 (length (encode_image t seq_lock)) ≡ true = ground arith in
      rw (enough, sync, even, stored, ==_refl, zero, image_fields v)

-- A snapshot that is encoded under an even lock is read back under that lock. Its fields fit their
-- widths.
pub decode_with_locks-encode :
    (s : ControlBlockSnapshot) (seq_lock : ℕ) {bytes : List ℕ}
    → IsSnapshot s
    → IsU32 seq_lock
    → encode s seq_lock ≡ some bytes
    → decode_with_locks bytes seq_lock seq_lock ≡ ok s
unfolding encode
decode_with_locks-encode s seq_lock {bytes} v l h =
    let (a, b, c, d, e, f, g, i, p) = bytes_of_eight s.definition_hash v.definition_hash_fits in
    let (a', b', c', d', e', f', g', i', p') =
      bytes_of_eight s.prev_definition_hash v.prev_definition_hash_fits in
    let same : s ≡ t s seq_lock a b c d e f g i a' b' c' d' e' f' g' i' =
      λ j. record s { definition_hash = p j; prev_definition_hash = p' j } in
    let even : is_even seq_lock ≡ true = ground arith in
    let written : bytes ≡ encode_image s seq_lock = ground arith in
    rw written (
      subst (λ u. decode_with_locks (encode_image u seq_lock) seq_lock seq_lock ≡ ok u) (sym same)
        (image_reads s seq_lock a b c d e f g i a' b' c' d' e' f' g' i' v l even))

-- The checks that an accepted image passed.
pub decode_with_locks_checks :
    (bytes : List ℕ) (first second : ℕ) {s : ControlBlockSnapshot}
    → decode_with_locks bytes first second ≡ ok s
    → (first % 2 ≡ 0)
      × (first ≡ second)
      × (read_u32 bytes 16 ≡ first)
      × (88 ≤ length bytes)
      × (has_sync bytes ≡ true)
      × (reserved_zero bytes ≡ true)
      × (s ≡ decode_fields bytes)
unfolding decode_with_locks
decode_with_locks_checks bytes first second h = ground arith
