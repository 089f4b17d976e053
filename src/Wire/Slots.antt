-- ===== src/Wire/Slots.antt =====
-- crates/carriage/src/wire.rs: the slot loops of `validate_record` and `decode` on encoded slots.
use open_ot_experiments.Prelude.{
  ℕ, zero, suc, ◌+◌, ◌-◌, ◌≤◌, ◌≡◌, refl, ap, ◌∙◌, List, [], ◌∷◌, ◌++◌, append_assoc, length,
  length-append, length-replicate, replicate, get_or, drop, slice, take-append, drop-append,
  drop-drop, get_or-drop, to_le_bytes, from_le_bytes, from_le_bytes-to_le_bytes, All, ok, arith,
}
use open_ot_experiments.Wire.{
  Slot, padding_len, check_padding, validate_slots, decode_slots, read_u16,
}
use open_ot_experiments.Wire.Layout.{IsSlot, slot_bytes, slots_bytes, length-slot_bytes}

-- A slice that starts where `bytes` goes on with `mid`.
pub slice_at :
    (bytes : List ℕ) (offset n : ℕ) (mid post : List ℕ)
    → drop offset bytes ≡ mid ++ post
    → length mid ≡ n
    → slice bytes offset (offset + n) ≡ mid
slice_at bytes offset n mid post h e =
    let k : offset + n - offset ≡ length mid = omega arith in rw (k, h) (take-append mid post)

pub drop_at :
    (bytes : List ℕ) (offset n : ℕ) (mid post : List ℕ)
    → drop offset bytes ≡ mid ++ post
    → length mid ≡ n
    → drop (offset + n) bytes ≡ post
drop_at bytes offset n mid post h e = rw (← drop-drop n offset bytes, h, ← e) (drop-append mid post)

-- What the loops read of a slot that starts at `offset`.
pub record Reads (bytes : List ℕ) (offset : ℕ) (s : Slot) (post : List ℕ) : Type 0 where
  pub len_at : get_or bytes (offset + 3) 0 ≡ length s.payload
  pub ty_at : get_or bytes (offset + 2) 0 ≡ s.ty
  pub key_at : IsSlot s → read_u16 bytes offset ≡ s.key
  pub payload_at : slice bytes (offset + 4) (offset + 4 + length s.payload) ≡ s.payload
  pub padding_at :
      slice bytes
        (offset + 4 + length s.payload)
        (offset + 4 + length s.payload + padding_len (length s.payload))
      ≡ replicate (padding_len (length s.payload)) 0
  pub rest_at : drop (offset + 4 + length s.payload + padding_len (length s.payload)) bytes ≡ post

pub Reads-slot :
    (bytes : List ℕ) (offset : ℕ) (s : Slot) (post : List ℕ)
    → drop offset bytes ≡ slot_bytes s ++ post
    → Reads bytes offset s post
Reads-slot bytes offset s post h = record {
  len_at = get_or-drop offset 3 bytes 0 ∙ ap (λ l. get_or l 3 0) h;
  ty_at = get_or-drop offset 2 bytes 0 ∙ ap (λ l. get_or l 2 0) h;
  key_at = λ v.
      ap from_le_bytes (slice_at bytes offset 2 (to_le_bytes 2 s.key) _ h refl)
      ∙ from_le_bytes-to_le_bytes 2 s.key v.key_fits;
  payload_at = slice_at bytes (offset + 4) len _ _ after_head refl;
  padding_at = slice_at bytes (offset + 4 + len) pad _ _ after_payload (length-replicate pad 0);
  rest_at = drop_at bytes (offset + 4 + len) pad _ _ after_payload (length-replicate pad 0);
}
  where
    len : ℕ
    len = length s.payload

    pad : ℕ
    pad = padding_len len

    after_head : drop (offset + 4) bytes ≡ s.payload ++ (replicate pad 0 ++ post)
    after_head =
        drop_at bytes offset 4 (to_le_bytes 2 s.key ++ s.ty ∷ len ∷ []) _ h refl
        ∙ append_assoc s.payload (replicate pad 0) post

    after_payload : drop (offset + 4 + len) bytes ≡ replicate pad 0 ++ post
    after_payload = drop_at bytes (offset + 4) len _ _ after_head refl

pub check_padding_zeros : (n at : ℕ) → check_padding (replicate n 0) at ≡ ok tt
unfolding check_padding
check_padding_zeros zero at = refl
check_padding_zeros (suc n) at = check_padding_zeros n (at + 1)

-- `validate_record` accepts encoded slots.
pub validate_slots-slots_bytes :
    (slots : List Slot) (fuel : ℕ) (bytes : List ℕ) (offset slots_end : ℕ) (post : List ℕ)
    → drop offset bytes ≡ slots_bytes slots ++ post
    → slots_end ≡ offset + length (slots_bytes slots)
    → length (slots_bytes slots) ≤ fuel
    → validate_slots fuel bytes offset slots_end ≡ ok tt
unfolding validate_slots
validate_slots-slots_bytes [] zero bytes offset slots_end post h e f = ground arith
validate_slots-slots_bytes [] (suc fuel) bytes offset slots_end post h e f = ground arith
validate_slots-slots_bytes (s ∷ slots) zero bytes offset slots_end post h e f =
    absurd (omega (arith, length-append (slot_bytes s) (slots_bytes slots)))
validate_slots-slots_bytes (s ∷ slots) (suc fuel) bytes offset slots_end post h e f =
    let tail = slots_bytes slots in
    let r = Reads-slot bytes offset s (tail ++ post) (h ∙ append_assoc (slot_bytes s) tail post) in
    let size = length-append (slot_bytes s) tail in
    let bytes_of = length-slot_bytes s in
    let n = length s.payload in
    let p = padding_len n in
    rw (r.len_at, r.padding_at, check_padding_zeros)
      (ground (
        arith,
        size,
        bytes_of,
        validate_slots-slots_bytes slots fuel bytes (offset + 4 + n + p) slots_end post r.rest_at,
      ))

-- `decode` reads encoded slots back.
pub decode_slots-slots_bytes :
    (slots : List Slot) (fuel : ℕ) (bytes : List ℕ) (offset slots_end : ℕ) (post : List ℕ)
    → All IsSlot slots
    → drop offset bytes ≡ slots_bytes slots ++ post
    → slots_end ≡ offset + length (slots_bytes slots)
    → length (slots_bytes slots) ≤ fuel
    → decode_slots fuel bytes offset slots_end ≡ ok slots
unfolding decode_slots
decode_slots-slots_bytes [] zero bytes offset slots_end post v h e f = ground arith
decode_slots-slots_bytes [] (suc fuel) bytes offset slots_end post v h e f = ground arith
decode_slots-slots_bytes (s ∷ slots) zero bytes offset slots_end post v h e f =
    absurd (omega (arith, length-append (slot_bytes s) (slots_bytes slots)))
decode_slots-slots_bytes (s ∷ slots) (suc fuel) bytes offset slots_end post (v, vs) h e f =
    let tail = slots_bytes slots in
    let r = Reads-slot bytes offset s (tail ++ post) (h ∙ append_assoc (slot_bytes s) tail post) in
    let size = length-append (slot_bytes s) tail in
    let bytes_of = length-slot_bytes s in
    let n = length s.payload in
    let p = padding_len n in
    rw (r.len_at, r.payload_at, r.ty_at, r.key_at v)
      (ground (
        arith,
        size,
        bytes_of,
        decode_slots-slots_bytes slots fuel bytes (offset + 4 + n + p) slots_end post vs r.rest_at,
      ))
