-- ===== src/Wire/Canonical.antt =====
-- crates/carriage/src/wire.rs: whatever `decode` accepts is the encoding of what it returns.
use open_ot_experiments.Prelude.{
  ℕ, zero, suc, ◌+◌, ◌-◌, ◌≤◌, ◌≡◌, refl, ap, ap₂, ◌∙◌, sym, true, List, [], ◌∷◌, ◌++◌, length,
  take, drop, slice, get_or, get_or-drop, replicate, length-drop, to_le_bytes, All, IsByte,
  slice_split, length-slice, get_or-IsByte, to_le_bytes-slice, ok, arith, ltb, Bool-cases, inl, inr,
}
use open_ot_experiments.Wire.{
  Slot, padding_len, read_u16, check_padding, validate_slots, decode_slots,
}
use open_ot_experiments.Wire.Layout.{Fits, slot_bytes, slots_bytes}

-- Only zeros pass as padding.
check_padding-ok : (l : List ℕ) (at : ℕ) → check_padding l at ≡ ok tt → l ≡ replicate (length l) 0
unfolding check_padding
check_padding-ok [] at h = refl
check_padding-ok (b ∷ bs) at h = ground (arith, check_padding-ok bs (at + 1))

four : (l : List ℕ) → 4 ≤ length l → take 4 l ≡ take 2 l ++ get_or l 2 0 ∷ get_or l 3 0 ∷ []
four [] h = absurd (omega arith)
four (a ∷ []) h = absurd (omega arith)
four (a ∷ b ∷ []) h = absurd (omega arith)
four (a ∷ b ∷ c ∷ []) h = absurd (omega arith)
four (a ∷ b ∷ c ∷ d ∷ l) h = refl

-- The slot that the loop reads at `offset`.
abbrev slot_at : List ℕ → ℕ → Slot
slot_at bytes offset = record {
  key = read_u16 bytes offset;
  ty = get_or bytes (offset + 2) 0;
  payload = slice bytes (offset + 4) (offset + 4 + get_or bytes (offset + 3) 0);
}

module _ (bytes : List ℕ) (offset : ℕ) where
  abbrev len : ℕ
  len = get_or bytes (offset + 3) 0

  abbrev payload_end : ℕ
  payload_end = offset + 4 + len

  abbrev next : ℕ
  next = payload_end + padding_len len

  head_bytes :
      All IsByte bytes
      → offset + 4 ≤ length bytes
      → slice bytes offset (offset + 4)
        ≡ to_le_bytes 2 (read_u16 bytes offset) ++ get_or bytes (offset + 2) 0 ∷ len ∷ []
  head_bytes v h =
      let l = drop offset bytes in
      let e : offset + 4 - offset ≡ 4 = omega arith in
      let e' : offset + 2 - offset ≡ 2 = omega arith in
      let tail = get_or bytes (offset + 2) 0 ∷ len ∷ [] in
      let word = slice bytes offset (offset + 2) in
      let split : slice bytes offset (offset + 4) ≡ word ++ tail =
        rw (e, e', get_or-drop offset 2 bytes 0, get_or-drop offset 3 bytes 0)
          (four l (omega (arith, length-drop offset bytes))) in
      split ∙ ap (λ w. w ++ tail) (sym (to_le_bytes-slice bytes offset 2 v (omega arith)))

  -- Its bytes are those that the loop passes over.
  slot_at-slice :
      All IsByte bytes
      → next ≤ length bytes
      → check_padding (slice bytes payload_end next) payload_end ≡ ok tt
      → Fits (slot_at bytes offset) × (slot_bytes (slot_at bytes offset) ≡ slice bytes offset next)
  slot_at-slice v h pad =
      let size : length (slice bytes (offset + 4) payload_end) ≡ len =
        omega (arith, length-slice bytes (offset + 4) payload_end) in
      let pads : length (slice bytes payload_end next) ≡ padding_len len =
        omega (arith, length-slice bytes payload_end next) in
      let zeros : slice bytes payload_end next ≡ replicate (padding_len len) 0 =
        check_padding-ok (slice bytes payload_end next) payload_end pad
        ∙ ap (λ n. replicate {A = ℕ} n 0) pads in
      (
        omega (arith, get_or-IsByte bytes (offset + 3) v),
        rw (
          slice_split bytes offset (offset + 4) next (omega arith) (omega arith),
          slice_split bytes (offset + 4) payload_end next (omega arith) (omega arith),
          head_bytes v (omega arith),
          zeros,
          size,
        ),
      )

-- One round of the validating loop.
validate_slots_step :
    (fuel : ℕ) (bytes : List ℕ) (offset slots_end : ℕ)
    → ltb offset slots_end ≡ true
    → validate_slots (suc fuel) bytes offset slots_end ≡ ok tt
    → (next bytes offset ≤ slots_end)
      × (check_padding
            (slice bytes (payload_end bytes offset) (next bytes offset))
            (payload_end bytes offset)
          ≡ ok tt)
      × (validate_slots fuel bytes (next bytes offset) slots_end ≡ ok tt)
unfolding validate_slots
validate_slots_step fuel bytes offset slots_end more h = ground arith

-- The loops of `validate_record` and `decode` together, from `offset` on.
pub decoded_slots :
    (fuel : ℕ) (bytes : List ℕ) (offset slots_end : ℕ)
    → All IsByte bytes
    → slots_end ≤ length bytes
    → offset ≤ slots_end
    → validate_slots fuel bytes offset slots_end ≡ ok tt
    → (slots : List Slot) × (decode_slots fuel bytes offset slots_end ≡ ok slots)
      × All Fits slots
      × (slots_bytes slots ≡ slice bytes offset slots_end)
unfolding validate_slots decode_slots
decoded_slots zero bytes offset slots_end v fits le h =
    let e : slots_end - offset ≡ 0 = ground arith in ([], ground arith, tt, rw e)
decoded_slots (suc fuel) bytes offset slots_end v fits le h =
    elim (Bool-cases (ltb offset slots_end)) [
      | inl more ↦
          let (inside, pad, rest) = validate_slots_step fuel bytes offset slots_end more h in
          let n = next bytes offset in
          let (slots, e, all, same) = decoded_slots fuel bytes n slots_end v fits inside rest in
          let (f, here) = slot_at-slice bytes offset v (omega arith) pad in
          (
            slot_at bytes offset ∷ slots,
            rw (more, e),
            (f, all),
            ap₂ ◌++◌ here same ∙ sym (slice_split bytes offset n slots_end (omega arith) inside),
          )
      | inr done ↦ let e : slots_end - offset ≡ 0 = ground arith in ([], rw done, tt, rw e)
    ]
