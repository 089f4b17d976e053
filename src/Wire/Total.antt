-- ===== src/Wire/Total.antt =====
-- crates/carriage/src/wire.rs: the slot loops end, and `decode` fails exactly where
-- `validate_record` does.
use open_ot_experiments.Prelude.{
  ℕ, zero, suc, ◌+◌, ◌-◌, ◌≤◌, ◌≡◌, ◌≢◌, ◌⊎◌, inl, inr, List, [], ◌∷◌, ok, err, stuck,
  Outcome-cases, arith, get_or, slice, ltb, if◌then◌else◌, Bool-cases,
}
use open_ot_experiments.Wire.{
  Slot, DecodedRecord, WireError, padding_len, has_crc, read_u16, check_padding, validate_slots,
  decode_slots, check_crc, validate_record, decode_header, decode,
}

check_padding-ne-stuck : (l : List ℕ) (at : ℕ) → check_padding l at ≢ stuck
unfolding check_padding
check_padding-ne-stuck [] at e = cc
check_padding-ne-stuck (b ∷ l) at e = ground (arith, check_padding-ne-stuck l (at + 1))

pub validate_slots-ne-stuck :
    (fuel : ℕ) (bytes : List ℕ) (offset slots_end : ℕ)
    → slots_end ≤ offset + fuel
    → validate_slots fuel bytes offset slots_end ≢ stuck
unfolding validate_slots
validate_slots-ne-stuck zero bytes offset slots_end h e = ground arith
validate_slots-ne-stuck (suc fuel) bytes offset slots_end h e =
    let len = get_or bytes (offset + 3) 0 in
    let payload_end = offset + 4 + len in
    let next = payload_end + padding_len len in
    ground (
      arith,
      check_padding-ne-stuck (slice bytes payload_end next) payload_end,
      validate_slots-ne-stuck fuel bytes next slots_end (omega arith),
    )

-- The decoding loop has no error of its own.
pub decode_slots_total :
    (fuel : ℕ) (bytes : List ℕ) (offset slots_end : ℕ)
    → slots_end ≤ offset + fuel
    → (slots : List Slot) × (decode_slots fuel bytes offset slots_end ≡ ok slots)
unfolding decode_slots
decode_slots_total zero bytes offset slots_end h = ([], ground arith)
decode_slots_total (suc fuel) bytes offset slots_end h =
    let len = get_or bytes (offset + 3) 0 in
    let next = offset + 4 + len + padding_len len in
    let slot : Slot = record {
      key = read_u16 bytes offset;
      ty = get_or bytes (offset + 2) 0;
      payload = slice bytes (offset + 4) (offset + 4 + len);
    } in
    let (slots, e) = decode_slots_total fuel bytes next slots_end (omega arith) in
    elim (Bool-cases (ltb offset slots_end)) [
      | inl more ↦ (slot ∷ slots, rw (more, e))
      | inr done ↦ ([], rw done)
    ]

pub validate_record-ne-stuck : (bytes : List ℕ) → validate_record bytes ≢ stuck
unfolding validate_record check_crc
validate_record-ne-stuck bytes e =
    let n = read_u16 bytes 4 in
    ground (
      arith,
      validate_slots-ne-stuck n bytes 40 n (omega arith),
      validate_slots-ne-stuck (n - 4) bytes 40 (n - 4) (omega arith),
    )

-- `decode` rejects exactly what `validate_record` rejects, with the same error, and what it
-- accepts has the length that `validate_record` returns: neither loop fails to end.
pub decode_outcome :
    (bytes : List ℕ)
    → ((e : WireError) × (validate_record bytes ≡ err e) × (decode bytes ≡ err e))
      ⊎ ((d : DecodedRecord) × (validate_record bytes ≡ ok d.consumed) × (decode bytes ≡ ok d))
unfolding decode
decode_outcome bytes =
    elim (Outcome-cases (validate_record bytes) (validate_record-ne-stuck bytes)) [
      | inl (e, bad) ↦ inl (e, bad, rw bad)
      | inr (n, good) ↦
          let slots_end = if has_crc (read_u16 bytes 6) then n - 4 else n in
          let (slots, e) = decode_slots_total slots_end bytes 40 slots_end (omega arith) in
          inr (record { decoded = decode_header bytes slots; consumed = n }, good, rw (good, e))
    ]

pub decode-ne-stuck : (bytes : List ℕ) → decode bytes ≢ stuck
decode-ne-stuck bytes e = elim (decode_outcome bytes) [
  | inl (_, _, bad) ↦ cc
  | inr (_, _, good) ↦ cc
]
