-- ===== src/Ring/Accepts.antt =====
-- crates/carriage/src/ring.rs: which records the ring takes.
use open_ot_experiments.Prelude.{
  ℕ, ◌≤◌, ◌<◌, ◌≡◌, ◌≢◌, ◌⊎◌, inl, inr, Bool, true, List, [], ◌∷◌, arith, length, leb,
  Outcome-cases, Bool-cases, >>=-eq-stuck, ensure-ne-stuck, ok, err, stuck, ensure, ◌+◌, ◌*◌,
  if◌then◌else◌,
}
use open_ot_experiments.Wire.{
  Record, Slot, WireError, encode, encode_slots, slots_len, encode_into, encoded_len, header_len,
  crc_len, record_too_long, encode_header, wire_flags,
}
use open_ot_experiments.Ring.{write_record}
use open_ot_experiments.Ring.Types.{RingBuffer, record_exceeds_capacity, wire}

encoded_len-ne-stuck : (s : Slot) → encoded_len s ≢ stuck
unfolding encoded_len
encoded_len-ne-stuck s h = ground arith

encode_into-ne-stuck : (s : Slot) (out : List ℕ) → encode_into s out ≢ stuck
unfolding encode_into
encode_into-ne-stuck s out h = ground arith

slots_len-ne-stuck : (slots : List Slot) (sum : ℕ) → slots_len slots sum ≢ stuck
unfolding slots_len
slots_len-ne-stuck [] sum h = cc
slots_len-ne-stuck (s ∷ slots) sum h = elim (>>=-eq-stuck (encoded_len s) _ h) [
  | inl e ↦ encoded_len-ne-stuck s e
  | inr (n, _, later) ↦ slots_len-ne-stuck slots _ later
]

encode_slots-ne-stuck : (slots : List Slot) (out : List ℕ) → encode_slots slots out ≢ stuck
unfolding encode_slots
encode_slots-ne-stuck [] out h = cc
encode_slots-ne-stuck (s ∷ slots) out h = elim (>>=-eq-stuck (encode_into s out) _ h) [
  | inl e ↦ encode_into-ne-stuck s out e
  | inr (n, _, later) ↦ encode_slots-ne-stuck slots _ later
]

encode-ne-stuck : (x : Record) (c : Bool) → encode x c ≢ stuck
unfolding encode
encode-ne-stuck x c h = elim (>>=-eq-stuck (slots_len x.slots 0) _ h) [
  | inl e ↦ slots_len-ne-stuck x.slots 0 e
  | inr (n, _, h1) ↦
      let total = header_len + n + (if c then 1 else 0) * crc_len in
      elim (>>=-eq-stuck (ensure (leb total 65535) (record_too_long total)) _ h1) [
        | inl e ↦ ensure-ne-stuck (leb total 65535) (record_too_long total) e
        | inr (_, _, h2) ↦
            elim (>>=-eq-stuck (encode_slots x.slots (encode_header x total (wire_flags x.flags c)))
              _ h2) [
                | inl e ↦
                    encode_slots-ne-stuck x.slots (encode_header x total (wire_flags x.flags c)) e
                | inr (_, _, h3) ↦ cc
              ]
      ]
]

-- The ways a write ends.
pub write_record_outcome :
    (r : RingBuffer) (x : Record)
    → ((e : WireError) × (encode x true ≡ err e) × (write_record r x ≡ err (wire e)))
      ⊎ (((bytes : List ℕ) × (encode x true ≡ ok bytes)
            × (length r.bytes < length bytes)
            × (write_record r x ≡ err (record_exceeds_capacity (length bytes) (length r.bytes))))
          ⊎ ((bytes : List ℕ) × (encode x true ≡ ok bytes)
              × (length bytes ≤ length r.bytes)
              × (span : ℕ × ℕ) × (r' : RingBuffer) × (write_record r x ≡ ok (span, r'))))
unfolding write_record
write_record_outcome r x = elim (Outcome-cases (encode x true) (encode-ne-stuck x true)) [
  | inl (e, bad) ↦ inl (e, bad, rw bad)
  | inr (bytes, good) ↦ elim (Bool-cases (leb (length bytes) (length r.bytes))) [
    | inl t ↦ elim (Outcome-cases (write_record r x) (λ h. (let bad = rw (good, t) at h in cc))) [
      | inl (e, failed) ↦ (let bad = rw (good, t) at failed in cc)
      | inr ((span, r'), written) ↦ inr (inr (bytes, good, ground arith, span, r', written))
    ]
    | inr f ↦ inr (inl (bytes, good, ground arith, rw (good, f)))
  ]
]
