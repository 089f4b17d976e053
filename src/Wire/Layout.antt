-- ===== src/Wire/Layout.antt =====
-- crates/carriage/src/wire.rs: the bytes that `Record::encode` writes, field by field.
use open_ot_experiments.Prelude.{
  ℕ, ◌+◌, ◌*◌, ◌≤◌, ◌≡◌, refl, ap, ◌∙◌, sym, Bool, true, false, List, [], ◌∷◌, ◌++◌, append-nil,
  append_assoc, length, length-append, length-replicate, replicate, to_le_bytes, All, IsByte, IsU16,
  IsU32, IsU64, ok, >>=-eq-ok, arith, if◌then◌else◌, leb, ensure, Outcome,
}
use open_ot_experiments.Crc.{crc32c}
use open_ot_experiments.Wire.{
  Slot, Record, header_len, padding_len, encoded_len, encode_into, slots_len, encode_slots,
  WireError, record_too_long, wire_flags, encode_header, encode,
}

-- The range of each field's Rust type.
pub record IsSlot (s : Slot) : Type 0 where
  pub key_fits : IsU16 s.key
  pub ty_fits : IsByte s.ty
  pub payload_fits : All IsByte s.payload

pub record IsRecord (r : Record) : Type 0 where
  pub flags_fits : IsU16 r.flags
  pub source_time_fits : IsU64 r.source_time
  pub run_id_fits : IsU64 r.run_id
  pub seq_fits : IsU64 r.seq
  pub source_id_fits : IsU32 r.source_id
  pub event_type_id_fits : IsU32 r.event_type_id
  pub slots_fit : All IsSlot r.slots

-- A payload that the length byte can count.
abbrev pub Fits : Slot → Type 0
Fits s = length s.payload ≤ 255

abbrev pub slot_bytes : Slot → List ℕ
slot_bytes s =
    to_le_bytes 2 s.key
    ++ (s.ty ∷ length s.payload ∷ (s.payload ++ replicate (padding_len (length s.payload)) 0))

abbrev pub slots_bytes : List Slot → List ℕ
slots_bytes [] = []
slots_bytes (s ∷ slots) = slot_bytes s ++ slots_bytes slots

pub length-slot_bytes :
    (s : Slot) → length (slot_bytes s) ≡ 4 + length s.payload + padding_len (length s.payload)
length-slot_bytes s = omega (
  arith,
  length-append s.payload (replicate (padding_len (length s.payload)) 0),
  length-replicate (padding_len (length s.payload)) (let z : ℕ = 0 in z),
)

pub encode_into-ok :
    (s : Slot) (out : List ℕ) {out' : List ℕ}
    → encode_into s out ≡ ok out'
    → Fits s × (out' ≡ out ++ slot_bytes s)
unfolding encode_into
encode_into-ok s out h = ground (
  arith,
  append_assoc out (to_le_bytes 2 s.key) (s.ty ∷ length s.payload ∷ []),
  append_assoc out (to_le_bytes 2 s.key ++ s.ty ∷ length s.payload ∷ []) s.payload,
  append_assoc out (to_le_bytes 2 s.key ++ s.ty ∷ length s.payload ∷ s.payload)
      (replicate (padding_len (length s.payload)) 0),
)

pub encoded_len-ok :
    (s : Slot) {n : ℕ} → encoded_len s ≡ ok n → Fits s × (n ≡ length (slot_bytes s))
unfolding encoded_len
encoded_len-ok s h = ground (arith, length-slot_bytes s)

pub slots_len-ok :
    (slots : List Slot) (sum : ℕ) {n : ℕ}
    → slots_len slots sum ≡ ok n
    → All Fits slots × (n ≡ sum + length (slots_bytes slots))
unfolding slots_len
slots_len-ok [] sum h = ground arith
slots_len-ok (s ∷ slots) sum h =
    let (n, e, rest) = >>=-eq-ok (encoded_len s) (λ n. slots_len slots (sum + n)) h in
    let (fits, e') = encoded_len-ok s e in
    let (all, e'') = slots_len-ok slots (sum + n) rest in
    ((fits, all), omega (arith, length-append (slot_bytes s) (slots_bytes slots)))

pub encode_slots-ok :
    (slots : List Slot) (out : List ℕ) {out' : List ℕ}
    → encode_slots slots out ≡ ok out'
    → out' ≡ out ++ slots_bytes slots
unfolding encode_slots
encode_slots-ok [] out h = ground (arith, append-nil out)
encode_slots-ok (s ∷ slots) out h =
    let (o, e, rest) = >>=-eq-ok (encode_into s out) (λ o. encode_slots slots o) h in
    let (fits, e') = encode_into-ok s out e in
    encode_slots-ok slots o rest
    ∙ ap (λ l. l ++ slots_bytes slots) e'
    ∙ append_assoc out (slot_bytes s) (slots_bytes slots)

-- The length that `encode` writes into the header.
abbrev pub total_len : Record → Bool → ℕ
total_len r with_crc = header_len + length (slots_bytes r.slots) + (if with_crc then 1 else 0) * 4

-- All that comes before the trailer.
abbrev pub body_bytes : Record → Bool → List ℕ
body_bytes r with_crc =
    encode_header r (total_len r with_crc) (wire_flags r.flags with_crc) ++ slots_bytes r.slots

abbrev pub trailer_bytes : List ℕ → Bool → List ℕ
trailer_bytes body true = to_le_bytes 4 (crc32c body)
trailer_bytes body false = []

close_body :
    (c : Bool) {out body bytes : List ℕ}
    → out ≡ body
    → ◌≡◌ {A = Outcome WireError (List ℕ)}
        (ok (if c then out ++ to_le_bytes 4 (crc32c out) else out))
        (ok bytes)
    → bytes ≡ body ++ trailer_bytes body c
close_body true p h = ground arith
close_body false {body = b} p h = ground (arith, append-nil b)

pub encode-ok :
    (r : Record) (with_crc : Bool) {bytes : List ℕ}
    → encode r with_crc ≡ ok bytes
    → All Fits r.slots
      × (total_len r with_crc ≤ 65535)
      × (bytes ≡ body_bytes r with_crc ++ trailer_bytes (body_bytes r with_crc) with_crc)
unfolding encode
encode-ok r with_crc {bytes} h =
    let (len, e, h') = >>=-eq-ok (slots_len r.slots 0) _ h in
    let (fits, e') = slots_len-ok r.slots 0 e in
    let t = total_len r with_crc in
    let same : len ≡ length (slots_bytes r.slots) = omega arith in
    let (_, small, h'') = >>=-eq-ok (ensure (leb t 65535) (record_too_long t)) _ (rw same at h') in
    let (out, e'', final) =
      >>=-eq-ok (encode_slots r.slots (encode_header r t (wire_flags r.flags with_crc))) _ h'' in
    (fits, ground arith, close_body with_crc (encode_slots-ok r.slots _ e'') final)

slots_len-Fits :
    (slots : List Slot) (sum : ℕ)
    → All Fits slots
    → slots_len slots sum ≡ ok (sum + length (slots_bytes slots))
unfolding slots_len encoded_len
slots_len-Fits [] sum h = ap ok (omega arith)
slots_len-Fits (s ∷ slots) sum (f, h) = ground (
  arith,
  length-slot_bytes s,
  length-append (slot_bytes s) (slots_bytes slots),
  slots_len-Fits slots (sum + (4 + length s.payload + padding_len (length s.payload))) h,
)

encode_into-Fits : (s : Slot) (out : List ℕ) → Fits s → encode_into s out ≡ ok (out ++ slot_bytes s)
unfolding encode_into
encode_into-Fits s out f = ground (
  arith,
  append_assoc out (to_le_bytes 2 s.key) (s.ty ∷ length s.payload ∷ []),
  append_assoc out (to_le_bytes 2 s.key ++ s.ty ∷ length s.payload ∷ []) s.payload,
  append_assoc out (to_le_bytes 2 s.key ++ s.ty ∷ length s.payload ∷ s.payload)
      (replicate (padding_len (length s.payload)) 0),
)

encode_slots-Fits :
    (slots : List Slot) (out : List ℕ)
    → All Fits slots
    → encode_slots slots out ≡ ok (out ++ slots_bytes slots)
unfolding encode_slots
encode_slots-Fits [] out h = ap ok (sym (append-nil out))
encode_slots-Fits (s ∷ slots) out (f, h) = rw (
  encode_into-Fits s out f,
  encode_slots-Fits slots (out ++ slot_bytes s) h,
  append_assoc out (slot_bytes s) (slots_bytes slots),
)

-- A record whose slots and length fit is encoded.
pub encode-Fits :
    (r : Record) (c : Bool)
    → All Fits r.slots
    → total_len r c ≤ 65535
    → encode r c ≡ ok (body_bytes r c ++ trailer_bytes (body_bytes r c) c)
unfolding encode
encode-Fits r c h small =
    let e : 0 + length (slots_bytes r.slots) ≡ length (slots_bytes r.slots) = omega arith in
    let t : leb (total_len r c) 65535 ≡ true = ground arith in
    rw
      (
        slots_len-Fits r.slots 0 h,
        e,
        t,
        encode_slots-Fits r.slots (encode_header r (total_len r c) (wire_flags r.flags c)) h,
      )
      (close c _)
  where
    close :
        (c : Bool) (out : List ℕ)
        → ◌≡◌ {A = Outcome WireError (List ℕ)}
            (ok (if c then out ++ to_le_bytes 4 (crc32c out) else out))
            (ok (out ++ trailer_bytes out c))
    close true out = refl
    close false out = ap ok (sym (append-nil out))
