-- ===== src/Wire.antt =====
-- crates/carriage/src/wire.rs: the binary record, encoded and decoded.
pub mod Layout
pub mod Slots
pub mod Validate
pub mod RoundTrip
pub mod Canonical
pub mod Reencode
pub mod Total
mod Tests
use open_ot_experiments.Prelude.{
  ℕ, zero, suc, ◌+◌, ◌-◌, ◌*◌, ◌%◌, ◌^◌, ◌≡◌, Bool, true, false, ◌&&◌, not, List, [], ◌∷◌, ◌++◌,
  bit_and, bit_or, ltb, leb, ◌==◌, if◌then◌else◌, length, get_or, replicate, take, drop, slice,
  to_le_bytes, from_le_bytes, Outcome, ok, err, stuck, ◌>>=◌, ◌>>◌, ensure,
}
use open_ot_experiments.Crc.{crc32c}

abbrev pub header_len : ℕ
header_len = 40

abbrev pub crc_len : ℕ
crc_len = 4

-- ASCII `OOT2`.
abbrev pub sync : List ℕ
sync = 0x4f ∷ 0x4f ∷ 0x54 ∷ 0x32 ∷ []

abbrev pub flag_time_unsynced : ℕ
flag_time_unsynced = 1

abbrev pub flag_synthetic : ℕ
flag_synthetic = 2

abbrev pub flag_partial_payload : ℕ
flag_partial_payload = 4

abbrev pub flag_has_crc : ℕ
flag_has_crc = 8

-- `!FLAG_HAS_CRC` on a `u16`.
abbrev pub not_flag_has_crc : ℕ
not_flag_has_crc = 0xfff7

pub record Slot : Type 0 where
  pub key : ℕ
  pub ty : ℕ
  pub payload : List ℕ

pub record Record : Type 0 where
  pub flags : ℕ
  pub source_time : ℕ
  pub run_id : ℕ
  pub seq : ℕ
  pub source_id : ℕ
  pub event_type_id : ℕ
  pub slots : List Slot

pub record DecodedRecord : Type 0 where
  pub decoded : Record
  pub consumed : ℕ

pub data WireError : Type 0 where
  crc_mismatch : (expected actual : ℕ) → WireError
  invalid_length : (total_len available : ℕ) → WireError
  invalid_padding : (offset : ℕ) → WireError
  invalid_slot : (offset : ℕ) → WireError
  record_too_long : (len : ℕ) → WireError
  slot_too_long : (key len : ℕ) → WireError
  truncated : (needed available : ℕ) → WireError
  wrong_sync : WireError

abbrev pub WireResult : Type 0 → Type 0
WireResult A = Outcome WireError A

-- `Record::new`
unfoldable pub new_record : ℕ → ℕ → ℕ → ℕ → ℕ → Record
new_record source_time run_id seq source_id event_type_id = record {
  flags = 0;
  source_time = source_time;
  run_id = run_id;
  seq = seq;
  source_id = source_id;
  event_type_id = event_type_id;
  slots = [];
}

abbrev pub padding_len : ℕ → ℕ
padding_len payload_len = (4 - payload_len % 4) % 4

-- `Slot::encoded_len`
unfoldable pub encoded_len : Slot → WireResult ℕ
encoded_len s =
    let len = length s.payload in
    if ltb 255 len then err (slot_too_long s.key len) else ok (4 + len + padding_len len)

-- `Slot::encode_into`; the grown `out` is returned.
unfoldable pub encode_into : Slot → List ℕ → WireResult (List ℕ)
encode_into s out =
    let len = length s.payload in
    if ltb 255 len
    then err (slot_too_long s.key len)
    else ok (
        (((out ++ to_le_bytes 2 s.key) ++ s.ty ∷ len ∷ []) ++ s.payload)
        ++ replicate (padding_len len) 0)

-- The first loop of `Record::encode`, which adds up the lengths.
unfoldable pub slots_len : List Slot → ℕ → WireResult ℕ
slots_len [] sum = ok sum
slots_len (s ∷ slots) sum = do n ← encoded_len s; slots_len slots (sum + n)

-- The second loop of `Record::encode`, which writes the slots.
unfoldable pub encode_slots : List Slot → List ℕ → WireResult (List ℕ)
encode_slots [] out = ok out
encode_slots (s ∷ slots) out = do out' ← encode_into s out; encode_slots slots out'

-- The flags that `Record::encode` writes.
unfoldable pub wire_flags : ℕ → Bool → ℕ
wire_flags flags with_crc =
    if with_crc then bit_or flags flag_has_crc else bit_and flags not_flag_has_crc

-- The header fields that `Record::encode` writes.
unfoldable pub encode_header : Record → ℕ → ℕ → List ℕ
encode_header r total_len flags =
    sync
    ++ (to_le_bytes 2 total_len
        ++ (to_le_bytes 2 flags
            ++ (to_le_bytes 8 r.source_time
                ++ (to_le_bytes 8 r.run_id
                    ++ (to_le_bytes 8 r.seq
                        ++ (to_le_bytes 4 r.source_id ++ to_le_bytes 4 r.event_type_id))))))

-- `Record::encode`
unfoldable pub encode : Record → Bool → WireResult (List ℕ)
encode r with_crc = do
  len ← slots_len r.slots 0
  let total_len = header_len + len + (if with_crc then 1 else 0) * crc_len
  ensure (leb total_len 65535) (record_too_long total_len)
  out ← encode_slots r.slots (encode_header r total_len (wire_flags r.flags with_crc))
  ok (if with_crc then out ++ to_le_bytes 4 (crc32c out) else out)

abbrev pub read_u16 : List ℕ → ℕ → ℕ
read_u16 bytes offset = from_le_bytes (slice bytes offset (offset + 2))

abbrev pub read_u32 : List ℕ → ℕ → ℕ
read_u32 bytes offset = from_le_bytes (slice bytes offset (offset + 4))

abbrev pub read_u64 : List ℕ → ℕ → ℕ
read_u64 bytes offset = from_le_bytes (slice bytes offset (offset + 8))

-- `bytes[..4] != SYNC`, for a slice of at least four bytes.
unfoldable pub has_sync : List ℕ → Bool
has_sync (a ∷ b ∷ c ∷ d ∷ rest) = (a == 0x4f) && (b == 0x4f) && (c == 0x54) && (d == 0x32)
has_sync _ = false

-- `flags & FLAG_HAS_CRC != 0`
abbrev pub has_crc : ℕ → Bool
has_crc flags = not (bit_and flags flag_has_crc == 0)

-- The loop over the padding bytes of a slot, the first of which stands at `offset`.
unfoldable pub check_padding : List ℕ → ℕ → WireResult (Unit {0})
check_padding [] offset = ok tt
check_padding (byte ∷ bytes) offset =
    if byte == 0 then check_padding bytes (offset + 1) else err (invalid_padding offset)

-- The slot loop of `validate_record`, on fuel.
unfoldable pub validate_slots : ℕ → List ℕ → ℕ → ℕ → WireResult (Unit {0})
validate_slots zero bytes offset slots_end = if ltb offset slots_end then stuck else ok tt
validate_slots (suc fuel) bytes offset slots_end =
    let len = get_or bytes (offset + 3) 0 in
    let payload_end = offset + 4 + len in
    let next = payload_end + padding_len len in
    let step : WireResult (Unit {0}) = (do
      ensure (leb 4 (slots_end - offset)) (invalid_slot offset)
      ensure (leb payload_end slots_end) (invalid_slot offset)
      ensure (leb next slots_end) (invalid_slot offset)
      check_padding (slice bytes payload_end next) payload_end
      validate_slots fuel bytes next slots_end) in
    if ltb offset slots_end then step else ok tt

-- The CRC block of `validate_record`: the end of the slots.
unfoldable pub check_crc : List ℕ → ℕ → Bool → WireResult ℕ
check_crc bytes total_len false = ok total_len
check_crc bytes total_len true = do
  let trailer = total_len - crc_len
  let expected = read_u32 bytes trailer
  let actual = crc32c (take trailer bytes)
  ensure (expected == actual) (crc_mismatch expected actual)
  ok trailer

unfoldable pub validate_record : List ℕ → WireResult ℕ
validate_record bytes = do
  ensure (leb header_len (length bytes)) (truncated header_len (length bytes))
  ensure (has_sync bytes) wrong_sync
  let total_len = read_u16 bytes 4
  ensure (leb header_len total_len) (invalid_length total_len (length bytes))
  ensure (leb total_len (length bytes)) (truncated total_len (length bytes))
  let with_crc = has_crc (read_u16 bytes 6)
  ensure (not (with_crc && ltb total_len (header_len + crc_len)))
      (invalid_length total_len (length bytes))
  slots_end ← check_crc bytes total_len with_crc
  validate_slots slots_end bytes header_len slots_end
  ok total_len

-- The slot loop of `decode`, on fuel.
unfoldable pub decode_slots : ℕ → List ℕ → ℕ → ℕ → WireResult (List Slot)
decode_slots zero bytes offset slots_end = if ltb offset slots_end then stuck else ok []
decode_slots (suc fuel) bytes offset slots_end =
    let len = get_or bytes (offset + 3) 0 in
    let payload_end = offset + 4 + len in
    let slot : Slot = record {
      key = read_u16 bytes offset;
      ty = get_or bytes (offset + 2) 0;
      payload = slice bytes (offset + 4) payload_end;
    } in
    let step : WireResult (List Slot) = (do
      slots ← decode_slots fuel bytes (payload_end + padding_len len) slots_end
      ok (slot ∷ slots)) in
    if ltb offset slots_end then step else ok []

-- The fields of a header, with the slots that follow it.
unfoldable pub decode_header : List ℕ → List Slot → Record
decode_header bytes slots = record {
  flags = read_u16 bytes 6;
  source_time = read_u64 bytes 8;
  run_id = read_u64 bytes 16;
  seq = read_u64 bytes 24;
  source_id = read_u32 bytes 32;
  event_type_id = read_u32 bytes 36;
  slots = slots;
}

unfoldable pub decode : List ℕ → WireResult DecodedRecord
decode bytes = do
  total_len ← validate_record bytes
  let slots_end = (if has_crc (read_u16 bytes 6) then total_len - crc_len else total_len)
  slots ← decode_slots slots_end bytes header_len slots_end
  ok (record { decoded = decode_header bytes slots; consumed = total_len })
