-- ===== src/Wire/Reencode.antt =====
-- crates/carriage/src/wire.rs: encoding what `decode` returned gives back the bytes.
use open_ot_experiments.Prelude.{
  ℕ, ◌+◌, ◌-◌, ◌*◌, ◌≤◌, ◌≡◌, ap, ap₂, ◌∙◌, sym, Bool, true, false, List, [], ◌∷◌, ◌++◌, append-nil,
  length, take, slice, to_le_bytes, from_le_bytes, All, IsByte, IsU16, from_le_bytes-lt,
  slice-IsByte, slice_split, take_split, length-slice, to_le_bytes-slice, ok, arith, bit_and-eight,
  bit_or-eight, bit_and-not_eight, if◌then◌else◌,
}
use open_ot_experiments.Crc.{crc32c}
use open_ot_experiments.Wire.{
  Slot, DecodedRecord, sync, has_sync, has_crc, read_u16, check_crc, wire_flags, decode_header,
  encode_header, encode, decode,
}
use open_ot_experiments.Wire.Layout.{
  Fits, slots_bytes, total_len, body_bytes, trailer_bytes, encode-Fits,
}
use open_ot_experiments.Wire.Validate.{Accepts, decode-ok, Accepts-validate_record, decode-Accepts}
use open_ot_experiments.Wire.Canonical.{decoded_slots}

pub take-sync : (bytes : List ℕ) → has_sync bytes ≡ true → slice bytes 0 4 ≡ sync
unfolding has_sync
take-sync [] h = cc
take-sync (a ∷ []) h = cc
take-sync (a ∷ b ∷ []) h = cc
take-sync (a ∷ b ∷ c ∷ []) h = cc
take-sync (a ∷ b ∷ c ∷ d ∷ l) h = ground arith

module _ (bytes : List ℕ) (slots : List Slot) (v : All IsByte bytes) (h : 40 ≤ length bytes) where
  abbrev flags : ℕ
  flags = read_u16 bytes 6

  flags-IsU16 : IsU16 flags
  flags-IsU16 =
      let word = slice bytes 6 8 in
      let e : length word ≡ 2 = length-slice bytes 6 8 (omega arith) (omega arith) in
      rw e at (from_le_bytes-lt word (slice-IsByte bytes 6 8 v))

  len-IsU16 : IsU16 (read_u16 bytes 4)
  len-IsU16 =
      let word = slice bytes 4 6 in
      let e : length word ≡ 2 = length-slice bytes 4 6 (omega arith) (omega arith) in
      rw e at (from_le_bytes-lt word (slice-IsByte bytes 4 6 v))

  wire_flags-same : wire_flags flags (has_crc flags) ≡ flags
  unfolding wire_flags
  wire_flags-same = ground (
    arith,
    flags-IsU16,
    bit_and-eight flags flags-IsU16,
    bit_or-eight flags flags-IsU16,
    bit_and-not_eight flags flags-IsU16,
  )

  -- The header fields, written again.
  header-slice :
      (n : ℕ)
      → has_sync bytes ≡ true
      → read_u16 bytes 4 ≡ n
      → encode_header (decode_header bytes slots) n flags ≡ slice bytes 0 40
  unfolding encode_header decode_header
  header-slice n s e =
      ap₂ ◌++◌ (sym (take-sync bytes s)) (
        ap₂ ◌++◌ (ap (to_le_bytes 2) (sym e) ∙ word 4 2 (omega arith)) (
          ap₂ ◌++◌ (word 6 2 (omega arith)) (
            ap₂ ◌++◌ (word 8 8 (omega arith)) (
              ap₂ ◌++◌ (word 16 8 (omega arith)) (
                ap₂ ◌++◌ (word 24 8 (omega arith)) (
                  ap₂ ◌++◌ (word 32 4 (omega arith)) (word 36 4 (omega arith))
                  ∙ join 32 36 (omega arith) (omega arith))
                ∙ join 24 32 (omega arith) (omega arith))
              ∙ join 16 24 (omega arith) (omega arith))
            ∙ join 8 16 (omega arith) (omega arith))
          ∙ join 6 8 (omega arith) (omega arith))
        ∙ join 4 6 (omega arith) (omega arith))
      ∙ join 0 4 (omega arith) (omega arith)
    where
      word :
          (a n : ℕ)
          → a + n ≤ 40
          → to_le_bytes n (from_le_bytes (slice bytes a (a + n))) ≡ slice bytes a (a + n)
      word a n k = to_le_bytes-slice bytes a n v (omega arith)

      join : (a b : ℕ) → a ≤ b → b ≤ 40 → slice bytes a b ++ slice bytes b 40 ≡ slice bytes a 40
      join a b k l = sym (slice_split bytes a b 40 k l)

-- What the CRC block accepts is the trailer of what comes before it.
trailer-slice :
    (bytes : List ℕ) (n : ℕ) (c : Bool) {slots_end : ℕ}
    → All IsByte bytes
    → n ≤ length bytes
    → 40 + (if c then 1 else 0) * 4 ≤ n
    → check_crc bytes n c ≡ ok slots_end
    → (slots_end + (if c then 1 else 0) * 4 ≡ n)
      × (take slots_end bytes ++ trailer_bytes (take slots_end bytes) c ≡ take n bytes)
unfolding check_crc
trailer-slice bytes n false {slots_end} v h k e =
    let same : n ≡ slots_end = ground arith in (omega arith, rw same (append-nil _))
trailer-slice bytes n true {slots_end} v h k e =
    let same : n - 4 ≡ slots_end = ground arith in
    let n' : slots_end + 4 ≡ n = omega arith in
    let stored : from_le_bytes (slice bytes slots_end (slots_end + 4))
        ≡ crc32c (take slots_end bytes) =
      rw (← same) (ground arith) in
    (
      n',
      ap (λ l. take slots_end bytes ++ l)
            (ap (to_le_bytes 4) (sym stored) ∙ to_le_bytes-slice bytes slots_end 4 v (omega arith))
          ∙ rw n' (take_split bytes slots_end n (omega arith)),
    )

-- The fields and slots of an accepted record, encoded.
encode-decode_header :
    (bytes : List ℕ) (n slots_end : ℕ) (slots : List Slot)
    → All IsByte bytes
    → Accepts bytes n slots_end (has_crc (read_u16 bytes 6))
    → All Fits slots
    → slots_bytes slots ≡ slice bytes 40 slots_end
    → encode (decode_header bytes slots) (has_crc (read_u16 bytes 6)) ≡ ok (take n bytes)
unfolding decode_header
encode-decode_header bytes n slots_end slots v a fit same =
    let c = has_crc (read_u16 bytes 6) in
    let long : 40 ≤ length bytes = omega (arith, a.fits, a.header_fits) in
    let (whole, trailer) = trailer-slice bytes n c v a.fits a.trailer_fits a.crc_at in
    let inside : 40 ≤ slots_end = omega (arith, a.trailer_fits) in
    let size : length (slots_bytes slots) ≡ slots_end - 40 =
      ap length same ∙ length-slice bytes 40 slots_end inside (omega (arith, a.fits)) in
    let r = decode_header bytes slots in
    let total : total_len r c ≡ n = omega (arith, whole, size, inside) in
    let small : n ≤ 65535 = omega (arith, a.len_at, len-IsU16 bytes slots v long) in
    let flags_same : wire_flags r.flags c ≡ read_u16 bytes 6 = wire_flags-same bytes slots v long in
    let body : body_bytes r c ≡ take slots_end bytes =
      rw (total, flags_same)
        (ap₂ ◌++◌ (header-slice bytes slots v long n a.sync_at a.len_at) same
          ∙ take_split bytes 40 slots_end inside) in
    encode-Fits r c fit (rw total small) ∙ ap ok (rw body trailer)

-- What `decode` accepts, of a list of bytes, is the encoding of the record that it returns, with a
-- CRC if its flag says so: the wire format has one encoding for each record, and `decode` takes no
-- other.
pub encode-decode :
    (bytes : List ℕ) {d : DecodedRecord}
    → All IsByte bytes
    → decode bytes ≡ ok d
    → encode d.decoded (has_crc d.decoded.flags) ≡ ok (take d.consumed bytes)
unfolding decode_header
encode-decode bytes {d} v h =
    let (n, e) = decode-ok bytes h in
    let (slots_end, a) = Accepts-validate_record bytes e in
    let c = has_crc (read_u16 bytes 6) in
    let (whole, _) = trailer-slice bytes n c v a.fits a.trailer_fits a.crc_at in
    let (slots, e', fit, same) =
      decoded_slots slots_end bytes 40 slots_end v (omega (arith, whole, a.fits))
        (omega (arith, whole, a.trailer_fits)) a.slots_at in
    let is_d : d ≡ record { decoded = decode_header bytes slots; consumed = n } =
      cc (decode-Accepts bytes n slots_end (has_crc (read_u16 bytes 6)) slots a e') in
    rw is_d (encode-decode_header bytes n slots_end slots v a fit same)
