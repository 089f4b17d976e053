-- ===== src/Wire/RoundTrip.antt =====
-- crates/carriage/src/wire.rs: `decode` reads back what `Record::encode` wrote.
use open_ot_experiments.Prelude.{
  ℕ, ◌+◌, ◌-◌, ◌*◌, ◌/◌, ◌%◌, ◌≤◌, ◌≡◌, refl, ap, ◌∙◌, sym, Bool, true, false, List, [], ◌++◌,
  append_assoc, append-nil, length, length-append, drop, slice, take-append, drop-append,
  to_le_bytes, from_le_bytes-to_le_bytes, ok, arith, IsU16, IsU32, bit_and-eight, bit_or-eight,
  bit_and-not_eight, ==_refl, if◌then◌else◌,
}
use open_ot_experiments.Crc.{crc32c}
use open_ot_experiments.Wire.{
  Record, header_len, has_crc, has_sync, read_u16, wire_flags, encode_header, encode, sync,
  check_crc, decode_header, decode,
}
use open_ot_experiments.Wire.Layout.{
  IsRecord, slots_bytes, total_len, body_bytes, trailer_bytes, encode-ok,
}
use open_ot_experiments.Wire.Validate.{Accepts, decode-Accepts}
use open_ot_experiments.Wire.Slots.{slice_at, validate_slots-slots_bytes, decode_slots-slots_bytes}

pub wire_flags-IsU16 : (f : ℕ) (c : Bool) → IsU16 f → IsU16 (wire_flags f c)
unfolding wire_flags
wire_flags-IsU16 f true h = omega (arith, bit_or-eight f h)
wire_flags-IsU16 f false h = omega (arith, bit_and-not_eight f h)

-- The CRC flag on the wire says whether there is a trailer.
pub has_crc-wire_flags : (f : ℕ) (c : Bool) → IsU16 f → has_crc (wire_flags f c) ≡ c
unfolding wire_flags
has_crc-wire_flags f true h =
    ground (arith, bit_or-eight f h, bit_and-eight (f - f / 8 % 2 * 8 + 8) (omega arith))
has_crc-wire_flags f false h =
    ground (arith, bit_and-not_eight f h, bit_and-eight (f - f / 8 % 2 * 8) (omega arith))

pub crc32c-IsU32 : (bytes : List ℕ) → IsU32 (crc32c bytes)
unfolding crc32c
crc32c-IsU32 bytes = omega arith

pub length-body_bytes :
    (r : Record) (c : Bool) → length (body_bytes r c) ≡ header_len + length (slots_bytes r.slots)
unfolding encode_header
length-body_bytes r c = omega arith

pub length-trailer_bytes :
    (body : List ℕ) (c : Bool) → length (trailer_bytes body c) ≡ (if c then 1 else 0) * 4
length-trailer_bytes body true = refl
length-trailer_bytes body false = refl

-- The encoding has the length that its header says.
pub length-encode :
    (r : Record) (c : Bool) {bytes : List ℕ} → encode r c ≡ ok bytes → length bytes ≡ total_len r c
length-encode r c h =
    let (_, _, e) = encode-ok r c h in
    let body = body_bytes r c in
    ap length e
    ∙ omega (
      arith,
      length-append body (trailer_bytes body c),
      length-body_bytes r c,
      length-trailer_bytes body c,
    )

-- The CRC block accepts a body under its trailer, and finds the end of the slots.
check_crc-trailer_bytes :
    (c : Bool) (body rest : List ℕ) (n : ℕ)
    → n ≡ length body + (if c then 1 else 0) * 4
    → check_crc (body ++ (trailer_bytes body c ++ rest)) n c ≡ ok (length body)
unfolding check_crc
check_crc-trailer_bytes false body rest n e = ap ok (omega arith)
check_crc-trailer_bytes true body rest n e =
    let k : n - 4 ≡ length body = omega arith in
    let crc = crc32c body in
    let stored =
      slice_at (body ++ (to_le_bytes 4 crc ++ rest)) (length body) 4 (to_le_bytes 4 crc) rest
        (drop-append body _) refl in
    rw (k, take-append, stored, from_le_bytes-to_le_bytes 4 crc (crc32c-IsU32 body), ==_refl)

module _ (r : Record) (c : Bool) (rest : List ℕ) (v : IsRecord r)
    (small : total_len r c ≤ 65535) where
  abbrev wire : List ℕ
  wire = body_bytes r c ++ (trailer_bytes (body_bytes r c) c ++ rest)

  read_len : read_u16 wire 4 ≡ total_len r c
  unfolding encode_header
  read_len = from_le_bytes-to_le_bytes 2 (total_len r c) (omega arith)

  read_flags : read_u16 wire 6 ≡ wire_flags r.flags c
  unfolding encode_header
  read_flags =
      from_le_bytes-to_le_bytes 2 (wire_flags r.flags c) (wire_flags-IsU16 r.flags c v.flags_fits)

  wire_sync : has_sync wire ≡ true
  unfolding encode_header has_sync
  wire_sync = refl

  length-wire : total_len r c ≤ length wire
  length-wire = omega (
    arith,
    length-append (body_bytes r c) (trailer_bytes (body_bytes r c) c ++ rest),
    length-append (trailer_bytes (body_bytes r c) c) rest,
    length-body_bytes r c,
    length-trailer_bytes (body_bytes r c) c,
  )

  wire_slots : drop 40 wire ≡ slots_bytes r.slots ++ (trailer_bytes (body_bytes r c) c ++ rest)
  unfolding encode_header
  wire_slots = refl

  wire_crc : check_crc wire (total_len r c) c ≡ ok (length (body_bytes r c))
  wire_crc =
      check_crc-trailer_bytes c (body_bytes r c) rest _ (omega (arith, length-body_bytes r c))

  wire-Accepts : Accepts wire (total_len r c) (length (body_bytes r c)) c
  wire-Accepts = record {
    sync_at = wire_sync;
    len_at = read_len;
    flag_at = rw read_flags (has_crc-wire_flags r.flags c v.flags_fits);
    header_fits = omega arith;
    fits = length-wire;
    trailer_fits = omega arith;
    crc_at = wire_crc;
    slots_at =
        validate_slots-slots_bytes r.slots _ wire 40 _ _ wire_slots (length-body_bytes r c)
          (omega (arith, length-body_bytes r c));
  }

  header-wire : decode_header wire r.slots ≡ record r { flags = wire_flags r.flags c }
  unfolding decode_header encode_header
  header-wire = λ i. record {
    flags =
        from_le_bytes-to_le_bytes 2 (wire_flags r.flags c) (wire_flags-IsU16 r.flags c v.flags_fits)
          i;
    source_time = from_le_bytes-to_le_bytes 8 r.source_time (omega arith) i;
    run_id = from_le_bytes-to_le_bytes 8 r.run_id (omega arith) i;
    seq = from_le_bytes-to_le_bytes 8 r.seq (omega arith) i;
    source_id = from_le_bytes-to_le_bytes 4 r.source_id (omega arith) i;
    event_type_id = from_le_bytes-to_le_bytes 4 r.event_type_id (omega arith) i;
    slots = r.slots;
  }

  decode-wire :
      decode wire
      ≡ ok
          (record { decoded = record r { flags = wire_flags r.flags c }; consumed = total_len r c })
  decode-wire =
      decode-Accepts wire (total_len r c) (length (body_bytes r c)) c r.slots wire-Accepts (
        decode_slots-slots_bytes r.slots _ wire 40 _ _ v.slots_fit wire_slots
          (length-body_bytes r c) (omega (arith, length-body_bytes r c)))
      ∙ ap (λ x. ok (record { decoded = x; consumed = total_len r c })) header-wire

-- `decode` returns the record that `encode` wrote, with the CRC flag set or cleared to match, and
-- its length; bytes that follow the record are left alone. The fields of the record fit their
-- widths.
pub decode-encode :
    (r : Record) (c : Bool) (rest : List ℕ) {bytes : List ℕ}
    → IsRecord r
    → encode r c ≡ ok bytes
    → decode (bytes ++ rest)
      ≡ ok (record { decoded = record r { flags = wire_flags r.flags c }; consumed = length bytes })
decode-encode r c rest v h =
    let (fits, small, e) = encode-ok r c h in
    let body = body_bytes r c in
    rw (length-encode r c h, e, append_assoc body (trailer_bytes body c) rest)
      (decode-wire r c rest v small)

-- What a reader sees first of an encoding.
pub encode_front :
    (r : Record) (c : Bool) {bytes : List ℕ}
    → IsRecord r
    → encode r c ≡ ok bytes
    → (has_sync (slice bytes 0 4) ≡ true)
      × (slice bytes 0 4 ≡ sync)
      × (read_u16 bytes 4 ≡ length bytes)
      × (header_len ≤ length bytes)
unfolding encode_header has_sync
encode_front r c {bytes} v h =
    let (fits, small, e) = encode-ok r c h in
    let n = length-encode r c h in
    let e' : bytes ≡ body_bytes r c ++ (trailer_bytes (body_bytes r c) c ++ []) =
      e ∙ ap (λ t. body_bytes r c ++ t) (sym (append-nil _)) in
    (
      rw e' refl,
      rw e' refl,
      rw n (ap (λ l. read_u16 l 4) e' ∙ read_len r c [] v small),
      omega arith,
    )

pub encode-has_crc :
    (r : Record) (c : Bool) {bytes : List ℕ}
    → IsRecord r
    → encode r c ≡ ok bytes
    → has_crc (read_u16 bytes 6) ≡ c
encode-has_crc r c {bytes} v h =
    let (fits, small, e) = encode-ok r c h in
    let e' : bytes ≡ body_bytes r c ++ (trailer_bytes (body_bytes r c) c ++ []) =
      e ∙ ap (λ t. body_bytes r c ++ t) (sym (append-nil _)) in
    rw e' ((wire-Accepts r c [] v small).flag_at)
