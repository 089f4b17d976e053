-- ===== src/Wire/Validate.antt =====
-- crates/carriage/src/wire.rs: exactly what `validate_record` accepts.
use open_ot_experiments.Prelude.{
  ℕ, ◌+◌, ◌-◌, ◌*◌, ◌≤◌, ◌≡◌, refl, sym, ap, Bool, true, false, List, not, ◌&&◌, length, ok,
  >>=-eq-ok, ok-injective, ensure, arith, leb, ltb, if◌then◌else◌,
}
use open_ot_experiments.Wire.{
  header_len, crc_len, has_crc, has_sync, read_u16, check_crc, validate_record, validate_slots,
  truncated, wrong_sync, invalid_length, WireError, Slot, DecodedRecord, decode_slots,
  decode_header, decode,
}

-- The conditions on a record of `n` bytes whose slots end at `slots_end`.
pub record Accepts (bytes : List ℕ) (n slots_end : ℕ) (c : Bool) : Type 0 where
  pub sync_at : has_sync bytes ≡ true
  pub len_at : read_u16 bytes 4 ≡ n
  pub flag_at : has_crc (read_u16 bytes 6) ≡ c
  pub header_fits : header_len ≤ n
  pub fits : n ≤ length bytes
  pub trailer_fits : header_len + (if c then 1 else 0) * crc_len ≤ n
  pub crc_at : check_crc bytes n c ≡ ok slots_end
  pub slots_at : validate_slots slots_end bytes header_len slots_end ≡ ok tt

pub validate_record-Accepts :
    (bytes : List ℕ) (n slots_end : ℕ) (c : Bool)
    → Accepts bytes n slots_end c
    → validate_record bytes ≡ ok n
unfolding validate_record
validate_record-Accepts bytes n slots_end true a = ground arith
validate_record-Accepts bytes n slots_end false a = ground arith

ensure-eq-ok : (t : Bool) (e : WireError) → ensure t e ≡ ok tt → t ≡ true
ensure-eq-ok t e h = ground arith

no_short_trailer :
    (c : Bool) (n : ℕ) → 40 ≤ n → not (c && ltb n 44) ≡ true → 40 + (if c then 1 else 0) * 4 ≤ n
no_short_trailer true n l h = ground arith
no_short_trailer false n l h = ground arith

pub Accepts-validate_record :
    (bytes : List ℕ) {n : ℕ}
    → validate_record bytes ≡ ok n
    → (slots_end : ℕ) × Accepts bytes n slots_end (has_crc (read_u16 bytes 6))
unfolding validate_record
Accepts-validate_record bytes {n} h =
    let (_, enough, h1) =
      >>=-eq-ok (ensure (leb 40 (length bytes)) (truncated 40 (length bytes))) _ h in
    let (_, sync, h2) = >>=-eq-ok (ensure (has_sync bytes) wrong_sync) _ h1 in
    let len = read_u16 bytes 4 in
    let c = has_crc (read_u16 bytes 6) in
    let e = invalid_length len (length bytes) in
    let (_, header, h3) = >>=-eq-ok (ensure (leb 40 len) e) _ h2 in
    let (_, fits, h4) =
      >>=-eq-ok (ensure (leb len (length bytes)) (truncated len (length bytes))) _ h3 in
    let (_, short, h5) = >>=-eq-ok (ensure (not (c && ltb len 44)) e) _ h4 in
    let (slots_end, crc, h6) = >>=-eq-ok (check_crc bytes len c) _ h5 in
    let (_, slots, h7) = >>=-eq-ok (validate_slots slots_end bytes 40 slots_end) _ h6 in
    let same : len ≡ n = ground arith in
    let large : 40 ≤ len = ground arith in
    (
      slots_end,
      record {
        sync_at = ensure-eq-ok _ wrong_sync sync;
        len_at = same;
        flag_at = refl;
        header_fits = omega arith;
        fits = ground arith;
        trailer_fits = rw (← same) (no_short_trailer c len large (ensure-eq-ok _ e short));
        crc_at = rw (← same) crc;
        slots_at = slots;
      },
    )

check_crc-end :
    (bytes : List ℕ) (n : ℕ) (c : Bool) {slots_end : ℕ}
    → check_crc bytes n c ≡ ok slots_end
    → slots_end ≡ (if c then n - 4 else n)
unfolding check_crc
check_crc-end bytes n false h = ground arith
check_crc-end bytes n true h = ground arith

-- What `decode` returns is the header's fields with the slots.
pub decode-Accepts :
    (bytes : List ℕ) (n slots_end : ℕ) (c : Bool) (slots : List Slot)
    → Accepts bytes n slots_end c
    → decode_slots slots_end bytes header_len slots_end ≡ ok slots
    → decode bytes ≡ ok (record { decoded = decode_header bytes slots; consumed = n })
unfolding decode
decode-Accepts bytes n slots_end c slots a h = rw (
  validate_record-Accepts bytes n slots_end c a,
  a.flag_at,
  ← check_crc-end bytes n c a.crc_at,
  h,
)

pub decode-ok :
    (bytes : List ℕ) {d : DecodedRecord}
    → decode bytes ≡ ok d
    → (n : ℕ) × (validate_record bytes ≡ ok n)
unfolding decode
decode-ok bytes h = let (n, e, _) = >>=-eq-ok (validate_record bytes) _ h in (n, e)

pub decode-flags :
    (bytes : List ℕ) {d : DecodedRecord} → decode bytes ≡ ok d → d.decoded.flags ≡ read_u16 bytes 6
unfolding decode decode_header
decode-flags bytes {d} h =
    let (n, e, h1) = >>=-eq-ok (validate_record bytes) _ h in
    let end = if has_crc (read_u16 bytes 6) then n - crc_len else n in
    let (slots, e', h2) = >>=-eq-ok (decode_slots end bytes header_len end) _ h1 in
    sym (ap (λ (q : DecodedRecord). q.decoded.flags) (ok-injective h2))
