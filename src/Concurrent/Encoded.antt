-- ===== src/Concurrent/Encoded.antt =====
-- crates/carriage/src/concurrent.rs: which bytes `append_encoded` takes.
use open_ot_experiments.Prelude.{
  ℕ, ◌≡◌, ◌⊎◌, inl, inr, refl, ap, ◌∙◌, sym, List, All, true, arith, length, take, ok, err, leb,
  ltb, ◌==◌, if◌then◌else◌, Bool-cases, IsByte, ==_refl, ok-injective, take-all,
}
use open_ot_experiments.Wire.{
  Record, DecodedRecord, WireError, encode, decode, has_crc, header_len, read_u16,
}
use open_ot_experiments.Wire.Layout.{IsRecord}
use open_ot_experiments.Wire.RoundTrip.{encode-has_crc}
use open_ot_experiments.Wire.Reencode.{encode-decode}
use open_ot_experiments.Wire.Total.{decode_outcome}
use open_ot_experiments.Wire.Validate.{Accepts-validate_record, decode-flags}
use open_ot_experiments.Ring.Types.{
  encoded_record_length_mismatch, encoded_record_missing_crc, record_exceeds_capacity, wire,
}
use open_ot_experiments.Ring.Read.{decode-encoded}
use open_ot_experiments.Concurrent.{
  ConcurrentProducer, StoreOp, append_bytes_core, append_encoded, write_record,
}

-- The outcome, from that of `decode`. The `unreachable!` is not reached.
append_encoded_outcome :
    (cap : ℕ) (p : ConcurrentProducer) (bytes : List ℕ)
    → ((e : WireError) × (decode bytes ≡ err e)
        × ((append_encoded cap p bytes ≡ err (wire e))
            ⊎ (append_encoded cap p bytes ≡ err (encoded_record_missing_crc (read_u16 bytes 6)))))
      ⊎ ((d : DecodedRecord) × (decode bytes ≡ ok d)
          × (append_encoded cap p bytes ≡ (
              if has_crc (read_u16 bytes 6)
              then if d.consumed == length bytes
                then if leb (length bytes) cap
                  then ok (append_bytes_core cap p bytes)
                  else err (record_exceeds_capacity (length bytes) cap)
                else err (encoded_record_length_mismatch d.consumed (length bytes))
              else err (encoded_record_missing_crc (read_u16 bytes 6)))))
unfolding append_encoded
append_encoded_outcome cap p bytes = elim (Bool-cases (ltb (length bytes) header_len)) [
  | inl short ↦ elim (decode_outcome bytes) [
    | inl (e, bad, refused) ↦ inl (e, refused, inl (rw (short, bad) refl))
    | inr (d, good, _) ↦
        (let (_, a) = Accepts-validate_record bytes good in
          absurd (ground (arith, a.fits, a.header_fits)))
  ]
  | inr long ↦ elim (decode_outcome bytes) [
    | inl (e, bad, refused) ↦ elim (Bool-cases (has_crc (read_u16 bytes 6))) [
      | inl t ↦ inl (e, refused, inl (rw (long, t, bad) refl))
      | inr f ↦ inl (e, refused, inr (rw (long, f) refl))
    ]
    | inr (d, good, decoded) ↦ inr (
      d,
      decoded,
      elim (Bool-cases (has_crc (read_u16 bytes 6))) [
        | inr f ↦ rw (long, f) refl
        | inl t ↦ elim (Bool-cases (d.consumed == length bytes)) [
          | inr f1 ↦ rw (long, t, good, f1) refl
          | inl t1 ↦ elim (Bool-cases (leb (length bytes) cap)) [
            | inr f2 ↦ rw (long, t, good, t1, f2) refl
            | inl t2 ↦ rw (long, t, good, t1, t2) refl
          ]
        ]
      ],
    )
  ]
]

-- `append_encoded` and `write_record` agree: the encoding of a record, with its CRC, is appended
-- or refused exactly as the record is. The fields of the record fit their widths.
pub append_encoded-encode :
    (cap : ℕ) (p : ConcurrentProducer) (x : Record) {bytes : List ℕ}
    → IsRecord x
    → encode x true ≡ ok bytes
    → append_encoded cap p bytes ≡ write_record cap p x
unfolding write_record
append_encoded-encode cap p x {bytes} v h = elim (append_encoded_outcome cap p bytes) [
  | inl (e, bad, _) ↦ (let no = sym bad ∙ decode-encoded x v h in cc)
  | inr (d, good, outcome) ↦
      let same = ok-injective (sym good ∙ decode-encoded x v h) in
      let size : (d.consumed == length bytes) ≡ true = rw same (==_refl (length bytes)) in
      let flag = encode-has_crc x true v h in
      rw outcome (
        rw (flag, size, h)
          (elim (Bool-cases (leb (length bytes) cap)) [ inl t ↦ rw t refl | inr f ↦ rw f refl ]))
]

-- `append_encoded` appends nothing but records: bytes that it takes are the encoding, with a CRC,
-- of the record that they decode to, and it leaves the producer and does the stores that
-- `write_record` of this record does.
pub append_encoded-decode :
    (cap : ℕ) (p : ConcurrentProducer) (bytes : List ℕ) {result : ConcurrentProducer × List StoreOp}
    → All IsByte bytes
    → append_encoded cap p bytes ≡ ok result
    → (x : Record) × (decode bytes ≡ ok (record { decoded = x; consumed = length bytes }))
      × (encode x true ≡ ok bytes)
      × (write_record cap p x ≡ ok result)
unfolding write_record
append_encoded-decode cap p bytes {result} v h = elim (append_encoded_outcome cap p bytes) [
  | inl (e, _, inl bad) ↦ (let no = sym bad ∙ h in cc)
  | inl (e, _, inr bad) ↦ (let no = sym bad ∙ h in cc)
  | inr (d, good, outcome) ↦
      let h0 = sym outcome ∙ h in
      elim (Bool-cases (has_crc (read_u16 bytes 6))) [
        | inr f ↦ (let no = rw f at h0 in cc)
        | inl flag ↦
            let h1 = rw flag at h0 in
            elim (Bool-cases (d.consumed == length bytes)) [
              | inr f ↦ (let no = rw f at h1 in cc)
              | inl whole ↦
                  let h2 = rw whole at h1 in
                  elim (Bool-cases (leb (length bytes) cap)) [
                    | inr f ↦ (let no = rw f at h2 in cc)
                    | inl fits ↦
                        let size : d.consumed ≡ length bytes = ground arith in
                        let crc : has_crc d.decoded.flags ≡ true =
                          ap has_crc (decode-flags bytes good) ∙ flag in
                        let encoded : encode d.decoded true ≡ ok bytes =
                          ap (encode d.decoded) (sym crc)
                          ∙ encode-decode bytes v good
                          ∙ ap ok (ap (λ n. take n bytes) size ∙ take-all bytes) in
                        (
                          d.decoded,
                          good ∙ ap (λ n. ok (record { decoded = d.decoded; consumed = n })) size,
                          encoded,
                          rw (encoded, fits) (rw fits at h2),
                        )
                  ]
            ]
      ]
]
