-- ===== src/Wire/Tests.antt =====
-- Concrete records, and the theorems about the wire format at them.
use open_ot_experiments.Prelude.{
  arith, Bool, ltb, ◌&&◌, ◌++◌, ◌⊎◌, take, All, IsByte, length, ℕ, ◌≡◌, refl, true, List, [], ◌∷◌,
  ok, err, Outcome,
}
use open_ot_experiments.Crc.{crc32c, crc_loop, crc_rounds, crc_round}
use open_ot_experiments.Wire.{
  Slot, Record, encode, decode, encode_slots, slots_len, encode_into, encoded_len, wire_flags,
  encode_header, WireError, has_crc, validate_record, validate_slots, check_crc, check_padding,
  has_sync, decode_slots, decode_header, DecodedRecord,
}
use open_ot_experiments.Wire.Layout.{IsRecord}
use open_ot_experiments.Wire.RoundTrip.{decode-encode}
use open_ot_experiments.Wire.Reencode.{encode-decode}
use open_ot_experiments.Wire.Total.{decode_outcome}

-- `crc32c("123456789")`
crc32c_known_answer :
    crc32c (0x31 ∷ 0x32 ∷ 0x33 ∷ 0x34 ∷ 0x35 ∷ 0x36 ∷ 0x37 ∷ 0x38 ∷ 0x39 ∷ []) ≡ 0xe306_9283
unfolding crc32c crc_loop crc_rounds crc_round
crc32c_known_answer = refl

abbrev sample_slot : Slot
sample_slot = record { key = 0x1001; ty = 3; payload = 0x34 ∷ 0x12 ∷ [] }

abbrev sample : Record
sample = record {
  flags = 1;
  source_time = 1;
  run_id = 2;
  seq = 3;
  source_id = 4;
  event_type_id = 5;
  slots = sample_slot ∷ [];
}

abbrev decoded_sample : DecodedRecord
decoded_sample = record { decoded = record sample { flags = 9 }; consumed = 52 }

-- The test `wire_round_trip_with_crc` at this record.
sample_round_trip :
    (elim (encode sample true) [
      | ok bytes ↦ decode bytes
      | err e ↦ err e
      | Outcome.stuck ↦ Outcome.stuck
    ])
    ≡ ok decoded_sample
unfolding encode decode encode_slots slots_len encode_into encoded_len wire_flags encode_header
    validate_record validate_slots check_crc check_padding has_sync decode_slots decode_header
    crc32c crc_loop crc_rounds crc_round
sample_round_trip = refl

sample-IsRecord : IsRecord sample
sample-IsRecord = record {
  flags_fits = omega arith;
  source_time_fits = omega arith;
  run_id_fits = omega arith;
  seq_fits = omega arith;
  source_id_fits = omega arith;
  event_type_id_fits = omega arith;
  slots_fit = (
    record {
      key_fits = omega arith;
      ty_fits = omega arith;
      payload_fits = (omega arith, (omega arith, tt));
    },
    tt,
  );
}

abbrev sample_bytes : List ℕ
sample_bytes =
    79 ∷ 79 ∷ 84 ∷ 50 ∷ 52 ∷ 0 ∷ 9 ∷ 0 ∷ 1 ∷ 0 ∷ 0 ∷ 0 ∷ 0 ∷ 0 ∷ 0 ∷ 0 ∷ 2 ∷ 0 ∷ 0 ∷ 0 ∷ 0 ∷ 0 ∷ 0
    ∷ 0 ∷ 3 ∷ 0 ∷ 0 ∷ 0 ∷ 0 ∷ 0 ∷ 0 ∷ 0 ∷ 4 ∷ 0 ∷ 0 ∷ 0 ∷ 5 ∷ 0 ∷ 0 ∷ 0 ∷ 1 ∷ 16 ∷ 3 ∷ 2 ∷ 52 ∷ 18
    ∷ 0 ∷ 0 ∷ 182 ∷ 129 ∷ 76 ∷ 102 ∷ []

sample-encode : encode sample true ≡ ok sample_bytes
unfolding encode encode_slots slots_len encode_into encoded_len wire_flags encode_header crc32c
    crc_loop crc_rounds crc_round
sample-encode = refl

sample-decode : decode sample_bytes ≡ ok decoded_sample
unfolding decode validate_record validate_slots check_crc check_padding has_sync decode_slots
    decode_header crc32c crc_loop crc_rounds crc_round
sample-decode = refl

decode-encode_example :
    decode (sample_bytes ++ 1 ∷ [])
    ≡ ok (record {
      decoded = record sample { flags = wire_flags sample.flags true };
      consumed = length sample_bytes;
    })
decode-encode_example = decode-encode sample true (1 ∷ []) sample-IsRecord sample-encode

abbrev are_bytes : List ℕ → Bool
are_bytes [] = true
are_bytes (b ∷ bs) = ltb b 256 && are_bytes bs

are_bytes→All : (bs : List ℕ) → are_bytes bs ≡ true → All IsByte bs
are_bytes→All [] h = tt
are_bytes→All (b ∷ bs) h = (ground arith, are_bytes→All bs (ground arith))

encode-decode_example :
    encode decoded_sample.decoded (has_crc decoded_sample.decoded.flags) ≡ ok (take 52 sample_bytes)
encode-decode_example = encode-decode sample_bytes (are_bytes→All sample_bytes refl) sample-decode

decode_outcome_example :
    ((e : WireError) × (validate_record sample_bytes ≡ err e) × (decode sample_bytes ≡ err e))
    ⊎ ((d : DecodedRecord) × (validate_record sample_bytes ≡ ok d.consumed)
        × (decode sample_bytes ≡ ok d))
decode_outcome_example = decode_outcome sample_bytes
