-- ===== src/Control/Tests.antt =====
-- A concrete control block, and the theorems about it.
use open_ot_experiments.Prelude.{
  ℕ, ◌≡◌, refl, List, [], ◌∷◌, ok, arith, some, replicate, take, All, IsByte,
}
use open_ot_experiments.Wire.{has_sync}
use open_ot_experiments.Control.{
  ControlBlockSnapshot, encode, encode_image, decode_with_locks, decode_fields, reserved_zero,
}
use open_ot_experiments.Control.RoundTrip.{IsSnapshot, decode_with_locks-encode}
use open_ot_experiments.Control.Reencode.{encode-decode_with_locks}

abbrev sample : ControlBlockSnapshot
sample = record {
  version = 2;
  caps = 0;
  buffer_id = 1;
  buffer_bytes = 4096;
  head_abs = 300;
  oldest_abs = 40;
  lost_count = 2;
  run_id = 7;
  epoch_id = 9;
  epoch_first_abs = 100;
  definition_hash = 1 ∷ 2 ∷ 3 ∷ 4 ∷ 5 ∷ 6 ∷ 7 ∷ 8 ∷ [];
  prev_definition_hash = replicate 8 0;
}

sample-IsSnapshot : IsSnapshot sample
sample-IsSnapshot = record {
  buffer_id_fits = omega arith;
  buffer_bytes_fits = omega arith;
  head_abs_fits = omega arith;
  oldest_abs_fits = omega arith;
  lost_count_fits = omega arith;
  run_id_fits = omega arith;
  epoch_id_fits = omega arith;
  epoch_first_abs_fits = omega arith;
  definition_hash_fits = refl;
  prev_definition_hash_fits = refl;
}

abbrev sample_bytes : List ℕ
sample_bytes =
    79 ∷ 79 ∷ 84 ∷ 50 ∷ 2 ∷ 0 ∷ 0 ∷ 0 ∷ 1 ∷ 0 ∷ 0 ∷ 0 ∷ 0 ∷ 16 ∷ 0 ∷ 0 ∷ 6 ∷ 0 ∷ 0 ∷ 0 ∷ 0 ∷ 0 ∷ 0
    ∷ 0 ∷ 44 ∷ 1 ∷ 0 ∷ 0 ∷ 0 ∷ 0 ∷ 0 ∷ 0 ∷ 40 ∷ 0 ∷ 0 ∷ 0 ∷ 0 ∷ 0 ∷ 0 ∷ 0 ∷ 2 ∷ 0 ∷ 0 ∷ 0 ∷ 0 ∷ 0
    ∷ 0 ∷ 0 ∷ 7 ∷ 0 ∷ 0 ∷ 0 ∷ 0 ∷ 0 ∷ 0 ∷ 0 ∷ 9 ∷ 0 ∷ 0 ∷ 0 ∷ 0 ∷ 0 ∷ 0 ∷ 0 ∷ 100 ∷ 0 ∷ 0 ∷ 0 ∷ 0
    ∷ 0 ∷ 0 ∷ 0 ∷ 1 ∷ 2 ∷ 3 ∷ 4 ∷ 5 ∷ 6 ∷ 7 ∷ 8 ∷ 0 ∷ 0 ∷ 0 ∷ 0 ∷ 0 ∷ 0 ∷ 0 ∷ 0 ∷ []

sample-encode : encode sample 6 ≡ some sample_bytes
unfolding encode encode_image
sample-encode = refl

sample-decode : decode_with_locks sample_bytes 6 6 ≡ ok sample
unfolding decode_with_locks decode_fields reserved_zero has_sync
sample-decode = refl

decode_with_locks-encode_example : decode_with_locks sample_bytes 6 6 ≡ ok sample
decode_with_locks-encode_example =
    decode_with_locks-encode sample 6 sample-IsSnapshot (omega arith) sample-encode

sample_bytes-IsByte : All IsByte sample_bytes
sample_bytes-IsByte = ground arith

encode-decode_with_locks_example :
    (◌≡◌ {A = ℕ} 6 6) × (encode sample 6 ≡ some (take 88 sample_bytes))
encode-decode_with_locks_example =
    encode-decode_with_locks sample_bytes 6 6 sample_bytes-IsByte sample-decode
