-- ===== src/Capture/Tests.antt =====
-- The captures of the two scenarios, and the theorems about the validation at them.
use open_ot_experiments.Prelude.{
  ℕ, ◌≡◌, ◌≢◌, ◌⊎◌, ◌↔◌, List, [], ◌∷◌, length, Outcome, ok, err, stuck,
}
use open_ot_experiments.Epoch.{EpochError}
use open_ot_experiments.Capture.{
  CapturedImage, CaptureValidation, rich_wrap, reference_capture, ring_length_mismatch,
  ring_byte_mismatch, old_hash, new_hash,
}
use open_ot_experiments.Capture.Validate.{validate_capture, compare_ring_bytes}
use open_ot_experiments.Capture.Accepts.{validate_capture_iff}
use open_ot_experiments.Capture.Mismatch.{FirstDifference, compare_ring_bytes_outcome}

abbrev image_or : CapturedImage → Outcome EpochError CapturedImage → CapturedImage
image_or otherwise (ok image) = image
image_or otherwise (err e) = otherwise
image_or otherwise stuck = otherwise

-- A capture without bytes.
abbrev no_image : CapturedImage
no_image = record {
  ring_bytes = [];
  control = record {
    head_abs = 872;
    oldest_abs = 624;
    lost_count = 10;
    run_id = 1;
    epoch_id = 2;
    epoch_first_abs = 704;
    definition_hash = new_hash;
    prev_definition_hash = old_hash;
  };
}

abbrev rich_image : CapturedImage
rich_image = image_or no_image (reference_capture rich_wrap)

validate_capture_iff_example :
    ((v : CaptureValidation) × (validate_capture rich_wrap rich_image.ring_bytes rich_image.control
        ≡ ok v))
    ↔ (reference_capture rich_wrap
        ≡ ok (record { ring_bytes = rich_image.ring_bytes; control = rich_image.control }))
validate_capture_iff_example =
    validate_capture_iff rich_wrap rich_image.ring_bytes rich_image.control

abbrev one_two : List ℕ
one_two = 1 ∷ 2 ∷ []

abbrev one_three : List ℕ
one_three = 1 ∷ 3 ∷ []

compare_ring_bytes_outcome_example :
    ((compare_ring_bytes one_two one_three ≡ ok tt) × (one_two ≡ one_three))
    ⊎ (((length one_two ≢ length one_three)
          × (compare_ring_bytes one_two one_three ≡ err (ring_length_mismatch 2 2)))
        ⊎ ((k a e : ℕ) × (compare_ring_bytes one_two one_three ≡ err (ring_byte_mismatch k e a))
            × FirstDifference one_two one_three k a e))
compare_ring_bytes_outcome_example = compare_ring_bytes_outcome one_two one_three
