-- ===== src/Capture/Accepts.antt =====
-- crates/carriage/src/capture.rs: exactly the reference image passes the validation.
use Prim.Native.String.{String}
use open_ot_experiments.Prelude.{
  ℕ, ◌+◌, ◌≡◌, ◌↔◌, inl, inr, refl, ap, ap₂, sym, ◌∙◌, Bool, true, false, List, [], ◌∷◌, arith,
  length, ◌==◌, ok, err, stuck, ◌>>=◌, ◌>>◌, map_err, >>=-eq-ok, map_err-eq-ok, Bool-cases,
}
use open_ot_experiments.Crc.{crc32c, crc_loop, crc_rounds, crc_round}
use open_ot_experiments.Wire
use open_ot_experiments.Ring
use open_ot_experiments.Loss
use open_ot_experiments.Loss.Events
use open_ot_experiments.Consumer
use open_ot_experiments.Consumer.Raw
use open_ot_experiments.Epoch
use open_ot_experiments.Epoch.Resolver
use open_ot_experiments.Capture.{
  CaptureScenario, rich_wrap, lifecycle_survival, CapturedControlFields, CaptureValidation,
  Validated, reference, reference_capture, image_of, drive, drive_rich_wrap,
  drive_lifecycle_survival, transition, emit_times, from_snapshot, to_snapshot,
}
use open_ot_experiments.Capture.Validate.{
  compare_bytes, compare_ring_bytes, compare_control_u64, bytes_eq, compare_control_hash,
  compare_control, validate_capture, ensure, ensure_eq, ensure_eq_u64, summary_eq, summaries_eq,
  option_eq, assert_rich_wrap_invariants, assert_lifecycle_survival_invariants, assert_invariants,
  observe_all, summaries, retained_data,
}

compare_bytes-eq :
    (index : ℕ) (actual expected : List ℕ)
    → length actual ≡ length expected
    → compare_bytes index actual expected ≡ ok tt
    → actual ≡ expected
unfolding compare_bytes
compare_bytes-eq index [] [] e h = refl
compare_bytes-eq index [] (x ∷ expected) e h = absurd (omega arith)
compare_bytes-eq index (a ∷ actual) [] e h = absurd (omega arith)
compare_bytes-eq index (a ∷ actual) (x ∷ expected) e h = elim (Bool-cases (a == x)) [
  | inr f ↦ let bad = rw f at h in cc
  | inl t ↦
      let same : a ≡ x = ground arith in
      ap₂ ◌∷◌ same (compare_bytes-eq (index + 1) actual expected (omega arith) (rw t at h))
]

compare_ring_bytes-eq :
    (actual expected : List ℕ) → compare_ring_bytes actual expected ≡ ok tt → actual ≡ expected
unfolding compare_ring_bytes
compare_ring_bytes-eq actual expected h = elim (Bool-cases (length actual == length expected)) [
  | inr f ↦ let bad = rw f at h in cc
  | inl t ↦ compare_bytes-eq 0 actual expected (ground arith) (rw t at h)
]

bytes_eq-eq : (xs ys : List ℕ) → bytes_eq xs ys ≡ true → xs ≡ ys
unfolding bytes_eq
bytes_eq-eq [] [] h = refl
bytes_eq-eq [] (y ∷ ys) h = cc
bytes_eq-eq (x ∷ xs) [] h = cc
bytes_eq-eq (x ∷ xs) (y ∷ ys) h = elim (Bool-cases (x == y)) [
  | inr f ↦ let bad = rw f at h in cc
  | inl t ↦ let same : x ≡ y = ground arith in ap₂ ◌∷◌ same (bytes_eq-eq xs ys (rw t at h))
]

compare_control_u64-eq : (field : String) (a e : ℕ) → compare_control_u64 field a e ≡ ok tt → a ≡ e
unfolding compare_control_u64
compare_control_u64-eq field a e h = ground arith

compare_control_hash-eq :
    (field : String) (a e : List ℕ) → compare_control_hash field a e ≡ ok tt → a ≡ e
unfolding compare_control_hash
compare_control_hash-eq field a e h = elim (Bool-cases (bytes_eq a e)) [
  | inr f ↦ let bad = rw f at h in cc
  | inl t ↦ bytes_eq-eq a e t
]

-- One comparison of several.
passed :
    (m : Validated Unit) (later : Validated Unit)
    → (m >> later) ≡ ok tt
    → (m ≡ ok tt) × (later ≡ ok tt)
passed m later h = let (_, e, h') = >>=-eq-ok m (λ _. later) h in (e, h')

compare_control-eq :
    (actual expected : CapturedControlFields)
    → compare_control actual expected ≡ ok tt
    → actual ≡ expected
unfolding compare_control
compare_control-eq a e h =
    let (e0, h0) = passed (compare_control_u64 "headAbs" a.head_abs e.head_abs) _ h in
    let (e1, h1) = passed (compare_control_u64 "oldestAbs" a.oldest_abs e.oldest_abs) _ h0 in
    let (e2, h2) = passed (compare_control_u64 "lostCount" a.lost_count e.lost_count) _ h1 in
    let (e3, h3) = passed (compare_control_u64 "runId" a.run_id e.run_id) _ h2 in
    let (e4, h4) = passed (compare_control_u64 "epochId" a.epoch_id e.epoch_id) _ h3 in
    let (e5, h5) =
      passed (compare_control_u64 "epochFirstAbs" a.epoch_first_abs e.epoch_first_abs) _ h4 in
    let (e6, h6) =
      passed (compare_control_hash "definitionHash" a.definition_hash e.definition_hash) _ h5 in
    let (e7, _) =
      passed
        (compare_control_hash "prevDefinitionHash" a.prev_definition_hash e.prev_definition_hash) _
        h6 in
    λ i. record {
      head_abs = compare_control_u64-eq "headAbs" a.head_abs e.head_abs e0 i;
      oldest_abs = compare_control_u64-eq "oldestAbs" a.oldest_abs e.oldest_abs e1 i;
      lost_count = compare_control_u64-eq "lostCount" a.lost_count e.lost_count e2 i;
      run_id = compare_control_u64-eq "runId" a.run_id e.run_id e3 i;
      epoch_id = compare_control_u64-eq "epochId" a.epoch_id e.epoch_id e4 i;
      epoch_first_abs =
          compare_control_u64-eq "epochFirstAbs" a.epoch_first_abs e.epoch_first_abs e5 i;
      definition_hash =
          compare_control_hash-eq "definitionHash" a.definition_hash e.definition_hash e6 i;
      prev_definition_hash =
          compare_control_hash-eq "prevDefinitionHash" a.prev_definition_hash e.prev_definition_hash
            e7 i;
    }

abbrev is_ok : {A : Type 0} → Validated A → Bool
is_ok (ok a) = true
is_ok (err e) = false
is_ok stuck = false

-- A scenario's reference, validated.
abbrev self_test : CaptureScenario → Validated CaptureValidation
self_test scenario = do
  image ← map_err reference (reference_capture scenario)
  validate_capture scenario image.ring_bytes image.control

self_test-is_ok : (scenario : CaptureScenario) → is_ok (self_test scenario) ≡ true
unfolding compare_bytes compare_ring_bytes compare_control_u64 bytes_eq compare_control_hash
    compare_control validate_capture ensure ensure_eq ensure_eq_u64 summary_eq summaries_eq
    option_eq assert_rich_wrap_invariants assert_lifecycle_survival_invariants assert_invariants
    observe_all summaries retained_data reference_capture image_of drive drive_rich_wrap
    drive_lifecycle_survival transition emit_times from_snapshot to_snapshot crc32c crc_loop
    crc_rounds crc_round Wire.new_record Wire.encoded_len Wire.encode_into Wire.slots_len
    Wire.encode_slots Wire.wire_flags Wire.encode_header Wire.encode Wire.has_sync
    Wire.check_padding Wire.validate_slots Wire.check_crc Wire.validate_record Wire.decode_slots
    Wire.decode_header Wire.decode Ring.new Ring.from_captured Ring.take_producer_loss_ranges
    Ring.record_producer_loss Ring.evict_loop Ring.evict_before_clobber Ring.next_start
    Ring.mark_wrap Ring.append_record Ring.write_record Ring.read_indexed Ring.read_from
    Ring.read_raw_record Ring.read_raw_loop Ring.read_raw_window Ring.read_raw_from
    Ring.read_raw_from_snapshot Loss.amount_of Loss.set_amount Loss.new_tracker
    Loss.same_loss_stream Loss.ranges_touch_or_overlap Loss.joins Loss.retained Loss.collected
    Loss.insert_sorted Loss.sort_by_first Loss.joined Loss.merge_from Loss.merged
    Loss.insert_loss_event Loss.dropped_slots Loss.dropped_event Loss.parse_records_dropped
    Loss.high_water_slot Loss.parse_source_high_water Loss.loss_of Loss.account_high_water
    Loss.account_gap Loss.account_dropped Loss.expected_of Loss.account Loss.delivered
    Loss.sum_counts Loss.lost Loss.records_dropped_record Raw.with_buffer_id Raw.new
    Raw.account_batch Raw.poll Raw.poll_snapshot Raw.delivered_in_run Raw.lost_in_run
    Raw.all_loss_events Consumer.account_reads Epoch.and_then Epoch.new_producer
    Epoch.control_snapshot Epoch.write_step Epoch.write Epoch.seq_of Epoch.set_seq Epoch.make_record
    Epoch.tick Epoch.next_source_seq Epoch.data_record Epoch.emit_data Epoch.emit_system
    Epoch.high_water_record Epoch.checkpoint_loop Epoch.checkpoint_high_water
    Epoch.begin_epoch_transition Epoch.definition_changed_slots Epoch.emit_definition_changed
    Epoch.start_epoch Epoch.finish_definition_change Epoch.finish_cold_start Resolver.new_resolver
    Resolver.get_default Resolver.set_default Resolver.boundaries_of Resolver.push_boundary
    Resolver.insert_boundary Resolver.sort_boundaries Resolver.sort_all Resolver.epoch_slot
    Resolver.definition_changed_epoch Resolver.cold_start_slot Resolver.logger_started_cold_start
    Resolver.unwrap_or_false Resolver.start_observed Resolver.take_pending Resolver.observe
    Resolver.last_before Resolver.or_default Resolver.resolve Events.key_le Events.insert_by_key
    Events.sort_by_key Events.loss_events
self_test-is_ok rich_wrap = refl
self_test-is_ok lifecycle_survival = refl

is_ok-eq : {A : Type 0} (m : Validated A) → is_ok m ≡ true → (a : A) × (m ≡ ok a)
is_ok-eq (ok a) h = (a, refl)
is_ok-eq (err e) h = cc
is_ok-eq stuck h = cc

-- The validation of a capture accepts exactly the image that the Rust producer leaves after the
-- scenario: bytes and control fields pass if and only if they are those of the reference, so the
-- reference itself meets every invariant of its scenario: the lap, the surviving records with
-- their spans and epochs, and the delivered and lost records of every source.
pub validate_capture_iff :
    (scenario : CaptureScenario) (bytes : List ℕ) (control : CapturedControlFields)
    → ((v : CaptureValidation) × (validate_capture scenario bytes control ≡ ok v))
      ↔ (reference_capture scenario ≡ ok (record { ring_bytes = bytes; control = control }))
unfolding validate_capture
validate_capture_iff scenario bytes control = (
  λ (v, h).
      let (image, e, h1) = >>=-eq-ok (map_err reference (reference_capture scenario)) _ h in
      let (_, same_bytes, h2) = >>=-eq-ok (compare_ring_bytes bytes image.ring_bytes) _ h1 in
      let (_, same_control, _) = >>=-eq-ok (compare_control control image.control) _ h2 in
      map_err-eq-ok reference (reference_capture scenario) e
      ∙ ap ok (λ i. record {
        ring_bytes = sym (compare_ring_bytes-eq bytes image.ring_bytes same_bytes) i;
        control = sym (compare_control-eq control image.control same_control) i;
      }),
  λ h.
      is_ok-eq (validate_capture scenario bytes control)
        (rw h (rw h at (self_test-is_ok scenario))),
)
