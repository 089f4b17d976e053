-- ===== src/Capture/Validate.antt =====
-- crates/carriage/src/capture.rs: `validate_capture`.
use Prim.Native.String.{String}
use open_ot_experiments.Prelude.{
  ℕ, ◌+◌, Bool, true, false, ◌&&◌, List, [], ◌∷◌, Option, none, some, ◌==◌, if◌then◌else◌, length,
  add64, ok, err, ◌>>=◌, ◌>>◌, map_err,
}
use open_ot_experiments.Registry.{
  event_definition_changed, event_logger_started, event_logger_stopped, event_message,
  event_source_high_water, system_source_id,
}
use open_ot_experiments.Ring.{from_captured}
use open_ot_experiments.Ring.Types.{ReadRecord, ReadBatch, default_buffer_id}
use open_ot_experiments.Consumer.Raw
use open_ot_experiments.Consumer.Raw.{
  RawByteConsumer, poll_snapshot, delivered_in_run, lost_in_run, all_loss_events,
}
use open_ot_experiments.Epoch.Resolver.{EpochResolver, new_resolver, observe, resolve}
use open_ot_experiments.Capture.{
  CaptureScenario, rich_wrap, lifecycle_survival, CapturedControlFields, CapturedRecordSummary,
  CaptureValidation, Validated, plain, differ, survivors_differ, reference, ring_length_mismatch,
  ring_byte_mismatch, control_field_mismatch, control_hash_mismatch, ring, scenario_invariant,
  reference_capture, to_snapshot, s4a_capture_capacity,
}

-- The loop of `compare_ring_bytes`.
unfoldable pub compare_bytes : ℕ → List ℕ → List ℕ → Validated Unit
compare_bytes index [] expected = ok tt
compare_bytes index (a ∷ actual) [] = ok tt
compare_bytes index (a ∷ actual) (e ∷ expected) =
    if a == e then compare_bytes (index + 1) actual expected else err (ring_byte_mismatch index e a)

unfoldable pub compare_ring_bytes : List ℕ → List ℕ → Validated Unit
compare_ring_bytes actual expected =
    if length actual == length expected
    then compare_bytes 0 actual expected
    else err (ring_length_mismatch (length expected) (length actual))

unfoldable pub compare_control_u64 : String → ℕ → ℕ → Validated Unit
compare_control_u64 field actual expected =
    if actual == expected then ok tt else err (control_field_mismatch field expected actual)

-- `==` on hash prefixes
unfoldable pub bytes_eq : List ℕ → List ℕ → Bool
bytes_eq [] [] = true
bytes_eq [] (y ∷ ys) = false
bytes_eq (x ∷ xs) [] = false
bytes_eq (x ∷ xs) (y ∷ ys) = x == y && bytes_eq xs ys

unfoldable pub compare_control_hash : String → List ℕ → List ℕ → Validated Unit
compare_control_hash field actual expected =
    if bytes_eq actual expected then ok tt else err (control_hash_mismatch field expected actual)

unfoldable pub compare_control : CapturedControlFields → CapturedControlFields → Validated Unit
compare_control actual expected = do
  compare_control_u64 "headAbs" actual.head_abs expected.head_abs
  compare_control_u64 "oldestAbs" actual.oldest_abs expected.oldest_abs
  compare_control_u64 "lostCount" actual.lost_count expected.lost_count
  compare_control_u64 "runId" actual.run_id expected.run_id
  compare_control_u64 "epochId" actual.epoch_id expected.epoch_id
  compare_control_u64 "epochFirstAbs" actual.epoch_first_abs expected.epoch_first_abs
  compare_control_hash "definitionHash" actual.definition_hash expected.definition_hash
  compare_control_hash "prevDefinitionHash" actual.prev_definition_hash
      expected.prev_definition_hash
  ok tt

abbrev pub summary : ℕ → ℕ → ℕ → ℕ → ℕ → ℕ → Option ℕ → CapturedRecordSummary
summary start_abs end_abs run_id source_id seq event_type_id resolved_epoch = record {
  start_abs = start_abs;
  end_abs = end_abs;
  run_id = run_id;
  source_id = source_id;
  seq = seq;
  event_type_id = event_type_id;
  resolved_epoch = resolved_epoch;
}

unfoldable pub option_eq : Option ℕ → Option ℕ → Bool
option_eq none none = true
option_eq none (some b) = false
option_eq (some a) none = false
option_eq (some a) (some b) = a == b

-- The derived `==`.
unfoldable pub summary_eq : CapturedRecordSummary → CapturedRecordSummary → Bool
summary_eq a b =
    a.start_abs == b.start_abs
    && a.end_abs == b.end_abs
    && a.run_id == b.run_id
    && a.source_id == b.source_id
    && a.seq == b.seq
    && a.event_type_id == b.event_type_id
    && option_eq a.resolved_epoch b.resolved_epoch

unfoldable pub summaries_eq : List CapturedRecordSummary → List CapturedRecordSummary → Bool
summaries_eq [] [] = true
summaries_eq [] (b ∷ bs) = false
summaries_eq (a ∷ as_) [] = false
summaries_eq (a ∷ as_) (b ∷ bs) = summary_eq a b && summaries_eq as_ bs

unfoldable pub ensure : CaptureScenario → Bool → String → Validated Unit
ensure scenario condition message =
    if condition then ok tt else err (scenario_invariant scenario (plain message))

-- `ensure_eq` on the survivors
unfoldable pub ensure_eq :
    CaptureScenario
    → List CapturedRecordSummary
    → List CapturedRecordSummary
    → String
    → Validated Unit
ensure_eq scenario actual expected name =
    if summaries_eq actual expected
    then ok tt
    else err (scenario_invariant scenario (survivors_differ name expected actual))

unfoldable pub ensure_eq_u64 : CaptureScenario → ℕ → ℕ → String → Validated Unit
ensure_eq_u64 scenario actual expected name =
    if actual == expected
    then ok tt
    else err (scenario_invariant scenario (differ name expected actual))

unfoldable pub assert_rich_wrap_invariants :
    ReadBatch → RawByteConsumer → List CapturedRecordSummary → Validated Unit
assert_rich_wrap_invariants batch consumer survivors = do
  ensure rich_wrap batch.lapped "consumer must lap"
  let expected_survivors =
      summary 624 704 1 system_source_id 1 event_definition_changed (some 1)
      ∷ summary 704 756 1 system_source_id 2 event_logger_started (some 2)
      ∷ summary 768 820 1 10 5 event_message (some 2)
      ∷ summary 820 872 1 20 4 event_message (some 2)
      ∷ []
  ensure_eq rich_wrap survivors expected_survivors "rich-wrap survivors"
  ensure_eq_u64 rich_wrap (delivered_in_run consumer 1 10) 1 "source 10 delivered"
  ensure_eq_u64 rich_wrap (lost_in_run consumer 1 10) 5 "source 10 lost"
  ensure_eq_u64 rich_wrap (delivered_in_run consumer 1 20) 1 "source 20 delivered"
  ensure_eq_u64 rich_wrap (lost_in_run consumer 1 20) 4 "source 20 lost"
  ensure_eq_u64 rich_wrap (delivered_in_run consumer 1 system_source_id) 2 "system delivered"
  ensure_eq_u64 rich_wrap (lost_in_run consumer 1 system_source_id) 1 "system lost"
  ok tt

-- `retained_data_for_source` of source 21
unfoldable pub retained_data : List ReadRecord → ℕ
retained_data [] = 0
retained_data (r ∷ records) =
    let rest = retained_data records in
    if r.value.source_id == 21 && r.value.event_type_id == event_message then rest + 1 else rest

unfoldable pub assert_lifecycle_survival_invariants :
    ReadBatch → RawByteConsumer → List CapturedRecordSummary → Validated Unit
assert_lifecycle_survival_invariants batch consumer survivors = do
  ensure lifecycle_survival batch.lapped "consumer must lap"
  let expected_survivors =
      summary 52 96 1 system_source_id 0 event_logger_stopped (some 1)
      ∷ summary 96 152 1 21 1 event_source_high_water (some 1)
      ∷ summary 152 232 1 system_source_id 1 event_definition_changed (some 1)
      ∷ summary 256 308 1 system_source_id 2 event_logger_started (some 2)
      ∷ []
  ensure_eq lifecycle_survival survivors expected_survivors "lifecycle-survival survivors"
  let retained = retained_data batch.records
  ensure_eq_u64 lifecycle_survival retained 0 "source 21 retained data records"
  ensure_eq_u64 lifecycle_survival (lost_in_run consumer 1 21) 1 "source 21 lost data records"
  ensure_eq_u64 lifecycle_survival (add64 retained (lost_in_run consumer 1 21)) 1
      "source 21 data delivered plus lost"
  ensure_eq_u64 lifecycle_survival (delivered_in_run consumer 1 21) 1
      "source 21 delivered high-water record"
  ensure_eq_u64 lifecycle_survival (delivered_in_run consumer 1 system_source_id) 3
      "system delivered"
  ensure_eq_u64 lifecycle_survival (lost_in_run consumer 1 system_source_id) 0 "system lost"
  ok tt

unfoldable pub assert_invariants :
    CaptureScenario → ReadBatch → RawByteConsumer → List CapturedRecordSummary → Validated Unit
assert_invariants rich_wrap batch consumer survivors =
    assert_rich_wrap_invariants batch consumer survivors
assert_invariants lifecycle_survival batch consumer survivors =
    assert_lifecycle_survival_invariants batch consumer survivors

-- The loop that hands the batch to the resolver.
unfoldable pub observe_all : EpochResolver → List ReadRecord → EpochResolver
observe_all resolver [] = resolver
observe_all resolver (r ∷ records) = observe_all (observe resolver default_buffer_id r) records

unfoldable pub summaries : EpochResolver → List ReadRecord → List CapturedRecordSummary
summaries resolver [] = []
summaries resolver (r ∷ records) =
    summary r.start_abs r.end_abs r.value.run_id r.value.source_id r.value.seq r.value.event_type_id
      (resolve resolver default_buffer_id r.value.run_id r.start_abs)
    ∷ summaries resolver records

unfoldable pub validate_capture :
    CaptureScenario → List ℕ → CapturedControlFields → Validated CaptureValidation
validate_capture scenario captured_ring_bytes captured_control = do
  expected ← map_err reference (reference_capture scenario)
  compare_ring_bytes captured_ring_bytes expected.ring_bytes
  compare_control captured_control expected.control
  captured_ring ← map_err ring (
      from_captured captured_ring_bytes captured_control.head_abs captured_control.oldest_abs
        captured_control.lost_count)
  (batch, consumer) ←
      map_err ring
        (poll_snapshot Raw.new captured_ring (to_snapshot captured_control s4a_capture_capacity))
  let resolver = observe_all (new_resolver default_buffer_id 1 1) batch.records
  let survivors = summaries resolver batch.records
  assert_invariants scenario batch consumer survivors
  ok (record { batch = batch; survivors = survivors; loss_events = all_loss_events consumer })
