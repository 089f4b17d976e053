-- ===== src/Capture.antt =====
-- crates/carriage/src/capture.rs: captured images of a producer, and their validation against the
-- reference that the Rust producer gives.
pub mod Validate
pub mod Accepts
pub mod Mismatch
mod Tests
use Prim.Native.String.{String}
use open_ot_experiments.Prelude.{
  ℕ, zero, suc, ◌+◌, ◌%◌, ◌^◌, Bool, true, false, ◌&&◌, List, [], ◌∷◌, Option, none, some, ◌==◌,
  if◌then◌else◌, length, add64, Outcome, ok, err, stuck, ◌>>=◌, ◌>>◌, map_err,
}
use open_ot_experiments.Registry.{
  event_definition_changed, event_logger_started, event_logger_stopped, event_message,
  event_source_high_water, system_source_id,
}
use open_ot_experiments.Control.{ControlBlockSnapshot}
use open_ot_experiments.Ring
use open_ot_experiments.Ring.{from_captured}
use open_ot_experiments.Ring.Types.{ReadRecord, ReadBatch, RingError, default_buffer_id}
use open_ot_experiments.Loss.{LossEvent}
use open_ot_experiments.Consumer.Raw
use open_ot_experiments.Consumer.Raw.{
  RawByteConsumer, poll_snapshot, delivered_in_run, lost_in_run, all_loss_events,
}
use open_ot_experiments.Epoch.{
  EpochProducer, EpochError, Step, and_then, new_producer, control_snapshot, emit_data,
  checkpoint_high_water, begin_epoch_transition, emit_definition_changed, finish_definition_change,
}
use open_ot_experiments.Epoch.Resolver.{EpochResolver, new_resolver, observe, resolve}

abbrev pub s4a_capture_capacity : ℕ
s4a_capture_capacity = 256

-- "oldhash1" and "newhash2"
abbrev pub old_hash : List ℕ
old_hash = 0x6f ∷ 0x6c ∷ 0x64 ∷ 0x68 ∷ 0x61 ∷ 0x73 ∷ 0x68 ∷ 0x31 ∷ []

abbrev pub new_hash : List ℕ
new_hash = 0x6e ∷ 0x65 ∷ 0x77 ∷ 0x68 ∷ 0x61 ∷ 0x73 ∷ 0x68 ∷ 0x32 ∷ []

abbrev pub transition_epoch : ℕ
transition_epoch = 2

pub data CaptureScenario : Type 0 where
  rich_wrap : CaptureScenario
  lifecycle_survival : CaptureScenario

unfoldable pub fixture_name : CaptureScenario → String
fixture_name rich_wrap = "s4a-rich-wrap"
fixture_name lifecycle_survival = "s4a-lifecycle-survival"

pub record CapturedControlFields : Type 0 where
  pub head_abs : ℕ
  pub oldest_abs : ℕ
  pub lost_count : ℕ
  pub run_id : ℕ
  pub epoch_id : ℕ
  pub epoch_first_abs : ℕ
  pub definition_hash : List ℕ
  pub prev_definition_hash : List ℕ

unfoldable pub from_snapshot : ControlBlockSnapshot → CapturedControlFields
from_snapshot snapshot = record {
  head_abs = snapshot.head_abs;
  oldest_abs = snapshot.oldest_abs;
  lost_count = snapshot.lost_count;
  run_id = snapshot.run_id;
  epoch_id = snapshot.epoch_id;
  epoch_first_abs = snapshot.epoch_first_abs;
  definition_hash = snapshot.definition_hash;
  prev_definition_hash = snapshot.prev_definition_hash;
}

unfoldable pub to_snapshot : CapturedControlFields → ℕ → ControlBlockSnapshot
to_snapshot fields capacity = record {
  version = 2;
  caps = 0;
  buffer_id = default_buffer_id;
  buffer_bytes = capacity % 2 ^ 32;
  head_abs = fields.head_abs;
  oldest_abs = fields.oldest_abs;
  lost_count = fields.lost_count;
  run_id = fields.run_id;
  epoch_id = fields.epoch_id;
  epoch_first_abs = fields.epoch_first_abs;
  definition_hash = fields.definition_hash;
  prev_definition_hash = fields.prev_definition_hash;
}

pub record CapturedImage : Type 0 where
  pub ring_bytes : List ℕ
  pub control : CapturedControlFields

pub record CapturedRecordSummary : Type 0 where
  pub start_abs : ℕ
  pub end_abs : ℕ
  pub run_id : ℕ
  pub source_id : ℕ
  pub seq : ℕ
  pub event_type_id : ℕ
  pub resolved_epoch : Option ℕ

pub record CaptureValidation : Type 0 where
  pub batch : ReadBatch
  pub survivors : List CapturedRecordSummary
  pub loss_events : List LossEvent

-- The message of a failed invariant, by the arguments that are formatted into it.
pub data Message : Type 0 where
  plain : String → Message
  differ : String → (expected actual : ℕ) → Message
  survivors_differ : String → (expected actual : List CapturedRecordSummary) → Message

pub data CaptureValidationError : Type 0 where
  reference : EpochError → CaptureValidationError
  ring_length_mismatch : (expected actual : ℕ) → CaptureValidationError
  ring_byte_mismatch : (index expected actual : ℕ) → CaptureValidationError
  control_field_mismatch : (field : String) (expected actual : ℕ) → CaptureValidationError
  control_hash_mismatch : (field : String) (expected actual : List ℕ) → CaptureValidationError
  ring : RingError → CaptureValidationError
  scenario_invariant : CaptureScenario → Message → CaptureValidationError

abbrev pub Validated : Type 0 → Type 0
Validated A = Outcome CaptureValidationError A

-- A loop of `emit_data`.
unfoldable pub emit_times : ℕ → EpochProducer → ℕ → Step Unit
emit_times zero p source_id = (p, ok tt)
emit_times (suc n) p source_id =
    and_then (emit_data p source_id event_message) (λ p' _. emit_times n p' source_id)

-- The transition that both scenarios make.
unfoldable pub transition : EpochProducer → Step Unit
transition p =
    and_then (begin_epoch_transition p old_hash new_hash transition_epoch)
      (λ p1 _. and_then (emit_definition_changed p1) (λ p2 _. finish_definition_change p2))

unfoldable pub drive_rich_wrap : EpochProducer → Step Unit
drive_rich_wrap p = and_then (emit_times 3 p 10) (λ p1 _. and_then (emit_times 2 p1 20) (λ p2 _.
    and_then (checkpoint_high_water p2) (λ p3 _.
      and_then (transition p3) (λ p4 _.
        and_then (emit_data p4 10 event_message) (λ p5 _. emit_data p5 20 event_message)))))

unfoldable pub drive_lifecycle_survival : EpochProducer → Step Unit
drive_lifecycle_survival p = and_then (emit_data p 21 event_message) (λ p1 _. transition p1)

unfoldable pub drive : CaptureScenario → EpochProducer → Step Unit
drive rich_wrap p = drive_rich_wrap p
drive lifecycle_survival p = drive_lifecycle_survival p

-- The image of the producer that a scenario leaves.
unfoldable pub image_of : Step Unit → Outcome EpochError CapturedImage
image_of (p, ok u) =
    ok (record { ring_bytes = p.ring.bytes; control = from_snapshot (control_snapshot p) })
image_of (p, err e) = err e
image_of (p, stuck) = stuck

-- `stuck` is the panic of `RingBuffer::new` on a zero capacity.
unfoldable pub reference_capture : CaptureScenario → Outcome EpochError CapturedImage
reference_capture scenario = elim (Ring.new s4a_capture_capacity) [
  | none ↦ stuck
  | some r ↦ image_of (drive scenario (new_producer r 1 1))
]
