-- ===== src/Registry/Fields.antt =====
-- crates/carriage/src/registry.rs: the catalogue of fields, and the ranges of keys.
use Prim.Native.String.{String}
use open_ot_experiments.Prelude.{
  ℕ, ◌≡◌, refl, Bool, true, false, ◌&&◌, List, [], ◌∷◌, Option, some, All, leb,
}
use open_ot_experiments.Registry.Lookup.{find_by, find_by-All}

pub data FieldKind : Type 0 where
  fixed : (ty : ℕ) → FieldKind
  value_payload reserved : FieldKind

pub record FieldSpec : Type 0 where
  pub key : ℕ
  pub name : String
  pub kind : FieldKind
  pub repeatable : Bool

-- `field`
abbrev pub field : ℕ → String → FieldKind → Bool → FieldSpec
field key name kind repeatable = record {
  key = key;
  name = name;
  kind = kind;
  repeatable = repeatable;
}

-- `FIELD_SPECS`
abbrev pub field_specs : List FieldSpec
field_specs =
    field 0x0001 "stateMachineId" (FieldKind.fixed 0x05) false
    ∷ field 0x0002 "category" (FieldKind.fixed 0x03) false
    ∷ field 0x0003 "previousState" (FieldKind.fixed 0x03) false
    ∷ field 0x0004 "newState" (FieldKind.fixed 0x03) false
    ∷ field 0x0005 "conditionId" (FieldKind.fixed 0x05) false
    ∷ field 0x0006 "conditionClass" (FieldKind.fixed 0x03) false
    ∷ field 0x0007 "correlationId" (FieldKind.fixed 0x05) false
    ∷ field 0x0008 "severity" (FieldKind.fixed 0x03) false
    ∷ field 0x0009 "causeOperand" (FieldKind.fixed 0x05) true
    ∷ field 0x000a "actionId" (FieldKind.fixed 0x05) false
    ∷ field 0x000b "actor" (FieldKind.fixed 0x0c) false
    ∷ field 0x000c "contextRef" (FieldKind.fixed 0x05) true
    ∷ field 0x000d "valueId" (FieldKind.fixed 0x05) false
    ∷ field 0x000e "dataType" FieldKind.reserved false
    ∷ field 0x000f "previousValue" FieldKind.value_payload false
    ∷ field 0x0010 "newValue" FieldKind.value_payload false
    ∷ field 0x0011 "quality" (FieldKind.fixed 0x03) false
    ∷ field 0x0012 "semanticRole" (FieldKind.fixed 0x03) false
    ∷ field 0x0013 "unit" (FieldKind.fixed 0x03) false
    ∷ field 0x0014 "messageTemplateId" (FieldKind.fixed 0x05) false
    ∷ field 0x0015 "arg" FieldKind.value_payload true
    ∷ field 0x0016 "count" (FieldKind.fixed 0x05) false
    ∷ field 0x0017 "firstLostSeq" (FieldKind.fixed 0x07) false
    ∷ field 0x0018 "lastLostSeq" (FieldKind.fixed 0x07) false
    ∷ field 0x0019 "windowStart" (FieldKind.fixed 0x0b) false
    ∷ field 0x001a "windowEnd" (FieldKind.fixed 0x0b) false
    ∷ field 0x001b "sourcePath" (FieldKind.fixed 0x0c) false
    ∷ field 0x001c "defHashNew" (FieldKind.fixed 0x0d) false
    ∷ field 0x001d "ackBy" (FieldKind.fixed 0x0c) false
    ∷ field 0x001e "shelveSecs" (FieldKind.fixed 0x05) false
    ∷ field 0x001f "reason" (FieldKind.fixed 0x0c) false
    ∷ field 0x0020 "authResult" (FieldKind.fixed 0x03) false
    ∷ field 0x0021 "workstation" (FieldKind.fixed 0x0c) false
    ∷ field 0x0022 "signatureMeaning" (FieldKind.fixed 0x03) false
    ∷ field 0x0023 "recipeId" (FieldKind.fixed 0x05) false
    ∷ field 0x0024 "recipeVersion" (FieldKind.fixed 0x0c) false
    ∷ field 0x0025 "batchId" (FieldKind.fixed 0x05) false
    ∷ field 0x0026 "materialId" (FieldKind.fixed 0x05) false
    ∷ field 0x0027 "quantity" (FieldKind.fixed 0x0a) false
    ∷ field 0x0028 "programId" (FieldKind.fixed 0x05) false
    ∷ field 0x0029 "registeredSourceId" (FieldKind.fixed 0x05) false
    ∷ field 0x002a "intervalMs" (FieldKind.fixed 0x05) false
    ∷ field 0x002b "seqBase" (FieldKind.fixed 0x07) false
    ∷ field 0x002c "newPriority" (FieldKind.fixed 0x03) false
    ∷ field 0x002d "reserved002D" FieldKind.reserved false
    ∷ field 0x002e "previousPriority" (FieldKind.fixed 0x03) false
    ∷ field 0x002f "signedEventSeq" (FieldKind.fixed 0x07) false
    ∷ field 0x0030 "effectiveTime" (FieldKind.fixed 0x0b) false
    ∷ field 0x0031 "correctionOf" (FieldKind.fixed 0x07) false
    ∷ field 0x0032 "clockQuality" (FieldKind.fixed 0x03) false
    ∷ field 0x0033 "role" (FieldKind.fixed 0x03) false
    ∷ field 0x0034 "refreshId" (FieldKind.fixed 0x05) false
    ∷ field 0x0035 "groupId" (FieldKind.fixed 0x05) false
    ∷ field 0x0036 "firstInGroup" (FieldKind.fixed 0x00) false
    ∷ field 0x0037 "comment" (FieldKind.fixed 0x0c) false
    ∷ field 0x0038 "producedCount" (FieldKind.fixed 0x07) false
    ∷ field 0x0039 "defHashOld" (FieldKind.fixed 0x0d) false
    ∷ field 0x003a "epochId" (FieldKind.fixed 0x07) false
    ∷ field 0x003b "coldStart" (FieldKind.fixed 0x00) false
    ∷ []

unfoldable pub field_spec : ℕ → Option FieldSpec
field_spec key = find_by FieldSpec.key field_specs key

unfoldable pub is_core_key : ℕ → Bool
is_core_key key = leb 0x0001 key && leb key 0x7fff

unfoldable pub is_vendor_key : ℕ → Bool
is_vendor_key key = leb 0x8000 key

-- Every field of the catalogue is found by its key, so no two have the same.
pub field_spec-All : All (λ s. field_spec s.key ≡ some s) field_specs
unfolding field_spec
field_spec-All = find_by-All FieldSpec.key 0 field_specs refl
