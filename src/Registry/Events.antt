-- ===== src/Registry/Events.antt =====
-- crates/carriage/src/registry.rs: the catalogue of core events, and the ranges of event ids.
use Prim.Native.String.{String}
use mathlib.Core.List.{Memᴰ}
use mathlib.Core.Path.{subst}
use open_ot_experiments.Prelude.{
  ℕ, ◌^◌, ◌/◌, ◌<◌, ◌≡◌, refl, Bool, not, ◌&&◌, List, [], ◌∷◌, Option, some, arith, ◌≤◌, ◌↔◌, true,
  false, leb, ◌==◌,
}
use open_ot_experiments.Registry.Lookup.{find_by, find_by_iff, each-Memᴰ}

pub data EventGroup : Type 0 where
  base system condition procedural regulated : EventGroup

pub record EventSpec : Type 0 where
  pub id : ℕ
  pub name : String
  pub group : EventGroup

-- `EVENT_SPECS`
abbrev pub event_specs : List EventSpec
event_specs =
    record { id = 0x0001; name = "StateTransition"; group = EventGroup.base }
    ∷ record { id = 0x0002; name = "ValueChanged"; group = EventGroup.base }
    ∷ record { id = 0x0003; name = "Message"; group = EventGroup.base }
    ∷ record { id = 0x0100; name = "Heartbeat"; group = EventGroup.system }
    ∷ record { id = 0x0101; name = "LoggerStarted"; group = EventGroup.system }
    ∷ record { id = 0x0102; name = "LoggerStopped"; group = EventGroup.system }
    ∷ record { id = 0x0103; name = "BufferCleared"; group = EventGroup.system }
    ∷ record { id = 0x0104; name = "RecordsDropped"; group = EventGroup.system }
    ∷ record { id = 0x0105; name = "SourceRegistered"; group = EventGroup.system }
    ∷ record { id = 0x0106; name = "DefinitionChanged"; group = EventGroup.system }
    ∷ record { id = 0x0107; name = "TimeSyncChanged"; group = EventGroup.system }
    ∷ record { id = 0x0108; name = "SourceHighWater"; group = EventGroup.system }
    ∷ record { id = 0x0200; name = "ConditionActive"; group = EventGroup.condition }
    ∷ record { id = 0x0201; name = "ConditionCleared"; group = EventGroup.condition }
    ∷ record { id = 0x0202; name = "ConditionAcknowledged"; group = EventGroup.condition }
    ∷ record { id = 0x0203; name = "ConditionConfirmed"; group = EventGroup.condition }
    ∷ record { id = 0x0204; name = "ConditionShelved"; group = EventGroup.condition }
    ∷ record { id = 0x0205; name = "ConditionUnshelved"; group = EventGroup.condition }
    ∷ record { id = 0x0206; name = "ConditionSuppressed"; group = EventGroup.condition }
    ∷ record { id = 0x0207; name = "ConditionUnsuppressed"; group = EventGroup.condition }
    ∷ record { id = 0x0208; name = "ConditionOutOfService"; group = EventGroup.condition }
    ∷ record { id = 0x0209; name = "ConditionInService"; group = EventGroup.condition }
    ∷ record { id = 0x020a; name = "ConditionCommented"; group = EventGroup.condition }
    ∷ record { id = 0x020b; name = "ConditionReset"; group = EventGroup.condition }
    ∷ record { id = 0x020c; name = "ConditionPriorityChanged"; group = EventGroup.condition }
    ∷ record { id = 0x020d; name = "RefreshStart"; group = EventGroup.condition }
    ∷ record { id = 0x020e; name = "RefreshEnd"; group = EventGroup.condition }
    ∷ record { id = 0x0301; name = "RecipeLoaded"; group = EventGroup.procedural }
    ∷ record { id = 0x0302; name = "RecipeApproved"; group = EventGroup.procedural }
    ∷ record { id = 0x0303; name = "BatchEvent"; group = EventGroup.procedural }
    ∷ record { id = 0x0304; name = "MaterialAddition"; group = EventGroup.procedural }
    ∷ record { id = 0x0400; name = "OperatorAction"; group = EventGroup.regulated }
    ∷ record { id = 0x0401; name = "OperatorLogin"; group = EventGroup.regulated }
    ∷ record { id = 0x0402; name = "OperatorLogout"; group = EventGroup.regulated }
    ∷ record { id = 0x0403; name = "ParameterChange"; group = EventGroup.regulated }
    ∷ record { id = 0x0404; name = "ESignature"; group = EventGroup.regulated }
    ∷ record { id = 0x0405; name = "SecurityAccessFailure"; group = EventGroup.regulated }
    ∷ record { id = 0x0406; name = "ProgramDownload"; group = EventGroup.regulated }
    ∷ []

unfoldable pub event_spec : ℕ → Option EventSpec
event_spec id = find_by EventSpec.id event_specs id

-- `id & 0x8000_0000 == 0`, of a `u32`: its highest bit.
unfoldable pub is_core_event_id : ℕ → Bool
is_core_event_id id = id / 2 ^ 31 == 0

unfoldable pub is_vendor_event_id : ℕ → Bool
is_vendor_event_id id = leb 0x80000000 id && leb id 0xffffffff

-- `EVENT_RANGE_BASE` to `EVENT_RANGE_REGULATED`
abbrev pub event_range : EventGroup → ℕ × ℕ
event_range EventGroup.base = (0x0001, 0x00ff)
event_range EventGroup.system = (0x0100, 0x01ff)
event_range EventGroup.condition = (0x0200, 0x02ff)
event_range EventGroup.procedural = (0x0300, 0x03ff)
event_range EventGroup.regulated = (0x0400, 0x04ff)

abbrev in_range : EventSpec → Bool
in_range s = let (lo, hi) = event_range s.group in leb lo s.id && leb s.id hi

abbrev pub InRange : EventGroup → ℕ → Type 0
InRange g id =
    ((event_range g).0 ≤ id)
    × (id ≤ (event_range g).1)
    × (is_core_event_id id ≡ true)
    × (is_vendor_event_id id ≡ false)

range-InRange :
    (g : EventGroup) (id : ℕ)
    → (let (lo, hi) = event_range g in leb lo id && leb id hi) ≡ true
    → InRange g id
unfolding is_core_event_id is_vendor_event_id
range-InRange EventGroup.base id h = ground arith
range-InRange EventGroup.system id h = ground arith
range-InRange EventGroup.condition id h = ground arith
range-InRange EventGroup.procedural id h = ground arith
range-InRange EventGroup.regulated id h = ground arith

-- The lookup of an id finds exactly the entry of the catalogue with the id, so no two have the
-- same; and the id lies in the range of that entry's group, thus it is a core id and no private
-- extension.
pub event_spec_iff :
    (id : ℕ) (s : EventSpec)
    → (event_spec id ≡ some s) ↔ (Memᴰ s event_specs × (s.id ≡ id) × InRange s.group id)
unfolding event_spec
event_spec_iff id s =
    let found = find_by_iff EventSpec.id 0 event_specs id s refl in
    (
      λ h.
          let (m, e) = found.0 h in
          let ranged = each-Memᴰ in_range event_specs refl m in
          (m, e, subst (InRange s.group) e (range-InRange s.group s.id ranged)),
      λ (m, e, _). found.1 (m, e),
    )

-- Every 32-bit event id is either in the core ranges or a private extension, and not both.
pub is_core-vendor : (id : ℕ) → id < 2 ^ 32 → is_core_event_id id ≡ not (is_vendor_event_id id)
unfolding is_core_event_id is_vendor_event_id
is_core-vendor id h = ground arith
