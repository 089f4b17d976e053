-- ===== src/Registry/Units.antt =====
-- crates/carriage/src/registry.rs: the type tags, the units and the severity bands.
use Prim.Native.String.{String}
use open_ot_experiments.Prelude.{
  ℕ, ◌≡◌, refl, List, [], ◌∷◌, ◌&&◌, Option, none, some, All, leb, if◌then◌else◌,
}
use open_ot_experiments.Registry.Lookup.{find_by, find_by-All}

pub record TlvTypeSpec : Type 0 where
  pub code : ℕ
  pub name : String
  pub fixed_width : Option ℕ

pub record UnitSpec : Type 0 where
  pub unit_id : ℕ
  pub symbol : String
  pub name : String

-- `ty`
abbrev pub ty : ℕ → String → Option ℕ → TlvTypeSpec
ty code name fixed_width = record { code = code; name = name; fixed_width = fixed_width }

-- `unit`
abbrev pub unit : ℕ → String → String → UnitSpec
unit unit_id symbol name = record { unit_id = unit_id; symbol = symbol; name = name }

-- `TLV_TYPE_SPECS`
abbrev pub tlv_type_specs : List TlvTypeSpec
tlv_type_specs =
    ty 0x00 "Bool" (some 1)
    ∷ ty 0x01 "SInt" (some 1)
    ∷ ty 0x02 "USInt" (some 1)
    ∷ ty 0x03 "UInt" (some 2)
    ∷ ty 0x04 "Int" (some 2)
    ∷ ty 0x05 "UDInt" (some 4)
    ∷ ty 0x06 "DInt" (some 4)
    ∷ ty 0x07 "ULInt" (some 8)
    ∷ ty 0x08 "LInt" (some 8)
    ∷ ty 0x09 "Real" (some 4)
    ∷ ty 0x0a "LReal" (some 8)
    ∷ ty 0x0b "DateTime" (some 8)
    ∷ ty 0x0c "String" none
    ∷ ty 0x0d "Bytes" none
    ∷ []

-- `UNIT_SPECS`
abbrev pub unit_specs : List UnitSpec
unit_specs =
    unit 1 "1" "count"
    ∷ unit 2 "L" "litre"
    ∷ unit 3 "degC" "degree Celsius"
    ∷ unit 4 "bar" "bar"
    ∷ unit 5 "rpm" "revolutions per minute"
    ∷ unit 6 "s" "second"
    ∷ unit 7 "ms" "millisecond"
    ∷ unit 8 "kg" "kilogram"
    ∷ unit 9 "m" "metre"
    ∷ unit 10 "%" "percent"
    ∷ []

unfoldable pub tlv_type_spec : ℕ → Option TlvTypeSpec
tlv_type_spec code = find_by TlvTypeSpec.code tlv_type_specs code

unfoldable pub unit_spec : ℕ → Option UnitSpec
unit_spec unit_id = find_by UnitSpec.unit_id unit_specs unit_id

pub data SeverityBand : Type 0 where
  low medium high : SeverityBand

unfoldable pub severity_band : ℕ → Option SeverityBand
severity_band severity =
    if leb 1 severity && leb severity 332
    then some SeverityBand.low
    else if leb 333 severity && leb severity 666
    then some SeverityBand.medium
    else if leb 667 severity && leb severity 1000
    then some SeverityBand.high
    else none

-- Every unit is found by its id, so no two have the same.
pub unit_spec-All : All (λ s. unit_spec s.unit_id ≡ some s) unit_specs
unfolding unit_spec
unit_spec-All = find_by-All UnitSpec.unit_id 0 unit_specs refl
