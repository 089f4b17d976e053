-- ===== src/Registry/Tests.antt =====
-- The catalogue of events at an id.
use open_ot_experiments.Prelude.{◌≡◌, ◌↔◌, some}
use mathlib.Core.List.{Memᴰ}
use open_ot_experiments.Registry.Events.{
  EventSpec, EventGroup, InRange, event_specs, event_spec, event_spec_iff,
}

abbrev records_dropped : EventSpec
records_dropped = record { id = 0x0104; name = "RecordsDropped"; group = EventGroup.system }

event_spec_iff_example : (event_spec 0x0104 ≡ some records_dropped) ↔ (
    Memᴰ records_dropped event_specs
    × (records_dropped.id ≡ 0x0104)
    × InRange EventGroup.system 0x0104)
event_spec_iff_example = event_spec_iff 0x0104 records_dropped
