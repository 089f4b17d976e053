-- ===== src/Epoch/Resolver.antt =====
-- crates/carriage/src/epoch.rs: `EpochResolver`, which finds a record's epoch from the retained
-- lifecycle records.
use open_ot_experiments.Prelude.{
  ℕ, Bool, false, not, ◌&&◌, List, [], ◌∷◌, ◌++◌, Option, none, some, leb, ◌==◌, if◌then◌else◌,
  length, get_or, from_le_bytes,
}
use open_ot_experiments.Registry.{
  event_definition_changed, event_logger_started, key_cold_start, key_epoch_id,
}
use open_ot_experiments.Wire.{Record, Slot}
use open_ot_experiments.Ring.Types.{ReadRecord}

-- Where an epoch begins, and its id.
pub record Boundary : Type 0 where
  pub start_abs : ℕ
  pub epoch_id : ℕ

-- An entry of `run_default_epoch`.
pub record RunDefault : Type 0 where
  pub run_id : ℕ
  pub epoch_id : ℕ

-- An entry of `epoch_boundaries`.
pub record RunBoundaries : Type 0 where
  pub run_id : ℕ
  pub boundaries : List Boundary

pub record EpochResolver : Type 0 where
  pub buffer_id : ℕ
  pub run_default_epoch : List RunDefault
  pub epoch_boundaries : List RunBoundaries
  pub pending_epoch : Option ℕ

unfoldable pub new_resolver : ℕ → ℕ → ℕ → EpochResolver
new_resolver buffer_id initial_run_id initial_epoch_id = record {
  buffer_id = buffer_id;
  run_default_epoch = record { run_id = initial_run_id; epoch_id = initial_epoch_id } ∷ [];
  epoch_boundaries = [];
  pending_epoch = none;
}

unfoldable pub get_default : List RunDefault → ℕ → Option ℕ
get_default [] run_id = none
get_default (d ∷ map) run_id =
    if d.run_id == run_id then some d.epoch_id else get_default map run_id

unfoldable pub set_default : List RunDefault → ℕ → ℕ → List RunDefault
set_default [] run_id epoch_id = record { run_id = run_id; epoch_id = epoch_id } ∷ []
set_default (d ∷ map) run_id epoch_id =
    if d.run_id == run_id
    then record { run_id = run_id; epoch_id = epoch_id } ∷ map
    else d ∷ set_default map run_id epoch_id

-- `entry(run_id).or_default()`, read.
unfoldable pub boundaries_of : List RunBoundaries → ℕ → List Boundary
boundaries_of [] run_id = []
boundaries_of (r ∷ map) run_id =
    if r.run_id == run_id then r.boundaries else boundaries_of map run_id

-- `entry(run_id).or_default().push(boundary)`
unfoldable pub push_boundary : List RunBoundaries → ℕ → Boundary → List RunBoundaries
push_boundary [] run_id b = record { run_id = run_id; boundaries = b ∷ [] } ∷ []
push_boundary (r ∷ map) run_id b =
    if r.run_id == run_id
    then record r { boundaries = r.boundaries ++ b ∷ [] } ∷ map
    else r ∷ push_boundary map run_id b

-- `sort_by_key(|(start_abs, _)| *start_abs)`, stable.
unfoldable pub insert_boundary : Boundary → List Boundary → List Boundary
insert_boundary b [] = b ∷ []
insert_boundary b (c ∷ bs) =
    if leb b.start_abs c.start_abs then b ∷ c ∷ bs else c ∷ insert_boundary b bs

unfoldable pub sort_boundaries : List Boundary → List Boundary
sort_boundaries [] = []
sort_boundaries (b ∷ bs) = insert_boundary b (sort_boundaries bs)

-- `for boundaries in self.epoch_boundaries.values_mut()`
unfoldable pub sort_all : List RunBoundaries → List RunBoundaries
sort_all [] = []
sort_all (r ∷ map) = record r { boundaries = sort_boundaries r.boundaries } ∷ sort_all map

-- The loop of `definition_changed_epoch`: the last slot that fits.
unfoldable pub epoch_slot : List Slot → Option ℕ → Option ℕ
epoch_slot [] epoch_id = epoch_id
epoch_slot (s ∷ slots) epoch_id = epoch_slot slots (
    if s.key == key_epoch_id && length s.payload == 8
    then some (from_le_bytes s.payload)
    else epoch_id)

unfoldable pub definition_changed_epoch : Record → Option ℕ
definition_changed_epoch x = epoch_slot x.slots none

-- The `find` of `logger_started_cold_start`: the first slot that fits.
unfoldable pub cold_start_slot : List Slot → Option Bool
cold_start_slot [] = none
cold_start_slot (s ∷ slots) =
    if s.key == key_cold_start && length s.payload == 1
    then some (not (get_or s.payload 0 0 == 0))
    else cold_start_slot slots

unfoldable pub logger_started_cold_start : Record → Option Bool
logger_started_cold_start x = cold_start_slot x.slots

-- `unwrap_or(false)`
unfoldable pub unwrap_or_false : Option Bool → Bool
unwrap_or_false none = false
unwrap_or_false (some b) = b

-- The part of `observe` for a `LoggerStarted` record that follows a change of the definition.
unfoldable pub start_observed : EpochResolver → ℕ → Record → ℕ → EpochResolver
start_observed e start_abs x pending =
    let pushed =
      push_boundary e.epoch_boundaries x.run_id
        (record { start_abs = start_abs; epoch_id = pending }) in
    if unwrap_or_false (logger_started_cold_start x)
    then record e {
      run_default_epoch = set_default e.run_default_epoch x.run_id pending;
      epoch_boundaries = pushed;
      pending_epoch = none;
    }
    else record e { epoch_boundaries = sort_all pushed; pending_epoch = none }

-- `if let Some(pending) = self.pending_epoch.take()`
unfoldable pub take_pending : EpochResolver → ℕ → Record → Option ℕ → EpochResolver
take_pending e start_abs x none = e
take_pending e start_abs x (some pending) = start_observed e start_abs x pending

unfoldable pub observe : EpochResolver → ℕ → ReadRecord → EpochResolver
observe e buffer_id read =
    let x = read.value in
    if not (buffer_id == e.buffer_id)
    then e
    else if x.event_type_id == event_definition_changed
    then record e { pending_epoch = definition_changed_epoch x }
    else if x.event_type_id == event_logger_started
    then take_pending e read.start_abs x e.pending_epoch
    else e

-- `boundaries.iter().rev().find(…)`: the last boundary at or before the record.
unfoldable pub last_before : List Boundary → ℕ → Option ℕ
last_before [] start_abs = none
last_before (b ∷ bs) start_abs = elim (last_before bs start_abs) [
  | some epoch_id ↦ some epoch_id
  | none ↦ if leb b.start_abs start_abs then some b.epoch_id else none
]

-- `or_else(|| self.run_default_epoch.get(&run_id).copied())`
unfoldable pub or_default : Option ℕ → Option ℕ → Option ℕ
or_default (some epoch_id) d = some epoch_id
or_default none d = d

unfoldable pub resolve : EpochResolver → ℕ → ℕ → ℕ → Option ℕ
resolve e buffer_id run_id start_abs =
    if not (buffer_id == e.buffer_id)
    then none
    else or_default (last_before (boundaries_of e.epoch_boundaries run_id) start_abs)
        (get_default e.run_default_epoch run_id)
