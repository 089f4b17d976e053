-- ===== src/Loss.antt =====
-- crates/carriage/src/loss.rs: per-source accounting of delivered and lost records.
pub mod Covered
pub mod Union
pub mod Separated
pub mod Count
pub mod Account
pub mod Balance
pub mod Numbered
pub mod Report
pub mod Events
mod Tests
use open_ot_experiments.Prelude.{
  ℕ, ◌+◌, ◌-◌, ◌%◌, ◌^◌, Bool, true, false, not, ◌&&◌, ◌||◌, List, [], ◌∷◌, ◌++◌, Option, none,
  some, ltb, leb, ◌==◌, if◌then◌else◌, min, max, bit_and, length, from_le_bytes, to_le_bytes, add64,
}
use open_ot_experiments.Registry.{
  event_source_high_water, event_records_dropped, key_dropped_count, key_first_lost_seq,
  key_last_lost_seq, key_source_high_water, ty_udint, ty_ulint,
}
use open_ot_experiments.Wire.{Record, Slot, new_record, flag_synthetic}
use open_ot_experiments.Ring.Types.{LossRange, range_count}

pub record LossEvent : Type 0 where
  pub buffer_id : ℕ
  pub run_id : ℕ
  pub source_id : ℕ
  pub first_seq : ℕ
  pub last_seq : ℕ
  pub count : ℕ
  pub synthetic : Bool

-- A `BTreeMap` keyed by run and source, of which the tracker uses lookup and insertion only.
pub record Entry : Type 0 where
  pub run_id : ℕ
  pub source_id : ℕ
  pub amount : ℕ

pub record LossTracker : Type 0 where
  pub buffer_id : ℕ
  pub next_seq_by_source : List Entry
  pub delivered_by_source : List Entry
  pub loss_events : List LossEvent

-- `map.get(&(run_id, source_id)).copied().unwrap_or(0)`
unfoldable pub amount_of : List Entry → ℕ → ℕ → ℕ
amount_of [] run source = 0
amount_of (e ∷ map) run source =
    if e.run_id == run && e.source_id == source then e.amount else amount_of map run source

-- `map.insert((run_id, source_id), amount)`
unfoldable pub set_amount : List Entry → ℕ → ℕ → ℕ → List Entry
set_amount [] run source amount = record { run_id = run; source_id = source; amount = amount } ∷ []
set_amount (e ∷ map) run source amount =
    if e.run_id == run && e.source_id == source
    then record { run_id = run; source_id = source; amount = amount } ∷ map
    else e ∷ set_amount map run source amount

-- `LossTracker::new`
unfoldable pub new_tracker : ℕ → LossTracker
new_tracker buffer_id = record {
  buffer_id = buffer_id;
  next_seq_by_source = [];
  delivered_by_source = [];
  loss_events = [];
}

-- `saturating_add(1)` on a `u64`
abbrev pub saturating_next : ℕ → ℕ
saturating_next n = min (n + 1) (2 ^ 64 - 1)

unfoldable pub same_loss_stream : LossEvent → LossEvent → Bool
same_loss_stream left right =
    left.buffer_id == right.buffer_id
    && left.run_id == right.run_id
    && left.source_id == right.source_id

unfoldable pub ranges_touch_or_overlap : LossEvent → LossEvent → Bool
ranges_touch_or_overlap left right =
    leb right.first_seq (saturating_next left.last_seq)
    && leb left.first_seq (saturating_next right.last_seq)

-- The test by which `retain` moves an existing event to the intervals that are merged anew.
unfoldable pub joins : LossEvent → LossEvent → Bool
joins existing event = same_loss_stream existing event && ranges_touch_or_overlap existing event

unfoldable pub retained : List LossEvent → LossEvent → List LossEvent
retained [] event = []
retained (e ∷ events) event =
    if joins e event then retained events event else e ∷ retained events event

unfoldable pub collected : List LossEvent → LossEvent → List LossEvent
collected [] event = []
collected (e ∷ events) event =
    if joins e event then e ∷ collected events event else collected events event

-- `sort_by_key(|event| event.first_seq)`, a stable sort: by insertion, behind equal keys.
unfoldable pub insert_sorted : LossEvent → List LossEvent → List LossEvent
insert_sorted e [] = e ∷ []
insert_sorted e (f ∷ events) =
    if leb e.first_seq f.first_seq then e ∷ f ∷ events else f ∷ insert_sorted e events

unfoldable pub sort_by_first : List LossEvent → List LossEvent
sort_by_first [] = []
sort_by_first (e ∷ events) = insert_sorted e (sort_by_first events)

-- The update of `merged.last_mut()` by an interval that touches it.
unfoldable pub joined : LossEvent → LossEvent → LossEvent
joined last interval =
    let first_seq = min last.first_seq interval.first_seq in
    let last_seq = max last.last_seq interval.last_seq in
    record last {
      first_seq = first_seq;
      last_seq = last_seq;
      count = add64 (last_seq - first_seq) 1;
      synthetic = last.synthetic && interval.synthetic;
    }

-- The merging loop, with `merged.last_mut()` as its first argument.
unfoldable pub merge_from : LossEvent → List LossEvent → List LossEvent
merge_from last [] = last ∷ []
merge_from last (interval ∷ intervals) =
    if ranges_touch_or_overlap last interval
    then merge_from (joined last interval) intervals
    else last ∷ merge_from interval intervals

unfoldable pub merged : List LossEvent → List LossEvent
merged [] = []
merged (interval ∷ intervals) = merge_from interval intervals

unfoldable pub insert_loss_event : List LossEvent → LossEvent → List LossEvent
insert_loss_event events event =
    retained events event ++ merged (sort_by_first (collected events event ++ event ∷ []))

-- The slots that `parse_records_dropped` has seen so far.
pub record Dropped : Type 0 where
  pub count : Option ℕ
  pub first : Option ℕ
  pub last : Option ℕ

unfoldable pub dropped_slots : List Slot → Dropped → Dropped
dropped_slots [] d = d
dropped_slots (s ∷ slots) d =
    let n = length s.payload in
    let value = from_le_bytes s.payload in
    dropped_slots slots (
      if s.key == key_dropped_count && n == 4
      then record d { count = some value }
      else if s.key == key_first_lost_seq && n == 8
      then record d { first = some value }
      else if s.key == key_last_lost_seq && n == 8
      then record d { last = some value }
      else d)

-- The end of `parse_records_dropped`: the three `?` and the range test.
unfoldable pub dropped_event : Record → ℕ → Option ℕ → Option ℕ → Option ℕ → Option LossEvent
dropped_event r buffer_id none last count = none
dropped_event r buffer_id (some first) none count = none
dropped_event r buffer_id (some first) (some last) none = none
dropped_event r buffer_id (some first) (some last) (some count) =
    if ltb last first || not (count == add64 (last - first) 1)
    then none
    else some (record {
      buffer_id = buffer_id;
      run_id = r.run_id;
      source_id = r.source_id;
      first_seq = first;
      last_seq = last;
      count = count;
      synthetic = not (bit_and r.flags flag_synthetic == 0);
    })

unfoldable pub parse_records_dropped : Record → ℕ → Option LossEvent
parse_records_dropped r buffer_id =
    let d = dropped_slots r.slots (record { count = none; first = none; last = none }) in
    if r.event_type_id == event_records_dropped
    then dropped_event r buffer_id d.first d.last d.count
    else none

-- The `find_map` of `parse_source_high_water`.
unfoldable pub high_water_slot : List Slot → ℕ → Option ℕ
high_water_slot [] seq = none
high_water_slot (s ∷ slots) seq =
    if s.key == key_source_high_water && length s.payload == 8 && from_le_bytes s.payload == seq
    then some (from_le_bytes s.payload)
    else high_water_slot slots seq

unfoldable pub parse_source_high_water : Record → Option ℕ
parse_source_high_water r =
    if r.event_type_id == event_source_high_water then high_water_slot r.slots r.seq else none

-- The event of a range of sequence numbers of the stream of `r`.
unfoldable pub loss_of : ℕ → Record → ℕ → ℕ → Bool → LossEvent
loss_of buffer_id r first next synthetic = record {
  buffer_id = buffer_id;
  run_id = r.run_id;
  source_id = r.source_id;
  first_seq = first;
  last_seq = next - 1;
  count = next - first;
  synthetic = synthetic;
}

-- The first block of `account`: a checkpoint ahead of what was expected.
unfoldable pub account_high_water : List LossEvent → ℕ → Record → ℕ → Option ℕ → List LossEvent
account_high_water events buffer_id r expected none = events
account_high_water events buffer_id r expected (some produced) =
    if ltb expected produced
    then insert_loss_event events (loss_of buffer_id r expected produced false)
    else events

-- The second block: a gap before the record.
unfoldable pub account_gap : List LossEvent → ℕ → Record → ℕ → List LossEvent
account_gap events buffer_id r expected =
    if ltb expected r.seq
    then insert_loss_event events (loss_of buffer_id r expected r.seq true)
    else events

-- The last block: what the producer itself reports.
unfoldable pub account_dropped : List LossEvent → Option LossEvent → List LossEvent
account_dropped events none = events
account_dropped events (some event) = insert_loss_event events event

-- The expected sequence number of the record's source.
unfoldable pub expected_of : LossTracker → ℕ → ℕ → ℕ
expected_of t run source = amount_of t.next_seq_by_source run source

unfoldable pub account : LossTracker → Record → LossTracker
account t r =
    let expected = expected_of t r.run_id r.source_id in
    let events =
      account_gap
        (account_high_water t.loss_events t.buffer_id r expected (parse_source_high_water r))
        t.buffer_id r expected in
    let delivers = leb expected r.seq in
    record t {
      next_seq_by_source =
          if delivers
          then set_amount t.next_seq_by_source r.run_id r.source_id (add64 r.seq 1)
          else t.next_seq_by_source;
      delivered_by_source =
          if delivers
          then set_amount t.delivered_by_source r.run_id r.source_id
              (add64 (amount_of t.delivered_by_source r.run_id r.source_id) 1)
          else t.delivered_by_source;
      loss_events = account_dropped events (parse_records_dropped r t.buffer_id);
    }

unfoldable pub delivered : LossTracker → ℕ → ℕ → ℕ
delivered t run source = amount_of t.delivered_by_source run source

-- The sum of `lost`, as a `u64`.
unfoldable pub sum_counts : List LossEvent → ℕ → ℕ → ℕ
sum_counts [] run source = 0
sum_counts (e ∷ events) run source =
    let rest = sum_counts events run source in
    if e.run_id == run && e.source_id == source then add64 e.count rest else rest

unfoldable pub lost : LossTracker → ℕ → ℕ → ℕ
lost t run source = sum_counts t.loss_events run source

-- `records_dropped_record`
unfoldable pub records_dropped_record : ℕ → LossRange → Record
records_dropped_record seq range =
    record (new_record (add64 1_780_000_000_000_000_000 seq) range.run_id seq range.source_id
      event_records_dropped) {
        slots =
            record {
              key = key_dropped_count;
              ty = ty_udint;
              payload = to_le_bytes 4 (range_count range % 2 ^ 32);
            }
            ∷ record {
              key = key_first_lost_seq;
              ty = ty_ulint;
              payload = to_le_bytes 8 range.first_seq;
            }
            ∷ record {
              key = key_last_lost_seq;
              ty = ty_ulint;
              payload = to_le_bytes 8 range.last_seq;
            }
            ∷ [];
      }
