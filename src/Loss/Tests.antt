-- ===== src/Loss/Tests.antt =====
-- Concrete losses, and the theorems about the accounting at them.
use open_ot_experiments.Prelude.{
  ℕ, ◌+◌, ◌-◌, ◌^◌, ◌≤◌, ◌<◌, ◌≡◌, refl, true, false, ◌||◌, ◌&&◌, List, [], ◌∷◌, some, none, arith,
  All, ltb, if◌then◌else◌,
}
use open_ot_experiments.Wire.{Record, new_record}
use open_ot_experiments.Ring.Types.{LossRange}
use open_ot_experiments.Loss.{
  LossEvent, LossTracker, retained, collected, sort_by_first, insert_sorted, merged, merge_from,
  joined, sum_counts, amount_of, new_tracker, account, insert_loss_event, joins, same_loss_stream,
  ranges_touch_or_overlap, parse_records_dropped, records_dropped_record, lost, delivered,
  expected_of,
}
use open_ot_experiments.Loss.Covered.{covered, covers, of_stream, IsRange}
use open_ot_experiments.Loss.Union.{covered-insert_loss_event}
use open_ot_experiments.Loss.Separated.{Separated, insert_loss_event-Separated}
use open_ot_experiments.Loss.Count.{card, lost-card}
use open_ot_experiments.Loss.Account.{Sound, in_gap, reports, account-Sound, account-covered}
use open_ot_experiments.Loss.Balance.{Balanced, account_each, account-Balanced, delivered-lost}
use open_ot_experiments.Loss.Report.{parse_records_dropped-report}

-- The numbers from `first` to `last` of one source.
abbrev event : ℕ → ℕ → LossEvent
event first last = record {
  buffer_id = 1;
  run_id = 2;
  source_id = 4;
  first_seq = first;
  last_seq = last;
  count = last - first + 1;
  synthetic = true;
}

abbrev two : List LossEvent
two = event 0 2 ∷ event 5 6 ∷ []

-- The event between them joins all three.
merges_all : insert_loss_event two (event 3 4) ≡ event 0 6 ∷ []
unfolding insert_loss_event retained collected joins same_loss_stream ranges_touch_or_overlap
    sort_by_first insert_sorted merged merge_from joined
merges_all = refl

event-IsRange : (first last : ℕ) → first ≤ last → last < 2 ^ 64 - 1 → IsRange (event first last)
event-IsRange first last h w = record { ordered = h; fits = w; counted = refl }

two-IsRange : All IsRange two
two-IsRange = (
  event-IsRange 0 2 (omega arith) (omega arith),
  (event-IsRange 5 6 (omega arith) (omega arith), tt),
)

two-Separated : Separated two
unfolding joins same_loss_stream ranges_touch_or_overlap
two-Separated = ((refl, tt), (tt, tt))

covered-insert_loss_event_example :
    covered (insert_loss_event two (event 3 4)) 1 2 4 3
    ≡ covered two 1 2 4 3 || (of_stream 1 2 4 (event 3 4) && covers (event 3 4) 3)
covered-insert_loss_event_example =
    covered-insert_loss_event two (event 3 4) 1 2 4 3 two-IsRange
      (event-IsRange 3 4 (omega arith) (omega arith))

insert_loss_event-Separated_example : Separated (insert_loss_event two (event 3 4))
insert_loss_event-Separated_example =
    insert_loss_event-Separated two (event 3 4) two-IsRange
      (event-IsRange 3 4 (omega arith) (omega arith)) two-Separated

abbrev tracker : LossTracker
tracker = record {
  buffer_id = 1;
  next_seq_by_source = record { run_id = 2; source_id = 4; amount = 8 } ∷ [];
  delivered_by_source = record { run_id = 2; source_id = 4; amount = 3 } ∷ [];
  loss_events = two;
}

tracker-Sound : Sound 1 two
tracker-Sound = record { ranges = two-IsRange; buffers = (refl, (refl, tt)); apart = two-Separated }

lost-card_example : lost tracker 2 4 ≡ card (covered two 1 2 4) 10
lost-card_example =
    lost-card tracker 2 4 10 (omega arith) two-IsRange (omega arith, (omega arith, tt))
      (refl, (refl, tt)) two-Separated

-- A record of that source after a gap of two.
abbrev after_gap : Record
after_gap = new_record 0 2 10 4 5

plain : parse_records_dropped after_gap 1 ≡ none
unfolding parse_records_dropped new_record
plain = refl

reports_none :
    (e : LossEvent) → parse_records_dropped after_gap 1 ≡ some e → e.last_seq < 2 ^ 64 - 1
reports_none e h = (let p = plain in cc)

account-Sound_example :
    Sound (account tracker after_gap).buffer_id (account tracker after_gap).loss_events
unfolding new_record
account-Sound_example = account-Sound tracker after_gap tracker-Sound (omega arith) reports_none

account-covered_example :
    covered (account tracker after_gap).loss_events 1 2 4 9
    ≡ (covered two 1 2 4 9
        || in_gap after_gap (expected_of tracker after_gap.run_id after_gap.source_id) 2 4 9)
      || reports 1 2 4 (parse_records_dropped after_gap 1) 9
unfolding new_record
account-covered_example =
    account-covered tracker after_gap tracker-Sound (omega arith) reports_none 2 4 9

tracker-Balanced : Balanced 2 4 tracker
unfolding covered lost delivered expected_of sum_counts amount_of
tracker-Balanced = record { below = λ s h. ground arith; sum = refl }

account-Balanced_example : Balanced 2 4 (account tracker after_gap)
unfolding new_record
account-Balanced_example =
    account-Balanced tracker after_gap 2 4 tracker-Sound (omega arith) plain tracker-Balanced

delivered-lost_example :
    delivered (account_each (new_tracker 1) (after_gap ∷ after_gap ∷ [])) 2 4
      + lost (account_each (new_tracker 1) (after_gap ∷ after_gap ∷ [])) 2 4
    ≡ expected_of (account_each (new_tracker 1) (after_gap ∷ after_gap ∷ [])) 2 4
unfolding new_record
delivered-lost_example =
    delivered-lost 1 (after_gap ∷ after_gap ∷ []) 2 4 (omega arith, (omega arith, tt))
      (plain, (plain, tt))

abbrev range : LossRange
range = record { run_id = 2; source_id = 4; first_seq = 3; last_seq = 7 }

parse_records_dropped-report_example : parse_records_dropped (records_dropped_record 9 range) 1 ≡ (
    if ltb (7 - 3 + 1) (2 ^ 32)
    then some (record {
      buffer_id = 1;
      run_id = 2;
      source_id = 4;
      first_seq = 3;
      last_seq = 7;
      count = 7 - 3 + 1;
      synthetic = false;
    })
    else none)
parse_records_dropped-report_example =
    parse_records_dropped-report 9 1 range (omega arith) (omega arith)
