-- ===== src/Loss/Account.antt =====
-- crates/carriage/src/loss.rs: what `account` adds to the losses of a source.
use open_ot_experiments.Prelude.{
  ℕ, ◌-◌, ◌≤◌, ◌<◌, ◌^◌, ◌≡◌, refl, ap, ◌∙◌, Bool, true, false, ◌&&◌, ◌||◌, List, [], ◌∷◌, Option,
  none, some, arith, All, leb, ltb, ◌==◌, if◌then◌else◌, Bool-cases, inl, inr, add64,
}
use native.Mathlib.Nat.{mod-eq_of_lt}
use open_ot_experiments.Wire.{Record, Slot}
use open_ot_experiments.Loss.{
  LossEvent, LossTracker, joined, insert_loss_event, loss_of, account, account_gap,
  account_high_water, account_dropped, expected_of, parse_records_dropped, parse_source_high_water,
  high_water_slot, dropped_event, dropped_slots,
}
use open_ot_experiments.Loss.Covered.{covers, of_stream, covered, IsRange, joined-IsRange}
use open_ot_experiments.Loss.Union.{covered-insert_loss_event}
use open_ot_experiments.Loss.Separated.{
  Separated, insert_loss_event-Separated, insert_loss_event-All,
}

-- What the events of the tracker of a buffer are.
pub record Sound (buffer : ℕ) (events : List LossEvent) : Type 0 where
  pub ranges : All IsRange events
  pub buffers : All (λ e. e.buffer_id ≡ buffer) events
  pub apart : Separated events

pub insert_loss_event-Sound :
    (buffer : ℕ) (events : List LossEvent) (event : LossEvent)
    → Sound buffer events
    → IsRange event
    → event.buffer_id ≡ buffer
    → Sound buffer (insert_loss_event events event)
unfolding joined
insert_loss_event-Sound buffer events event h p b = record {
  ranges =
      insert_loss_event-All IsRange events event (λ x y px py hx hy. joined-IsRange x y px py)
        h.ranges p h.ranges p;
  buffers =
      insert_loss_event-All (λ e. e.buffer_id ≡ buffer) events event (λ x y px py hx hy. hx)
        h.ranges p h.buffers b;
  apart = insert_loss_event-Separated events event h.ranges p h.apart;
}

-- The high water that a checkpoint gives is its own sequence number.
high_water_slot-eq :
    (slots : List Slot) (seq produced : ℕ)
    → high_water_slot slots seq ≡ some produced
    → produced ≡ seq
unfolding high_water_slot
high_water_slot-eq [] seq produced h = ground arith
high_water_slot-eq (s ∷ slots) seq produced h =
    let rest = high_water_slot-eq slots seq produced in ground arith

pub parse_source_high_water-eq :
    (r : Record) (produced : ℕ) → parse_source_high_water r ≡ some produced → produced ≡ r.seq
unfolding parse_source_high_water
parse_source_high_water-eq r produced h =
    let rest = high_water_slot-eq r.slots r.seq produced in ground arith

-- What a report that is accepted says.
pub record Reported (buffer : ℕ) (e : LossEvent) : Type 0 where
  pub buffer_at : e.buffer_id ≡ buffer
  pub ordered : e.first_seq ≤ e.last_seq
  pub counted : e.count ≡ add64 (e.last_seq - e.first_seq) 1

dropped_event-Reported :
    (r : Record) (buffer : ℕ) (first last count : Option ℕ) (e : LossEvent)
    → dropped_event r buffer first last count ≡ some e
    → Reported buffer e
unfolding dropped_event
dropped_event-Reported r buffer none last count e h = ground arith
dropped_event-Reported r buffer (some first) none count e h = ground arith
dropped_event-Reported r buffer (some first) (some last) none e h = ground arith
dropped_event-Reported r buffer (some first) (some last) (some count) e h = ground arith

pub parse_records_dropped-Reported :
    (r : Record) (buffer : ℕ) (e : LossEvent)
    → parse_records_dropped r buffer ≡ some e
    → Reported buffer e
unfolding parse_records_dropped
parse_records_dropped-Reported r buffer e h =
    let d = dropped_slots r.slots (record { count = none; first = none; last = none }) in
    let parsed = dropped_event-Reported r buffer d.first d.last d.count e in ground arith

loss_of-IsRange :
    (buffer : ℕ) (r : Record) (first next : ℕ) (synthetic : Bool)
    → first < next
    → next < 2 ^ 64
    → IsRange (loss_of buffer r first next synthetic)
unfolding loss_of
loss_of-IsRange buffer r first next synthetic h w = ground arith

-- The numbers between what was expected and what came, of the stream of the record.
abbrev pub in_gap : Record → ℕ → ℕ → ℕ → ℕ → Bool
in_gap r expected run source s =
    (r.run_id == run && r.source_id == source) && (leb expected s && ltb s r.seq)

loss_of-covers :
    (buffer : ℕ) (r : Record) (first next run source s : ℕ) (synthetic : Bool)
    → first < next
    → (of_stream buffer run source (loss_of buffer r first next synthetic)
        && covers (loss_of buffer r first next synthetic) s)
      ≡ (r.run_id == run && r.source_id == source) && (leb first s && ltb s next)
unfolding loss_of
loss_of-covers buffer r first next run source s synthetic h = ground arith

module _ (buffer : ℕ) (r : Record) (expected : ℕ) (w : r.seq < 2 ^ 64) where
  covered_gap :
      (events : List LossEvent) (next run source s : ℕ) (synthetic : Bool)
      → Sound buffer events
      → next ≡ r.seq
      → covered
          (if ltb expected next
            then insert_loss_event events (loss_of buffer r expected next synthetic)
            else events)
          buffer
          run
          source
          s
        ≡ covered events buffer run source s || in_gap r expected run source s
  covered_gap events next run source s synthetic h e = elim (Bool-cases (ltb expected next)) [
    | inl t ↦ rw t (
        covered-insert_loss_event events (loss_of buffer r expected next synthetic) buffer run
          source s h.ranges
          (loss_of-IsRange buffer r expected next synthetic (ground arith) (omega arith))
        ∙ ap (λ x. covered events buffer run source s || x)
            (loss_of-covers buffer r expected next run source s synthetic (ground arith)
              ∙ ap (λ n. (r.run_id == run && r.source_id == source) && (leb expected s && ltb s n))
                  e))
    | inr f ↦ rw f (ground arith)
  ]

  Sound-gap :
      (events : List LossEvent) (next : ℕ) (synthetic : Bool)
      → Sound buffer events
      → next ≡ r.seq
      → Sound buffer (
          if ltb expected next
          then insert_loss_event events (loss_of buffer r expected next synthetic)
          else events)
  unfolding loss_of
  Sound-gap events next synthetic h e = elim (Bool-cases (ltb expected next)) [
    | inl t ↦ rw t (
        insert_loss_event-Sound buffer events (loss_of buffer r expected next synthetic) h
          (loss_of-IsRange buffer r expected next synthetic (ground arith) (omega arith)) refl)
    | inr f ↦ rw f h
  ]

  account_high_water-Sound :
      (events : List LossEvent) (high : Option ℕ)
      → ((produced : ℕ) → high ≡ some produced → produced ≡ r.seq)
      → Sound buffer events
      → Sound buffer (account_high_water events buffer r expected high)
  unfolding account_high_water
  account_high_water-Sound events none eq h = h
  account_high_water-Sound events (some produced) eq h =
      Sound-gap events produced false h (eq produced refl)

  or_idem : (a b : Bool) → (a || b) || b ≡ a || b
  or_idem true b = refl
  or_idem false true = refl
  or_idem false false = refl

  account_gap-covered :
      (events : List LossEvent) (high : Option ℕ) (run source s : ℕ)
      → ((produced : ℕ) → high ≡ some produced → produced ≡ r.seq)
      → Sound buffer events
      → covered
          (account_gap (account_high_water events buffer r expected high) buffer r expected)
          buffer
          run
          source
          s
        ≡ covered events buffer run source s || in_gap r expected run source s
  unfolding account_gap account_high_water
  account_gap-covered events none run source s eq h =
      covered_gap events r.seq run source s true h refl
  account_gap-covered events (some produced) run source s eq h =
      covered_gap (account_high_water events buffer r expected (some produced)) r.seq run source s
        true (account_high_water-Sound events (some produced) eq h) refl
      ∙ ap (λ x. x || in_gap r expected run source s)
          (covered_gap events produced run source s false h (eq produced refl))
      ∙ or_idem (covered events buffer run source s) (in_gap r expected run source s)

-- What a report adds.
abbrev pub reports : ℕ → ℕ → ℕ → Option LossEvent → ℕ → Bool
reports buffer run source none s = false
reports buffer run source (some e) s = of_stream buffer run source e && covers e s

reported-IsRange :
    (r : Record) (buffer : ℕ) (e : LossEvent)
    → parse_records_dropped r buffer ≡ some e
    → e.last_seq < 2 ^ 64 - 1
    → IsRange e
reported-IsRange r buffer e h w =
    let p = parse_records_dropped-Reported r buffer e h in
    record { ordered = p.ordered; fits = w; counted = p.counted ∙ mod-eq_of_lt (omega arith) }

account_dropped-Sound :
    (r : Record) (buffer : ℕ) (events : List LossEvent) (report : Option LossEvent)
    → Sound buffer events
    → parse_records_dropped r buffer ≡ report
    → ((e : LossEvent) → report ≡ some e → e.last_seq < 2 ^ 64 - 1)
    → Sound buffer (account_dropped events report)
unfolding account_dropped
account_dropped-Sound r buffer events none h eq fit = h
account_dropped-Sound r buffer events (some e) h eq fit =
    insert_loss_event-Sound buffer events e h (reported-IsRange r buffer e eq (fit e refl))
      (parse_records_dropped-Reported r buffer e eq).buffer_at

account_dropped-covered :
    (r : Record) (buffer run source s : ℕ) (events : List LossEvent) (report : Option LossEvent)
    → Sound buffer events
    → parse_records_dropped r buffer ≡ report
    → ((e : LossEvent) → report ≡ some e → e.last_seq < 2 ^ 64 - 1)
    → covered (account_dropped events report) buffer run source s
      ≡ covered events buffer run source s || reports buffer run source report s
unfolding account_dropped
account_dropped-covered r buffer run source s events none h eq fit = ground arith
account_dropped-covered r buffer run source s events (some e) h eq fit =
    covered-insert_loss_event events e buffer run source s h.ranges
      (reported-IsRange r buffer e eq (fit e refl))

module _ (t : LossTracker) (r : Record) (h : Sound t.buffer_id t.loss_events) (w : r.seq < 2 ^ 64)
    (fit : (e : LossEvent)
      → parse_records_dropped r t.buffer_id ≡ some e
      → e.last_seq < 2 ^ 64 - 1) where
  gaps : List LossEvent
  gaps =
      account_gap
        (account_high_water t.loss_events t.buffer_id r (expected_of t r.run_id r.source_id)
          (parse_source_high_water r))
        t.buffer_id r (expected_of t r.run_id r.source_id)

  gaps-Sound : Sound t.buffer_id gaps
  unfolding gaps account_gap
  gaps-Sound =
      Sound-gap t.buffer_id r (expected_of t r.run_id r.source_id) w
        (account_high_water t.loss_events t.buffer_id r (expected_of t r.run_id r.source_id)
          (parse_source_high_water r))
        r.seq true
        (account_high_water-Sound t.buffer_id r (expected_of t r.run_id r.source_id) w t.loss_events
          (parse_source_high_water r) (parse_source_high_water-eq r) h)
        refl

  -- A record leaves the events of a tracker sound: they stay non-empty ranges of the tracker's
  -- buffer with their own counts, of which no two of one stream touch or overlap, if they were so
  -- before, the sequence number is a `u64` and a report that the record makes ends below 2^64 - 1.
  pub account-Sound : Sound (account t r).buffer_id (account t r).loss_events
  unfolding account gaps
  account-Sound =
      account_dropped-Sound r t.buffer_id gaps (parse_records_dropped r t.buffer_id) gaps-Sound refl
        fit

  -- A record adds to the losses of a source exactly the numbers between the one that was expected
  -- of its own source and its own, and those that it reports to be dropped, if the events of the
  -- tracker are sound, the sequence number is a `u64` and a report that the record makes ends
  -- below 2^64 - 1.
  pub account-covered :
      (run source s : ℕ)
      → covered (account t r).loss_events t.buffer_id run source s
        ≡ (covered t.loss_events t.buffer_id run source s
            || in_gap r (expected_of t r.run_id r.source_id) run source s)
          || reports t.buffer_id run source (parse_records_dropped r t.buffer_id) s
  unfolding account gaps
  account-covered run source s =
      account_dropped-covered r t.buffer_id run source s gaps (parse_records_dropped r t.buffer_id)
        gaps-Sound refl fit
      ∙ ap (λ x. x || reports t.buffer_id run source (parse_records_dropped r t.buffer_id) s)
          (account_gap-covered t.buffer_id r (expected_of t r.run_id r.source_id) w t.loss_events
            (parse_source_high_water r) run source s (parse_source_high_water-eq r) h)
