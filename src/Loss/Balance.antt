-- ===== src/Loss/Balance.antt =====
-- crates/carriage/src/loss.rs: delivered and lost records add up to what was expected.
use open_ot_experiments.Prelude.{
  ℕ, ◌+◌, ◌-◌, ◌≤◌, ◌<◌, ◌^◌, ◌≡◌, refl, ap, ap₂, ◌∙◌, sym, Bool, true, false, ◌&&◌, ◌||◌, List, [],
  ◌∷◌, none, some, arith, All, All-map, leb, ltb, ◌==◌, if◌then◌else◌, Bool-cases, inl, inr, add64,
}
use native.Mathlib.Nat.{mod-eq_of_lt}
use open_ot_experiments.Wire.{Record}
use open_ot_experiments.Loss.{
  LossEvent, LossTracker, Entry, new_tracker, account, expected_of, amount_of, set_amount,
  delivered, lost, sum_counts, parse_records_dropped,
}
use open_ot_experiments.Loss.Covered.{covered}
use open_ot_experiments.Loss.Count.{card, card-ext, card-or, card-interval, card-false, lost-card}
use open_ot_experiments.Loss.Account.{Sound, in_gap, reports, account-Sound, account-covered}

pub amount_of-set_amount :
    (map : List Entry) (run source run' source' v : ℕ)
    → amount_of (set_amount map run source v) run' source'
      ≡ (if run == run' && source == source' then v else amount_of map run' source')
unfolding amount_of set_amount
amount_of-set_amount [] run source run' source' v = ground arith
amount_of-set_amount (e ∷ map) run source run' source' v =
    let rest = amount_of-set_amount map run source run' source' v in ground arith

amount_of-match :
    (map : List Entry) (run source run' source' : ℕ)
    → (run == run' && source == source') ≡ true
    → amount_of map run source ≡ amount_of map run' source'
amount_of-match map run source run' source' h =
    let a : run ≡ run' = ground arith in
    let b : source ≡ source' = ground arith in ap₂ (amount_of map) a b

-- An update on a condition, read back.
amount_of-update :
    (map : List Entry) (run source run' source' v : ℕ) (b : Bool)
    → amount_of (if b then set_amount map run source v else map) run' source'
      ≡ (if (run == run' && source == source') && b then v else amount_of map run' source')
amount_of-update map run source run' source' v true =
    let set = amount_of-set_amount map run source run' source' v in ground arith
amount_of-update map run source run' source' v false = ground arith

-- Delivered and lost records of a source make up all that was expected, and nothing later is lost.
pub record Balanced (run source : ℕ) (t : LossTracker) : Type 0 where
  pub below :
      (s : ℕ) → covered t.loss_events t.buffer_id run source s ≡ true → s < expected_of t run source
  pub sum : delivered t run source + lost t run source ≡ expected_of t run source

card-gap :
    (r : Record) (expected run source n : ℕ)
    → r.seq ≤ n
    → card (in_gap r expected run source) n
      ≡ (if r.run_id == run && r.source_id == source then r.seq - expected else 0)
card-gap r expected run source n h = elim (Bool-cases (r.run_id == run && r.source_id == source)) [
  | inl t ↦ elim (Bool-cases (ltb expected r.seq)) [
    | inl l ↦ rw t (
        card-ext (in_gap r expected run source) (λ s. leb expected s && leb s (r.seq - 1)) n
          (λ s. ground arith)
        ∙ card-interval expected (r.seq - 1) n (ground arith)
        ∙ ground arith)
    | inr g ↦ rw t (card-false (in_gap r expected run source) n (λ s. ground arith) ∙ ground arith)
  ]
  | inr f ↦ rw f (card-false (in_gap r expected run source) n (λ s. ground arith))
]

-- A tracker counts the losses of a source by the numbers that its events cover.
lost-Sound :
    (t : LossTracker) (run source n : ℕ)
    → n ≡ 2 ^ 64 - 1
    → Sound t.buffer_id t.loss_events
    → lost t run source ≡ card (covered t.loss_events t.buffer_id run source) n
lost-Sound t run source n e h =
    lost-card t run source n (omega arith) h.ranges
      (All-map _ _ (λ x p. omega (arith, p.fits)) t.loss_events h.ranges) h.buffers h.apart

module _ (t : LossTracker) (r : Record) (run source : ℕ) (h : Sound t.buffer_id t.loss_events)
    (w : r.seq < 2 ^ 64 - 1) (plain : parse_records_dropped r t.buffer_id ≡ none) where
  pub no_report :
      (e : LossEvent) → parse_records_dropped r t.buffer_id ≡ some e → e.last_seq < 2 ^ 64 - 1
  no_report e eq = ground arith

  after-covered :
      (s : ℕ)
      → covered (account t r).loss_events t.buffer_id run source s
        ≡ covered t.loss_events t.buffer_id run source s
          || in_gap r (expected_of t r.run_id r.source_id) run source s
  after-covered s =
      let all = account-covered t r h (omega arith) no_report run source s in
      let none_here : reports t.buffer_id run source (parse_records_dropped r t.buffer_id) s
          ≡ false =
        ap (λ o. reports t.buffer_id run source o s) plain in
      ground arith

  pub after-expected : expected_of (account t r) run source ≡ (
      if (r.run_id == run && r.source_id == source) && leb (expected_of t run source) r.seq
      then r.seq + 1
      else expected_of t run source)
  unfolding account expected_of
  after-expected =
      let update =
        amount_of-update t.next_seq_by_source r.run_id r.source_id run source (add64 r.seq 1)
          (leb (expected_of t r.run_id r.source_id) r.seq) in
      let next : add64 r.seq 1 ≡ r.seq + 1 = mod-eq_of_lt (omega arith) in
      let same = amount_of-match t.next_seq_by_source r.run_id r.source_id run source in
      update ∙ ground arith

  pub after-delivered : delivered (account t r) run source ≡ (
      if (r.run_id == run && r.source_id == source) && leb (expected_of t run source) r.seq
      then add64 (delivered t run source) 1
      else delivered t run source)
  unfolding account expected_of delivered
  after-delivered =
      let update =
        amount_of-update t.delivered_by_source r.run_id r.source_id run source
          (add64 (amount_of t.delivered_by_source r.run_id r.source_id) 1)
          (leb (expected_of t r.run_id r.source_id) r.seq) in
      let same = amount_of-match t.delivered_by_source r.run_id r.source_id run source in
      let same_next = amount_of-match t.next_seq_by_source r.run_id r.source_id run source in
      update ∙ ground arith

  expected-match :
      (r.run_id == run && r.source_id == source) ≡ true
      → expected_of t r.run_id r.source_id ≡ expected_of t run source
  unfolding expected_of
  expected-match = amount_of-match t.next_seq_by_source r.run_id r.source_id run source

  covered-gap :
      (s : ℕ)
      → Balanced run source t
      → covered t.loss_events t.buffer_id run source s
          && in_gap r (expected_of t r.run_id r.source_id) run source s
        ≡ false
  covered-gap s b = let same = expected-match in let below = b.below s in ground arith

  after-lost_below :
      (n : ℕ)
      → n ≡ 2 ^ 64 - 1
      → Balanced run source t
      → lost (account t r) run source
        ≡ lost t run source
          + (if r.run_id == run && r.source_id == source
              then r.seq - expected_of t r.run_id r.source_id
              else 0)
  unfolding account
  after-lost_below n e b =
      lost-Sound (account t r) run source n e (account-Sound t r h (omega arith) no_report)
      ∙ card-ext _ _ n after-covered
      ∙ card-or (covered t.loss_events t.buffer_id run source)
          (in_gap r (expected_of t r.run_id r.source_id) run source) n (λ s. covered-gap s b)
      ∙ ap₂ ◌+◌ (sym (lost-Sound t run source n e h))
          (card-gap r (expected_of t r.run_id r.source_id) run source n (omega arith))

  after-below :
      (s : ℕ)
      → Balanced run source t
      → covered (account t r).loss_events t.buffer_id run source s ≡ true
      → s < expected_of (account t r) run source
  after-below s b c =
      let same = expected-match in
      let next = after-expected in let all = after-covered s in let old = b.below s in ground arith

  -- A record that is not a report keeps the account of every source: what is delivered and what is
  -- lost add up to what is expected next, and no number from there on is lost, if this held
  -- before, the events of the tracker are sound and the sequence number is below 2^64 - 1.
  pub account-Balanced : Balanced run source t → Balanced run source (account t r)
  unfolding account
  account-Balanced b =
      let same = expected-match in
      let next = after-expected in
      let loss = after-lost_below (2 ^ 64 - 1) refl b in
      let good = after-delivered in
      let sum = b.sum in record { below = λ s c. after-below s b c; sum = ground arith }

-- The records that a consumer reads, one after the other.
unfoldable pub account_each : LossTracker → List Record → LossTracker
account_each t [] = t
account_each t (r ∷ records) = account_each (account t r) records

pub account_each-Balanced :
    (t : LossTracker) (records : List Record) (run source : ℕ)
    → Sound t.buffer_id t.loss_events
    → Balanced run source t
    → All (λ r. r.seq < 2 ^ 64 - 1) records
    → All (λ r. parse_records_dropped r t.buffer_id ≡ none) records
    → Balanced run source (account_each t records)
unfolding account_each account
account_each-Balanced t [] run source h b ws ps = b
account_each-Balanced t (r ∷ records) run source h b (w, ws) (p, ps) =
    account_each-Balanced (account t r) records run source
      (account-Sound t r h (omega arith) (no_report t r run source h w p))
      (account-Balanced t r run source h w p b) ws ps

pub new_tracker-Sound : (buffer : ℕ) → Sound buffer (new_tracker buffer).loss_events
unfolding new_tracker
new_tracker-Sound buffer = record { ranges = tt; buffers = tt; apart = tt }

pub new_tracker-Balanced : (buffer run source : ℕ) → Balanced run source (new_tracker buffer)
unfolding new_tracker covered delivered lost sum_counts expected_of amount_of
new_tracker-Balanced buffer run source = record { below = λ s c. ground arith; sum = refl }

-- No record is unaccounted for: after a new tracker has seen any records, in any order, the
-- delivered and the lost records of every source add up to the sequence number that is expected of
-- it next, if no sequence number is as large as 2^64 - 1 and none of the records is a valid report
-- of dropped records.
pub delivered-lost :
    (buffer : ℕ) (records : List Record) (run source : ℕ)
    → All (λ r. r.seq < 2 ^ 64 - 1) records
    → All (λ r. parse_records_dropped r buffer ≡ none) records
    → delivered (account_each (new_tracker buffer) records) run source
        + lost (account_each (new_tracker buffer) records) run source
      ≡ expected_of (account_each (new_tracker buffer) records) run source
unfolding new_tracker
delivered-lost buffer records run source ws ps =
    (account_each-Balanced (new_tracker buffer) records run source (new_tracker-Sound buffer)
      (new_tracker-Balanced buffer run source) ws ps).sum
