-- ===== src/Loss/Numbered.antt =====
-- crates/carriage/src/loss.rs: the account of records that are numbered source by source.
use open_ot_experiments.Prelude.{
  ℕ, ◌+◌, ◌-◌, ◌≤◌, ◌<◌, ◌^◌, ◌≡◌, refl, ap₂, ◌∙◌, sym, true, ◌&&◌, List, [], ◌∷◌, ◌++◌,
  append_assoc, append-nil, none, arith, All, ◌==◌, if◌then◌else◌,
}
use mathlib.Core.Path.{subst}
use open_ot_experiments.Wire.{Record}
use open_ot_experiments.Loss.{
  LossTracker, account, amount_of, expected_of, delivered, lost, new_tracker, parse_records_dropped,
}
use open_ot_experiments.Loss.Account.{Sound, account-Sound}
use open_ot_experiments.Loss.Balance.{
  Balanced, account_each, account-Balanced, account_each-Balanced, after-expected, after-delivered,
  no_report, new_tracker-Sound, new_tracker-Balanced,
}

-- How many of the records are of a source.
unfoldable pub count_of : List Record → ℕ → ℕ → ℕ
count_of [] run source = 0
count_of (x ∷ xs) run source =
    let rest = count_of xs run source in
    if x.run_id == run && x.source_id == source then rest + 1 else rest

-- Every record's sequence number is the number of earlier records of its source.
abbrev pub Numbered : List Record → List Record → Type 0
Numbered before [] = Unit {0}
Numbered before (x ∷ xs) =
    (x.seq ≡ count_of before x.run_id x.source_id) × Numbered (before ++ x ∷ []) xs

pub count_of-append :
    (xs ys : List Record) (run source : ℕ)
    → count_of (xs ++ ys) run source ≡ count_of xs run source + count_of ys run source
unfolding count_of
count_of-append [] ys run source = omega arith
count_of-append (x ∷ xs) ys run source = let rest = count_of-append xs ys run source in ground arith

pub Numbered-append :
    (before xs ys : List Record) → Numbered before (xs ++ ys) → Numbered (before ++ xs) ys
Numbered-append before [] ys h = subst (λ l. Numbered l ys) (sym (append-nil before)) h
Numbered-append before (x ∷ xs) ys (p, h) =
    subst (λ l. Numbered l ys) (append_assoc before (x ∷ []) xs)
      (Numbered-append (before ++ x ∷ []) xs ys h)

count_of_one :
    (before : List Record) (x : Record) (run source : ℕ)
    → count_of (before ++ x ∷ []) run source
      ≡ count_of before run source + (if x.run_id == run && x.source_id == source then 1 else 0)
unfolding count_of
count_of_one before x run source = count_of-append before (x ∷ []) run source ∙ ground arith

count_of-match :
    (before : List Record) (run source run' source' : ℕ)
    → (run == run' && source == source') ≡ true
    → count_of before run source ≡ count_of before run' source'
count_of-match before run source run' source' h =
    let a : run ≡ run' = ground arith in
    let b : source ≡ source' = ground arith in ap₂ (count_of before) a b

-- What a tracker that expected no more than was written counts of the records that follow.
pub record Counts (t : LossTracker) (before ks : List Record) (run source : ℕ) : Type 0 where
  pub delivered_at :
      delivered (account_each t ks) run source ≡ delivered t run source + count_of ks run source
  pub expected_at : expected_of (account_each t ks) run source ≡ (
      if count_of ks run source == 0
      then expected_of t run source
      else count_of before run source + count_of ks run source)

pub account_each-Counts :
    (t : LossTracker) (before ks : List Record) (run source : ℕ)
    → Sound t.buffer_id t.loss_events
    → Balanced run source t
    → All (λ x. x.seq < 2 ^ 64 - 1) ks
    → All (λ x. parse_records_dropped x t.buffer_id ≡ none) ks
    → Numbered before ks
    → expected_of t run source ≤ count_of before run source
    → Counts t before ks run source
unfolding account_each account count_of
account_each-Counts t before [] run source h b ws ps n le = record {
  delivered_at = omega arith;
  expected_at = refl;
}
account_each-Counts t before (x ∷ ks) run source h b (w, ws) (p, ps) (seq, n) le =
    let next = after-expected t x run source h w p in
    let good = after-delivered t x run source h w p in
    let one = count_of_one before x run source in
    let sum = b.sum in
    let here : (x.run_id == run && x.source_id == source) ≡ true
        → x.seq ≡ count_of before run source =
      λ m. seq ∙ count_of-match before x.run_id x.source_id run source m in
    let later =
      account_each-Counts (account t x) (before ++ x ∷ []) ks run source
        (account-Sound t x h (omega arith) (no_report t x run source h w p))
        (account-Balanced t x run source h w p b) ws ps n (ground arith) in
    let d = later.delivered_at in
    let e = later.expected_at in record { delivered_at = ground arith; expected_at = ground arith }

-- A new tracker counts the records that follow as delivered, and the earlier ones of their sources
-- as lost.
pub new_tracker-counts :
    (buffer : ℕ) (before ks : List Record) (run source : ℕ)
    → All (λ x. x.seq < 2 ^ 64 - 1) ks
    → All (λ x. parse_records_dropped x buffer ≡ none) ks
    → Numbered before ks
    → (delivered (account_each (new_tracker buffer) ks) run source ≡ count_of ks run source)
      × (lost (account_each (new_tracker buffer) ks) run source
          ≡ (if count_of ks run source == 0 then 0 else count_of before run source))
unfolding new_tracker expected_of amount_of delivered
new_tracker-counts buffer before ks run source ws ps n =
    let c =
      account_each-Counts (new_tracker buffer) before ks run source (new_tracker-Sound buffer)
        (new_tracker-Balanced buffer run source) ws ps n (omega arith) in
    let b =
      account_each-Balanced (new_tracker buffer) ks run source (new_tracker-Sound buffer)
        (new_tracker-Balanced buffer run source) ws ps in
    let d = c.delivered_at in
    let e = c.expected_at in
    let sum = b.sum in
    let no_delivered : delivered (new_tracker buffer) run source ≡ 0 = refl in
    let no_expected : expected_of (new_tracker buffer) run source ≡ 0 = refl in
    (ground arith, ground arith)
