-- ===== src/Loss/Count.antt =====
-- crates/carriage/src/loss.rs: `lost` as the number of sequence numbers that are known to be lost.
use open_ot_experiments.Prelude.{
  ℕ, zero, suc, ◌+◌, ◌-◌, ◌≤◌, ◌<◌, ◌^◌, min, ◌≡◌, refl, ap, ap₂, ◌∙◌, sym, Bool, true, false, ◌&&◌,
  ◌||◌, List, [], ◌∷◌, arith, All, leb, ◌==◌, if◌then◌else◌, Bool-cases, inl, inr, add64,
}
use native.Mathlib.Nat.{mod-eq_of_lt}
use open_ot_experiments.Loss.{
  LossEvent, LossTracker, same_loss_stream, ranges_touch_or_overlap, joins, sum_counts, lost,
}
use open_ot_experiments.Loss.Covered.{covers, of_stream, covered, IsRange}
use open_ot_experiments.Loss.Separated.{Separated}

-- How many numbers below a bound pass a test.
pub card : (ℕ → Bool) → ℕ → ℕ
card p zero = 0
card p (suc n) = card p n + (if p n then 1 else 0)

pub card-le : (p : ℕ → Bool) (n : ℕ) → card p n ≤ n
unfolding card
card-le p zero = ground arith
card-le p (suc n) = let rest = card-le p n in ground arith

pub card-ext : (p q : ℕ → Bool) (n : ℕ) → ((s : ℕ) → p s ≡ q s) → card p n ≡ card q n
unfolding card
card-ext p q zero h = refl
card-ext p q (suc n) h = ap₂ ◌+◌ (card-ext p q n h) (ap (λ b. if b then 1 else 0) (h n))

pub card-or :
    (p q : ℕ → Bool) (n : ℕ)
    → ((s : ℕ) → p s && q s ≡ false)
    → card (λ s. p s || q s) n ≡ card p n + card q n
unfolding card
card-or p q zero h = refl
card-or p q (suc n) h = let rest = card-or p q n h in let here = h n in ground arith

pub card-interval : (a b n : ℕ) → a ≤ b → card (λ s. leb a s && leb s b) n ≡ min n (b + 1) - a
unfolding card
card-interval a b zero h = omega arith
card-interval a b (suc n) h = let rest = card-interval a b n h in ground arith

pub card-false : (p : ℕ → Bool) (n : ℕ) → ((s : ℕ) → p s ≡ false) → card p n ≡ 0
unfolding card
card-false p zero h = refl
card-false p (suc n) h = let rest = card-false p n h in let here = h n in ground arith

module _ (buffer run source : ℕ) where
  -- Two events apart do not both cover a number of the stream.
  apart-covers :
      (e f : LossEvent) (s : ℕ)
      → IsRange e
      → IsRange f
      → joins e f ≡ false
      → (of_stream buffer run source e && covers e s)
          && (of_stream buffer run source f && covers f s)
        ≡ false
  unfolding joins same_loss_stream ranges_touch_or_overlap
  apart-covers e f s p q h = ground arith

  apart-covered :
      (e : LossEvent) (events : List LossEvent) (s : ℕ)
      → IsRange e
      → All IsRange events
      → All (λ f. joins e f ≡ false) events
      → (of_stream buffer run source e && covers e s) && covered events buffer run source s ≡ false
  unfolding covered
  apart-covered e [] s p ps hs = ground arith
  apart-covered e (f ∷ events) s p (q, ps) (h, hs) =
      let rest = apart-covered e events s p ps hs in
      let here = apart-covers e f s p q h in ground arith

  -- One event counts as many numbers as it covers.
  card-event :
      (e : LossEvent) (n : ℕ)
      → IsRange e
      → e.last_seq < n
      → e.buffer_id ≡ buffer
      → (e.run_id == run && e.source_id == source) ≡ true
      → card (λ s. of_stream buffer run source e && covers e s) n ≡ e.count
  card-event e n p h b m =
      let same : of_stream buffer run source e ≡ true = ground arith in
      card-ext (λ s. of_stream buffer run source e && covers e s) (λ s. covers e s) n
        (λ s. ap (λ x. x && covers e s) same)
      ∙ card-interval e.first_seq e.last_seq n p.ordered
      ∙ ground arith

  sum_counts-card :
      (events : List LossEvent) (n : ℕ)
      → n < 2 ^ 64
      → All IsRange events
      → All (λ e. e.last_seq < n) events
      → All (λ e. e.buffer_id ≡ buffer) events
      → Separated events
      → sum_counts events run source ≡ card (covered events buffer run source) n
  unfolding sum_counts covered
  sum_counts-card [] n w ps hs bs s = sym (card-false (λ x. false) n (λ x. refl))
  sum_counts-card (e ∷ events) n w (p, ps) (h, hs) (b, bs) (apart, s) =
      let rest = sum_counts-card events n w ps hs bs s in
      let total =
        card-or (λ x. of_stream buffer run source e && covers e x)
          (covered events buffer run source) n (λ x. apart-covered e events x p ps apart) in
      let below =
        card-le
          (λ x. (of_stream buffer run source e && covers e x) || covered events buffer run source x)
          n in
      elim (Bool-cases (e.run_id == run && e.source_id == source)) [
        | inl t ↦
            let here = card-event e n p h b t in
            rw t (ap₂ add64 (sym here) rest ∙ mod-eq_of_lt (omega arith) ∙ sym total)
        | inr f ↦
            let none_here =
              card-false (λ x. of_stream buffer run source e && covers e x) n (λ x. ground arith) in
            rw f (omega arith)
      ]

-- `lost` counts every sequence number that is known to be lost from the source once: it is how
-- many numbers below a bound the loss events cover, if every event is a non-empty range below the
-- bound with its own count, the events are of the tracker's buffer, no two of one stream touch or
-- overlap, and the bound is below 2^64.
pub lost-card :
    (t : LossTracker) (run source n : ℕ)
    → n < 2 ^ 64
    → All IsRange t.loss_events
    → All (λ e. e.last_seq < n) t.loss_events
    → All (λ e. e.buffer_id ≡ t.buffer_id) t.loss_events
    → Separated t.loss_events
    → lost t run source ≡ card (covered t.loss_events t.buffer_id run source) n
unfolding lost
lost-card t run source n w ps hs bs s =
    sum_counts-card t.buffer_id run source t.loss_events n w ps hs bs s
