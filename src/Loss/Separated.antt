-- ===== src/Loss/Separated.antt =====
-- crates/carriage/src/loss.rs: `insert_loss_event` keeps the intervals of a stream apart.
use open_ot_experiments.Prelude.{
  ℕ, ◌≤◌, ◌<◌, ◌≡◌, ◌∙◌, true, false, List, [], ◌∷◌, ◌++◌, arith, All, All-append, All-map, All-zip,
  leb, Bool-cases, inl, inr,
}
use open_ot_experiments.Loss.{
  LossEvent, same_loss_stream, ranges_touch_or_overlap, joins, retained, collected, insert_sorted,
  sort_by_first, joined, merge_from, merged, insert_loss_event, saturating_next,
}
use open_ot_experiments.Loss.Covered.{IsRange, InStream, joined-IsRange, joined-InStream}
use open_ot_experiments.Loss.Union.{
  touching, touching-InStream, touching-IsRange, collected-All, retained-All, insert_sorted-All,
  sort_by_first-All,
}

-- No two events of one stream touch or overlap.
abbrev pub Separated : List LossEvent → Type 0
Separated [] = Unit
Separated (e ∷ events) = All (λ f. joins e f ≡ false) events × Separated events

-- Every event begins no later than those behind it.
abbrev Ascending : List LossEvent → Type 0
Ascending [] = Unit
Ascending (e ∷ events) = All (λ f. e.first_seq ≤ f.first_seq) events × Ascending events

joins_comm : (e f : LossEvent) → joins e f ≡ joins f e
unfolding joins same_loss_stream ranges_touch_or_overlap
joins_comm e f = ground arith

-- An event apart from two that touch is apart from their union.
joins-joined :
    (buffer run source : ℕ) (x a b : LossEvent)
    → IsRange x
    → IsRange a
    → IsRange b
    → InStream buffer run source a
    → InStream buffer run source b
    → ranges_touch_or_overlap a b ≡ true
    → joins x a ≡ false
    → joins x b ≡ false
    → joins x (joined a b) ≡ false
unfolding joins same_loss_stream ranges_touch_or_overlap joined
joins-joined buffer run source x a b px p q i j t h k = ground arith

joins-after : (x y : LossEvent) → saturating_next x.last_seq < y.first_seq → joins x y ≡ false
unfolding joins same_loss_stream ranges_touch_or_overlap
joins-after x y h = ground arith

-- The merging loop keeps what the union of two touching events of the stream keeps.
merge_from-All :
    (P : LossEvent → Type 0) (buffer run source : ℕ) (last : LossEvent) (intervals : List LossEvent)
    → ((a b : LossEvent)
        → IsRange a
        → IsRange b
        → InStream buffer run source a
        → InStream buffer run source b
        → ranges_touch_or_overlap a b ≡ true
        → P a
        → P b
        → P (joined a b))
    → InStream buffer run source last
    → IsRange last
    → P last
    → All (InStream buffer run source) intervals
    → All IsRange intervals
    → All P intervals
    → All P (merge_from last intervals)
unfolding merge_from
merge_from-All P buffer run source last [] closed i p h is ps hs = (h, tt)
merge_from-All P buffer run source last (x ∷ intervals) closed i p h (j, is) (q, ps) (k, hs) =
    let far = merge_from-All P buffer run source x intervals closed j q k is ps hs in
    elim (Bool-cases (ranges_touch_or_overlap last x)) [
      | inl t ↦ rw t (
          merge_from-All P buffer run source (joined last x) intervals closed
            (joined-InStream last x i) (joined-IsRange last x p q) (closed last x p q i j t h k) is
            ps hs)
      | inr f ↦ rw f (h, far)
    ]

first-joined :
    (m : ℕ) (a b : LossEvent) → m ≤ a.first_seq → m ≤ b.first_seq → m ≤ (joined a b).first_seq
unfolding joined
first-joined m a b h k = omega arith

joined-first :
    (a b f : LossEvent) → a.first_seq ≤ f.first_seq → (joined a b).first_seq ≤ f.first_seq
unfolding joined
joined-first a b f h = omega arith

far-below :
    (a b : LossEvent)
    → IsRange a
    → IsRange b
    → a.first_seq ≤ b.first_seq
    → ranges_touch_or_overlap a b ≡ false
    → saturating_next a.last_seq < b.first_seq
unfolding ranges_touch_or_overlap
far-below a b p q h n = ground arith

merge_from-Separated :
    (buffer run source : ℕ) (last : LossEvent) (intervals : List LossEvent)
    → InStream buffer run source last
    → IsRange last
    → All (InStream buffer run source) intervals
    → All IsRange intervals
    → Ascending (last ∷ intervals)
    → Separated (merge_from last intervals)
unfolding merge_from
merge_from-Separated buffer run source last [] i p is ps h = (tt, tt)
merge_from-Separated buffer run source last (x ∷ intervals) i p (j, is) (q, ps)
      ((le, above), (after, h)) =
    let far = merge_from-Separated buffer run source x intervals j q is ps (after, h) in
    let behind = All-map _ _ (λ f k. joined-first last x f k) intervals above in
    let near =
      merge_from-Separated buffer run source (joined last x) intervals (joined-InStream last x i)
        (joined-IsRange last x p q) is ps (behind, h) in
    let firsts =
      merge_from-All (λ f. x.first_seq ≤ f.first_seq) buffer run source x intervals
        (λ a b pa pb ia ib t h k. first-joined x.first_seq a b h k) j q (omega arith) is ps after in
    elim (Bool-cases (ranges_touch_or_overlap last x)) [
      | inl t ↦ rw t near
      | inr f ↦ rw f (
        All-map _ _ (λ y k. joins-after last y (omega (arith, far-below last x p q le f)))
            (merge_from x intervals) firsts,
        far,
      )
    ]

insert_sorted-Ascending :
    (e : LossEvent) (events : List LossEvent)
    → Ascending events
    → Ascending (insert_sorted e events)
unfolding insert_sorted
insert_sorted-Ascending e [] h = (tt, tt)
insert_sorted-Ascending e (f ∷ events) (above, h) =
    let rest = insert_sorted-Ascending e events h in
    elim (Bool-cases (leb e.first_seq f.first_seq)) [
      | inl t ↦ rw t (((ground arith), All-map _ _ (λ g k. ground arith) events above), (above, h))
      | inr n ↦
          rw n
            (insert_sorted-All (λ g. f.first_seq ≤ g.first_seq) e events (ground arith) above, rest)
    ]

sort_by_first-Ascending : (events : List LossEvent) → Ascending (sort_by_first events)
unfolding sort_by_first
sort_by_first-Ascending [] = tt
sort_by_first-Ascending (e ∷ events) =
    insert_sorted-Ascending e (sort_by_first events) (sort_by_first-Ascending events)

merged-Separated :
    (buffer run source : ℕ) (intervals : List LossEvent)
    → All (InStream buffer run source) intervals
    → All IsRange intervals
    → Ascending intervals
    → Separated (merged intervals)
unfolding merged
merged-Separated buffer run source [] is ps h = tt
merged-Separated buffer run source (x ∷ intervals) (i, is) (p, ps) h =
    merge_from-Separated buffer run source x intervals i p is ps h

retained-apart :
    (events : List LossEvent) (event : LossEvent)
    → All (λ x. joins x event ≡ false) (retained events event)
unfolding retained
retained-apart [] event = tt
retained-apart (e ∷ events) event =
    let rest = retained-apart events event in
    elim (Bool-cases (joins e event)) [ inl t ↦ rw t rest | inr f ↦ rw f (f, rest) ]

-- What stays is apart from what is collected, if the events are separated.
retained-collected :
    (events : List LossEvent) (event : LossEvent)
    → Separated events
    → All (λ x. All (λ y. joins x y ≡ false) (collected events event)) (retained events event)
unfolding retained collected
retained-collected [] event h = tt
retained-collected (e ∷ events) event (apart, h) =
    let rest = retained-collected events event h in
    elim (Bool-cases (joins e event)) [
      | inl t ↦ rw t (
          All-zip (λ x. joins x e ≡ false)
            (λ x. All (λ y. joins x y ≡ false) (collected events event)) (retained events event)
            (All-map _ _ (λ x k. joins_comm x e ∙ k) (retained events event)
              (retained-All (λ x. joins e x ≡ false) events event apart))
            rest)
      | inr f ↦ rw f (collected-All (λ y. joins e y ≡ false) events event apart, rest)
    ]

retained-Separated :
    (events : List LossEvent) (event : LossEvent)
    → Separated events
    → Separated (retained events event)
unfolding retained
retained-Separated [] event h = tt
retained-Separated (e ∷ events) event (apart, h) =
    let rest = retained-Separated events event h in
    elim (Bool-cases (joins e event)) [
      | inl t ↦ rw t rest
      | inr f ↦ rw f (retained-All (λ x. joins e x ≡ false) events event apart, rest)
    ]

Separated-append :
    (xs ys : List LossEvent)
    → Separated xs
    → Separated ys
    → All (λ x. All (λ y. joins x y ≡ false) ys) xs
    → Separated (xs ++ ys)
Separated-append [] ys h k apart = k
Separated-append (x ∷ xs) ys (near, h) k (far, apart) =
    (All-append (λ y. joins x y ≡ false) xs ys near far, Separated-append xs ys h k apart)

merged-All :
    (P : LossEvent → Type 0) (buffer run source : ℕ) (intervals : List LossEvent)
    → ((a b : LossEvent)
        → IsRange a
        → IsRange b
        → InStream buffer run source a
        → InStream buffer run source b
        → ranges_touch_or_overlap a b ≡ true
        → P a
        → P b
        → P (joined a b))
    → All (InStream buffer run source) intervals
    → All IsRange intervals
    → All P intervals
    → All P (merged intervals)
unfolding merged
merged-All P buffer run source [] closed is ps hs = tt
merged-All P buffer run source (x ∷ intervals) closed (i, is) (p, ps) (h, hs) =
    merge_from-All P buffer run source x intervals closed i p h is ps hs

-- A retained event is apart from what is merged.
apart-merged :
    (events : List LossEvent) (event x : LossEvent)
    → All IsRange events
    → IsRange event
    → IsRange x
    → All (λ y. joins x y ≡ false) (collected events event)
    → joins x event ≡ false
    → All (λ y. joins x y ≡ false) (merged (touching events event))
apart-merged events event x h p q apart k =
    let run = event.run_id in
    let source = event.source_id in
    let buffer = event.buffer_id in
    merged-All (λ y. joins x y ≡ false) buffer run source (touching events event)
      (λ a b pa pb ia ib t ha hb. joins-joined buffer run source x a b q pa pb ia ib t ha hb)
      (touching-InStream events event) (touching-IsRange events event h p)
      (sort_by_first-All (λ y. joins x y ≡ false) (collected events event ++ event ∷ [])
        (All-append (λ y. joins x y ≡ false) (collected events event) (event ∷ []) apart (k, tt)))

-- The intervals of a stream never touch or overlap: after an event is inserted, no two events of
-- one stream do, if none did before, for events and a new event that are ranges which are not
-- empty, end below 2^64 - 1 and carry their own count.
pub insert_loss_event-Separated :
    (events : List LossEvent) (event : LossEvent)
    → All IsRange events
    → IsRange event
    → Separated events
    → Separated (insert_loss_event events event)
unfolding insert_loss_event
insert_loss_event-Separated events event h p s =
    Separated-append (retained events event) (merged (touching events event))
      (retained-Separated events event s)
      (merged-Separated event.buffer_id event.run_id event.source_id (touching events event)
        (touching-InStream events event) (touching-IsRange events event h p)
        (sort_by_first-Ascending (collected events event ++ event ∷ [])))
      (All-map _ _ (λ x k. apart-merged events event x h p k.1.1 k.0 k.1.0) (retained events event)
        (All-zip _ _ (retained events event) (retained-collected events event s) (
          All-zip _ _ (retained events event) (retained-apart events event)
            (retained-All IsRange events event h))))

-- It also keeps what all events are, if unions keep it.
pub insert_loss_event-All :
    (P : LossEvent → Type 0) (events : List LossEvent) (event : LossEvent)
    → ((a b : LossEvent) → IsRange a → IsRange b → P a → P b → P (joined a b))
    → All IsRange events
    → IsRange event
    → All P events
    → P event
    → All P (insert_loss_event events event)
unfolding insert_loss_event
insert_loss_event-All P events event closed h p hs k =
    All-append P (retained events event) (merged (touching events event))
      (retained-All P events event hs)
      (merged-All P event.buffer_id event.run_id event.source_id (touching events event)
        (λ a b pa pb ia ib t ha hb. closed a b pa pb ha hb) (touching-InStream events event)
        (touching-IsRange events event h p)
        (sort_by_first-All P (collected events event ++ event ∷ []) (
          All-append P (collected events event) (event ∷ []) (collected-All P events event hs)
            (k, tt))))
