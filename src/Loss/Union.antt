-- ===== src/Loss/Union.antt =====
-- crates/carriage/src/loss.rs: what `insert_loss_event` adds to the sequence numbers known to be lost.
use open_ot_experiments.Prelude.{
  ℕ, ◌≡◌, refl, ap, ap₂, ◌∙◌, true, ◌&&◌, ◌||◌, List, [], ◌∷◌, ◌++◌, arith, All, All-append, leb,
  Bool-cases, inl, inr,
}
use open_ot_experiments.Loss.{
  LossEvent, same_loss_stream, joins, retained, collected, insert_sorted, sort_by_first, merged,
  insert_loss_event,
}
use open_ot_experiments.Loss.Covered.{
  covers, of_stream, covered, IsRange, InStream, same-InStream, or_assoc, covered_one,
  covered-append, covered-split, covered-sort_by_first, covered-merge_from,
}

pub joins-same : (e f : LossEvent) → joins e f ≡ true → same_loss_stream e f ≡ true
unfolding joins
joins-same e f h = ground arith

-- What is collected is of the stream of the new event.
collected-InStream :
    (events : List LossEvent) (event : LossEvent)
    → All (InStream event.buffer_id event.run_id event.source_id) (collected events event)
unfolding collected
collected-InStream [] event = tt
collected-InStream (e ∷ events) event =
    let rest = collected-InStream events event in
    elim (Bool-cases (joins e event)) [
      | inl t ↦ rw t (same-InStream e event (joins-same e event t), rest)
      | inr f ↦ rw f rest
    ]

pub collected-All :
    (P : LossEvent → Type 0) (events : List LossEvent) (event : LossEvent)
    → All P events
    → All P (collected events event)
unfolding collected
collected-All P [] event h = tt
collected-All P (e ∷ events) event (p, h) =
    let rest = collected-All P events event h in
    elim (Bool-cases (joins e event)) [ inl t ↦ rw t (p, rest) | inr f ↦ rw f rest ]

pub retained-All :
    (P : LossEvent → Type 0) (events : List LossEvent) (event : LossEvent)
    → All P events
    → All P (retained events event)
unfolding retained
retained-All P [] event h = tt
retained-All P (e ∷ events) event (p, h) =
    let rest = retained-All P events event h in
    elim (Bool-cases (joins e event)) [ inl t ↦ rw t rest | inr f ↦ rw f (p, rest) ]

pub insert_sorted-All :
    (P : LossEvent → Type 0) (e : LossEvent) (events : List LossEvent)
    → P e
    → All P events
    → All P (insert_sorted e events)
unfolding insert_sorted
insert_sorted-All P e [] p h = (p, tt)
insert_sorted-All P e (f ∷ events) p (q, h) =
    let rest = insert_sorted-All P e events p h in
    elim (Bool-cases (leb e.first_seq f.first_seq)) [
      | inl t ↦ rw t (p, (q, h))
      | inr n ↦ rw n (q, rest)
    ]

pub sort_by_first-All :
    (P : LossEvent → Type 0) (events : List LossEvent) → All P events → All P (sort_by_first events)
unfolding sort_by_first
sort_by_first-All P [] h = tt
sort_by_first-All P (e ∷ events) (p, h) =
    insert_sorted-All P e (sort_by_first events) p (sort_by_first-All P events h)

-- What is merged anew: the events that the new one touches, and the new one.
abbrev pub touching : List LossEvent → LossEvent → List LossEvent
touching events event = sort_by_first (collected events event ++ event ∷ [])

pub touching-InStream :
    (events : List LossEvent) (event : LossEvent)
    → All (InStream event.buffer_id event.run_id event.source_id) (touching events event)
touching-InStream events event =
    sort_by_first-All (InStream event.buffer_id event.run_id event.source_id)
      (collected events event ++ event ∷ [])
      (All-append (InStream event.buffer_id event.run_id event.source_id) (collected events event)
        (event ∷ []) (collected-InStream events event)
        (record { buffer_at = refl; run_at = refl; source_at = refl }, tt))

pub touching-IsRange :
    (events : List LossEvent) (event : LossEvent)
    → All IsRange events
    → IsRange event
    → All IsRange (touching events event)
touching-IsRange events event h p =
    sort_by_first-All IsRange (collected events event ++ event ∷ []) (
      All-append IsRange (collected events event) (event ∷ [])
        (collected-All IsRange events event h) (p, tt))

covered-merged :
    (b r c : ℕ) (buffer run source s : ℕ) (intervals : List LossEvent)
    → All (InStream b r c) intervals
    → All IsRange intervals
    → covered (merged intervals) buffer run source s ≡ covered intervals buffer run source s
unfolding covered merged
covered-merged b r c buffer run source s [] is ps = refl
covered-merged b r c buffer run source s (x ∷ intervals) (i, is) (p, ps) =
    covered-merge_from buffer run source s b r c x intervals i p is ps

-- A new event adds its own sequence numbers to those of its stream that are known to be lost, and
-- no others, in whatever way the intervals are merged: for events and a new event that are ranges
-- which are not empty, end below 2^64 - 1 and carry their own count.
pub covered-insert_loss_event :
    (events : List LossEvent) (event : LossEvent) (buffer run source s : ℕ)
    → All IsRange events
    → IsRange event
    → covered (insert_loss_event events event) buffer run source s
      ≡ covered events buffer run source s || (of_stream buffer run source event && covers event s)
unfolding insert_loss_event
covered-insert_loss_event events event buffer run source s h p =
    covered-append buffer run source s (retained events event) (merged (touching events event))
    ∙ ap (λ x. covered (retained events event) buffer run source s || x)
        (covered-merged event.buffer_id event.run_id event.source_id buffer run source s
            (touching events event) (touching-InStream events event)
            (touching-IsRange events event h p)
          ∙ covered-sort_by_first buffer run source s (collected events event ++ event ∷ [])
          ∙ covered-append buffer run source s (collected events event) (event ∷ []))
    ∙ or_assoc (covered (retained events event) buffer run source s)
        (covered (collected events event) buffer run source s)
        (covered (event ∷ []) buffer run source s)
    ∙ ap₂ (λ x y. x || y) (covered-split buffer run source s events event)
        (covered_one buffer run source s event)
