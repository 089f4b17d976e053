-- ===== src/Loss/Covered.antt =====
-- crates/carriage/src/loss.rs: `insert_loss_event` as a union of sets of sequence numbers.
use open_ot_experiments.Prelude.{
  ℕ, ◌+◌, ◌-◌, ◌≤◌, ◌<◌, ◌^◌, ◌≡◌, refl, ap, ap₂, ◌∙◌, sym, Bool, true, false, ◌&&◌, ◌||◌, List, [],
  ◌∷◌, ◌++◌, arith, All, leb, ◌==◌, Bool-cases, inl, inr,
}
use open_ot_experiments.Loss.{
  LossEvent, same_loss_stream, ranges_touch_or_overlap, joins, retained, collected, insert_sorted,
  sort_by_first, joined, merge_from,
}

-- The sequence numbers of an event, and the stream that they belong to.
abbrev pub covers : LossEvent → ℕ → Bool
covers e s = leb e.first_seq s && leb s e.last_seq

abbrev pub of_stream : ℕ → ℕ → ℕ → LossEvent → Bool
of_stream buffer run source e = e.buffer_id == buffer && e.run_id == run && e.source_id == source

-- Whether some event says that `s` was lost from the stream.
unfoldable pub covered : List LossEvent → ℕ → ℕ → ℕ → ℕ → Bool
covered [] buffer run source s = false
covered (e ∷ events) buffer run source s =
    (of_stream buffer run source e && covers e s) || covered events buffer run source s

-- A range that is not empty, with its count; the last number of all is left free.
pub record IsRange (e : LossEvent) : Type 0 where
  pub ordered : e.first_seq ≤ e.last_seq
  pub fits : e.last_seq < 2 ^ 64 - 1
  pub counted : e.count ≡ e.last_seq - e.first_seq + 1

pub record InStream (buffer run source : ℕ) (e : LossEvent) : Type 0 where
  pub buffer_at : e.buffer_id ≡ buffer
  pub run_at : e.run_id ≡ run
  pub source_at : e.source_id ≡ source

pub same-InStream :
    (e f : LossEvent) → same_loss_stream e f ≡ true → InStream f.buffer_id f.run_id f.source_id e
unfolding same_loss_stream
same-InStream e f h = ground arith

pub joined-IsRange : (a b : LossEvent) → IsRange a → IsRange b → IsRange (joined a b)
unfolding joined
joined-IsRange a b p q = ground arith

pub joined-InStream :
    {buffer run source : ℕ} (a b : LossEvent)
    → InStream buffer run source a
    → InStream buffer run source (joined a b)
unfolding joined
joined-InStream a b h = record {
  buffer_at = h.buffer_at;
  run_at = h.run_at;
  source_at = h.source_at;
}

-- Two ranges that touch or overlap make one range.
covers-joined :
    (a b : LossEvent) (s : ℕ)
    → IsRange a
    → IsRange b
    → ranges_touch_or_overlap a b ≡ true
    → covers (joined a b) s ≡ covers a s || covers b s
unfolding joined ranges_touch_or_overlap
covers-joined a b s p q h = ground arith

distribute : (x p q : Bool) → (x && (p || q)) ≡ (x && p) || (x && q)
distribute false p q = refl
distribute true p q = refl

-- Events of one stream are asked for together.
of_stream-InStream :
    (a b : LossEvent) {buffer run source : ℕ} (buffer' run' source' : ℕ)
    → InStream buffer run source a
    → InStream buffer run source b
    → of_stream buffer' run' source' a ≡ of_stream buffer' run' source' b
of_stream-InStream a b buffer' run' source' i j =
    ap₂ ◌&&◌
      (ap₂ ◌&&◌ (ap (λ x. x == buffer') (i.buffer_at ∙ sym j.buffer_at))
        (ap (λ x. x == run') (i.run_at ∙ sym j.run_at)))
      (ap (λ x. x == source') (i.source_at ∙ sym j.source_at))

covered-joined :
    (a b : LossEvent) {buffer run source : ℕ} (buffer' run' source' s : ℕ)
    → InStream buffer run source a
    → InStream buffer run source b
    → IsRange a
    → IsRange b
    → ranges_touch_or_overlap a b ≡ true
    → (of_stream buffer' run' source' (joined a b) && covers (joined a b) s)
      ≡ (of_stream buffer' run' source' a && covers a s)
        || (of_stream buffer' run' source' b && covers b s)
covered-joined a b buffer' run' source' s i j p q h =
    ap₂ ◌&&◌ (of_stream-InStream (joined a b) a buffer' run' source' (joined-InStream a b i) i)
      (covers-joined a b s p q h)
    ∙ distribute (of_stream buffer' run' source' a) (covers a s) (covers b s)
    ∙ ap (λ x. (of_stream buffer' run' source' a && covers a s) || (x && covers b s))
        (of_stream-InStream a b buffer' run' source' i j)

or_middle : (a b c : Bool) → a || (b || c) ≡ b || (a || c)
or_middle false false c = refl
or_middle false true c = refl
or_middle true false c = refl
or_middle true true c = refl

pub or_assoc : (a b c : Bool) → a || (b || c) ≡ (a || b) || c
or_assoc false b c = refl
or_assoc true b c = refl

module _ (buffer run source s : ℕ) where
  -- Whether one event says so.
  abbrev hit : LossEvent → Bool
  hit e = of_stream buffer run source e && covers e s

  abbrev covered_here : List LossEvent → Bool
  covered_here events = covered events buffer run source s

  pub covered_one : (e : LossEvent) → covered_here (e ∷ []) ≡ hit e
  unfolding covered
  covered_one e = elim (Bool-cases (hit e)) [ inl t ↦ rw t | inr f ↦ rw f ]

  pub covered-append :
      (xs ys : List LossEvent) → covered_here (xs ++ ys) ≡ covered_here xs || covered_here ys
  unfolding covered
  covered-append [] ys = refl
  covered-append (e ∷ xs) ys =
      ap (λ x. hit e || x) (covered-append xs ys)
      ∙ or_assoc (hit e) (covered_here xs) (covered_here ys)

  -- The events split between those that touch the new one and the others.
  pub covered-split :
      (events : List LossEvent) (event : LossEvent)
      → covered_here (retained events event) || covered_here (collected events event)
        ≡ covered_here events
  unfolding covered retained collected
  covered-split [] event = refl
  covered-split (e ∷ events) event =
      let rest = covered-split events event in
      elim (Bool-cases (joins e event)) [
        | inl t ↦ rw t (
            or_middle (covered_here (retained events event)) (hit e)
              (covered_here (collected events event))
            ∙ ap (λ x. hit e || x) rest)
        | inr f ↦ rw f (
            sym (
              or_assoc (hit e) (covered_here (retained events event))
                (covered_here (collected events event)))
            ∙ ap (λ x. hit e || x) rest)
      ]

  covered-insert_sorted :
      (e : LossEvent) (events : List LossEvent)
      → covered_here (insert_sorted e events) ≡ hit e || covered_here events
  unfolding covered insert_sorted
  covered-insert_sorted e [] = refl
  covered-insert_sorted e (f ∷ events) =
      let rest = covered-insert_sorted e events in
      elim (Bool-cases (leb e.first_seq f.first_seq)) [
        | inl t ↦ rw t
        | inr n ↦ rw n (ap (λ x. hit f || x) rest ∙ or_middle (hit f) (hit e) (covered_here events))
      ]

  pub covered-sort_by_first :
      (events : List LossEvent) → covered_here (sort_by_first events) ≡ covered_here events
  unfolding covered sort_by_first
  covered-sort_by_first [] = refl
  covered-sort_by_first (e ∷ events) =
      covered-insert_sorted e (sort_by_first events)
      ∙ ap (λ x. hit e || x) (covered-sort_by_first events)

  pub covered-merge_from :
      (b r c : ℕ) (last : LossEvent) (intervals : List LossEvent)
      → InStream b r c last
      → IsRange last
      → All (InStream b r c) intervals
      → All IsRange intervals
      → covered_here (merge_from last intervals) ≡ hit last || covered_here intervals
  unfolding covered merge_from
  covered-merge_from b r c last [] i p is ps = refl
  covered-merge_from b r c last (x ∷ intervals) i p (i', is) (p', ps) =
      let far = covered-merge_from b r c x intervals i' p' is ps in
      let near =
        covered-merge_from b r c (joined last x) intervals (joined-InStream last x i)
          (joined-IsRange last x p p') is ps in
      elim (Bool-cases (ranges_touch_or_overlap last x)) [
        | inl t ↦ rw t (
            near
            ∙ ap (λ y. y || covered_here intervals)
                (covered-joined last x buffer run source s i i' p p' t)
            ∙ sym (or_assoc (hit last) (hit x) (covered_here intervals)))
        | inr f ↦ rw f (ap (λ y. hit last || y) far)
      ]
