-- ===== src/Ring/Stored.antt =====
-- crates/carriage/src/ring.rs: the records that a ring's pool holds, and the ring's invariant.
use open_ot_experiments.Prelude.{
  ℕ, ◌+◌, ◌-◌, ◌%◌, ◌≤◌, ◌<◌, ◌≡◌, ◌≢◌, refl, ◌∙◌, List, [], ◌∷◌, ◌++◌, true, ok, arith, length,
  slice, write_at,
}
use native.Mathlib.Nat.{mod-lt}
use open_ot_experiments.Wire.{Record, encode}
use open_ot_experiments.Wire.Layout.{IsRecord}
use open_ot_experiments.Ring.{first_start}
use open_ot_experiments.Ring.Types.{RecordIndex, RingBuffer}
use open_ot_experiments.Ring.Disjoint.{slice-write_span}

-- A record that the index places after position `p`: at `p` itself, or at the front of the pool
-- behind a wrap marker at `p`.
pub data Follows (bytes : List ℕ) (pool p start : ℕ) : Type 0 where
  adjacent : p ≡ start → Follows bytes pool p start
  wrapped :
      p % pool ≢ 0
      → slice bytes (p % pool) (p % pool + 1) ≡ 0 ∷ []
      → start ≡ p + (pool - p % pool)
      → Follows bytes pool p start

-- The index entry `i` describes the record `x`, and the pool holds its encoding in one piece.
pub record Holds (bytes : List ℕ) (pool : ℕ) (i : RecordIndex) (x : Record) : Type 0 where
  pub encoded : List ℕ
  pub is_encoded : encode x true ≡ ok encoded
  pub is_record : IsRecord x
  pub in_pool : i.start_abs % pool + length encoded ≤ pool
  pub span : i.end_abs ≡ i.start_abs + length encoded
  pub bytes_at : slice bytes (i.start_abs % pool) (i.start_abs % pool + length encoded) ≡ encoded
  pub run_at : i.run_id ≡ x.run_id
  pub source_at : i.source_id ≡ x.source_id
  pub seq_at : i.seq ≡ x.seq

-- From `p` to `head` the pool holds the records of the index, in order.
abbrev pub Stored : List ℕ → ℕ → ℕ → List RecordIndex → List Record → ℕ → Type 0
Stored bytes pool p [] [] head = p ≡ head
Stored bytes pool p [] (x ∷ xs) head = ⊥
Stored bytes pool p (i ∷ index) [] head = ⊥
Stored bytes pool p (i ∷ index) (x ∷ xs) head =
    Follows bytes pool p i.start_abs
    × Holds bytes pool i x
    × Stored bytes pool i.end_abs index xs head

-- The invariant of a ring that retains the records `xs`.
pub record IsValid (r : RingBuffer) (xs : List Record) : Type 0 where
  pub pool : 0 < length r.bytes
  pub oldest_le_head : r.oldest_abs ≤ r.head_abs
  pub window : r.head_abs ≤ r.oldest_abs + length r.bytes
  pub stored : Stored r.bytes (length r.bytes) r.oldest_abs r.index xs r.head_abs

pub Follows-le : {bytes : List ℕ} {pool p start : ℕ} → Follows bytes pool p start → p ≤ start
Follows-le (adjacent e) = omega arith
Follows-le (wrapped n m e) = omega arith

pub Stored-le :
    (bytes : List ℕ) (pool p : ℕ) (index : List RecordIndex) (xs : List Record) (head : ℕ)
    → Stored bytes pool p index xs head
    → p ≤ head
Stored-le bytes pool p [] [] head h = omega arith
Stored-le bytes pool p [] (x ∷ xs) head h = absurd h
Stored-le bytes pool p (i ∷ index) [] head h = absurd h
Stored-le bytes pool p (i ∷ index) (x ∷ xs) head (f, s, h) =
    omega (arith, Follows-le f, s.span, Stored-le bytes pool i.end_abs index xs head h)

-- A write ahead of the head, to a span that ends at most a lap after `p`, keeps what is stored.
module _ (bytes : List ℕ) (pool q : ℕ) (values : List ℕ) (size : length bytes ≡ pool)
    (pos : 0 < pool) (fits : q % pool + length values ≤ pool) where
  abbrev written : List ℕ
  written = write_at bytes (q % pool) values

  Follows-write :
      {p start : ℕ}
      → Follows bytes pool p start
      → start ≤ q
      → q + length values ≤ p + pool
      → Follows written pool p start
  Follows-write (adjacent e) before near = adjacent e
  Follows-write {p} {start} (wrapped n m e) before near =
      let l = mod-lt p pos in
      wrapped n
        (slice-write_span bytes pool p 1 q values size pos (omega arith) near (omega arith) fits
          ∙ m)
        e

  Holds-write :
      {i : RecordIndex} {x : Record}
      → Holds bytes pool i x
      → i.end_abs ≤ q
      → q + length values ≤ i.start_abs + pool
      → Holds written pool i x
  Holds-write {i} {x} h before near = record {
    encoded = h.encoded;
    is_encoded = h.is_encoded;
    is_record = h.is_record;
    in_pool = h.in_pool;
    span = h.span;
    run_at = h.run_at;
    source_at = h.source_at;
    seq_at = h.seq_at;
    bytes_at =
        slice-write_span bytes pool i.start_abs (length h.encoded) q values size pos
          (omega (arith, h.span)) near h.in_pool fits
        ∙ h.bytes_at;
  }

  pub Stored-write :
      (p : ℕ) (index : List RecordIndex) (xs : List Record) (head : ℕ)
      → Stored bytes pool p index xs head
      → head ≤ q
      → q + length values ≤ p + pool
      → Stored written pool p index xs head
  Stored-write p [] [] head h before near = h
  Stored-write p [] (x ∷ xs) head h before near = h
  Stored-write p (i ∷ index) [] head h before near = h
  Stored-write p (i ∷ index) (x ∷ xs) head (f, s, h) before near =
      let end_le = Stored-le bytes pool i.end_abs index xs head h in
      let start_le = Follows-le f in
      let span = s.span in
      (
        Follows-write f (omega arith) near,
        Holds-write s (omega arith) (omega arith),
        Stored-write i.end_abs index xs head h before (omega arith),
      )

-- The index grows at its end.
pub Stored-snoc :
    (bytes : List ℕ) (pool p : ℕ) (index : List RecordIndex) (xs : List Record) (head : ℕ)
    (i : RecordIndex) (x : Record)
    → Stored bytes pool p index xs head
    → Follows bytes pool head i.start_abs
    → Holds bytes pool i x
    → Stored bytes pool p (index ++ i ∷ []) (xs ++ x ∷ []) i.end_abs
Stored-snoc bytes pool p [] [] head i x h f s = (rw h f, s, refl)
Stored-snoc bytes pool p [] (y ∷ xs) head i x h f s = absurd h
Stored-snoc bytes pool p (j ∷ index) [] head i x h f s = absurd h
Stored-snoc bytes pool p (j ∷ index) (y ∷ xs) head i x (f', s', h) f s =
    (f', s', Stored-snoc bytes pool j.end_abs index xs head i x h f s)

-- What is stored from `p` on is stored from its first record on.
pub Stored-first :
    (bytes : List ℕ) (pool p : ℕ) (index : List RecordIndex) (xs : List Record) (head : ℕ)
    → Stored bytes pool p index xs head
    → Stored bytes pool (first_start index p) index xs head
Stored-first bytes pool p [] [] head h = h
Stored-first bytes pool p [] (x ∷ xs) head h = h
Stored-first bytes pool p (i ∷ index) [] head h = h
Stored-first bytes pool p (i ∷ index) (x ∷ xs) head (f, s, h) = (adjacent refl, s, h)
