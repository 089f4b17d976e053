-- ===== src/Ring/Place.antt =====
-- crates/carriage/src/ring.rs: where `write_record` puts a record, and that the pool then holds it.
use open_ot_experiments.Prelude.{
  ℕ, ◌+◌, ◌-◌, ◌%◌, ◌^◌, ◌≤◌, ◌<◌, ◌≡◌, ◌≢◌, inl, inr, refl, ap, ◌∙◌, sym, List, [], ◌∷◌, ◌++◌,
  true, false, ok, arith, length, set, write_at, leb, ◌==◌, if◌then◌else◌, add64, Bool-cases, ◌||◌,
  ==_iff,
}
use native.Mathlib.Nat.{mod-lt, mod_self, mod-add-mod, mod-eq_of_lt}
use open_ot_experiments.Wire.{Record, encode}
use open_ot_experiments.Wire.Layout.{IsRecord}
use open_ot_experiments.Ring.{next_start}
use open_ot_experiments.Ring.Types.{RecordIndex, RingBuffer}
use open_ot_experiments.Ring.Disjoint.{
  slice-write_span, slice-write_at_self, length-write_at, set-eq-write_at,
}
use open_ot_experiments.Ring.Stored.{
  adjacent, wrapped, Holds, Stored, Stored-write, Stored-snoc, Stored-le,
}

pub next_lap : (h pool : ℕ) → 0 < pool → (h + (pool - h % pool)) % pool ≡ 0
next_lap h pool pos =
    let e : h % pool + (pool - h % pool) ≡ pool = omega (arith, mod-lt h pos) in
    sym (mod-add-mod h pool (pool - h % pool)) ∙ ap (λ k. k % pool) e ∙ mod_self pool

-- Where the record goes: at the head, or at the front of the pool if it does not fit before its end.
pub data Placed (pool head start : ℕ) : Type 0 where
  at_head : start ≡ head → Placed pool head start
  at_front : head % pool ≢ 0 → start ≡ head + (pool - head % pool) → Placed pool head start

pub Placed-le : {pool head start : ℕ} → Placed pool head start → head ≤ start
Placed-le (at_head e) = omega arith
Placed-le (at_front ne e) = omega arith

pub Placed-near : {pool head start : ℕ} → Placed pool head start → start ≤ head + pool
Placed-near (at_head e) = omega arith
Placed-near (at_front ne e) = omega arith

pub next_start-Placed :
    (r : RingBuffer) (len : ℕ)
    → 0 < length r.bytes
    → len ≤ length r.bytes
    → r.head_abs + length r.bytes < 2 ^ 64
    → Placed (length r.bytes) r.head_abs (next_start r len)
      × (next_start r len % length r.bytes + len ≤ length r.bytes)
unfolding next_start
next_start-Placed r len pos fits small =
    let h = r.head_abs in
    let pool = length r.bytes in
    let below = mod-lt h pos in
    elim (Bool-cases (h % pool == 0 || leb (h % pool + len) pool)) [
      | inl here ↦ rw here (at_head refl, ground (arith, below))
      | inr next ↦
          let e : add64 h (pool - h % pool) ≡ h + (pool - h % pool) = mod-eq_of_lt (omega arith) in
          rw (next, e) (at_front (ground arith) refl, omega (arith, next_lap h pool pos))
    ]

-- The pool after the write: first the wrap marker if there is one, then the record.
unfoldable pub marked_bytes : List ℕ → ℕ → ℕ → List ℕ
marked_bytes bytes head start = if start == head then bytes else set bytes (head % length bytes) 0

unfoldable pub new_index : ℕ → List ℕ → Record → RecordIndex
new_index start encoded x = record {
  start_abs = start;
  end_abs = start + length encoded;
  run_id = x.run_id;
  source_id = x.source_id;
  seq = x.seq;
}

module _ (bytes : List ℕ) (pool head start : ℕ) (x : Record) (encoded : List ℕ)
    (size : length bytes ≡ pool) (pos : 0 < pool) (some_bytes : 0 < length encoded)
    (in_pool : start % pool + length encoded ≤ pool) (is_encoded : encode x true ≡ ok encoded)
    (is_record : IsRecord x) where
  pub new_Holds :
      (under : List ℕ)
      → length under ≡ pool
      → Holds (write_at under (start % pool) encoded) pool (new_index start encoded x) x
  unfolding new_index
  new_Holds under e = record {
    encoded = encoded;
    is_encoded = is_encoded;
    is_record = is_record;
    in_pool = in_pool;
    span = refl;
    bytes_at = slice-write_at_self under (start % pool) encoded (omega arith);
    run_at = refl;
    source_at = refl;
    seq_at = refl;
  }

  -- A record at the head.
  Stored-at_head :
      (p : ℕ) (index : List RecordIndex) (xs : List Record)
      → start ≡ head
      → Stored bytes pool p index xs head
      → start + length encoded ≤ p + pool
      → Stored
          (write_at bytes (start % pool) encoded)
          pool
          p
          (index ++ new_index start encoded x ∷ [])
          (xs ++ x ∷ [])
          (start + length encoded)
  unfolding new_index
  Stored-at_head p index xs e h near =
      Stored-snoc _ pool p index xs head (new_index start encoded x) x
        (Stored-write bytes pool start encoded size pos in_pool p index xs head h (omega arith)
          near)
        (adjacent (sym e)) (new_Holds bytes size)

  -- A record at the front of the pool, behind a wrap marker.
  Stored-at_front :
      (p : ℕ) (index : List RecordIndex) (xs : List Record)
      → head % pool ≢ 0
      → start ≡ head + (pool - head % pool)
      → Stored bytes pool p index xs head
      → start + length encoded ≤ p + pool
      → Stored
          (write_at (write_at bytes (head % pool) (0 ∷ [])) (start % pool) encoded)
          pool
          p
          (index ++ new_index start encoded x ∷ [])
          (xs ++ x ∷ [])
          (start + length encoded)
  unfolding new_index
  Stored-at_front p index xs ne e h near =
      let under = write_at bytes (head % pool) (0 ∷ []) in
      let below = mod-lt head pos in
      let le = Stored-le bytes pool p index xs head h in
      let size' : length under ≡ pool =
        length-write_at bytes (head % pool) (0 ∷ []) (omega arith) ∙ size in
      let kept =
        Stored-write bytes pool head (0 ∷ []) size pos (omega arith) p index xs head h (omega arith)
          (omega arith) in
      let marker =
        slice-write_span under pool head 1 start encoded size' pos (omega arith) (omega arith)
          (omega arith) in_pool
        ∙ slice-write_at_self bytes (head % pool) (0 ∷ []) (omega arith) in
      Stored-snoc _ pool p index xs head (new_index start encoded x) x
        (Stored-write under pool start encoded size' pos in_pool p index xs head kept (omega arith)
          near)
        (wrapped ne marker e) (new_Holds under size')

  -- Either way the record is stored after those that were.
  pub Stored-Placed :
      (p : ℕ) (index : List RecordIndex) (xs : List Record)
      → Placed pool head start
      → Stored bytes pool p index xs head
      → start + length encoded ≤ p + pool
      → Stored
          (write_at (marked_bytes bytes head start) (start % pool) encoded)
          pool
          p
          (index ++ new_index start encoded x ∷ [])
          (xs ++ x ∷ [])
          (start + length encoded)
  unfolding marked_bytes
  Stored-Placed p index xs (at_head e) h near =
      let t : (start == head) ≡ true = (==_iff start head).1 e in
      rw t (Stored-at_head p index xs e h near)
  Stored-Placed p index xs (at_front ne e) h near =
      let below = mod-lt head pos in
      let t : (start == head) ≡ false = ground arith in
      rw (t, size, set-eq-write_at bytes (head % pool) 0 (omega arith))
        (Stored-at_front p index xs ne e h near)

  -- A record whose predecessors are all gone stands alone.
  pub Stored-alone :
      (under : List ℕ)
      → length under ≡ pool
      → Stored
          (write_at under (start % pool) encoded)
          pool
          start
          (new_index start encoded x ∷ [])
          (x ∷ [])
          (start + length encoded)
  unfolding new_index
  Stored-alone under e = (adjacent refl, new_Holds under e, refl)
