-- ===== src/Concurrent/Kept.antt =====
-- crates/carriage/src/concurrent.rs: what is stored stays stored while the offsets allow it.
use open_ot_experiments.Prelude.{
  ℕ, zero, suc, ◌+◌, ◌%◌, ◌≤◌, ◌<◌, ◌≡◌, refl, ap₂, ◌∙◌, sym, List, [], ◌∷◌, arith, length, get_or,
  slice, take, drop, slice-take,
}
use native.Mathlib.Nat.{mod-lt, mod-eq_of_lt, mod-add-mod}
use open_ot_experiments.Wire.{Record}
use open_ot_experiments.Ring.Types.{RecordIndex}
use open_ot_experiments.Ring.Stored.{
  Follows, adjacent, wrapped, Holds, Stored, Stored-le, Follows-le,
}
use open_ot_experiments.Concurrent.{ConcurrentRing}
use open_ot_experiments.Concurrent.Stable.{Stable}

take-drop-eq :
    (xs ys : List ℕ) (s n : ℕ)
    → s + n ≤ length xs
    → s + n ≤ length ys
    → ((k : ℕ) → k < n → get_or xs (s + k) 0 ≡ get_or ys (s + k) 0)
    → take n (drop s xs) ≡ take n (drop s ys)
take-drop-eq xs ys zero zero hx hy e = refl
take-drop-eq [] ys zero (suc n) hx hy e = absurd (omega arith)
take-drop-eq (x ∷ xs) [] zero (suc n) hx hy e = absurd (omega arith)
take-drop-eq (x ∷ xs) (y ∷ ys) zero (suc n) hx hy e = ap₂ ◌∷◌ (e 0 (omega arith)) (
    take-drop-eq xs ys zero n (omega arith) (omega arith)
      (λ k lt. let c : 0 + suc k ≡ suc (0 + k) = omega arith in rw c at (e (suc k) (omega arith))))
take-drop-eq [] ys (suc s) n hx hy e = absurd (omega arith)
take-drop-eq (x ∷ xs) [] (suc s) n hx hy e = absurd (omega arith)
take-drop-eq (x ∷ xs) (y ∷ ys) (suc s) n hx hy e =
    take-drop-eq xs ys s n (omega arith) (omega arith)
      (λ k lt. let c : suc s + k ≡ suc (s + k) = omega arith in rw c at (e k lt))

module _ (m m' : ConcurrentRing) (pos : 0 < length m.bytes) (s : Stable m m') where
  abbrev pool : ℕ
  pool = length m.bytes

  -- A span of the window reads the same in both.
  slice-Stable :
      (q n : ℕ)
      → m'.oldest_abs ≤ q
      → q + n ≤ m.head_abs
      → q % pool + n ≤ pool
      → slice m'.bytes (q % pool) (q % pool + n) ≡ slice m.bytes (q % pool) (q % pool + n)
  slice-Stable q n lo hi in_pool =
      slice-take m'.bytes (q % pool) n
      ∙ take-drop-eq m'.bytes m.bytes (q % pool) n (omega (arith, s.same_size)) in_pool (λ k lt.
        let at : (q + k) % pool ≡ q % pool + k =
          sym (mod-add-mod q pool k) ∙ mod-eq_of_lt (omega arith) in
        rw at at (s.same_byte (q + k) (omega arith) (omega arith)))
      ∙ sym (slice-take m.bytes (q % pool) n)

  Follows-Stable :
      {p start : ℕ}
      → Follows m.bytes pool p start
      → m'.oldest_abs ≤ p
      → start ≤ m.head_abs
      → Follows m'.bytes pool p start
  Follows-Stable (adjacent e) lo hi = adjacent e
  Follows-Stable {p} (wrapped ne marker e) lo hi =
      let below = mod-lt p pos in
      wrapped ne (slice-Stable p 1 lo (omega arith) (omega arith) ∙ marker) e

  Holds-Stable :
      {i : RecordIndex} {x : Record}
      → Holds m.bytes pool i x
      → m'.oldest_abs ≤ i.start_abs
      → i.end_abs ≤ m.head_abs
      → Holds m'.bytes pool i x
  Holds-Stable {i} {x} h lo hi = record {
    encoded = h.encoded;
    is_encoded = h.is_encoded;
    is_record = h.is_record;
    in_pool = h.in_pool;
    span = h.span;
    run_at = h.run_at;
    source_at = h.source_at;
    seq_at = h.seq_at;
    bytes_at =
        slice-Stable i.start_abs (length h.encoded) lo (omega (arith, h.span)) h.in_pool
        ∙ h.bytes_at;
  }

  pub Stored-Stable :
      (p : ℕ) (index : List RecordIndex) (xs : List Record) (head : ℕ)
      → Stored m.bytes pool p index xs head
      → m'.oldest_abs ≤ p
      → head ≤ m.head_abs
      → Stored m'.bytes pool p index xs head
  Stored-Stable p [] [] head h lo hi = h
  Stored-Stable p [] (x ∷ xs) head h lo hi = h
  Stored-Stable p (i ∷ index) [] head h lo hi = h
  Stored-Stable p (i ∷ index) (x ∷ xs) head (f, d, h) lo hi =
      let end_le = Stored-le m.bytes pool i.end_abs index xs head h in
      let start_le = Follows-le f in
      let span = d.span in
      (
        Follows-Stable f lo (omega arith),
        Holds-Stable d (omega arith) (omega arith),
        Stored-Stable i.end_abs index xs head h (omega arith) hi,
      )
