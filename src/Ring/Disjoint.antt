-- ===== src/Ring/Disjoint.antt =====
-- crates/carriage/src/ring.rs: two spans of the ring less than a lap apart lie apart in the pool.
use open_ot_experiments.Prelude.{
  ℕ, zero, suc, ◌+◌, ◌-◌, ◌/◌, ◌%◌, ◌≤◌, ◌<◌, ◌≡◌, ◌⊎◌, inl, inr, refl, ap, ◌∙◌, sym, List, [], ◌∷◌,
  ◌++◌, arith, length, take, drop, slice, slice-take, write_at, set, take-append, take-append-drop,
  drop-append, length-append, length-take, length-drop, drop-drop, append_assoc,
}
use native.Mathlib.Nat.{div-add-mod, mod-lt, mul-le-mul_right}
use native.Mathlib.Decide.{dec_lt}

-- The span `[s, s + n)` ends before `[q, q + m)`, which ends at most a lap after it starts.
pub spans_apart :
    (pool s n q m : ℕ)
    → 0 < pool
    → s + n ≤ q
    → q + m ≤ s + pool
    → s % pool + n ≤ pool
    → q % pool + m ≤ pool
    → (s % pool + n ≤ q % pool) ⊎ (q % pool + m ≤ s % pool)
spans_apart pool s n q m pos before near in_s in_q =
    let k = s / pool in
    let j = q / pool in
    let facts = λ (a b : ℕ) (h : a ≤ b). mul-le-mul_right pool h in
    let hs = div-add-mod s pool in
    let hq = div-add-mod q pool in
    let ls = mod-lt s pos in
    let lq = mod-lt q pos in
    elim (dec_lt j k) [
      | yes l ↦ absurd (omega (arith, facts (j + 1) k (omega arith)))
      | no g ↦ elim (dec_lt k j) [
        | no g' ↦ inl (omega (arith, facts k j (omega arith), facts j k (omega arith)))
        | yes l ↦ elim (dec_lt (k + 1) j) [
          | yes l' ↦ absurd (omega (arith, facts (k + 2) j (omega arith)))
          | no g'' ↦
              inr (omega (arith, facts (k + 1) j (omega arith), facts j (k + 1) (omega arith)))
        ]
      ]
    ]

take-drop-append_left :
    (a n : ℕ) (xs ys : List ℕ) → a + n ≤ length xs → take n (drop a (xs ++ ys)) ≡ take n (drop a xs)
take-drop-append_left zero zero xs ys h = refl
take-drop-append_left zero (suc n) [] ys h = absurd (omega arith)
take-drop-append_left zero (suc n) (x ∷ xs) ys h =
    ap (λ l. x ∷ l) (take-drop-append_left zero n xs ys (omega arith))
take-drop-append_left (suc a) n [] ys h = let e : n ≡ 0 = omega arith in rw e
take-drop-append_left (suc a) n (x ∷ xs) ys h = take-drop-append_left a n xs ys (omega arith)

-- A write leaves a slice before or after it alone.
pub slice-write_at :
    (bytes : List ℕ) (at : ℕ) (values : List ℕ) (a n : ℕ)
    → at + length values ≤ length bytes
    → a + n ≤ length bytes
    → (a + n ≤ at) ⊎ (at + length values ≤ a)
    → slice (write_at bytes at values) a (a + n) ≡ slice bytes a (a + n)
slice-write_at bytes at values a n fits inside (inl before) =
    let front = take at bytes in
    let size : a + n ≤ length front = omega (arith, length-take at bytes) in
    slice-take (write_at bytes at values) a n
    ∙ take-drop-append_left a n front (values ++ drop (at + length values) bytes) size
    ∙ sym (take-drop-append_left a n front (drop at bytes) size)
    ∙ ap (λ l. take n (drop a l)) (take-append-drop at bytes)
    ∙ sym (slice-take bytes a n)
slice-write_at bytes at values a n fits inside (inr after) =
    let past = at + length values in
    let front = take at bytes ++ values in
    let e : past + (a - past) ≡ a = omega arith in
    let size : length front ≡ past =
      omega (arith, length-append (take at bytes) values, length-take at bytes) in
    let written = write_at bytes at values in
    let tail = drop past bytes in
    let past_tail : drop past written ≡ tail =
      ap (λ l. drop past l) (sym (append_assoc (take at bytes) values tail))
      ∙ ap (λ k. drop k (front ++ tail)) (sym size)
      ∙ drop-append front tail in
    let skip : drop a written ≡ drop a bytes =
      ap (λ k. drop k written) (sym e)
      ∙ sym (drop-drop (a - past) past written)
      ∙ ap (λ l. drop (a - past) l) past_tail
      ∙ drop-drop (a - past) past bytes
      ∙ ap (λ k. drop k bytes) e in
    slice-take (write_at bytes at values) a n ∙ ap (take n) skip ∙ sym (slice-take bytes a n)

-- The same for a write to the span `[q, q + length values)` of the ring.
pub slice-write_span :
    (bytes : List ℕ) (pool s n q : ℕ) (values : List ℕ)
    → length bytes ≡ pool
    → 0 < pool
    → s + n ≤ q
    → q + length values ≤ s + pool
    → s % pool + n ≤ pool
    → q % pool + length values ≤ pool
    → slice (write_at bytes (q % pool) values) (s % pool) (s % pool + n)
      ≡ slice bytes (s % pool) (s % pool + n)
slice-write_span bytes pool s n q values e pos before near in_s in_q =
    slice-write_at bytes (q % pool) values (s % pool) n (omega arith) (omega arith)
      (spans_apart pool s n q (length values) pos before near in_s in_q)

pub length-write_at :
    (bytes : List ℕ) (at : ℕ) (values : List ℕ)
    → at + length values ≤ length bytes
    → length (write_at bytes at values) ≡ length bytes
length-write_at bytes at values h = omega (
  arith,
  length-append (take at bytes) (values ++ drop (at + length values) bytes),
  length-append values (drop (at + length values) bytes),
  length-take at bytes,
  length-drop (at + length values) bytes,
)

-- What was written is read back.
pub slice-write_at_self :
    (bytes : List ℕ) (at : ℕ) (values : List ℕ)
    → at ≤ length bytes
    → slice (write_at bytes at values) at (at + length values) ≡ values
slice-write_at_self bytes at values h =
    let front = take at bytes in
    let tail = drop (at + length values) bytes in
    let size : length front ≡ at = omega (arith, length-take at bytes) in
    slice-take (write_at bytes at values) at (length values)
    ∙ ap (λ k. take (length values) (drop k (front ++ (values ++ tail)))) (sym size)
    ∙ ap (take (length values)) (drop-append front (values ++ tail))
    ∙ take-append values tail

-- Setting one byte is a write of one byte.
pub set-eq-write_at :
    (bytes : List ℕ) (i v : ℕ) → i < length bytes → set bytes i v ≡ write_at bytes i (v ∷ [])
set-eq-write_at [] i v h = absurd (omega arith)
set-eq-write_at (x ∷ xs) zero v h = refl
set-eq-write_at (x ∷ xs) (suc i) v h =
    let e : suc i + 1 ≡ suc (i + 1) = omega arith in
    rw e (ap (λ l. x ∷ l) (set-eq-write_at xs i v (omega arith)))
