-- ===== src/Capture/Mismatch.antt =====
-- crates/carriage/src/capture.rs: what `compare_ring_bytes` reports.
use open_ot_experiments.Prelude.{
  ℕ, suc, ◌+◌, ◌≡◌, ◌≢◌, ◌⊎◌, ◌<◌, inl, inr, refl, ap, ap₂, ◌∙◌, List, [], ◌∷◌, arith, length,
  get_or, take, ◌==◌, ok, err, Bool-cases,
}
use open_ot_experiments.Capture.{ring_length_mismatch, ring_byte_mismatch}
use open_ot_experiments.Capture.Validate.{compare_bytes, compare_ring_bytes}

-- Position `k` is the first at which the lists differ.
pub record FirstDifference (actual expected : List ℕ) (k a e : ℕ) : Type 0 where
  pub inside : k < length actual
  pub same_before : take k actual ≡ take k expected
  pub actual_at : get_or actual k 0 ≡ a
  pub expected_at : get_or expected k 0 ≡ e
  pub differ : a ≢ e

compare_bytes_outcome :
    (index : ℕ) (actual expected : List ℕ)
    → length actual ≡ length expected
    → ((compare_bytes index actual expected ≡ ok tt) × (actual ≡ expected))
      ⊎ ((k a e : ℕ) × (compare_bytes index actual expected
            ≡ err (ring_byte_mismatch (index + k) e a))
          × FirstDifference actual expected k a e)
unfolding compare_bytes
compare_bytes_outcome index [] [] size = inl (refl, refl)
compare_bytes_outcome index [] (y ∷ expected) size = absurd (omega arith)
compare_bytes_outcome index (x ∷ actual) [] size = absurd (omega arith)
compare_bytes_outcome index (x ∷ actual) (y ∷ expected) size = elim (Bool-cases (x == y)) [
  | inr f ↦
      let here : index + 0 ≡ index = omega arith in
      inr (
        0,
        x,
        y,
        rw (f, here) refl,
        record {
          inside = omega arith;
          same_before = refl;
          actual_at = refl;
          expected_at = refl;
          differ = ground arith;
        },
      )
  | inl t ↦
      let same : x ≡ y = ground arith in
      elim (compare_bytes_outcome (index + 1) actual expected (omega arith)) [
        | inl (passed, e) ↦ inl (rw t passed, ap₂ ◌∷◌ same e)
        | inr (k, a, e, failed, d) ↦
            let next : index + 1 + k ≡ index + suc k = omega arith in
            inr (
              suc k,
              a,
              e,
              rw t (failed ∙ ap (λ n. err (ring_byte_mismatch n e a)) next),
              record {
                inside = omega (arith, d.inside);
                same_before = ap₂ ◌∷◌ same d.same_before;
                actual_at = d.actual_at;
                expected_at = d.expected_at;
                differ = d.differ;
              },
            )
      ]
]

-- The comparison of two rings passes if they are equal, and else reports their lengths, if these
-- differ, or the first position at which the bytes differ, with both bytes.
pub compare_ring_bytes_outcome :
    (actual expected : List ℕ)
    → ((compare_ring_bytes actual expected ≡ ok tt) × (actual ≡ expected))
      ⊎ (((length actual ≢ length expected)
            × (compare_ring_bytes actual expected
                ≡ err (ring_length_mismatch (length expected) (length actual))))
          ⊎ ((k a e : ℕ) × (compare_ring_bytes actual expected ≡ err (ring_byte_mismatch k e a))
              × FirstDifference actual expected k a e))
unfolding compare_ring_bytes
compare_ring_bytes_outcome actual expected = elim (Bool-cases (length actual == length expected)) [
  | inr f ↦ inr (inl (ground arith, rw f refl))
  | inl t ↦ elim (compare_bytes_outcome 0 actual expected (ground arith)) [
    | inl (passed, e) ↦ inl (rw t passed, e)
    | inr (k, a, e, failed, d) ↦
        let at : 0 + k ≡ k = omega arith in
        inr (inr (k, a, e, rw t (failed ∙ ap (λ n. err (ring_byte_mismatch n e a)) at), d))
  ]
]
