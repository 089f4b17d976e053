-- ===== src/Registry/Lookup.antt =====
-- crates/carriage/src/registry.rs: `iter().find` over a table with a key.
use mathlib.Core.List.{Memᴰ}
use mathlib.Core.List.Memᴰ
use mathlib.Core.Option.{some-injective}
use mathlib.Core.Path.{subst}
use open_ot_experiments.Prelude.{
  ℕ, ◌<◌, ◌≡◌, Bool, true, false, ◌&&◌, List, [], ◌∷◌, Option, none, some, arith, All, All-map,
  All-zip, ltb, ◌==◌, Bool-cases, inl, inr, sym, ap, ◌∙◌, ◌↔◌, if◌then◌else◌, ==_refl,
}

module _ {A : Type 0} where
  pub All-Memᴰ : (P : A → Type 0) (specs : List A) {s : A} → All P specs → Memᴰ s specs → P s
  All-Memᴰ P [] all m = absurd (Memᴰ.not-nil m)
  All-Memᴰ P (t ∷ specs) (p, all) (Memᴰ.head e) = subst P (sym e) p
  All-Memᴰ P (t ∷ specs) (p, all) (Memᴰ.tail m) = All-Memᴰ P specs all m

  -- A test that every entry passes.
  abbrev pub each : (A → Bool) → List A → Bool
  each test [] = true
  each test (s ∷ specs) = test s && each test specs

  pub each-Memᴰ :
      (test : A → Bool) (specs : List A) {s : A}
      → each test specs ≡ true
      → Memᴰ s specs
      → test s ≡ true
  each-Memᴰ test [] all m = absurd (Memᴰ.not-nil m)
  each-Memᴰ test (t ∷ specs) all (Memᴰ.head e) = ap test e ∙ ground arith
  each-Memᴰ test (t ∷ specs) all (Memᴰ.tail m) = each-Memᴰ test specs (ground arith) m

module _ {A : Type 0} (key : A → ℕ) where
  -- The first entry with the key.
  unfoldable pub find_by : List A → ℕ → Option A
  find_by [] k = none
  find_by (s ∷ specs) k = if key s == k then some s else find_by specs k

  -- The keys ascend from `n` on.
  abbrev pub ascending_from : ℕ → List A → Bool
  ascending_from n [] = true
  ascending_from n (s ∷ specs) = ltb n (key s) && ascending_from (key s) specs

  above : (n : ℕ) (specs : List A) → ascending_from n specs ≡ true → All (λ s. n < key s) specs
  above n [] h = tt
  above n (s ∷ specs) h =
      let later = above (key s) specs (ground arith) in
      (ground arith, All-map _ _ (λ t l. ground arith) specs later)

  find_by-skip :
      (s t : A) (specs : List A)
      → key s < key t
      → find_by specs (key t) ≡ some t
      → find_by (s ∷ specs) (key t) ≡ some t
  unfolding find_by
  find_by-skip s t specs l h = let other : (key s == key t) ≡ false = ground arith in rw other h

  find_by-head : (s : A) (specs : List A) → find_by (s ∷ specs) (key s) ≡ some s
  unfolding find_by
  find_by-head s specs = rw (==_refl (key s))

  -- In a table whose keys ascend, every entry is found by its key.
  pub find_by-All :
      (n : ℕ) (specs : List A)
      → ascending_from n specs ≡ true
      → All (λ s. find_by specs (key s) ≡ some s) specs
  find_by-All n [] h = tt
  find_by-All n (s ∷ specs) h =
      let rest : ascending_from (key s) specs ≡ true = ground arith in
      (
        find_by-head s specs,
        All-map _ _ (λ t p. find_by-skip s t specs p.0 p.1) specs
            (All-zip _ _ specs (above (key s) specs rest) (find_by-All (key s) specs rest)),
      )

  -- What is found is an entry of the table with the key.
  pub find_by-some :
      (specs : List A) (k : ℕ) {s : A} → find_by specs k ≡ some s → Memᴰ s specs × (key s ≡ k)
  unfolding find_by
  find_by-some [] k h = (let bad = h in cc)
  find_by-some (t ∷ specs) k {s} h = elim (Bool-cases (key t == k)) [
    | inl e ↦
        let same : t ≡ s = some-injective _ _ (rw e at h) in
        (Memᴰ.head (sym same), subst (λ u. key u ≡ k) same (ground arith))
    | inr e ↦ let (m, q) = find_by-some specs k (rw e at h) in (Memᴰ.tail m, q)
  ]

  -- In such a table, what is found by a key is exactly the entry with the key.
  pub find_by_iff :
      (n : ℕ) (specs : List A) (k : ℕ) (s : A)
      → ascending_from n specs ≡ true
      → (find_by specs k ≡ some s) ↔ (Memᴰ s specs × (key s ≡ k))
  find_by_iff n specs k s h = (
    find_by-some specs k,
    λ (m, e).
        ap (find_by specs) (sym e)
        ∙ All-Memᴰ (λ t. find_by specs (key t) ≡ some t) specs (find_by-All n specs h) m,
  )
