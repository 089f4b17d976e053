-- ===== src/Prelude/Results.antt =====
-- What fallible code returns.
use mathlib.Core.Path.{◌≡◌, refl, ap}
use mathlib.Core.Logic.{◌≢◌, ◌⊎◌, inl, inr}
use mathlib.Core.Bool.{Bool, true, false}

-- Rust's `Result<A, E>`. `stuck` is no Rust value: a loop of the model ran out of fuel.
pub data Outcome {ℓ κ} (E : Type ℓ) (A : Type κ) : Type (ℓ ⊔ κ) where
  ok : A → Outcome E A
  err : E → Outcome E A
  stuck : Outcome E A

-- The `?` operator.
infixl 5 ◌>>=◌ ◌>>◌
abbrev pub ◌>>=◌ {ℓ κ μ} :
    {E : Type ℓ} {A : Type κ} {B : Type μ} → Outcome E A → (A → Outcome E B) → Outcome E B
stuck >>= next = stuck
err e >>= next = err e
ok a >>= next = next a

abbrev pub ◌>>◌ {ℓ μ} : {E : Type ℓ} {B : Type μ} → Outcome E (Unit {0}) → Outcome E B → Outcome E B
first >> second = first >>= λ _. second

-- `if !test { return Err(e) }`
abbrev pub ensure {ℓ} : {E : Type ℓ} → Bool → E → Outcome E (Unit {0})
ensure true e = ok tt
ensure false e = err e

-- The conversion that `?` applies to an error of another type.
abbrev pub map_err {ℓ κ μ} :
    {E : Type ℓ} {F : Type κ} {A : Type μ} → (E → F) → Outcome E A → Outcome F A
map_err f (ok a) = ok a
map_err f (err e) = err (f e)
map_err f stuck = stuck

-- The value of a successful outcome.
pub >>=-eq-ok {ℓ κ μ} :
    {E : Type ℓ} {A : Type κ} {B : Type μ} (o : Outcome E A) (next : A → Outcome E B) {result : B}
    → (o >>= next) ≡ ok result
    → (a : A) × (o ≡ ok a) × (next a ≡ ok result)
>>=-eq-ok stuck next h = cc
>>=-eq-ok (err e) next h = cc
>>=-eq-ok (ok a) next h = (a, refl, h)

pub map_err-eq-ok {ℓ κ μ} :
    {E : Type ℓ} {F : Type κ} {A : Type μ} (f : E → F) (m : Outcome E A) {a : A}
    → map_err f m ≡ ok a
    → m ≡ ok a
map_err-eq-ok f (ok a) h = cc
map_err-eq-ok f (err e) h = cc
map_err-eq-ok f stuck h = cc

pub ensure-eq-ok {ℓ} : {E : Type ℓ} (t : Bool) (e : E) → ensure t e ≡ ok tt → t ≡ true
ensure-eq-ok true e h = refl
ensure-eq-ok false e h = cc

pub Outcome-cases {ℓ κ} :
    {E : Type ℓ} {A : Type κ} (m : Outcome E A)
    → m ≢ stuck
    → ((e : E) × (m ≡ err e)) ⊎ ((a : A) × (m ≡ ok a))
Outcome-cases (ok a) h = inr (a, refl)
Outcome-cases (err e) h = inl (e, refl)
Outcome-cases stuck h = absurd (h refl)

pub >>=-eq-stuck {ℓ κ μ} :
    {E : Type ℓ} {A : Type κ} {B : Type μ} (m : Outcome E A) (f : A → Outcome E B)
    → (m >>= f) ≡ stuck
    → (m ≡ stuck) ⊎ ((a : A) × (m ≡ ok a) × (f a ≡ stuck))
>>=-eq-stuck (ok a) f h = inr (a, refl, h)
>>=-eq-stuck (err e) f h = cc
>>=-eq-stuck stuck f h = inl refl

pub ensure-ne-stuck {ℓ} : {E : Type ℓ} (t : Bool) (e : E) → ensure t e ≢ stuck
ensure-ne-stuck true e h = cc
ensure-ne-stuck false e h = cc

abbrev ok_or {ℓ κ} : {E : Type ℓ} {A : Type κ} → A → Outcome E A → A
ok_or otherwise (ok a) = a
ok_or otherwise (err e) = otherwise
ok_or otherwise stuck = otherwise

pub ok-injective {ℓ κ} :
    {E : Type ℓ} {A : Type κ} {a b : A} → ◌≡◌ {A = Outcome E A} (ok a) (ok b) → a ≡ b
ok-injective {a} h = ap (ok_or a) h

pub >>=-eq-err {ℓ κ μ} :
    {E : Type ℓ} {A : Type κ} {B : Type μ} (m : Outcome E A) (f : A → Outcome E B) {e : E}
    → (m >>= f) ≡ err e
    → (m ≡ err e) ⊎ ((a : A) × (m ≡ ok a) × (f a ≡ err e))
>>=-eq-err (ok a) f h = inr (a, refl, h)
>>=-eq-err (err e) f h = inl (cc h)
>>=-eq-err stuck f h = cc
