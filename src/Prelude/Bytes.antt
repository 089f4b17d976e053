-- ===== src/Prelude/Bytes.antt =====
-- Little-endian words as lists of bytes.
use Prim.Native.Nat.{ℕ, zero, suc, ◌+◌, ◌-◌, ◌*◌, ◌/◌, ◌%◌, ◌^◌, ◌≤◌, ◌<◌}
use mathlib.Core.Path.{◌≡◌, refl, ap, ap₂, ◌∙◌, sym}
use mathlib.Core.List.{List, [], ◌∷◌, ◌++◌}
use native.Mathlib.Nat.{pow-suc, add-zero}
use native.Mathlib.Omega.{arith}
use open_ot_experiments.Prelude.Lists.{
  length, All, take, drop, get_or, take-take-drop, drop-drop, get_or-drop, length-take, length-drop,
  All-take, All-drop,
}

abbrev pub IsByte : ℕ → Type 0
IsByte b = b < 256

abbrev pub IsU16 : ℕ → Type 0
IsU16 n = n < 2 ^ 16

abbrev pub IsU32 : ℕ → Type 0
IsU32 n = n < 2 ^ 32

abbrev pub IsU64 : ℕ → Type 0
IsU64 n = n < 2 ^ 64

-- `to_le_bytes` of a word of `n` bytes.
abbrev pub to_le_bytes : ℕ → ℕ → List ℕ
to_le_bytes zero v = []
to_le_bytes (suc n) v = (v % 256) ∷ to_le_bytes n (v / 256)

-- `from_le_bytes`
abbrev pub from_le_bytes : List ℕ → ℕ
from_le_bytes [] = 0
from_le_bytes (b ∷ bs) = b + 256 * from_le_bytes bs

-- `&bytes[start..end]`; a range that leaves the slice is cut, where Rust panics.
abbrev pub slice : List ℕ → ℕ → ℕ → List ℕ
slice bytes start end = take (end - start) (drop start bytes)

-- `bytes[at..at + values.len()].copy_from_slice(values)`
abbrev pub write_at : List ℕ → ℕ → List ℕ → List ℕ
write_at bytes at values = take at bytes ++ (values ++ drop (at + length values) bytes)

-- `u64` addition
abbrev pub add64 : ℕ → ℕ → ℕ
add64 a b = (a + b) % 2 ^ 64

pub length-to_le_bytes : (n v : ℕ) → length (to_le_bytes n v) ≡ n
length-to_le_bytes zero v = refl
length-to_le_bytes (suc n) v = ap suc (length-to_le_bytes n (v / 256))

pub to_le_bytes-IsByte : (n v : ℕ) → All IsByte (to_le_bytes n v)
to_le_bytes-IsByte zero v = tt
to_le_bytes-IsByte (suc n) v = (omega arith, to_le_bytes-IsByte n (v / 256))

-- Reading back a word that fits its bytes.
pub from_le_bytes-to_le_bytes : (n v : ℕ) → v < 256 ^ n → from_le_bytes (to_le_bytes n v) ≡ v
from_le_bytes-to_le_bytes zero v h = omega arith
from_le_bytes-to_le_bytes (suc n) v h =
    omega (arith, from_le_bytes-to_le_bytes n (v / 256) (omega (arith, pow-suc 256 n)))

-- Writing back what bytes say.
pub to_le_bytes-from_le_bytes :
    (bs : List ℕ) → All IsByte bs → to_le_bytes (length bs) (from_le_bytes bs) ≡ bs
to_le_bytes-from_le_bytes [] h = refl
to_le_bytes-from_le_bytes (b ∷ bs) (hb, hs) =
    ap₂ (λ x l. x ∷ l) (omega arith)
      (ap (to_le_bytes (length bs)) (omega arith) ∙ to_le_bytes-from_le_bytes bs hs)

pub from_le_bytes-lt : (bs : List ℕ) → All IsByte bs → from_le_bytes bs < 256 ^ length bs
from_le_bytes-lt [] h = omega arith
from_le_bytes-lt (b ∷ bs) (hb, hs) = omega (arith, from_le_bytes-lt bs hs, pow-suc 256 (length bs))

-- A slice in two parts.
pub slice_split :
    (bytes : List ℕ) (a b c : ℕ)
    → a ≤ b
    → b ≤ c
    → slice bytes a c ≡ slice bytes a b ++ slice bytes b c
slice_split bytes a b c h k =
    let e : c - a ≡ (b - a) + (c - b) = omega arith in
    let e' : a + (b - a) ≡ b = omega arith in rw (e, take-take-drop, drop-drop, e')

pub length-slice :
    (bytes : List ℕ) (a b : ℕ) → a ≤ b → b ≤ length bytes → length (slice bytes a b) ≡ b - a
length-slice bytes a b h k = omega (arith, length-take (b - a) (drop a bytes), length-drop a bytes)

pub slice-IsByte : (bytes : List ℕ) (a b : ℕ) → All IsByte bytes → All IsByte (slice bytes a b)
slice-IsByte bytes a b h = All-take IsByte (b - a) (drop a bytes) (All-drop IsByte a bytes h)

pub get_or-IsByte : (bytes : List ℕ) (i : ℕ) → All IsByte bytes → get_or bytes i 0 < 256
get_or-IsByte [] i h = omega arith
get_or-IsByte (b ∷ bs) zero (p, h) = p
get_or-IsByte (b ∷ bs) (suc i) (p, h) = get_or-IsByte bs i h

-- A word read from a slice and written again is the slice.
pub to_le_bytes-slice :
    (bytes : List ℕ) (a n : ℕ)
    → All IsByte bytes
    → a + n ≤ length bytes
    → to_le_bytes n (from_le_bytes (slice bytes a (a + n))) ≡ slice bytes a (a + n)
to_le_bytes-slice bytes a n h k =
    let l = slice bytes a (a + n) in
    let e : length l ≡ n = omega (arith, length-slice bytes a (a + n)) in
    rw e at (to_le_bytes-from_le_bytes l (slice-IsByte bytes a (a + n) h))

-- A slice that starts where a prefix ends extends it.
pub take_split : (bytes : List ℕ) (a n : ℕ) → a ≤ n → take a bytes ++ slice bytes a n ≡ take n bytes
take_split bytes a n h =
    let e : n ≡ a + (n - a) = omega arith in
    sym (ap (λ k. take k bytes) e ∙ take-take-drop a (n - a) bytes)

take-drop-take :
    (k a n : ℕ) (l : List ℕ) → a + k ≤ n → take k (drop a (take n l)) ≡ take k (drop a l)
take-drop-take zero a n l h = refl
take-drop-take (suc k) zero zero l h = absurd (omega arith)
take-drop-take (suc k) zero (suc n) [] h = refl
take-drop-take (suc k) zero (suc n) (x ∷ l) h =
    ap (λ t. x ∷ t) (take-drop-take k zero n l (omega arith))
take-drop-take (suc k) (suc a) zero l h = absurd (omega arith)
take-drop-take (suc k) (suc a) (suc n) [] h = refl
take-drop-take (suc k) (suc a) (suc n) (x ∷ l) h = take-drop-take (suc k) a n l (omega arith)

pub slice-take : (bytes : List ℕ) (a n : ℕ) → slice bytes a (a + n) ≡ take n (drop a bytes)
slice-take bytes a n = ap (λ k. take k (drop a bytes)) (omega arith)

-- A slice of a slice.
pub slice-slice :
    (bytes : List ℕ) (s n a k : ℕ)
    → a + k ≤ n
    → slice bytes (s + a) (s + a + k) ≡ slice (slice bytes s (s + n)) a (a + k)
slice-slice bytes s n a k h =
    slice-take bytes (s + a) k
    ∙ ap (take k) (sym (drop-drop a s bytes))
    ∙ sym (take-drop-take k a n (drop s bytes) h)
    ∙ ap (λ l. take k (drop a l)) (sym (slice-take bytes s n))
    ∙ sym (slice-take (slice bytes s (s + n)) a k)

pub get_or-slice :
    (bytes : List ℕ) (s n : ℕ) → 0 < n → get_or bytes s 0 ≡ get_or (slice bytes s (s + n)) 0 0
get_or-slice bytes s zero h = absurd (omega arith)
get_or-slice bytes s (suc n) h =
    let e : s + suc n - s ≡ suc n = omega arith in
    ap (λ k. get_or bytes k 0) (sym (add-zero s))
    ∙ get_or-drop s 0 bytes 0
    ∙ rw e (first (drop s bytes))
  where
    first : (l : List ℕ) → get_or l 0 0 ≡ get_or (take (suc n) l) 0 0
    first [] = refl
    first (x ∷ l) = refl

pub take-drop-suc :
    (xs : List ℕ) (s n : ℕ)
    → s < length xs
    → take (suc n) (drop s xs) ≡ get_or xs s 0 ∷ take n (drop (s + 1) xs)
take-drop-suc [] s n h = absurd (omega arith)
take-drop-suc (x ∷ xs) zero n h = refl
take-drop-suc (x ∷ xs) (suc s) n h =
    let e : suc s + 1 ≡ suc (s + 1) = omega arith in rw e (take-drop-suc xs s n (omega arith))
