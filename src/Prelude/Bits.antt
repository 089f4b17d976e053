-- ===== src/Prelude/Bits.antt =====
-- Masks of one flag bit as arithmetic.
use Prim.Native.Nat.{ℕ, zero, suc, ◌+◌, ◌-◌, ◌*◌, ◌/◌, ◌%◌, ◌<◌, bit_and, bit_or}
use mathlib.Core.Path.{◌≡◌, refl}
use mathlib.Core.Bool.{Bool, true, ◌&&◌}
use native.Mathlib.Omega.{arith}
use open_ot_experiments.Prelude.Tests.{◌==◌}

module _ (f g : ℕ → ℕ) where
  agree_below : ℕ → Bool
  agree_below zero = true
  agree_below (suc n) = (f n == g n) && agree_below n

  agree_below→eq : (n : ℕ) → agree_below n ≡ true → (i : ℕ) → i < n → f i ≡ g i
  unfolding agree_below
  agree_below→eq zero e i h = absurd (omega arith)
  agree_below→eq (suc n) e i h = ground (arith, agree_below→eq n (ground arith) i)

pub bit_and-eight : (f : ℕ) → f < 65536 → bit_and f 8 ≡ f / 8 % 2 * 8
unfolding agree_below
bit_and-eight = agree_below→eq _ _ 65536 refl

pub bit_and-not_eight : (f : ℕ) → f < 65536 → bit_and f 0xfff7 ≡ f - f / 8 % 2 * 8
unfolding agree_below
bit_and-not_eight = agree_below→eq _ _ 65536 refl

pub bit_or-eight : (f : ℕ) → f < 65536 → bit_or f 8 ≡ f - f / 8 % 2 * 8 + 8
unfolding agree_below
bit_or-eight = agree_below→eq _ _ 65536 refl
