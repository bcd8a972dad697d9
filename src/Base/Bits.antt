-- ===== src/Base/Bits.antt =====
-- `^` of a number and itself, from the digit recursion that the native operation stands for.
use Prim.Native.Nat.{ℕ, zero, suc, ◌/◌, ◌%◌, ◌≤◌, ◌<◌, bit_xor, differ, digits, bit_xor-bitwise}
use mathlib.Core.Path.{◌≡◌, refl}
use native.Mathlib.Nat.{le_refl}
use native.Mathlib.Omega.{arith}

same_digit : (d : ℕ) → d < 2 → differ d d ≡ 0
same_digit zero below = refl
same_digit (suc zero) below = refl
same_digit (suc (suc d)) below = absurd (omega arith)

-- All the digits cancel, on any fuel that reaches the last one.
cancel : (fuel a : ℕ) → a ≤ fuel → digits (λ rest. rest) differ fuel a a ≡ 0
cancel zero zero reached = refl
cancel (suc fuel) zero reached = refl
cancel zero (suc a) reached = absurd (omega arith)
cancel (suc fuel) (suc a) reached =
    omega (arith, cancel fuel (suc a / 2) (omega arith), same_digit (suc a % 2) (omega arith))

pub bit_xor_self : (a : ℕ) → bit_xor a a ≡ 0
bit_xor_self a = simp bit_xor-bitwise (cancel a a (le_refl a))
