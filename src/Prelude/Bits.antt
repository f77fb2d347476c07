-- ===== src/Prelude/Bits.antt =====
-- Facts about the bits of a number, and the test for a power of two.
use Prim.Native.Nat.{
  ℕ, zero, suc, ◌+◌, ◌-◌, ◌*◌, ◌/◌, ◌%◌, ◌≤◌, ◌<◌, min, bit_and, digits, bit_and-bitwise,
}
use arc_jit.Prelude.Tests.{ltb, Bool-cases}
use mathlib.Core.Logic.{inl, inr}
use mathlib.Core.Path.{◌≡◌, refl, sym, ap, ◌∙◌}
use native.Mathlib.Omega.{arith}

-- The digits of a conjunction, on any count that covers the first number.
enough_digits :
    (c d a b : ℕ) → a ≤ c → a ≤ d → digits (λ _. zero) min c a b ≡ digits (λ _. zero) min d a b
enough_digits zero zero a b h k = refl
enough_digits zero (suc d) zero b h k = refl
enough_digits (suc c) zero zero b h k = refl
enough_digits (suc c) (suc d) zero b h k = refl
enough_digits (suc c) (suc d) (suc a) b h k =
    omega (arith, enough_digits c d (suc a / 2) (b / 2) (omega arith) (omega arith))
enough_digits zero d (suc a) b h k = absurd (omega arith)
enough_digits (suc c) zero (suc a) b h k = absurd (omega arith)

-- The lowest bit of a conjunction, and the bits above it.
pub bit_and_halves : (a b : ℕ) → bit_and a b ≡ bit_and (a / 2) (b / 2) * 2 + min (a % 2) (b % 2)
bit_and_halves zero b = omega (arith, bit_and-bitwise 0 b, bit_and-bitwise 0 (b / 2))
bit_and_halves (suc a) b =
    let h = suc a / 2 in
    omega (
      arith,
      bit_and-bitwise (suc a) b,
      bit_and-bitwise h (b / 2),
      enough_digits a h h (b / 2) (omega arith) (omega arith),
    )

bit_and_self_below : (c a : ℕ) → a ≤ c → bit_and a a ≡ a
bit_and_self_below zero a h = let none_left : a ≡ 0 = omega arith in rw none_left
bit_and_self_below (suc c) zero h = refl
bit_and_self_below (suc c) (suc a) h =
    omega (arith, bit_and_halves (suc a) (suc a), bit_and_self_below c (suc a / 2) (omega arith))

pub bit_and_self : (a : ℕ) → bit_and a a ≡ a
bit_and_self a = bit_and_self_below a a (omega arith)

-- Clearing the lowest set bit of a number above one leaves zero only if the number is even and its
-- half has the same property.
pub lowest_bit_only :
    (b : ℕ) → 1 < b → bit_and b (b - 1) ≡ 0 → (b ≡ b / 2 * 2) × (bit_and (b / 2) (b / 2 - 1) ≡ 0)
lowest_bit_only b h e = elim (Bool-cases (ltb (b % 2) 1)) [
  | inl even ↦
      let down : (b - 1) / 2 ≡ b / 2 - 1 = ground arith in
      let step : bit_and (b / 2) ((b - 1) / 2) ≡ 0 = omega (arith, bit_and_halves b (b - 1)) in
      (ground arith, ap (bit_and (b / 2)) (sym down) ∙ step)
  | inr odd ↦
      let down : (b - 1) / 2 ≡ b / 2 = ground arith in
      let step : bit_and (b / 2) ((b - 1) / 2) ≡ 0 = omega (arith, bit_and_halves b (b - 1)) in
      absurd (omega (arith, sym (bit_and_self (b / 2)) ∙ ap (bit_and (b / 2)) (sym down) ∙ step))
]

bit_and_below : (c a b : ℕ) → a ≤ c → bit_and a b ≤ b
bit_and_below c zero b h = omega (arith, bit_and-bitwise 0 b)
bit_and_below zero (suc a) b h = absurd (omega arith)
bit_and_below (suc c) (suc a) b h =
    omega (arith, bit_and_halves (suc a) b, bit_and_below c (suc a / 2) (b / 2) (omega arith))

pub bit_and_le : (a b : ℕ) → bit_and a b ≤ b
bit_and_le a b = bit_and_below a a b (omega arith)
