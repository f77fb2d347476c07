-- ===== src/Passes/StrengthReduce/Shift.antt =====
-- src/passman/pass.cpp, `StrengthReductionPass::run`: shifts by the exponent of a power of two compute
-- what multiplication and division by it compute.
use Prim.Native.Nat.{bit_and}
use arc_jit.Passes.StrengthReduce.{is_positive_pow2, shift_loop, shift_amount}
use arc_jit.Prelude.{
  ℕ, zero, suc, ◌+◌, ◌-◌, ◌*◌, ◌/◌, ◌%◌, ◌^◌, ◌≤◌, ◌<◌, ◌≡◌, sym, ap, ◌∙◌, inl, inr, true, arith,
  ltb, ltb→lt, Bool-cases, lowest_bit_only,
}
use arc_jit.Tier1.Alu.{sign_bit, mul64, div64, shl64, sar64}
use native.Mathlib.Nat.{pow-suc, pow-zero, pow-le-pow_right}

double_pow : (s : ℕ) → 2 ^ (s + 1) ≡ 2 ^ s * 2
double_pow s = let next : s + 1 ≡ suc s = omega arith in ap (λ (t : ℕ). 2 ^ t) next ∙ pow-suc 2 s

double_product : (h p : ℕ) → h * (p * 2) ≡ h * 2 * p
double_product h p = omega arith

-- On a power of two, the loop counts the exponent.
shift_loop_lem :
    (f b s : ℕ) → 0 < b → b < 2 ^ f → bit_and b (b - 1) ≡ 0 → 2 ^ shift_loop f b s ≡ b * 2 ^ s
unfolding shift_loop
shift_loop_lem zero b s pos h e = absurd (omega arith)
shift_loop_lem (suc f) b s pos h e = elim (Bool-cases (ltb 1 b)) [
  | inr one ↦
      let only : b ≡ 1 = ground arith in rw one (omega (arith, ap (λ (t : ℕ). t * 2 ^ s) only))
  | inl more ↦
      let big : 1 < b = ground arith in
      let (twice, half) = lowest_bit_only b big e in
      rw more (
        shift_loop_lem f (b / 2) (s + 1) (omega arith) (omega (arith, pow-suc 2 f)) half
        ∙ ap (λ (t : ℕ). b / 2 * t) (double_pow s)
        ∙ double_product (b / 2) (2 ^ s)
        ∙ ap (λ (t : ℕ). t * 2 ^ s) (sym twice))
]

-- The amount is the exponent of the constant, below 63.
pub shift_amount_lem :
    (bv : ℕ)
    → is_positive_pow2 bv ≡ true
    → (2 ^ shift_amount bv ≡ bv) × (shift_amount bv < 64) × (0 < bv) × (bv < sign_bit)
unfolding is_positive_pow2
shift_amount_lem bv h =
    let small : bv < sign_bit = ground arith in
    let single : bit_and bv (bv - 1) ≡ 0 = ground arith in
    let pos : 0 < bv = ground arith in
    let power : 2 ^ shift_amount bv ≡ bv =
      shift_loop_lem 64 bv 0 pos (omega arith) single ∙ omega (arith, pow-zero) in
    let low : shift_amount bv < 64 = elim (Bool-cases (ltb (shift_amount bv) 64)) [
      | inl less ↦ ltb→lt _ _ less
      | inr more ↦
          let high : 64 ≤ shift_amount bv = ground arith in
          absurd (omega (arith, power, pow-le-pow_right {n = 2} (omega arith) high))
    ] in
    (power, low, pos, small)

pub shl64-mul64 : (x bv k : ℕ) → 2 ^ k ≡ bv → k < 64 → shl64 x k ≡ mul64 x bv
unfolding shl64 mul64
shl64-mul64 x bv k e h = let small : k % 64 ≡ k = omega arith in rw (small, e)

pub sar64-div64 :
    (x bv k : ℕ)
    → 2 ^ k ≡ bv
    → k < 64
    → 0 < bv
    → bv < sign_bit
    → x < sign_bit
    → sar64 x k ≡ div64 x bv
unfolding sar64 div64
sar64-div64 x bv k e h pos small nonneg =
    let least : k % 64 ≡ k = omega arith in rw (least, e) (ground arith)
