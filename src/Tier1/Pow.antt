-- ===== src/Tier1/Pow.antt =====
-- src/tier1/tier1.cpp, `Tier1Op::Pow`: exponentiation by squaring in machine code.
use arc_jit.Prelude.{
  ℕ, zero, suc, ◌+◌, ◌*◌, ◌/◌, ◌%◌, ◌^◌, ◌≤◌, ◌<◌, ◌≡◌, sym, ap, ◌∙◌, inl, inr, arith, ◌==◌,
  if◌then◌else◌, Bool-cases,
}
use arc_jit.Tier1.Alu.{mul64, word_mod}
use native.Mathlib.Nat.{
  mod-eq_of_lt, mul-one, mul-zero, pow-zero, one-mul, mul_assoc, mul_comm, pow-suc, div-add-mod,
  add-mul-mod_self_left,
}

-- The loop over `r8` (result), `r9` (base) and `rcx` (exponent).
unfoldable pub pow_loop : ℕ → ℕ → ℕ → ℕ → ℕ
pow_loop zero result base exp = result
pow_loop (suc f) result base exp =
    let odd = exp % 2 == 1 in
    let rest = pow_loop f (if odd then mul64 result base else result) (mul64 base base) (exp / 2) in
    if exp == 0 then result else rest

-- The fast path, taken for exponents from 0 to 63: six rounds and the closing test.
unfoldable pub pow64 : ℕ → ℕ → ℕ
pow64 base exp = pow_loop 7 1 base exp

-- Remainders may be taken early in a product.
mod-mul : (m a b : ℕ) → (a % m) * b % m ≡ a * b % m
mod-mul m a b =
    let q = a / m in
    let split : (a % m) * b + m * (q * b) ≡ a * b =
      omega (arith, ap (λ (t : ℕ). t * b) (div-add-mod a m)) in
    sym (add-mul-mod_self_left ((a % m) * b) m (q * b)) ∙ ap (λ (t : ℕ). t % m) split

mul-mod : (m a b : ℕ) → a * (b % m) % m ≡ a * b % m
mul-mod m a b =
    ap (λ (t : ℕ). t % m) (mul_comm a (b % m))
    ∙ mod-mul m b a
    ∙ ap (λ (t : ℕ). t % m) (mul_comm b a)

pow-mod : (m x k : ℕ) → (x % m) ^ k % m ≡ x ^ k % m
pow-mod m x zero = rw (pow-zero, pow-zero)
pow-mod m x (suc k) =
    let a = x % m in
    rw (pow-suc a k, pow-suc x k)
      (sym (mod-mul m (a ^ k) a)
        ∙ ap (λ (t : ℕ). t * a % m) (pow-mod m x k)
        ∙ mod-mul m (x ^ k) a
        ∙ mul-mod m (x ^ k) x)

pow_square : (b k : ℕ) → b ^ (2 * k) ≡ (b * b) ^ k
pow_square b zero = rw (mul-zero, pow-zero, pow-zero)
pow_square b (suc k) =
    let twice : 2 * suc k ≡ suc (suc (2 * k)) = omega arith in
    rw (twice, pow-suc b (suc (2 * k)), pow-suc b (2 * k), pow-suc (b * b) k, pow_square b k)
      (mul_assoc _ b b)

-- One round of the loop, on exponents.
pow_round : (b e : ℕ) → (if e % 2 == 1 then b else 1) * (b * b) ^ (e / 2) ≡ b ^ e
pow_round b e = elim (Bool-cases (e % 2 == 1)) [
  | inl odd ↦
      let split : e ≡ suc (2 * (e / 2)) = ground arith in
      rw (odd, ← pow_square b (e / 2))
        (mul_comm b _ ∙ sym (pow-suc b (2 * (e / 2))) ∙ ap (λ (t : ℕ). b ^ t) (sym split))
  | inr even ↦
      let split : e ≡ 2 * (e / 2) = ground arith in
      rw (even, ← pow_square b (e / 2)) (one-mul _ ∙ ap (λ (t : ℕ). b ^ t) (sym split))
]

-- The factor that a round multiplies into the result.
factor_lem :
    (r b e : ℕ)
    → r < word_mod
    → (if e % 2 == 1 then mul64 r b else r) ≡ r * (if e % 2 == 1 then b else 1) % word_mod
unfolding mul64
factor_lem r b e small = elim (Bool-cases (e % 2 == 1)) [
  | inl odd ↦ rw odd
  | inr even ↦ rw (even, mul-one) (sym (mod-eq_of_lt small))
]

round_lem :
    (r b e : ℕ)
    → r < word_mod
    → (if e % 2 == 1 then mul64 r b else r) * mul64 b b ^ (e / 2) % word_mod ≡ r * b ^ e % word_mod
unfolding mul64
round_lem r b e small =
    let c : ℕ = if e % 2 == 1 then b else 1 in
    let r' : ℕ = if e % 2 == 1 then mul64 r b else r in
    let k = e / 2 in
    sym (mul-mod word_mod r' ((b * b % word_mod) ^ k))
    ∙ ap (λ (t : ℕ). r' * t % word_mod) (pow-mod word_mod (b * b) k)
    ∙ mul-mod word_mod r' ((b * b) ^ k)
    ∙ ap (λ (t : ℕ). t * (b * b) ^ k % word_mod) (factor_lem r b e small)
    ∙ mod-mul word_mod (r * c) ((b * b) ^ k)
    ∙ ap (λ (t : ℕ). t % word_mod) (mul_assoc r c ((b * b) ^ k))
    ∙ ap (λ (t : ℕ). r * t % word_mod) (pow_round b e)

factor-lt : (r b e : ℕ) → r < word_mod → (if e % 2 == 1 then mul64 r b else r) < word_mod
unfolding mul64
factor-lt r b e small = ground arith

-- The loop multiplies the result by the power, where the fuel covers the bits of the exponent.
pow_loop_lem : (f r b e : ℕ) → e < 2 ^ f → r < word_mod → pow_loop f r b e ≡ r * b ^ e % word_mod
unfolding pow_loop
pow_loop_lem zero r b e h small =
    let none_left : e ≡ 0 = omega arith in
    rw (none_left, pow-zero, mul-one) (sym (mod-eq_of_lt small))
pow_loop_lem (suc f) r b e h small = elim (Bool-cases (e == 0)) [
  | inl done ↦
      let none_left : e ≡ 0 = ground arith in
      rw done (rw (none_left, pow-zero, mul-one) (sym (mod-eq_of_lt small)))
  | inr more ↦ rw more (
      pow_loop_lem f _ (mul64 b b) (e / 2) (omega (arith, pow-suc 2 f)) (factor-lt r b e small)
      ∙ round_lem r b e small)
]

-- For every base and every exponent on the fast path, 0 to 63, the squaring loop computes
-- the power reduced modulo 2 ^ 64.
pub pow64_lem : (base exp : ℕ) → exp ≤ 63 → pow64 base exp ≡ base ^ exp % word_mod
unfolding pow64
pow64_lem base exp h =
    pow_loop_lem 7 1 base exp (omega arith) (omega arith)
    ∙ ap (λ (t : ℕ). t % word_mod) (one-mul (base ^ exp))
