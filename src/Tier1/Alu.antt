-- ===== src/Tier1/Alu.antt =====
-- src/tier1/tier1.cpp: what the machine code of each arithmetic `Tier1Op` leaves in `rax`.
-- A register is a number below 2 ^ 64.
use arc_jit.Prelude.{
  ℕ, ◌+◌, ◌-◌, ◌*◌, ◌/◌, ◌%◌, ◌^◌, Bool, true, false, ◌&&◌, ◌||◌, ltb, leb, ◌==◌, ◌!=◌,
  if◌then◌else◌,
}

abbrev pub word_mod : ℕ
word_mod = 2 ^ 64

abbrev pub sign_bit : ℕ
sign_bit = 2 ^ 63

-- `add`, `sub`, `imul`, `neg`
unfoldable pub add64 : ℕ → ℕ → ℕ
add64 a b = (a + b) % word_mod

unfoldable pub sub64 : ℕ → ℕ → ℕ
sub64 a b = (a + word_mod - b) % word_mod

unfoldable pub mul64 : ℕ → ℕ → ℕ
mul64 a b = (a * b) % word_mod

unfoldable pub neg64 : ℕ → ℕ
neg64 a = (word_mod - a) % word_mod

abbrev pub is_negative : ℕ → Bool
is_negative a = leb sign_bit a

abbrev pub magnitude : ℕ → ℕ
magnitude a = if is_negative a then word_mod - a else a

-- `idiv`, skipped for a zero divisor: then `rax` still holds the dividend. The quotient is truncated
-- towards zero. For the least number and -1 `idiv` traps and leaves no value: the 2 ^ 63 that this
-- function has there is no result of the code.
unfoldable pub div64 : ℕ → ℕ → ℕ
unfolding neg64
div64 a b =
    let q = magnitude a / magnitude b in
    if b == 0
    then a
    else if (is_negative a && is_negative b) || (leb a (sign_bit - 1) && leb b (sign_bit - 1))
    then q
    else neg64 q

-- `shl` and `sar` by `cl`, of which six bits count.
unfoldable pub shl64 : ℕ → ℕ → ℕ
shl64 a k = (a * 2 ^ (k % 64)) % word_mod

unfoldable pub sar64 : ℕ → ℕ → ℕ
sar64 a k =
    if is_negative a then word_mod - 1 - (word_mod - 1 - a) / 2 ^ (k % 64) else a / 2 ^ (k % 64)

abbrev pub flag : Bool → ℕ
flag true = 1
flag false = 0

-- `cmp` reads the registers as signed numbers; adding 2 ^ 63 keeps their order.
abbrev pub bias : ℕ → ℕ
bias a = (a + sign_bit) % word_mod

unfoldable pub eq64 : ℕ → ℕ → ℕ
eq64 a b = flag (a == b)

unfoldable pub ne64 : ℕ → ℕ → ℕ
ne64 a b = flag (a != b)

unfoldable pub lt64 : ℕ → ℕ → ℕ
lt64 a b = flag (ltb (bias a) (bias b))

unfoldable pub gt64 : ℕ → ℕ → ℕ
gt64 a b = flag (ltb (bias b) (bias a))

unfoldable pub lte64 : ℕ → ℕ → ℕ
lte64 a b = flag (leb (bias a) (bias b))

unfoldable pub gte64 : ℕ → ℕ → ℕ
gte64 a b = flag (leb (bias b) (bias a))

-- `test`, `setne`, `sete`
unfoldable pub and64 : ℕ → ℕ → ℕ
and64 a b = flag (a != 0 && b != 0)

unfoldable pub or64 : ℕ → ℕ → ℕ
or64 a b = flag (a != 0 || b != 0)

unfoldable pub not64 : ℕ → ℕ
not64 a = flag (a == 0)

unfoldable pub truthy64 : ℕ → ℕ
truthy64 a = flag (a != 0)
