-- ===== src/Tier1/Tests.antt =====
-- Powers by the squaring loop.
use arc_jit.Prelude.{◌^◌, ◌%◌, ◌≡◌, arith}
use arc_jit.Tier1.Alu.{word_mod}
use arc_jit.Tier1.Pow.{pow64, pow64_lem}

pow64_example : pow64 3 41 ≡ 3 ^ 41 % word_mod
pow64_example = pow64_lem 3 41 (omega arith)
