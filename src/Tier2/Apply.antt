-- ===== src/Tier2/Apply.antt =====
-- src/tier2/tier2.cpp, `emit_data_node_`: the Tier1Op that a data node becomes, applied to the
-- registers of its data inputs. `none` where no instruction is emitted or where its result is not
-- an arithmetic one.
use arc_jit.Core.Node.{NodeKind}
use arc_jit.Prelude.{ℕ, Option, none, some, List, [], ◌∷◌}
use arc_jit.Tier1.Alu.{
  add64, sub64, mul64, div64, neg64, shl64, sar64, eq64, ne64, lt64, gt64, lte64, gte64, and64,
  or64, not64, truthy64,
}

-- The instructions on two registers; a node with more data inputs uses the first two.
unfoldable pub apply_binary : NodeKind → ℕ → ℕ → Option ℕ
apply_binary NodeKind.add a b = some (add64 a b)
apply_binary NodeKind.sub a b = some (sub64 a b)
apply_binary NodeKind.mul a b = some (mul64 a b)
apply_binary NodeKind.div a b = some (div64 a b)
apply_binary NodeKind.shl a b = some (shl64 a b)
apply_binary NodeKind.shr a b = some (sar64 a b)
apply_binary NodeKind.eq a b = some (eq64 a b)
apply_binary NodeKind.ne a b = some (ne64 a b)
apply_binary NodeKind.lt a b = some (lt64 a b)
apply_binary NodeKind.gt a b = some (gt64 a b)
apply_binary NodeKind.lte a b = some (lte64 a b)
apply_binary NodeKind.gte a b = some (gte64 a b)
apply_binary NodeKind.and a b = some (and64 a b)
apply_binary NodeKind.or a b = some (or64 a b)
apply_binary _ a b = none

unfoldable pub apply_unary : NodeKind → ℕ → Option ℕ
apply_unary NodeKind.neg a = some (neg64 a)
apply_unary NodeKind.not a = some (not64 a)
apply_unary NodeKind.to_bool a = some (truthy64 a)
apply_unary _ a = none

-- `LoadConstImm` puts the payload in the register.
unfoldable pub apply_const : NodeKind → ℕ → Option ℕ
apply_const NodeKind.const_int payload = some payload
apply_const NodeKind.const_float payload = some payload
apply_const _ payload = none

abbrev pub or_else : Option ℕ → Option ℕ → Option ℕ
or_else (some v) o = some v
or_else none o = o

-- The value of a node of a kind, with its payload, at the values of its data inputs.
unfoldable pub apply : NodeKind → ℕ → List ℕ → Option ℕ
apply k payload [] = apply_const k payload
apply k payload (a ∷ []) = or_else (apply_const k payload) (apply_unary k a)
apply k payload (a ∷ b ∷ rest) =
    or_else (apply_const k payload) (or_else (apply_binary k a b) (apply_unary k a))
