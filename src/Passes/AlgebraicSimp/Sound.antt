-- ===== src/Passes/AlgebraicSimp/Sound.antt =====
-- src/passman/pass.cpp, `AlgebraicSimplificationPass::run`: the identities keep the values of nodes.
use arc_jit.Core.Graph.{Graph, at, data_edge, inputs_of_kind}
use arc_jit.Core.Graph.Layout.{IsLaidOut}
use arc_jit.Core.Node.{NodeId, NodeKind, Node, dead, valid}
use arc_jit.Passes.AlgebraicSimp.{
  Simplification, keep, use_zero, use_node, is_const, simplify_pair, simplification, zero_flags,
  apply_simplification, algebraic_step, algebraic_simplification,
}
use arc_jit.Passes.Inputs.{const_int-value, two_valid_lem}
use arc_jit.Passes.Loop.{HasRoom, StepsTo, IsSound, run_pass-Preserves}
use arc_jit.Passes.Meaning.{node_value, Models, Preserves, Preserves-refl, length-inputs}
use arc_jit.Passes.Replace.{
  replace_by_new-kind, const_size, replace_node_size, replace_by_const-StepsTo,
  replace_by_old-StepsTo,
}
use arc_jit.Passes.{PassState, two_valid}
use arc_jit.Prelude.{
  ℕ, ◌*◌, ◌≤◌, ◌<◌, ◌≡◌, ◌≢◌, refl, sym, ap, ◌∙◌, inl, inr, true, ◌==◌, [], ◌∷◌, arith, ltb, ltb→lt,
  Bool-cases, Option-cases, length, some,
}
use arc_jit.Tier1.Alu.{word_mod, add64, sub64, mul64, div64}
use arc_jit.Tier2.Apply.{apply, apply_const, apply_binary}

-- The identities on 64-bit words.
add64-zero : (x : ℕ) → x < word_mod → (add64 x 0 ≡ x) × (add64 0 x ≡ x)
unfolding add64
add64-zero x h = (omega arith, omega arith)

sub64-zero : (x : ℕ) → x < word_mod → (sub64 x 0 ≡ x) × (sub64 x x ≡ 0)
unfolding sub64
sub64-zero x h = (omega arith, omega arith)

mul64-zero : (x : ℕ) → (mul64 x 0 ≡ 0) × (mul64 0 x ≡ 0)
unfolding mul64
mul64-zero x = (omega arith, omega arith)

mul64-one : (x : ℕ) → x < word_mod → (mul64 x 1 ≡ x) × (mul64 1 x ≡ x)
unfolding mul64
mul64-one x h = (omega arith, omega arith)

div64-one : (x : ℕ) → x < word_mod → div64 x 1 ≡ x
unfolding div64
div64-one x h = ground arith

-- What a choice promises of the value of the node.
abbrev IsRight : Graph → (NodeId → ℕ) → NodeId → Simplification → Type 0
IsRight g val id keep = Unit {0}
IsRight g val id use_zero = val id ≡ 0
IsRight g val id (use_node t) = (val id ≡ val t) × (t < length g.nodes)

-- `Not` takes one operand.
abbrev pub NotIsUnary : Graph → Type 0
NotIsUnary g =
    (i : ℕ)
    → i < length g.nodes
    → (at g i).kind ≡ NodeKind.not
    → length (inputs_of_kind g i data_edge) ≢ 2

const-value :
    {g : Graph} {val : NodeId → ℕ} (a v : ℕ)
    → Models g val
    → a < length g.nodes
    → is_const g a v ≡ true
    → val a ≡ v
const-value {g} a v m h c = const_int-value a m h (ground arith) ∙ (ground arith)

module _ (g : Graph) (val : NodeId → ℕ) (m : Models g val) (id a b : NodeId)
    (ka : a < length g.nodes) (kb : b < length g.nodes) where
  add-IsRight : val id ≡ add64 (val a) (val b) → IsRight g val id (simplify_pair g NodeKind.add a b)
  unfolding simplify_pair
  add-IsRight h = elim (Bool-cases (is_const g b 0)) [
    | inl zero_b ↦
        rw zero_b (h ∙ rw (const-value b 0 m kb zero_b) (add64-zero (val a) (m.word a)).0, ka)
    | inr other ↦ rw other (elim (Bool-cases (is_const g a 0)) [
      | inl zero_a ↦
          rw zero_a (h ∙ rw (const-value a 0 m ka zero_a) (add64-zero (val b) (m.word b)).1, kb)
      | inr neither ↦ rw neither tt
    ])
  ]

  sub-IsRight : val id ≡ sub64 (val a) (val b) → IsRight g val id (simplify_pair g NodeKind.sub a b)
  unfolding simplify_pair
  sub-IsRight h = elim (Bool-cases (is_const g b 0)) [
    | inl zero_b ↦
        rw zero_b (h ∙ rw (const-value b 0 m kb zero_b) (sub64-zero (val a) (m.word a)).0, ka)
    | inr other ↦ rw other (elim (Bool-cases (a == b)) [
      | inl same ↦
          let e : a ≡ b = ground arith in rw same (h ∙ rw e (sub64-zero (val b) (m.word b)).1)
      | inr differ ↦ rw differ tt
    ])
  ]

  mul-IsRight : val id ≡ mul64 (val a) (val b) → IsRight g val id (simplify_pair g NodeKind.mul a b)
  unfolding simplify_pair
  mul-IsRight h = elim (Bool-cases (is_const g a 0)) [
    | inl zero_a ↦ rw zero_a (h ∙ rw (const-value a 0 m ka zero_a) (mul64-zero (val b)).1)
    | inr some_a ↦ rw some_a (elim (Bool-cases (is_const g b 0)) [
      | inl zero_b ↦ rw zero_b (h ∙ rw (const-value b 0 m kb zero_b) (mul64-zero (val a)).0)
      | inr some_b ↦ rw some_b (elim (Bool-cases (is_const g b 1)) [
        | inl one_b ↦
            rw one_b (h ∙ rw (const-value b 1 m kb one_b) (mul64-one (val a) (m.word a)).0, ka)
        | inr other ↦ rw other (elim (Bool-cases (is_const g a 1)) [
          | inl one_a ↦
              rw one_a (h ∙ rw (const-value a 1 m ka one_a) (mul64-one (val b) (m.word b)).1, kb)
          | inr neither ↦ rw neither tt
        ])
      ])
    ])
  ]

  div-IsRight : val id ≡ div64 (val a) (val b) → IsRight g val id (simplify_pair g NodeKind.div a b)
  unfolding simplify_pair
  div-IsRight h = elim (Bool-cases (is_const g b 1)) [
    | inl one_b ↦ rw one_b (h ∙ rw (const-value b 1 m kb one_b) (div64-one (val a) (m.word a)), ka)
    | inr other ↦ rw other tt
  ]

  simplify_pair-IsRight :
      (k : NodeKind) (payload : ℕ)
      → k ≢ NodeKind.not
      → ((v : ℕ) → apply k payload (val a ∷ val b ∷ []) ≡ some v → val id ≡ v)
      → IsRight g val id (simplify_pair g k a b)
  unfolding simplify_pair apply apply_const apply_binary
  simplify_pair-IsRight NodeKind.add payload n right = add-IsRight (right _ refl)
  simplify_pair-IsRight NodeKind.sub payload n right = sub-IsRight (right _ refl)
  simplify_pair-IsRight NodeKind.mul payload n right = mul-IsRight (right _ refl)
  simplify_pair-IsRight NodeKind.div payload n right = div-IsRight (right _ refl)
  simplify_pair-IsRight NodeKind.not payload n right = absurd (n refl)
  simplify_pair-IsRight _ payload n right = tt

simplification-IsRight :
    (g : Graph) (val : NodeId → ℕ) (id : NodeId)
    → IsLaidOut g
    → Models g val
    → NotIsUnary g
    → id < length g.nodes
    → IsRight g val id (simplification g id)
unfolding simplification node_value
simplification-IsRight g val id l m unary known = elim (Bool-cases (dead (at g id))) [
  | inl is_dead ↦ rw is_dead tt
  | inr live ↦ rw live (elim (Option-cases (two_valid (inputs_of_kind g id data_edge))) [
    | inl nothing ↦ rw nothing tt
    | inr (p, two) ↦
        let t = two_valid_lem g id p.0 p.1 l known two in
        rw two (
          simplify_pair-IsRight g val m id p.0 p.1 t.1 t.2 (at g id).kind (at g id).payload
            (λ is_not. unary id known is_not (ap length t.0))
            (λ v e. m.computed id v known (rw t.0 e)))
  ])
]

preserved-NotIsUnary :
    {g g' : Graph} {val val' : NodeId → ℕ}
    → IsLaidOut g
    → NotIsUnary g
    → Preserves g val g' val'
    → ((i : ℕ) → length g.nodes ≤ i → i < length g'.nodes → (at g' i).kind ≢ NodeKind.not)
    → NotIsUnary g'
preserved-NotIsUnary {g} l unary p new i h k two = elim (Bool-cases (ltb i (length g.nodes))) [
  | inr late ↦ new i (ground arith) h k
  | inl early ↦
      let h' : i < length g.nodes = ltb→lt _ _ early in
      unary i h' (ap (λ (n : Node). n.kind) (sym (p.codes i h')) ∙ k)
        (sym (length-inputs l p i h') ∙ two)
]

apply_simplification-IsSound :
    (c : Simplification) (i : NodeId) (s : PassState) (val : NodeId → ℕ)
    → i < length s.graph.nodes
    → HasRoom 2 s.graph
    → IsLaidOut s.graph
    → Models s.graph val
    → NotIsUnary s.graph
    → IsRight s.graph val i c
    → (t : StepsTo s.graph val (apply_simplification c i s).graph) × NotIsUnary
        (apply_simplification c i s).graph
unfolding apply_simplification
apply_simplification-IsSound keep i s val known room l m q r =
    ((val, Preserves-refl l m, omega arith, omega arith), q)
apply_simplification-IsSound use_zero i s val known room l m q r =
    let t = replace_by_const-StepsTo i zero_flags 0 s.graph val l m room known r in
    let size = const_size i zero_flags 0 s.graph in
    (
      t,
      preserved-NotIsUnary l q t.1 (λ j lo hi.
          let last : j ≡ length s.graph.nodes = omega (arith, size) in
          rw (last, replace_by_new-kind) (λ e. cc)),
    )
apply_simplification-IsSound (use_node t) i s val known room l m q r = elim (Bool-cases (valid t)) [
  | inr invalid ↦ rw invalid ((val, Preserves-refl l m, omega arith, omega arith), q)
  | inl is_valid ↦
      let p = replace_by_old-StepsTo i t s.graph val l m r.1 r.0 in
      rw is_valid (
        p,
        preserved-NotIsUnary l q p.1
            (λ j lo hi. absurd (omega (arith, (replace_node_size i t s.graph).0))),
      )
]

algebraic_step-IsSound : IsSound (λ g val. NotIsUnary g) algebraic_step
unfolding algebraic_step
algebraic_step-IsSound i s val known room l m q =
    apply_simplification-IsSound (simplification s.graph i) i s val known room l m q
      (simplification-IsRight s.graph val i l m q known)

-- In a graph where no `Not` has two data inputs, simplification keeps the value of every old node
-- and the value that every old edge reads, for every assignment of values that the nodes compute;
-- the graph is laid out and its indices stay in 32 bits.
pub algebraic_simplification-Preserves :
    (g : Graph) (val : NodeId → ℕ)
    → HasRoom (8 * length g.nodes) g
    → IsLaidOut g
    → Models g val
    → NotIsUnary g
    → (val' : NodeId → ℕ) × Preserves g val (algebraic_simplification g).graph val'
unfolding algebraic_simplification
algebraic_simplification-Preserves g val room l m q =
    run_pass-Preserves (λ h _. NotIsUnary h) algebraic_step algebraic_step-IsSound g val room l m q
