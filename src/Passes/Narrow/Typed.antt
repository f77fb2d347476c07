-- ===== src/Passes/Narrow/Typed.antt =====
-- src/passman/pass.cpp, `TypeNarrowingPass::run`: when the loop ends, the types fit.
use arc_jit.Core.Graph.{Graph, at, data_edge, inputs_of_kind}
use arc_jit.Core.Node.{NodeId, NodeKind, TypeId, dead}
use arc_jit.Passes.Narrow.{
  NarrowState, TypeId-discrete, apply_rule, fixed, join_type, join_types, joins, narrow_loop,
  narrow_round, narrow_step, narrows, new_type, or_old, rule, same_type, type_narrowing,
}
use arc_jit.Passes.Loop.{pass_loop-inside}
use arc_jit.Passes.{PassState, no_result, pass_loop, report_change}
use arc_jit.Prelude.{
  All, List, [], ◌∷◌, ℕ, zero, suc, ◌+◌, ◌≤◌, ◌<◌, ◌≡◌, ◌⊎◌, refl, sym, ap, ◌∙◌, inl, inr, true,
  false, ltb, ltb→lt, if◌then◌else◌, Bool-cases, arith, length,
}

-- Another round of the pass would retype no live node.
abbrev IsSettled : Graph → Type 0
IsSettled g =
    (j : NodeId) → 1 ≤ j → j < length g.nodes → dead (at g j) ≡ false → new_type g j ≡ (at g j).type

same_type_eq : (a b : TypeId) → same_type a b ≡ true → a ≡ b
unfolding same_type
same_type_eq a b h = split (TypeId-discrete a b) refl
  where
    split : (d : Dec (a ≡ b)) → TypeId-discrete a b ≡ d → a ≡ b
    split (yes p) q = p
    split (no p) q = let no_way : false ≡ true = rw (same_type, q) at h in absurd (cc no_way)

narrow_step-changed :
    (i : NodeId) (s : PassState) → s.result.changed ≡ true → (narrow_step i s).result.changed ≡ true
unfolding narrow_step
narrow_step-changed i s h = elim (Bool-cases (narrows s.graph i)) [
  | inl t ↦ rw t refl
  | inr f ↦ rw f h
]

loop-changed :
    (f i : ℕ) (s : PassState)
    → s.result.changed ≡ true
    → (pass_loop narrow_step f i s).result.changed ≡ true
unfolding pass_loop
loop-changed zero i s h = h
loop-changed (suc f) i s h = elim (Bool-cases (ltb i (length s.graph.nodes))) [
  | inl inside ↦ rw inside (loop-changed f (i + 1) (narrow_step i s) (narrow_step-changed i s h))
  | inr out ↦ rw out h
]

-- A loop that reports no change met no node to narrow, and left the graph as it was.
loop_unchanged :
    (f i : ℕ) (s : PassState)
    → (pass_loop narrow_step f i s).result.changed ≡ false
    → ((pass_loop narrow_step f i s).graph ≡ s.graph)
      × ((j : NodeId) → i ≤ j → j < i + f → j < length s.graph.nodes → narrows s.graph j ≡ false)
unfolding pass_loop narrow_step
loop_unchanged zero i s h = (refl, λ j lo hi below. absurd (omega arith))
loop_unchanged (suc f) i s h = elim (Bool-cases (ltb i (length s.graph.nodes))) [
  | inr out ↦ rw out (refl, λ j lo hi below. absurd (ground arith))
  | inl inside ↦
      let next = pass_loop-inside narrow_step f i s inside in
      elim (Bool-cases (narrows s.graph i)) [
        | inl t ↦
            let marked : (narrow_step i s).result.changed ≡ true = rw t refl in
            absurd (cc (loop-changed f (i + 1) (narrow_step i s) marked, next, h))
        | inr stays ↦
            let same : narrow_step i s ≡ s = rw stays refl in
            let skip : pass_loop narrow_step (suc f) i s ≡ pass_loop narrow_step f (i + 1) s =
              next ∙ ap (pass_loop narrow_step f (i + 1)) same in
            let (graph, rest) =
              loop_unchanged f (i + 1) s
                (ap (λ (x : PassState). x.result.changed) (sym skip) ∙ h) in
            (
              ap (λ (x : PassState). x.graph) skip ∙ graph,
              λ j lo hi below. elim (Bool-cases (ltb i j)) [
                | inl later ↦ rest j (omega (arith, ltb→lt i j later)) (omega arith) below
                | inr now ↦ ap (narrows s.graph) (ground arith) ∙ stays
              ],
            )
      ]
]

-- The types fit, where the last round changed nothing.
abbrev Settled : NarrowState → Type 0
Settled s = s.changed ≡ false → IsSettled s.graph

stays_same :
    (g : Graph) (j : NodeId)
    → dead (at g j) ≡ false
    → narrows g j ≡ false
    → same_type (new_type g j) (at g j).type ≡ true
unfolding narrows
stays_same g j live h = ground arith

narrow_round-IsSettled :
    (g : Graph) → (narrow_round g).result.changed ≡ false → IsSettled (narrow_round g).graph
narrow_round-IsSettled g h =
    let (same, fits) =
      loop_unchanged (length g.nodes) 1 (record { graph = g; result = no_result }) h in
    rw same
      (λ j lo below live. same_type_eq _ _ (stays_same g j live (fits j lo (omega arith) below)))

narrow_loop-IsSettled :
    (f : ℕ) (s : NarrowState)
    → Settled s
    → (IsSettled (narrow_loop f s).graph) ⊎ ((narrow_loop f s).iterations ≡ s.iterations + f)
unfolding narrow_loop
narrow_loop-IsSettled zero s settled = inr (omega arith)
narrow_loop-IsSettled (suc f) s settled = elim (Bool-cases s.changed) [
  | inr done ↦ rw done (inl (settled done))
  | inl more ↦
      let round = narrow_round s.graph in
      let next : NarrowState = record {
        graph = round.graph;
        iterations = s.iterations + 1;
        changed = round.result.changed;
        result = if round.result.changed then report_change s.result else s.result;
      } in
      rw more (elim (narrow_loop-IsSettled f next (narrow_round-IsSettled s.graph)) [
        | inl typed ↦ inl typed
        | inr count ↦ inr (omega (arith, count))
      ])
]

-- The kinds whose result is a truth value, and those of arithmetic.
abbrev pub test_kinds : List NodeKind
test_kinds =
    NodeKind.eq ∷ NodeKind.ne ∷ NodeKind.lt ∷ NodeKind.gt ∷ NodeKind.lte ∷ NodeKind.gte
    ∷ NodeKind.and ∷ NodeKind.or ∷ NodeKind.not ∷ NodeKind.to_bool ∷ []

abbrev pub arith_kinds : List NodeKind
arith_kinds = NodeKind.add ∷ NodeKind.sub ∷ NodeKind.mul ∷ NodeKind.div ∷ NodeKind.pow ∷ []

abbrev pub IsOf : NodeKind → TypeId → Graph → NodeId → Type 0
IsOf k t g j = (at g j).kind ≡ k → (at g j).type ≡ t

-- A node of kind `k` whose operands have the types `l` and `r` has the type `t`.
abbrev pub Combines : TypeId → TypeId → TypeId → Graph → NodeId → NodeKind → Type 0
Combines l r t g j k =
    (at g j).kind ≡ k
    → (a b : NodeId) → inputs_of_kind g j data_edge ≡ a ∷ b ∷ []
    → (at g a).type ≡ l
    → (at g b).type ≡ r
    → (at g j).type ≡ t

-- The table of the pass, for one node.
pub record NodeIsTyped (g : Graph) (j : NodeId) : Type 0 where
  pub integers : IsOf NodeKind.const_int TypeId.int g j
  pub floats : IsOf NodeKind.const_float TypeId.float g j
  pub nulls : IsOf NodeKind.const_null TypeId.null g j
  pub strings : IsOf NodeKind.const_string TypeId.string g j
  pub casts : IsOf NodeKind.to_float TypeId.float g j
  pub tests : All (λ k. IsOf k TypeId.bool g j) test_kinds
  pub int_int : All (Combines TypeId.int TypeId.int TypeId.int g j) arith_kinds
  pub int_float : All (Combines TypeId.int TypeId.float TypeId.float g j) arith_kinds
  pub float_int : All (Combines TypeId.float TypeId.int TypeId.float g j) arith_kinds
  pub float_float : All (Combines TypeId.float TypeId.float TypeId.float g j) arith_kinds

module _ (g : Graph) (j : NodeId) (fits : new_type g j ≡ (at g j).type) where
  by_kind : (k : NodeKind) (t : TypeId) → rule k ≡ fixed t → IsOf k t g j
  unfolding new_type
  by_kind k t r same = sym fits ∙ ap (apply_rule g j) (ap rule same ∙ r)

  tests_typed :
      (ks : List NodeKind)
      → All (λ k. rule k ≡ fixed TypeId.bool) ks
      → All (λ k. IsOf k TypeId.bool g j) ks
  tests_typed [] r = tt
  tests_typed (k ∷ ks) (r, rs) = (by_kind k TypeId.bool r, tests_typed ks rs)

  combined :
      (l r t : TypeId)
      → or_old (join_type (join_type TypeId.bottom l) r) (at g j).type ≡ t
      → (k : NodeKind) → rule k ≡ joins
      → Combines l r t g j k
  unfolding new_type join_types
  combined l r t value k arithmetic same a b inputs left right =
      sym fits ∙ ap (apply_rule g j) (ap rule same ∙ arithmetic) ∙ rw (inputs, left, right) value

  arith_combined :
      (l r t : TypeId)
      → or_old (join_type (join_type TypeId.bottom l) r) (at g j).type ≡ t
      → All (Combines l r t g j) arith_kinds
  arith_combined l r t value =
      let c = combined l r t value in (c _ refl, (c _ refl, (c _ refl, (c _ refl, (c _ refl, tt)))))

  new_type-NodeIsTyped : NodeIsTyped g j
  new_type-NodeIsTyped = record {
    integers = by_kind _ _ refl;
    floats = by_kind _ _ refl;
    nulls = by_kind _ _ refl;
    strings = by_kind _ _ refl;
    casts = by_kind _ _ refl;
    tests =
        tests_typed test_kinds
          (refl, (refl, (refl, (refl, (refl, (refl, (refl, (refl, (refl, (refl, tt))))))))));
    int_int = arith_combined TypeId.int TypeId.int TypeId.int refl;
    int_float = arith_combined TypeId.int TypeId.float TypeId.float refl;
    float_int = arith_combined TypeId.float TypeId.int TypeId.float refl;
    float_float = arith_combined TypeId.float TypeId.float TypeId.float refl;
  }

-- Every live node but the first is typed as the table says.
abbrev pub IsTyped : Graph → Type 0
IsTyped g = (j : NodeId) → 1 ≤ j → j < length g.nodes → dead (at g j) ≡ false → NodeIsTyped g j

-- Type narrowing ends, unless it runs all its eight rounds, with a graph in which every live node
-- but the first is typed: an integer, float, null or string constant as such, a comparison, a
-- connective and a conversion to a truth value as Bool, a conversion to a float as Float, and an
-- addition, subtraction, multiplication, division or power of two operands as Int where both are
-- Int, and as Float where both are Float or one is Int and the other Float.
pub type_narrowing-IsTyped :
    (g : Graph) → (IsTyped (type_narrowing g).graph) ⊎ ((type_narrowing g).iterations ≡ 8)
type_narrowing-IsTyped g =
    let start : NarrowState = record {
      graph = g;
      iterations = 0;
      changed = true;
      result = no_result;
    } in
    elim (narrow_loop-IsSettled 8 start (λ h. absurd (cc h))) [
      | inl settled ↦ inl (λ j lo below live. new_type-NodeIsTyped _ j (settled j lo below live))
      | inr count ↦ inr count
    ]
