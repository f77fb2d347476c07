-- ===== src/Passes/StrengthReduce/Sound.antt =====
-- src/passman/pass.cpp, `StrengthReductionPass::run`: strength reduction keeps the values of nodes.
use arc_jit.Core.Graph.{Graph, add_node, at, data_edge, next_id, targets_of_kind}
use arc_jit.Core.Graph.Layout.{IsLaidOut, AllKnown, add_node-Adds}
use arc_jit.Core.Node.{Node, NodeId, NodeKind, TypeId, no_index}
use arc_jit.Passes.Loop.{HasRoom, StepsTo, IsSound, run_pass-Preserves}
use arc_jit.Passes.Meaning.{
  Models, Preserves, Preserves-refl, Preserves-trans, update, update_self, update_ne, map-inputs,
}
use arc_jit.Passes.Replace.{
  replace_by_new-Preserves, replace_by_new_size, replace_by_new-kind, next_id_lem,
  replace_node-code, replace_node_size,
}
use arc_jit.Passes.Rewrite.{add_node-Preserves}
use arc_jit.Passes.StrengthReduce.{
  Shift, reduction, shift_flags, shift_inputs, replace_by_shift, apply_reduction, strength_step,
  strength_reduction,
}
use arc_jit.Passes.{PassState, add_const}
use arc_jit.Prelude.{
  ℕ, ◌+◌, ◌*◌, ◌^◌, ◌≤◌, ◌<◌, ◌≡◌, ◌≢◌, sym, ap, ◌∙◌, inl, inr, ◌==◌, [], ◌∷◌, arith, ltb, ltb→lt,
  Bool-cases, length, some, none, Option, map, length-append,
}
use mathlib.Core.Option.{some-injective}
use arc_jit.Tier2.Apply.{apply, apply_const}
use arc_jit.Passes.StrengthReduce.Choice.{DividesNonneg, IsRight, reduction-IsRight}

module _ (id a : NodeId) (k : NodeKind) (s : ℕ) (g : Graph) (val : NodeId → ℕ) (l : IsLaidOut g)
    (m : Models g val) (room : HasRoom 2 g) (known : id < length g.nodes) (ka : a < length g.nodes)
    (low : s < 64) (right : (w : ℕ) → apply k 0 (val a ∷ s ∷ []) ≡ some w → val id ≡ w) where
  abbrev with_const : Graph
  with_const = add_const shift_flags s g

  valued : NodeId → ℕ
  valued = update val (length g.nodes) s

  const-Preserves : Preserves g val with_const valued
  unfolding valued apply apply_const targets_of_kind
  const-Preserves =
      add_node-Preserves NodeKind.const_int shift_flags TypeId.int s [] g val l m (omega arith)
        (omega arith) (omega arith) tt s (omega arith) (λ w e. some-injective _ _ e)

  const-Adds :
      (length with_const.nodes ≡ length g.nodes + 1) × (length with_const.edges ≡ length g.edges)
  const-Adds =
      let added = add_node-Adds NodeKind.const_int shift_flags TypeId.int s [] g in
      (added.size, ap length added.edges ∙ length-append g.edges [] ∙ omega arith)

  shift_right :
      (w : ℕ)
      → apply k 0 (map valued (targets_of_kind data_edge (shift_inputs a (length g.nodes))))
        ≡ some w
      → valued id ≡ w
  unfolding valued targets_of_kind
  shift_right w e =
      update_ne val (length g.nodes) s id (λ p. omega arith)
      ∙ right w (
          rw
            (
              update_ne val (length g.nodes) s a (λ p. omega arith),
              update_self val (length g.nodes) s,
            )
            at e)

  replaced : Graph
  replaced = replace_by_shift (k, a, s) id g

  replaced-StepsTo : StepsTo g val replaced
  unfolding replaced
  replaced-StepsTo =
      let below : AllKnown (length with_const.nodes) (shift_inputs a (length g.nodes)) =
        (inl (omega (arith, const-Adds.0)), (inl (omega (arith, const-Adds.0)), tt)) in
      let here : id < length with_const.nodes = omega (arith, const-Adds.0) in
      let room' : length with_const.nodes + 1 < no_index = omega (arith, const-Adds.0) in
      let wide : length with_const.edges + 2 < 2 ^ 32 = omega (arith, const-Adds.1) in
      let p =
        replace_by_new-Preserves id k shift_flags TypeId.int 0 (shift_inputs a (length g.nodes))
          with_const valued const-Preserves.laid_out const-Preserves.models (omega arith) room' wide
          below here shift_right in
      let size =
        replace_by_new_size id k shift_flags TypeId.int 0 (shift_inputs a (length g.nodes))
          with_const valued const-Preserves.laid_out const-Preserves.models (omega arith) room' wide
          below here shift_right in
      rw (next_id_lem g (omega arith)) (
        update valued (length with_const.nodes) (valued id),
        Preserves-trans const-Preserves p,
        omega (arith, size.0, const-Adds.0),
        omega (arith, size.1, const-Adds.1),
      )

  replaced_size : length replaced.nodes ≡ length g.nodes + 2
  unfolding replaced
  replaced_size =
      let id1 = next_id with_const in
      let added =
        add_node-Adds k shift_flags TypeId.int 0 (shift_inputs a (next_id g)) with_const in
      omega (
        arith,
        const-Adds.0,
        added.size,
        (replace_node_size id id1
            (add_node k shift_flags TypeId.int 0 (shift_inputs a (next_id g)) with_const)).0,
      )

  replaced-kinds :
      (i : ℕ)
      → length g.nodes ≤ i
      → i < length replaced.nodes
      → k ≢ NodeKind.div
      → (at replaced i).kind ≢ NodeKind.div
  unfolding replaced
  replaced-kinds i lo hi other e =
      let inputs = shift_inputs a (next_id g) in
      let added = add_node-Adds k shift_flags TypeId.int 0 inputs with_const in
      elim (Bool-cases (i == length g.nodes)) [
        | inl first ↦
            let here : i ≡ length g.nodes = ground arith in
            let kind : (at replaced i).kind ≡ NodeKind.const_int =
              ap (λ (n : Node). n.kind)
                (replace_node-code id (next_id with_const)
                  (add_node k shift_flags TypeId.int 0 inputs with_const) i)
              ∙ ap (λ (n : Node). n.kind) (added.olds i (omega (arith, const-Adds.0)))
              ∙ rw here (
                  ap (λ (n : Node). n.kind)
                    (add_node-Adds NodeKind.const_int shift_flags TypeId.int s [] g).last) in
            absurd (cc)
        | inr second ↦
            let here : i ≡ length with_const.nodes = ground (arith, const-Adds.0, replaced_size) in
            other (
              sym (
                replace_by_new-kind id (next_id with_const) k shift_flags TypeId.int 0 inputs
                  with_const)
              ∙ rw here at e)
      ]

preserved-DividesNonneg :
    {g g' : Graph} {val val' : NodeId → ℕ}
    → IsLaidOut g
    → DividesNonneg g val
    → Preserves g val g' val'
    → ((i : ℕ) → length g.nodes ≤ i → i < length g'.nodes → (at g' i).kind ≢ NodeKind.div)
    → DividesNonneg g' val'
preserved-DividesNonneg {g} l q p new i x y h k two = elim (Bool-cases (ltb i (length g.nodes))) [
  | inr late ↦ absurd (new i (ground arith) h k)
  | inl early ↦
      let old = ltb→lt _ _ early in
      q i x y old (ap (λ (n : Node). n.kind) (sym (p.codes i old)) ∙ k)
        (sym (map-inputs l p i old) ∙ two)
]

apply_reduction-IsSound :
    (c : Option Shift) (i : NodeId) (s : PassState) (val : NodeId → ℕ)
    → i < length s.graph.nodes
    → HasRoom 2 s.graph
    → IsLaidOut s.graph
    → Models s.graph val
    → DividesNonneg s.graph val
    → IsRight s.graph val i c
    → (t : StepsTo s.graph val (apply_reduction c i s).graph) × DividesNonneg
        (apply_reduction c i s).graph
        t.0
unfolding apply_reduction replaced
apply_reduction-IsSound none i s val known room l m q r =
    ((val, Preserves-refl l m, omega arith, omega arith), q)
apply_reduction-IsSound (some (k, a, v)) i s val known room l m q (ka, low, other, right) =
    let t = replaced-StepsTo i a k v s.graph val l m room known ka low right in
    (
      t,
      preserved-DividesNonneg l q t.1
          (λ j lo hi. replaced-kinds i a k v s.graph val l m room known ka low right j lo hi other),
    )

strength_step-IsSound : IsSound DividesNonneg strength_step
unfolding strength_step
strength_step-IsSound i s val known room l m q =
    apply_reduction-IsSound (reduction s.graph i) i s val known room l m q
      (reduction-IsRight s.graph val i l m q known)

-- Where no division of the graph has a negative dividend, strength reduction keeps the value of
-- every old node and the value that every old edge reads, for every assignment of values that the
-- nodes compute; the graph is laid out and its indices stay in 32 bits.
pub strength_reduction-Preserves :
    (g : Graph) (val : NodeId → ℕ)
    → HasRoom (8 * length g.nodes) g
    → IsLaidOut g
    → Models g val
    → DividesNonneg g val
    → (val' : NodeId → ℕ) × Preserves g val (strength_reduction g).graph val'
unfolding strength_reduction
strength_reduction-Preserves g val room l m q =
    run_pass-Preserves DividesNonneg strength_step strength_step-IsSound g val room l m q
