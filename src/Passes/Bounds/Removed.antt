-- ===== src/Passes/Bounds/Removed.antt =====
-- src/passman/pass.cpp, `BoundsCheckEliminationPass::run`: which checks go.
use arc_jit.Core.Graph.{Graph, at, data_edge, inputs_of_kind}
use arc_jit.Core.Node.{NodeId, dead}
use arc_jit.Passes.Bounds.{
  assume_zero, bounds_step, in_bounds, is_check_bounds, prove_constant, remove_check,
}
use arc_jit.Passes.Replace.{replace_node-dead, replace_node_size}
use arc_jit.Passes.{PassState, is_const_int}
use arc_jit.Prelude.{
  ◌<◌, ◌≡◌, refl, inl, inr, Bool, true, false, ◌&&◌, ◌||◌, ◌==◌, Bool-cases, arith, length, List,
  ◌∷◌,
}

-- A constant index that is below a constant length, or that is 0.
abbrev proved : Graph → NodeId → NodeId → Bool
proved g index len =
    is_const_int (at g index).kind
    && (is_const_int (at g len).kind && in_bounds (at g index).payload (at g len).payload
        || (at g index).payload == 0)

abbrev Removed : NodeId → PassState → Type 0
Removed id s = (dead (at s.graph id) ≡ true) × (s.result.changed ≡ true)

remove_check-Removed :
    (id index : NodeId) (s : PassState)
    → id < length s.graph.nodes
    → Removed id (remove_check id index s)
remove_check-Removed id index s known = (replace_node-dead id index s.graph known, refl)

assume_zero-Removed :
    (id index : NodeId) (s : PassState)
    → id < length s.graph.nodes
    → Removed id s
    → Removed id (assume_zero id index s)
unfolding assume_zero
assume_zero-Removed id index s known gone =
    elim (Bool-cases (is_const_int (at s.graph index).kind && (at s.graph index).payload == 0)) [
      | inl zero_index ↦ rw zero_index (remove_check-Removed id index s known)
      | inr other ↦ rw other gone
    ]

-- The two cases of the visit, one after the other.
cases-proved :
    (id index len : NodeId) (s : PassState)
    → id < length s.graph.nodes
    → (proved s.graph index len ≡ true
        → Removed id (assume_zero id index (prove_constant id index len s)))
      × (proved s.graph index len ≡ false
          → assume_zero id index (prove_constant id index len s) ≡ s)
unfolding prove_constant assume_zero
cases-proved id index len s known =
    let i = at s.graph index in
    let l = at s.graph len in
    elim (Bool-cases
      (is_const_int i.kind && is_const_int l.kind && in_bounds i.payload l.payload)) [
        | inl within ↦ rw within (
          λ p.
              assume_zero-Removed id index (remove_check id index s)
                (omega (arith, (replace_node_size id index s.graph).0))
                (remove_check-Removed id index s known),
          λ p. absurd (ground arith),
        )
        | inr unknown ↦ rw unknown (elim (Bool-cases (is_const_int i.kind && i.payload == 0)) [
          | inl zero_index ↦
              rw zero_index (λ p. remove_check-Removed id index s known, λ p. absurd (ground arith))
          | inr other ↦ rw other (λ p. absurd (ground arith), λ p. refl)
        ])
      ]

-- The visit of a live bounds check removes it if the index is a constant that lies within a
-- constant length or is 0, whatever the length then is, and otherwise changes nothing.
bounds_step-proved :
    (id index len : NodeId) (more : List NodeId) (s : PassState)
    → id < length s.graph.nodes
    → dead (at s.graph id) ≡ false
    → is_check_bounds (at s.graph id).kind ≡ true
    → inputs_of_kind s.graph id data_edge ≡ index ∷ len ∷ more
    → (proved s.graph index len ≡ true
        → (dead (at (bounds_step id s).graph id) ≡ true)
          × ((bounds_step id s).result.changed ≡ true))
      × (proved s.graph index len ≡ false → bounds_step id s ≡ s)
unfolding bounds_step
bounds_step-proved id index len more s known live check inputs =
    rw (live, check, inputs) (cases-proved id index len s known)
