-- ===== src/Passes/Gvn/Sound.antt =====
-- src/passman/pass.cpp, `GVNPass::run`: merging nodes of the same key keeps the values of nodes.
use arc_jit.Core.Graph.{Graph, at, mark_dead, replace_all_uses_with}
use arc_jit.Core.Graph.Layout.{IsLaidOut}
use arc_jit.Core.Graph.Redirect.{replace_all_uses_with-Redirects}
use arc_jit.Core.Node.{
  Node, NodeId, commutative_flag, dead, gvnable_flag, has_flag, is_dead_flag, zero_node,
}
use arc_jit.Passes.Gvn.Numbered.{IsNumbered, NumberedNode, commutes, key_of-value}
use arc_jit.Passes.Gvn.{
  GvnState, Key, Key-discrete, Seen, find_key, gvn, gvn_loop, gvn_step, key_of, number_node,
}
use arc_jit.Passes.Meaning.{
  Models, Preserves, Preserves-refl, Preserves-trans, length-inputs, map-inputs, node_value,
}
use arc_jit.Passes.Replace.{replace_node-dead, replace_node_size}
use arc_jit.Passes.Rewrite.{replace_node-Preserves}
use arc_jit.Passes.{no_result, replace_node}
use arc_jit.Prelude.{
  ℕ, zero, suc, ◌+◌, ◌<◌, ◌≡◌, refl, sym, ap, ◌∙◌, inl, inr, false, [], ◌∷◌, some, All, Bool-cases,
  Option-cases, arith, length, map, ltb, ltb→lt, ◌==◌, ==_iff, get_or-set_ne,
}
use arc_jit.Tier2.Apply.{apply}
use mathlib.Core.Option.{some-injective}
use mathlib.Core.Path.{subst}

-- A node that is still live after a replacement has the flags it had.
live_flags :
    (id new : NodeId) (g : Graph) (j : ℕ)
    → id < length g.nodes
    → dead (at (replace_node id new g) j) ≡ false
    → (at (replace_node id new g) j).flags ≡ (at g j).flags
unfolding mark_dead
live_flags id new g j known live =
    let r = replace_all_uses_with-Redirects id new g in
    let redirected = replace_all_uses_with id new g in
    elim (Bool-cases (id == j)) [
      | inr other ↦
          ap (λ (n : Node). n.flags)
            (get_or-set_ne redirected.nodes id j _ zero_node (λ e. ground arith))
          ∙ ap (λ (n : Node). n.flags) (r.nodes j)
      | inl same ↦
          let e : id ≡ j = (==_iff id j).0 same in
          let l : dead (at (replace_node id new g) id) ≡ false =
            ap (λ x. dead (at (replace_node id new g) x)) e ∙ live in
          absurd (cc (replace_node-dead id new g known))
    ]

replace_node-IsNumbered :
    (id new : NodeId) (g : Graph) (val : NodeId → ℕ)
    → id < length g.nodes
    → IsLaidOut g
    → Preserves g val (replace_node id new g) val
    → IsNumbered g val
    → IsNumbered (replace_node id new g) val
unfolding node_value
replace_node-IsNumbered id new g val known l p n i inside live flagged =
    let flags = live_flags id new g i known live in
    let h : i < length g.nodes = omega (arith, (replace_node_size id new g).0) in
    let was : dead (at g i) ≡ false = ap (λ f. has_flag f is_dead_flag) (sym flags) ∙ live in
    let before = n i h was (ap (λ f. has_flag f gvnable_flag) (sym flags) ∙ flagged) in
    let same = p.codes i h in
    let kind = ap (λ (m : Node). m.kind) same in
    let first = ap (λ (m : Node). m.first_input) same in
    let count = ap (λ (m : Node). m.input_count) same in
    record {
      no_control = λ e lo hi control.
          before.no_control e (omega (arith, first)) (omega (arith, first, count))
            (sym (p.kinds e (omega (arith, first, count, l.inside i h))) ∙ control);
      total = (
        before.total.0,
        rw (kind, ap (λ (m : Node). m.payload) same, map-inputs l p i h) before.total.1,
      );
      ordered = λ c.
          let o = before.ordered (ap (λ f. has_flag f commutative_flag) (sym flags) ∙ c) in
          (ap commutes kind ∙ o.0, length-inputs l p i h ∙ o.1);
    }

-- Every key seen stands with a node that holds the value of the key.
abbrev Entry : Graph → (NodeId → ℕ) → Key × NodeId → Type 0
Entry g val (k, c) =
    (c < length g.nodes) × (apply k.kind k.payload (map val k.input_ids) ≡ some (val c))

find_key-Entry :
    (g : Graph) (val : NodeId → ℕ) (k : Key) (seen : Seen) (c : NodeId)
    → All (Entry g val) seen
    → find_key k seen ≡ some c
    → Entry g val (k, c)
unfolding find_key
find_key-Entry g val k [] c all e = cc
find_key-Entry g val k ((j, d) ∷ seen) c (here, all) e =
    split (find_key-Entry g val k seen c all) (Key-discrete k j) refl
  where
    split :
        (find_key k seen ≡ some c → Entry g val (k, c))
        → (b : Dec (k ≡ j)) → Key-discrete k j ≡ b
        → Entry g val (k, c)
    split rest (yes same) q =
        let hit : some d ≡ some c = rw (find_key, q) at e in
        subst (λ x. Entry g val (k, x)) (some-injective _ _ hit)
          (subst (λ x. Entry g val (x, d)) (sym same) here)
    split rest (no other) q = rest (rw (find_key, q) at e)

-- A merge of nodes keeps what was seen.
All-Entry-grown :
    (g g' : Graph) (val : NodeId → ℕ) (seen : Seen)
    → length g'.nodes ≡ length g.nodes
    → All (Entry g val) seen
    → All (Entry g' val) seen
All-Entry-grown g g' val [] size all = tt
All-Entry-grown g g' val ((k, c) ∷ seen) size ((below, value), all) =
    ((omega (arith, size), value), All-Entry-grown g g' val seen size all)

record IsSeen (val : NodeId → ℕ) (s : GvnState) : Type 0 where
  laid_out : IsLaidOut s.graph
  models : Models s.graph val
  numbered : IsNumbered s.graph val
  entries : All (Entry s.graph val) s.seen

abbrev Visits : (NodeId → ℕ) → GvnState → GvnState → Type 0
Visits val s s' = Preserves s.graph val s'.graph val × IsSeen val s'

number_node-Visits :
    (id : NodeId) (val : NodeId → ℕ) (s : GvnState)
    → id < length s.graph.nodes
    → IsSeen val s
    → NumberedNode s.graph val id
    → Visits val s (number_node id (key_of s.graph id) (find_key (key_of s.graph id) s.seen) s)
number_node-Visits id val s known i n =
    let k = key_of s.graph id in
    let value = key_of-value s.graph val id i.models known n in
    elim (Option-cases (find_key k s.seen)) [
      | inl new ↦ rw new (
        Preserves-refl i.laid_out i.models,
        record {
          laid_out = i.laid_out;
          models = i.models;
          numbered = i.numbered;
          entries = ((known, value), i.entries);
        },
      )
      | inr (c, old) ↦
          let (below, same) = find_key-Entry s.graph val k s.seen c i.entries old in
          let p =
            replace_node-Preserves id c i.laid_out i.models (some-injective _ _ (sym value ∙ same))
              below in
          rw old (
            p,
            record {
              laid_out = p.laid_out;
              models = p.models;
              numbered = replace_node-IsNumbered id c s.graph val known i.laid_out p i.numbered;
              entries =
                  All-Entry-grown s.graph (replace_node id c s.graph) val s.seen
                    (replace_node_size id c s.graph).0 i.entries;
            },
          )
    ]

gvn_step-Visits :
    (id : NodeId) (val : NodeId → ℕ) (s : GvnState)
    → id < length s.graph.nodes
    → IsSeen val s
    → Visits val s (gvn_step id s)
unfolding gvn_step
gvn_step-Visits id val s known i =
    let same : Visits val s s = (Preserves-refl i.laid_out i.models, i) in
    elim (Bool-cases (dead (at s.graph id))) [
      | inl d ↦ rw d same
      | inr live ↦ elim (Bool-cases (has_flag (at s.graph id).flags gvnable_flag)) [
        | inr unflagged ↦ rw (live, unflagged) same
        | inl flagged ↦
            rw (live, flagged)
              (number_node-Visits id val s known i (i.numbered id known live flagged))
      ]
    ]

gvn_loop-Preserves :
    (f : ℕ) (i : NodeId) (val : NodeId → ℕ) (s : GvnState)
    → IsSeen val s
    → Preserves s.graph val (gvn_loop f i s).graph val
unfolding gvn_loop
gvn_loop-Preserves zero i val s seen = Preserves-refl seen.laid_out seen.models
gvn_loop-Preserves (suc f) i val s seen = elim (Bool-cases (ltb i (length s.graph.nodes))) [
  | inr out ↦ rw out (Preserves-refl seen.laid_out seen.models)
  | inl inside ↦
      let (p, next) = gvn_step-Visits i val s (ltb→lt _ _ inside) seen in
      rw inside (Preserves-trans p (gvn_loop-Preserves f (i + 1) val (gvn_step i s) next))
]

-- On a graph whose live nodes that are flagged for numbering have no control input and a value,
-- and where those that are flagged as commutative have two inputs and commute, global value
-- numbering keeps the value of every node and of every input.
pub gvn-Preserves :
    (g : Graph) (val : NodeId → ℕ)
    → IsLaidOut g
    → Models g val
    → IsNumbered g val
    → Preserves g val (gvn g).graph val
unfolding gvn
gvn-Preserves g val l m n =
    gvn_loop-Preserves (length g.nodes) 1 val (record { graph = g; seen = []; result = no_result })
      (record { laid_out = l; models = m; numbered = n; entries = tt })
