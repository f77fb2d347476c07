-- ===== src/Passes/Meaning.antt =====
-- Values of the nodes of a graph (src/tier2/tier2.cpp computes them), and what a rewriting pass
-- has to keep of them.
use arc_jit.Core.Graph.{
  EdgeKind, data_edge, Edge, Graph, at, edge_at, zero_edge, same_kind, slice, inputs_of,
  targets_of_kind, inputs_of_kind,
}
use arc_jit.Core.Graph.Layout.{code, IsLaidOut, AllKnown}
use arc_jit.Core.Node.{NodeId, Node, no_index}
use arc_jit.Prelude.{
  ℕ, zero, suc, ◌+◌, ◌≤◌, ◌<◌, ◌≡◌, ◌≢◌, refl, sym, ap, ◌∙◌, ◌⊎◌, inl, inr, List, [], ◌∷◌, ◌++◌,
  append_assoc, map, arith, ◌==◌, if◌then◌else◌, Bool-cases, length, length-map, get_or, Option,
  some, get_or-append_left, get_or-append_last, length-append,
}
use arc_jit.Tier1.Alu.{word_mod}
use arc_jit.Tier2.Apply.{apply}

-- What the code of node `i` computes where the registers of its inputs hold `val`.
unfoldable pub node_value : Graph → (NodeId → ℕ) → NodeId → Option ℕ
node_value g val i = apply (at g i).kind (at g i).payload (map val (inputs_of_kind g i data_edge))

-- `val` gives each node the value that its code computes, a 64-bit word.
pub record Models (g : Graph) (val : NodeId → ℕ) : Type 0 where
  pub word : (i : ℕ) → val i < word_mod
  pub computed : (i : ℕ) (v : ℕ) → i < length g.nodes → node_value g val i ≡ some v → val i ≡ v

-- `g'` grew from `g`: old nodes keep their code and their value, and every old edge keeps its kind
-- and still reads the same value.
pub record Preserves (g : Graph) (val : NodeId → ℕ) (g' : Graph) (val' : NodeId → ℕ) : Type 0 where
  pub laid_out : IsLaidOut g'
  pub models : Models g' val'
  pub keeps : (i : ℕ) → (i < length g.nodes) ⊎ (i ≡ no_index) → val' i ≡ val i
  pub reads : (e : ℕ) → e < length g.edges → val' (edge_at g' e).target ≡ val (edge_at g e).target
  pub codes : (i : ℕ) → i < length g.nodes → code (at g' i) ≡ code (at g i)
  pub kinds : (e : ℕ) → e < length g.edges → (edge_at g' e).kind ≡ (edge_at g e).kind
  pub more_nodes : length g.nodes ≤ length g'.nodes
  pub more_edges : length g.edges ≤ length g'.edges

pub Preserves-refl :
    {g : Graph} {val : NodeId → ℕ} → IsLaidOut g → Models g val → Preserves g val g val
Preserves-refl l m = record {
  laid_out = l;
  models = m;
  keeps = λ i h. refl;
  reads = λ e h. refl;
  codes = λ i h. refl;
  kinds = λ e h. refl;
  more_nodes = omega arith;
  more_edges = omega arith;
}

pub Preserves-trans :
    {g h k : Graph} {u v w : NodeId → ℕ} → Preserves g u h v → Preserves h v k w → Preserves g u k w
Preserves-trans p q = record {
  laid_out = q.laid_out;
  models = q.models;
  keeps = λ i lt. q.keeps i (grind arith) ∙ p.keeps i lt;
  reads = λ e lt. q.reads e (omega arith) ∙ p.reads e lt;
  codes = λ i lt. q.codes i (omega arith) ∙ p.codes i lt;
  kinds = λ e lt. q.kinds e (omega arith) ∙ p.kinds e lt;
  more_nodes = omega arith;
  more_edges = omega arith;
}

-- The data inputs read the same values in two pools.
pub map-slice :
    (k : EdgeKind) (val val' : NodeId → ℕ) (es es' : List Edge) (f c : ℕ)
    → ((e : ℕ)
        → f ≤ e
        → e < f + c
        → ((get_or es' e zero_edge).kind ≡ (get_or es e zero_edge).kind)
          × (val' (get_or es' e zero_edge).target ≡ val (get_or es e zero_edge).target))
    → map val' (targets_of_kind k (slice es' f c)) ≡ map val (targets_of_kind k (slice es f c))
unfolding slice targets_of_kind
map-slice k val val' es es' f zero h = refl
map-slice k val val' es es' f (suc c) h =
    let here = h f (omega arith) (omega arith) in
    let rest = map-slice k val val' es es' (f + 1) c (λ e lo hi. h e (omega arith) (omega arith)) in
    rw here.0 (elim (Bool-cases (same_kind (get_or es f zero_edge).kind k)) [
      | inl same ↦ rw (same, here.1, rest)
      | inr other ↦ rw (other, rest)
    ])

-- A node with the same code over inputs that read the same values has the same value.
pub node_value_congr :
    (g g' : Graph) (val val' : NodeId → ℕ) (i j : ℕ)
    → code (at g' j) ≡ code (at g i)
    → ((e : ℕ)
        → (at g i).first_input ≤ e
        → e < (at g i).first_input + (at g i).input_count
        → ((edge_at g' e).kind ≡ (edge_at g e).kind)
          × (val' (edge_at g' e).target ≡ val (edge_at g e).target))
    → node_value g' val' j ≡ node_value g val i
unfolding node_value inputs_of_kind inputs_of
node_value_congr g g' val val' i j same h =
    rw
      (
        ap (λ (n : Node). n.kind) same,
        ap (λ (n : Node). n.payload) same,
        ap (λ (n : Node). n.first_input) same,
        ap (λ (n : Node). n.input_count) same,
      )
      (rw (map-slice data_edge val val' g.edges g'.edges _ _ h))

abbrev pub update : (NodeId → ℕ) → NodeId → ℕ → NodeId → ℕ
update f n v j = if j == n then v else f j

pub update_self : (f : NodeId → ℕ) (n v : ℕ) → update f n v n ≡ v
update_self f n v = ground arith

pub update_ne : (f : NodeId → ℕ) (n v j : ℕ) → j ≢ n → update f n v j ≡ f j
update_ne f n v j h = ground arith

pub slice-append : (es xs : List Edge) (f : ℕ) → f ≡ length es → slice (es ++ xs) f (length xs) ≡ xs
unfolding slice
slice-append es [] f h = refl
slice-append es (x ∷ xs) f h =
    let head : get_or (es ++ x ∷ xs) f zero_edge ≡ x = rw (← append_assoc es (x ∷ []) xs) (
      get_or-append_left (es ++ x ∷ []) xs f zero_edge (rw length-append (omega arith))
      ∙ get_or-append_last es x zero_edge f h) in
    let rest : slice (es ++ x ∷ xs) (f + 1) (length xs) ≡ xs =
      rw (← append_assoc es (x ∷ []) xs)
        (slice-append (es ++ x ∷ []) xs (f + 1) (rw length-append (omega arith))) in
    rw (head, rest)

pub map-update :
    (k : EdgeKind) (val : NodeId → ℕ) (n v : ℕ) (es : List Edge)
    → n ≢ no_index
    → AllKnown n es
    → map (update val n v) (targets_of_kind k es) ≡ map val (targets_of_kind k es)
unfolding targets_of_kind
map-update k val n v [] away h = refl
map-update k val n v (e ∷ es) away h =
    let rest = map-update k val n v es away h.1 in
    elim (Bool-cases (same_kind e.kind k)) [
      | inl same ↦ rw (same, update_ne val n v e.target (λ p. ground (arith, h.0)), rest)
      | inr other ↦ rw (other, rest)
    ]

-- An old node has as many data inputs as before.
pub length-inputs :
    {g g' : Graph} {val val' : NodeId → ℕ}
    → IsLaidOut g
    → Preserves g val g' val'
    → (i : ℕ) → i < length g.nodes
    → length (inputs_of_kind g' i data_edge) ≡ length (inputs_of_kind g i data_edge)
unfolding inputs_of_kind inputs_of
length-inputs {g} {g'} l p i h =
    let same = p.codes i h in
    let read =
      map-slice data_edge (λ _. 0) (λ _. 0) g.edges g'.edges (at g i).first_input
        (at g i).input_count (λ e lo hi. (p.kinds e (omega (arith, l.inside i h)), refl)) in
    rw (ap (λ (n : Node). n.first_input) same, ap (λ (n : Node). n.input_count) same)
      (sym (length-map _ (λ _. 0)) ∙ ap length read ∙ length-map _ (λ _. 0))

-- The data inputs of an old node read the values they read before.
pub map-inputs :
    {g g' : Graph} {val val' : NodeId → ℕ}
    → IsLaidOut g
    → Preserves g val g' val'
    → (i : ℕ) → i < length g.nodes
    → map val' (inputs_of_kind g' i data_edge) ≡ map val (inputs_of_kind g i data_edge)
unfolding inputs_of_kind inputs_of
map-inputs {g} {g'} {val} {val'} l p i h =
    let same = p.codes i h in
    let inside = l.inside i h in
    rw (ap (λ (n : Node). n.first_input) same, ap (λ (n : Node). n.input_count) same)
      (map-slice data_edge val val' g.edges g'.edges (at g i).first_input (at g i).input_count
        (λ e lo hi. (p.kinds e (omega arith), p.reads e (omega arith))))
