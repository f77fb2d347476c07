-- ===== src/Core/Verifier/Accepted.antt =====
-- src/core/verifier.cpp: what a graph without errors is.
use arc_jit.Core.Graph.{
  Edge, Graph, at, data_edge, edge_at, inputs_of, inputs_of_kind, slice, zero_edge,
}
use arc_jit.Core.Node.{NodeId, dead, has_flag, is_effect_flag, pure_flag, valid}
use arc_jit.Core.Verifier.{
  Check, VerifierError, VerifierOptions, check_edge, check_edges, check_node, check_nodes,
  check_start, check_stop, err_if, has_effect_input, in_graph, is_effect_edge, is_start, uses_dead,
  verify_graph,
}
use arc_jit.Prelude.{
  ℕ, zero, suc, ◌+◌, ◌≤◌, ◌<◌, ◌≡◌, refl, inl, inr, Bool, true, false, ◌&&◌, ltb, ◌==◌, ==_iff,
  ◌!=◌, Bool-cases, List, [], ◌∷◌, ◌++◌, arith, length, get_or,
}
use mathlib.Core.Bool.{not}
use mathlib.Core.Path.{subst}

split_nil : (xs ys : List VerifierError) → xs ++ ys ≡ [] → (xs ≡ []) × (ys ≡ [])
split_nil [] ys e = (refl, e)
split_nil (x ∷ xs) ys e = absurd (cc e)

err_if_nil : (b : Bool) (id : NodeId) (c : Check) → err_if b id c ≡ [] → b ≡ false
err_if_nil true id c e = absurd (cc e)
err_if_nil false id c e = refl

first_false : (a b c : Bool) → (a && (b && c)) ≡ false → b ≡ true → c ≡ true → a ≡ false
first_false a b c h p q = ground arith

last_false : (a b : Bool) → (a && b) ≡ false → a ≡ true → b ≡ false
last_false a b h p = ground arith

last_true : (a b : Bool) → (a && b) ≡ true → b ≡ true
last_true a b h = ground arith

not_above : {n : ℕ} → ltb 0 n ≡ false → n ≡ 0
not_above h = ground arith

chain_holds :
    (a b c d : Bool)
    → (a && (b && (not c && not d))) ≡ false
    → a ≡ true
    → b ≡ true
    → c ≡ false
    → d ≡ true
chain_holds a b c d h p q r = ground arith

-- What an input of a live node is.
pub record EdgeIsSound (opts : VerifierOptions) (g : Graph) (id : NodeId) (e : Edge) : Type 0 where
  pub inside : in_graph g e ≡ true
  pub pure :
      opts.check_pure_no_effect_edges ≡ true
      → has_flag (at g id).flags pure_flag ≡ true
      → is_effect_edge e.kind ≡ false
  pub live : opts.check_use_def_consistency ≡ true → uses_dead g e ≡ false

check_edge-EdgeIsSound :
    (opts : VerifierOptions) (g : Graph) (id : NodeId) (e : Edge)
    → check_edge opts g id e ≡ []
    → EdgeIsSound opts g id e
unfolding check_edge
check_edge-EdgeIsSound opts g id e none_found = elim (Bool-cases (in_graph g e)) [
  | inr out ↦
      let found : err_if true id Check.no_dangling_edges ≡ [] = rw out at none_found in
      absurd (cc found)
  | inl inside ↦
      let impure =
        is_effect_edge e.kind
        && (opts.check_pure_no_effect_edges && has_flag (at g id).flags pure_flag) in
      let stale = opts.check_use_def_consistency && uses_dead g e in
      let both : err_if impure id Check.pure_no_effect_edges
            ++ err_if stale id Check.use_def_consistency
          ≡ [] =
        rw inside at none_found in
      let (a, b) = split_nil _ _ both in
      record {
        inside = inside;
        pure = first_false _ _ _ (err_if_nil impure id _ a);
        live = last_false _ _ (err_if_nil stale id _ b);
      }
]

check_edges-EdgeIsSound :
    (opts : VerifierOptions) (g : Graph) (id : NodeId) (es : List Edge) (f c : ℕ)
    → check_edges opts g id (slice es f c) ≡ []
    → (e : ℕ) → f ≤ e
    → e < f + c
    → EdgeIsSound opts g id (get_or es e zero_edge)
unfolding check_edges slice
check_edges-EdgeIsSound opts g id es f zero none_found e lo hi = absurd (omega arith)
check_edges-EdgeIsSound opts g id es f (suc c) none_found e lo hi =
    let (here, later) = split_nil (check_edge opts g id (get_or es f zero_edge)) _ none_found in
    elim (Bool-cases (f == e)) [
      | inl same ↦
          subst (λ x. EdgeIsSound opts g id (get_or es x zero_edge)) ((==_iff f e).0 same)
            (check_edge-EdgeIsSound opts g id (get_or es f zero_edge) here)
      | inr other ↦
          check_edges-EdgeIsSound opts g id es (f + 1) c later e (ground arith) (omega arith)
    ]

-- Some input of the slice is an effect edge.
has_effect_input-slice :
    (g : Graph) (es : List Edge) (f c : ℕ)
    → has_effect_input g (slice es f c) ≡ true
    → (e : ℕ) × (f ≤ e) × (e < f + c) × (is_effect_edge (get_or es e zero_edge).kind ≡ true)
unfolding has_effect_input slice
has_effect_input-slice g es f zero h = absurd (cc h)
has_effect_input-slice g es f (suc c) h =
    let here = get_or es f zero_edge in
    elim (Bool-cases (in_graph g here && is_effect_edge here.kind)) [
      | inl found ↦ (f, omega arith, omega arith, last_true _ _ found)
      | inr other ↦
          let later : has_effect_input g (slice es (f + 1) c) ≡ true = rw other at h in
          let (e, lo, hi, effect) = has_effect_input-slice g es (f + 1) c later in
          (e, omega arith, omega arith, effect)
    ]

-- What the checks of one node ask.
pub record NodeIsSound (opts : VerifierOptions) (g : Graph) (i : NodeId) : Type 0 where
  pub unused : opts.check_no_dead_with_users ≡ true → dead (at g i) ≡ true → (at g i).use_count ≡ 0
  pub inputs :
      dead (at g i) ≡ false
      → (e : ℕ) → (at g i).first_input ≤ e
      → e < (at g i).first_input + (at g i).input_count
      → EdgeIsSound opts g i (edge_at g e)
  pub effect :
      opts.check_effect_chain ≡ true
      → dead (at g i) ≡ false
      → has_flag (at g i).flags is_effect_flag ≡ true
      → is_start (at g i).kind ≡ false
      → (e : ℕ) × ((at g i).first_input ≤ e)
        × (e < (at g i).first_input + (at g i).input_count)
        × (is_effect_edge (edge_at g e).kind ≡ true)

check_node-NodeIsSound :
    (opts : VerifierOptions) (g : Graph) (i : NodeId)
    → check_node opts g i ≡ []
    → NodeIsSound opts g i
unfolding check_node inputs_of
check_node-NodeIsSound opts g i none_found = elim (Bool-cases (dead (at g i))) [
  | inl gone ↦
      let used = opts.check_no_dead_with_users && ltb 0 (at g i).use_count in
      let no_error : err_if used i Check.no_dead_with_users ≡ [] = rw gone at none_found in
      record {
        unused = λ o d. not_above (last_false _ _ (err_if_nil used i _ no_error) o);
        inputs = λ live. absurd (cc (gone, live));
        effect = λ o live. absurd (cc (gone, live));
      }
  | inr live ↦
      let es = slice g.edges (at g i).first_input (at g i).input_count in
      let broken =
        opts.check_effect_chain
        && (has_flag (at g i).flags is_effect_flag
            && (not (is_start (at g i).kind) && not (has_effect_input g es))) in
      let no_errors : check_edges opts g i es ++ err_if broken i Check.effect_chain_continuity
          ≡ [] =
        rw live at none_found in
      let (a, b) = split_nil _ _ no_errors in
      record {
        unused = λ o d. absurd (cc (d, live));
        inputs = λ l. check_edges-EdgeIsSound opts g i g.edges _ _ a;
        effect = λ o l f s.
            has_effect_input-slice g g.edges _ _
              (chain_holds _ _ _ _ (err_if_nil broken i _ b) o f s);
      }
]

check_nodes-NodeIsSound :
    (opts : VerifierOptions) (g : Graph) (f i : ℕ)
    → check_nodes f opts g i ≡ []
    → (j : ℕ) → i ≤ j
    → j < i + f
    → j < length g.nodes
    → NodeIsSound opts g j
unfolding check_nodes
check_nodes-NodeIsSound opts g zero i none_found j lo hi inside = absurd (omega arith)
check_nodes-NodeIsSound opts g (suc f) i none_found j lo hi inside =
    let rest = check_nodes f opts g (i + 1) in
    let here : ltb i (length g.nodes) ≡ true = ground arith in
    let both : check_node opts g i ++ rest ≡ [] = rw here at none_found in
    let (a, b) = split_nil (check_node opts g i) rest both in
    elim (Bool-cases (i == j)) [
      | inl same ↦
          subst (λ x. NodeIsSound opts g x) ((==_iff i j).0 same)
            (check_node-NodeIsSound opts g i a)
      | inr other ↦ check_nodes-NodeIsSound opts g f (i + 1) b j (ground arith) (omega arith) inside
    ]

-- What the checks of a whole graph ask.
pub record GraphIsSound (opts : VerifierOptions) (g : Graph) : Type 0 where
  pub nodes : (i : NodeId) → 0 < i → i < length g.nodes → NodeIsSound opts g i
  pub start : valid g.start ≡ true → (at g g.start).input_count ≡ 0
  pub stop : valid g.stop ≡ true → length (inputs_of_kind g g.stop data_edge) ≡ 1

not_other : (a : Bool) (m n : ℕ) → (a && (m != n)) ≡ false → a ≡ true → m ≡ n
not_other a m n h p = ground arith

-- A graph in which the verifier finds no error keeps every invariant of its options: a dead node has
-- no users; each input of a live node has a target in the graph that is not a dead node with users,
-- and is no effect edge when the node is pure; a live effectful node that is no start node has an
-- effect input; the start node has no inputs, and the stop node has one data input.
pub verify_graph-GraphIsSound :
    (opts : VerifierOptions) (g : Graph) → verify_graph opts g ≡ [] → GraphIsSound opts g
unfolding verify_graph check_start check_stop
verify_graph-GraphIsSound opts g none_found =
    let walk = check_nodes (length g.nodes) opts g 1 in
    let (earlier, c) = split_nil (walk ++ check_start g) (check_stop g) none_found in
    let (a, b) = split_nil walk (check_start g) earlier in
    record {
      nodes = λ i lo hi. check_nodes-NodeIsSound opts g (length g.nodes) 1 a i lo (omega arith) hi;
      start = not_other _ _ _ (err_if_nil _ g.start Check.start_no_inputs b);
      stop = not_other _ _ _ (err_if_nil _ g.stop Check.stop_one_data_input c);
    }
