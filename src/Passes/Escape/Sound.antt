-- ===== src/Passes/Escape/Sound.antt =====
-- src/passman/pass.cpp, `EscapeAnalysisPass::run`: what the pin of an allocation says of its uses.
use arc_jit.Core.Graph.{
  Edge, EdgeKind, Graph, at, data_edge, edge_at, inputs_of, same_kind, slice, zero_edge,
}
use arc_jit.Core.Node.{Node, NodeId, NodeKind, ◌∪◌, dead}
use arc_jit.Passes.Escape.Pinned.{escape_analysis-pinned, pinned_if_local}
use arc_jit.Passes.Escape.{
  escape_analysis, escapes, escapes_from, input_escapes, is_allocate, pin, safe_use, stays_local,
  user_escapes,
}
use arc_jit.Prelude.{
  ℕ, zero, suc, ◌+◌, ◌≤◌, ◌<◌, ◌≡◌, ◌≢◌, ◌↔◌, ◌⊎◌, refl, sym, ap, ◌∙◌, inl, inr, Bool, true, false,
  ◌&&◌, ◌||◌, leb, ltb, ◌==◌, ==_iff, if◌then◌else◌, Bool-cases, List, arith, length, get_or,
}
use mathlib.Core.Bool.{not}

-- The live node `j` has the node `id` as the target of its data edge `e`.
pub record IsDataUse (g : Graph) (id j : NodeId) (e : ℕ) : Type 0 where
  pub user : (1 ≤ j) × (j < length g.nodes)
  pub live : dead (at g j) ≡ false
  pub edge : ((at g j).first_input ≤ e) × (e < (at g j).first_input + (at g j).input_count)
  pub target : (edge_at g e).target ≡ id
  pub is_data : (edge_at g e).kind ≡ data_edge

-- A kind of node that accesses a field or the shape of an object.
abbrev pub IsAccess : NodeKind → Type 0
IsAccess k =
    (k ≡ NodeKind.load_field)
    ⊎ (k ≡ NodeKind.store_field)
    ⊎ (k ≡ NodeKind.check_shape)
    ⊎ (k ≡ NodeKind.shape_of)

abbrev pub IsOnlyAccessed : Graph → NodeId → Type 0
IsOnlyAccessed g id = (j : NodeId) (e : ℕ) → IsDataUse g id j e → IsAccess (at g j).kind

safe_use-IsAccess : (k : NodeKind) → safe_use k ≡ true → IsAccess k
safe_use-IsAccess NodeKind.load_field h = grind arith
safe_use-IsAccess NodeKind.store_field h = grind arith
safe_use-IsAccess NodeKind.check_shape h = grind arith
safe_use-IsAccess NodeKind.shape_of h = grind arith
safe_use-IsAccess _ h = absurd (cc h)

IsAccess-safe_use : (k : NodeKind) → IsAccess k → safe_use k ≡ true
IsAccess-safe_use k h = grind arith

same_kind-data : (k : EdgeKind) → same_kind k data_edge ≡ true → k ≡ data_edge
same_kind-data EdgeKind.data_edge h = refl
same_kind-data _ h = absurd (cc h)

head_false : (a b : Bool) → (a || b) ≡ false → (a ≡ false) × (b ≡ false)
head_false a b h = ground arith

both_false : (a b : Bool) → a ≡ false → b ≡ false → (a || b) ≡ false
both_false a b p q = ground arith

spared : (a b c : Bool) → (a && b && not c) ≡ false → a ≡ true → b ≡ true → c ≡ true
spared a b c h p q = ground arith

module _ (id : NodeId) (k : NodeKind) (es : List Edge) where
  -- Every data edge of the slice to `id` belongs to a safe use.
  abbrev SafeEdges : ℕ → ℕ → Type 0
  SafeEdges f c =
      (e : ℕ)
      → f ≤ e
      → e < f + c
      → (get_or es e zero_edge).target ≡ id
      → (get_or es e zero_edge).kind ≡ data_edge
      → safe_use k ≡ true

  input_escapes-SafeEdges : (f c : ℕ) → input_escapes id k (slice es f c) ≡ false → SafeEdges f c
  unfolding input_escapes slice
  input_escapes-SafeEdges f zero h e lo hi to is = absurd (omega arith)
  input_escapes-SafeEdges f (suc c) h e lo hi to is =
      let (here, later) = head_false _ _ h in
      elim (Bool-cases (f == e)) [
        | inl same ↦
            let q : e ≡ f = sym ((==_iff f e).0 same) in
            let hit : ((get_or es f zero_edge).target == id) ≡ true = rw (← q, to) (ground arith) in
            let is_data : same_kind (get_or es f zero_edge).kind data_edge ≡ true =
              rw (← q, is) refl in
            spared _ _ _ here hit is_data
        | inr other ↦ input_escapes-SafeEdges (f + 1) c later e (ground arith) (omega arith) to is
      ]

  SafeEdges-input_escapes : (f c : ℕ) → SafeEdges f c → input_escapes id k (slice es f c) ≡ false
  unfolding input_escapes slice
  SafeEdges-input_escapes f zero safe = refl
  SafeEdges-input_escapes f (suc c) safe =
      let here = get_or es f zero_edge in
      both_false _ _
        (elim (Bool-cases (here.target == id && same_kind here.kind data_edge)) [
          | inr other ↦ rw other refl
          | inl hit ↦
              rw
                (
                  hit,
                  safe f (omega arith) (omega arith) ((==_iff here.target id).0 (ground arith))
                      (same_kind-data here.kind (ground arith)),
                )
                refl
        ])
        (SafeEdges-input_escapes (f + 1) c (λ e lo hi. safe e (omega arith) (omega arith)))

module _ (g : Graph) (id : NodeId) where
  -- No live node of the range lets `id` escape.
  abbrev NoneEscape : ℕ → ℕ → Type 0
  NoneEscape f i =
      (j : NodeId) → i ≤ j → j < i + f → j < length g.nodes → user_escapes g id j ≡ false

  escapes_from-NoneEscape : (f i : ℕ) → escapes_from f i g id ≡ false → NoneEscape f i
  unfolding escapes_from
  escapes_from-NoneEscape zero i h j lo hi inside = absurd (omega arith)
  escapes_from-NoneEscape (suc f) i h j lo hi inside =
      let on : ltb i (length g.nodes) ≡ true = ground arith in
      let both : (user_escapes g id i || escapes_from f (i + 1) g id) ≡ false = rw on at h in
      let (here, later) = head_false _ _ both in
      elim (Bool-cases (i == j)) [
        | inl same ↦ ap (user_escapes g id) (sym ((==_iff i j).0 same)) ∙ here
        | inr other ↦ escapes_from-NoneEscape f (i + 1) later j (ground arith) (omega arith) inside
      ]

  NoneEscape-escapes_from : (f i : ℕ) → NoneEscape f i → escapes_from f i g id ≡ false
  unfolding escapes_from
  NoneEscape-escapes_from zero i none_do = refl
  NoneEscape-escapes_from (suc f) i none_do = elim (Bool-cases (ltb i (length g.nodes))) [
    | inr out ↦ rw out refl
    | inl inside ↦ rw inside (
        both_false _ _ (none_do i (omega arith) (omega arith) (ground arith))
          (NoneEscape-escapes_from f (i + 1) (λ j lo hi. none_do j (omega arith) (omega arith))))
  ]

  escapes-IsOnlyAccessed : escapes g id ≡ false → IsOnlyAccessed g id
  unfolding inputs_of
  escapes-IsOnlyAccessed h j e u =
      let quiet =
        escapes_from-NoneEscape (length g.nodes) 1 h j u.user.0 (omega (arith, u.user.1))
          u.user.1 in
      let safe : input_escapes id (at g j).kind (inputs_of g j) ≡ false = rw u.live at quiet in
      safe_use-IsAccess _
        (input_escapes-SafeEdges id _ g.edges _ _ safe e u.edge.0 u.edge.1 u.target u.is_data)

  IsOnlyAccessed-escapes : IsOnlyAccessed g id → escapes g id ≡ false
  unfolding inputs_of
  IsOnlyAccessed-escapes only = NoneEscape-escapes_from (length g.nodes) 1 (λ j lo hi inside.
      elim (Bool-cases (dead (at g j))) [
        | inl gone ↦ rw gone refl
        | inr live ↦ rw live (
            SafeEdges-input_escapes id (at g j).kind g.edges _ _ (λ e from to target is.
              IsAccess-safe_use _ (
                only j e (record {
                  user = (lo, inside);
                  live = live;
                  edge = (from, to);
                  target = target;
                  is_data = is;
                }))))
      ])

unnegated : (b : Bool) → not b ≡ true → b ≡ false
unnegated b h = ground arith

-- What the analysis makes of `g`.
pub record IsAnalysed (g h : Graph) : Type 0 where
  pub edges : h.edges ≡ g.edges
  pub size : length h.nodes ≡ length g.nodes
  pub pins :
      (i : NodeId)
      → 1 ≤ i
      → i < length g.nodes
      → dead (at g i) ≡ false
      → (at g i).kind ≡ NodeKind.allocate
      → (at g i).flags.is_pinned ≡ false
      → ((at h i).flags.is_pinned ≡ true) ↔ IsOnlyAccessed g i
  pub others :
      (i : NodeId) → (dead (at g i) ≡ true) ⊎ ((at g i).kind ≢ NodeKind.allocate) → at h i ≡ at g i

is_allocate-kind : (k : NodeKind) → is_allocate k ≡ true → k ≡ NodeKind.allocate
is_allocate-kind NodeKind.allocate h = refl
is_allocate-kind _ h = absurd (cc h)

not_local :
    (g : Graph) (i : NodeId)
    → (dead (at g i) ≡ true) ⊎ ((at g i).kind ≢ NodeKind.allocate)
    → stays_local g i ≡ false
not_local g i (inl gone) = rw gone refl
not_local g i (inr other) = elim (Bool-cases (is_allocate (at g i).kind)) [
  | inl allocates ↦ absurd (other (is_allocate-kind _ allocates))
  | inr different ↦ ground arith
]

stays_local-escapes :
    (g : Graph) (i : NodeId)
    → dead (at g i) ≡ false
    → (at g i).kind ≡ NodeKind.allocate
    → stays_local g i ≡ not (escapes g i)
stays_local-escapes g i live allocates = rw (live, allocates) refl

pin-is_pinned :
    (n : Node) (b : Bool) → n.flags.is_pinned ≡ false → (if b then pin n else n).flags.is_pinned ≡ b
unfolding ◌∪◌
pin-is_pinned n true free = refl
pin-is_pinned n false free = free

-- Escape analysis pins a live allocation that was not pinned exactly if all its data uses by live
-- nodes are field accesses, shape checks or shape reads, so never where a call, a return or a store
-- to a variable uses it; dead nodes, nodes of other kinds, the edges and the number of nodes stay as
-- they are.
pub escape_analysis-IsSound : (g : Graph) → IsAnalysed g (escape_analysis g).graph
escape_analysis-IsSound g =
    let (edges, size, nodes) = escape_analysis-pinned g in
    record {
      edges = edges;
      size = size;
      pins = λ i lo hi live allocates free.
          let inside : (leb 1 i && ltb i (length g.nodes)) ≡ true = ground arith in
          let here : at (escape_analysis g).graph i ≡ pinned_if_local g i =
            nodes i ∙ rw inside refl in
          let pinned : (at (escape_analysis g).graph i).flags.is_pinned ≡ not (escapes g i) =
            ap (λ (n : Node). n.flags.is_pinned) here
            ∙ pin-is_pinned (at g i) (stays_local g i) free
            ∙ stays_local-escapes g i live allocates in
          (
            λ p. escapes-IsOnlyAccessed g i (unnegated _ (sym pinned ∙ p)),
            λ only. pinned ∙ ap not (IsOnlyAccessed-escapes g i only),
          );
      others = λ i spared_node. nodes i ∙ rw (not_local g i spared_node) (ground arith);
    }
