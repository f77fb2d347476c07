-- ===== src/Machinery/Regulator.antt =====
-- src/machinery/regulator.h: what compilations cost, and what may be inlined.
use arc_jit.Core.Graph.{u32}
use arc_jit.Machinery.Meter.{u64}
use arc_jit.Prelude.{
  ℕ, ◌+◌, ◌^◌, ◌≤◌, ◌<◌, ◌≡◌, ap, ◌∙◌, inl, inr, Bool, true, false, ◌&&◌, ltb, leb, if◌then◌else◌,
  Bool-cases, List, [], ◌∷◌, max, arith,
}

pub record CompileCost : Type 0 where
  pub compile_time_us : ℕ
  pub pass_time_us : ℕ
  pub graph_nodes : ℕ
  pub graph_edges : ℕ
  pub code_size_bytes : ℕ
  pub deopt_metadata_bytes : ℕ
  pub max_register_pressure : ℕ
  pub guard_count : ℕ
  pub deopt_sites : ℕ
  pub deopt_risk_score : ℕ
  pub expected_speedup_pct : ℕ

unfoldable pub is_worth_it : CompileCost → Bool
is_worth_it c =
    if ltb 10000 c.compile_time_us && ltb c.expected_speedup_pct 10
    then false
    else if ltb 65536 c.code_size_bytes && ltb c.expected_speedup_pct 20
    then false
    else if ltb 20 c.guard_count && ltb 50 c.deopt_risk_score
    then false
    else ltb 0 c.expected_speedup_pct

-- The time of the passes is not merged.
unfoldable pub merge : CompileCost → CompileCost → CompileCost
merge c other = record c {
  compile_time_us = u64 (c.compile_time_us + other.compile_time_us);
  graph_nodes = u32 (c.graph_nodes + other.graph_nodes);
  graph_edges = u32 (c.graph_edges + other.graph_edges);
  code_size_bytes = u32 (c.code_size_bytes + other.code_size_bytes);
  deopt_metadata_bytes = u32 (c.deopt_metadata_bytes + other.deopt_metadata_bytes);
  max_register_pressure = max c.max_register_pressure other.max_register_pressure;
  guard_count = u32 (c.guard_count + other.guard_count);
  deopt_sites = u32 (c.deopt_sites + other.deopt_sites);
  deopt_risk_score = max c.deopt_risk_score other.deopt_risk_score;
  expected_speedup_pct = max c.expected_speedup_pct other.expected_speedup_pct;
}

-- The budget of the nodes that are inlined.
pub record InlineBudget : Type 0 where
  pub max_nodes : ℕ
  pub max_depth : ℕ
  pub max_total_nodes : ℕ
  pub used_nodes : ℕ

abbrev pub default_inline_budget : InlineBudget
default_inline_budget = record {
  max_nodes = 32;
  max_depth = 3;
  max_total_nodes = 256;
  used_nodes = 0;
}

-- The sum has 32 bits.
unfoldable pub can_inline : InlineBudget → ℕ → ℕ → Bool
can_inline b callee_nodes depth =
    if leb b.max_depth depth
    then false
    else if ltb b.max_nodes callee_nodes
    then false
    else if ltb b.max_total_nodes (u32 (b.used_nodes + callee_nodes))
    then false
    else true

abbrev pub consume : ℕ → InlineBudget → InlineBudget
consume callee_nodes b = record b { used_nodes = u32 (b.used_nodes + callee_nodes) }

-- A request for a callee of some nodes at some depth is served if the budget allows it.
unfoldable pub inline_all : List (ℕ × ℕ) → InlineBudget → InlineBudget
inline_all [] b = b
inline_all ((nodes, depth) ∷ rest) b =
    inline_all rest (if can_inline b nodes depth then consume nodes b else b)

-- The nodes that the served requests bring in, counted without wrapping.
unfoldable pub nodes_inlined : List (ℕ × ℕ) → InlineBudget → ℕ
nodes_inlined [] b = 0
nodes_inlined ((nodes, depth) ∷ rest) b =
    if can_inline b nodes depth
    then nodes + nodes_inlined rest (consume nodes b)
    else nodes_inlined rest b

pub record Regulator : Type 0 where
  pub total_compile_time_us : ℕ
  pub total_code_bytes : ℕ
  pub total_guards : ℕ
  pub total_deopt_sites : ℕ
  pub compile_count : ℕ

unfoldable pub record_compile : CompileCost → Regulator → Regulator
record_compile c r = record {
  total_compile_time_us = u64 (r.total_compile_time_us + c.compile_time_us);
  total_code_bytes = u64 (r.total_code_bytes + c.code_size_bytes);
  total_guards = u32 (r.total_guards + c.guard_count);
  total_deopt_sites = u32 (r.total_deopt_sites + c.deopt_sites);
  compile_count = u32 (r.compile_count + 1);
}

-- While the limits on one callee and on the total add up to less than 2 ^ 32, the budget holds for
-- every sequence of requests: the nodes brought in, with those used before, are the nodes counted as
-- used and are within the limit on the total.
pub inline_all_lem :
    (requests : List (ℕ × ℕ)) (b : InlineBudget)
    → b.max_nodes + b.max_total_nodes < 2 ^ 32
    → b.used_nodes ≤ b.max_total_nodes
    → ((inline_all requests b).used_nodes ≡ b.used_nodes + nodes_inlined requests b)
      × (b.used_nodes + nodes_inlined requests b ≤ b.max_total_nodes)
unfolding inline_all nodes_inlined can_inline
inline_all_lem [] b h w = (omega arith, omega arith)
inline_all_lem ((nodes, depth) ∷ rest) b h w = elim (Bool-cases (can_inline b nodes depth)) [
  | inr refused ↦
      let r = inline_all_lem rest b h w in
      let left : (if can_inline b nodes depth then consume nodes b else b) ≡ b =
        ap (λ (t : Bool). if t then consume nodes b else b) refused in
      let used = ap (λ (t : InlineBudget). (inline_all rest t).used_nodes) left in
      (used ∙ rw refused r.0, rw refused r.1)
  | inl allowed ↦
      let small : nodes ≤ b.max_nodes = ground (arith, allowed) in
      let total : u32 (b.used_nodes + nodes) ≤ b.max_total_nodes = ground (arith, allowed) in
      let exact : u32 (b.used_nodes + nodes) ≡ b.used_nodes + nodes = omega arith in
      let r = inline_all_lem rest (consume nodes b) h total in
      let served : (if can_inline b nodes depth then consume nodes b else b) ≡ consume nodes b =
        ap (λ (t : Bool). if t then consume nodes b else b) allowed in
      let used = ap (λ (t : InlineBudget). (inline_all rest t).used_nodes) served in
      (used ∙ rw allowed (omega (arith, r.0, exact)), rw allowed (omega (arith, r.1, exact)))
]

u64_assoc : (x y z : ℕ) → u64 (u64 (x + y) + z) ≡ u64 (x + u64 (y + z))
u64_assoc x y z = omega arith

u32_assoc : (x y z : ℕ) → u32 (u32 (x + y) + z) ≡ u32 (x + u32 (y + z))
u32_assoc x y z = omega arith

max_assoc : (x y z : ℕ) → max (max x y) z ≡ max x (max y z)
max_assoc x y z = omega arith

-- The costs of three compilations, nested in each other, are the same in either grouping.
merge_assoc : (a b c : CompileCost) → merge (merge a b) c ≡ merge a (merge b c)
unfolding merge
merge_assoc a b c = rw (
  u64_assoc a.compile_time_us b.compile_time_us c.compile_time_us,
  u32_assoc a.graph_nodes b.graph_nodes c.graph_nodes,
  u32_assoc a.graph_edges b.graph_edges c.graph_edges,
  u32_assoc a.code_size_bytes b.code_size_bytes c.code_size_bytes,
  u32_assoc a.deopt_metadata_bytes b.deopt_metadata_bytes c.deopt_metadata_bytes,
  max_assoc a.max_register_pressure b.max_register_pressure c.max_register_pressure,
  u32_assoc a.guard_count b.guard_count c.guard_count,
  u32_assoc a.deopt_sites b.deopt_sites c.deopt_sites,
  max_assoc a.deopt_risk_score b.deopt_risk_score c.deopt_risk_score,
  max_assoc a.expected_speedup_pct b.expected_speedup_pct c.expected_speedup_pct,
)
