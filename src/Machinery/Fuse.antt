-- ===== src/Machinery/Fuse.antt =====
-- src/machinery/fuse.h: the compile budget.
use arc_jit.Core.Graph.{u32}
use arc_jit.Prelude.{
  ℕ, ◌+◌, ◌*◌, ◌^◌, ◌≤◌, ◌<◌, ◌≡◌, ◌≢◌, ◌↔◌, inl, inr, Bool, true, false, ◌==◌, ltb, leb,
  if◌then◌else◌, Bool-cases, List, [], ◌∷◌, arith, find_or, find_or-put_self, find_or-put_ne, put,
  sum_values, sum_values-put, refl,
}

-- The numbers are unsigned: the first two of 64 bits, the others of 32.
pub record CompileBudget : Type 0 where
  pub max_compile_time_us : ℕ
  pub max_compile_memory : ℕ
  pub max_graph_nodes : ℕ
  pub max_graph_edges : ℕ
  pub max_pass_iterations : ℕ
  pub max_passes : ℕ
  pub max_clones_per_function : ℕ
  pub max_total_clones : ℕ
  pub max_code_size_bytes : ℕ
  pub max_guards : ℕ
  pub max_deopt_sites : ℕ

abbrev pub default_budget : CompileBudget
default_budget = record {
  max_compile_time_us = 50000;
  max_compile_memory = 64 * 1024 * 1024;
  max_graph_nodes = 100000;
  max_graph_edges = 500000;
  max_pass_iterations = 16;
  max_passes = 32;
  max_clones_per_function = 4;
  max_total_clones = 256;
  max_code_size_bytes = 256 * 1024;
  max_guards = 64;
  max_deopt_sites = 128;
}

-- The names that `check` returns, with `within_budget` for the empty string.
pub data Blown : Type 0 where
  compile_time graph_nodes graph_edges code_size guard_count within_budget : Blown

pub record Fuse : Type 0 where
  pub budget : CompileBudget
  pub clone_counts : List (ℕ × ℕ)
  pub total_clones : ℕ

abbrev pub new_fuse : CompileBudget → Fuse
new_fuse b = record { budget = b; clone_counts = []; total_clones = 0 }

unfoldable pub check : Fuse → ℕ → ℕ → ℕ → ℕ → ℕ → Blown
check f elapsed_us nodes edges size guards =
    if ltb f.budget.max_compile_time_us elapsed_us
    then compile_time
    else if ltb f.budget.max_graph_nodes nodes
    then graph_nodes
    else if ltb f.budget.max_graph_edges edges
    then graph_edges
    else if ltb f.budget.max_code_size_bytes size
    then code_size
    else if ltb f.budget.max_guards guards
    then guard_count
    else within_budget

-- `clone_counts_[function_id]`: the entry is made if it is missing, also where the clone is refused.
abbrev pub touch : ℕ → Fuse → Fuse
touch id f = record f { clone_counts = put id (find_or 0 id f.clone_counts) f.clone_counts }

abbrev pub count_clone : ℕ → Fuse → Fuse
count_clone id f = record f {
  clone_counts = put id (u32 (find_or 0 id f.clone_counts + 1)) f.clone_counts;
  total_clones = u32 (f.total_clones + 1);
}

unfoldable pub register_clone : ℕ → Fuse → Bool × Fuse
register_clone id f =
    if leb f.budget.max_clones_per_function (find_or 0 id f.clone_counts)
    then (false, touch id f)
    else if leb f.budget.max_total_clones f.total_clones
    then (false, touch id f)
    else (true, count_clone id f)

abbrev pub set_budget : CompileBudget → Fuse → Fuse
set_budget b f = record f { budget = b }

-- Clones for a sequence of functions.
unfoldable pub register_clones : List ℕ → Fuse → Fuse
register_clones [] f = f
register_clones (id ∷ ids) f = register_clones ids (register_clone id f).1

-- The total is the sum of the counts and, like each count, within the budget.
pub record IsWithin (f : Fuse) : Type 0 where
  pub sum : f.total_clones ≡ sum_values f.clone_counts
  pub total : f.total_clones ≤ f.budget.max_total_clones
  pub each : (id : ℕ) → find_or 0 id f.clone_counts ≤ f.budget.max_clones_per_function
  pub word_each : f.budget.max_clones_per_function < 2 ^ 32
  pub word_total : f.budget.max_total_clones < 2 ^ 32

touch-IsWithin : (id : ℕ) (f : Fuse) → IsWithin f → IsWithin (touch id f)
touch-IsWithin id f w = record {
  sum = omega (arith, w.sum, sum_values-put id (find_or 0 id f.clone_counts) f.clone_counts);
  total = w.total;
  each = λ i. elim (Bool-cases (i == id)) [
    | inl same ↦ let here : i ≡ id = ground arith in rw (here, find_or-put_self) (w.each id)
    | inr other ↦ rw (find_or-put_ne 0 id i _ f.clone_counts (λ e. ground arith)) (w.each i)
  ];
  word_each = w.word_each;
  word_total = w.word_total;
}

count_clone-IsWithin :
    (id : ℕ) (f : Fuse)
    → IsWithin f
    → find_or 0 id f.clone_counts < f.budget.max_clones_per_function
    → f.total_clones < f.budget.max_total_clones
    → IsWithin (count_clone id f)
count_clone-IsWithin id f w few room =
    let one_more : u32 (find_or 0 id f.clone_counts + 1) ≡ find_or 0 id f.clone_counts + 1 =
      omega (arith, w.word_each) in
    let total_more : u32 (f.total_clones + 1) ≡ f.total_clones + 1 = omega (arith, w.word_total) in
    rw (one_more, total_more)
      (record {
        sum =
            omega
              (arith, w.sum, sum_values-put id (find_or 0 id f.clone_counts + 1) f.clone_counts);
        total = omega arith;
        each = λ i. elim (Bool-cases (i == id)) [
          | inl same ↦ let here : i ≡ id = ground arith in rw (here, find_or-put_self) (omega arith)
          | inr other ↦ rw (find_or-put_ne 0 id i _ f.clone_counts (λ e. ground arith)) (w.each i)
        ];
        word_each = w.word_each;
        word_total = w.word_total;
      })

register_clone-IsWithin : (id : ℕ) (f : Fuse) → IsWithin f → IsWithin (register_clone id f).1
unfolding register_clone
register_clone-IsWithin id f w =
    elim (Bool-cases (leb f.budget.max_clones_per_function (find_or 0 id f.clone_counts))) [
      | inl full ↦ rw full (touch-IsWithin id f w)
      | inr few ↦ rw few (elim (Bool-cases (leb f.budget.max_total_clones f.total_clones)) [
        | inl full ↦ rw full (touch-IsWithin id f w)
        | inr room ↦ rw room (count_clone-IsWithin id f w (ground arith) (ground arith))
      ])
    ]

-- From a fuse whose total is the sum of its counts, with the total and each count within a 32-bit
-- budget, any sequence of clone requests leads to such a fuse.
pub register_clones-IsWithin :
    (ids : List ℕ) (f : Fuse) → IsWithin f → IsWithin (register_clones ids f)
unfolding register_clones
register_clones-IsWithin [] f w = w
register_clones-IsWithin (id ∷ ids) f w =
    register_clones-IsWithin ids (register_clone id f).1 (register_clone-IsWithin id f w)

-- A clone is granted exactly if the function and the total have room in the budget.
register_clone_iff :
    (id : ℕ) (f : Fuse)
    → ((register_clone id f).0 ≡ true) ↔ (
        (find_or 0 id f.clone_counts < f.budget.max_clones_per_function)
        × (f.total_clones < f.budget.max_total_clones))
unfolding register_clone
register_clone_iff id f = ground arith

-- The counts of the other functions stay what they are, and the budget too.
register_clone_frame :
    (id i : ℕ) (f : Fuse)
    → i ≢ id
    → (find_or 0 i (register_clone id f).1.clone_counts ≡ find_or 0 i f.clone_counts)
      × ((register_clone id f).1.budget ≡ f.budget)
unfolding register_clone
register_clone_frame id i f h =
    elim (Bool-cases (leb f.budget.max_clones_per_function (find_or 0 id f.clone_counts))) [
      | inl full ↦ rw full (find_or-put_ne 0 id i _ f.clone_counts h, refl)
      | inr few ↦ rw few (elim (Bool-cases (leb f.budget.max_total_clones f.total_clones)) [
        | inl full ↦ rw full (find_or-put_ne 0 id i _ f.clone_counts h, refl)
        | inr room ↦ rw room (find_or-put_ne 0 id i _ f.clone_counts h, refl)
      ])
    ]

-- A clone is granted exactly if the function's count and the total are below their limits; the
-- counts of other functions and the budget never change.
pub register_clone_lem :
    (id i : ℕ) (f : Fuse)
    → i ≢ id
    → (((register_clone id f).0 ≡ true) ↔ (
        (find_or 0 id f.clone_counts < f.budget.max_clones_per_function)
        × (f.total_clones < f.budget.max_total_clones)))
      × (find_or 0 i (register_clone id f).1.clone_counts ≡ find_or 0 i f.clone_counts)
      × ((register_clone id f).1.budget ≡ f.budget)
register_clone_lem id i f h =
    (register_clone_iff id f, (register_clone_frame id i f h).0, (register_clone_frame id i f h).1)

-- The check names no blown budget exactly if the time, the nodes, the edges, the code size and the
-- guards are all within their limits.
pub check_iff :
    (f : Fuse) (elapsed_us nodes edges size guards : ℕ)
    → (check f elapsed_us nodes edges size guards ≡ within_budget) ↔ (
        (elapsed_us ≤ f.budget.max_compile_time_us)
        × (nodes ≤ f.budget.max_graph_nodes)
        × (edges ≤ f.budget.max_graph_edges)
        × (size ≤ f.budget.max_code_size_bytes)
        × (guards ≤ f.budget.max_guards))
unfolding check
check_iff f elapsed_us nodes edges size guards = ground arith
