-- ===== src/Machinery/Governor.antt =====
-- src/machinery/governor.h and governor.cpp: the choice of speculation.
use arc_jit.Machinery.Meter.{ConfidenceLevel, rank}
use mathlib.Core.Path.{subst}
use arc_jit.Prelude.{
  ℕ, ◌≤◌, ◌<◌, ◌≡◌, sym, ap, inl, inr, ◌⊎◌, Bool, true, false, ◌&&◌, ◌==◌, ltb, leb, if◌then◌else◌,
  Bool-cases, arith,
}

pub data SpeculationDecision : Type 0 where
  do_not_speculate insert_guard uncommon_trap polymorphic megamorphic : SpeculationDecision
  clone recompile : SpeculationDecision

pub record SpeculationContext : Type 0 where
  pub confidence : ConfidenceLevel
  pub is_monomorphic : Bool
  pub distinct_types : ℕ
  pub deopt_count : ℕ
  pub is_storm : Bool
  pub guard_cost : ℕ
  pub code_size_budget_remaining : ℕ
  pub clone_budget_remaining : ℕ
  pub expected_speedup_pct : ℕ

-- Rule 6: a monomorphic site of high confidence.
unfoldable pub decide_high : SpeculationContext → SpeculationDecision
decide_high ctx =
    if ltb 0 ctx.guard_cost && ltb ctx.code_size_budget_remaining ctx.guard_cost
    then uncommon_trap
    else if rank ctx.confidence == 4
        && ltb 30 ctx.expected_speedup_pct
        && ltb 0 ctx.clone_budget_remaining
    then clone
    else insert_guard

-- Rules 6 and 7, and the default.
unfoldable pub decide_alone : SpeculationContext → SpeculationDecision
decide_alone ctx =
    if ctx.is_monomorphic && leb 3 (rank ctx.confidence)
    then decide_high ctx
    else if ctx.is_monomorphic && leb 2 (rank ctx.confidence)
    then uncommon_trap
    else do_not_speculate

-- Rules 2 to 7, where there is no storm.
unfoldable pub decide_calm : SpeculationContext → SpeculationDecision
decide_calm ctx =
    if ltb 5 ctx.deopt_count && leb (rank ctx.confidence) 1
    then do_not_speculate
    else if rank ctx.confidence == 0
    then do_not_speculate
    else if ltb 4 ctx.distinct_types
    then megamorphic
    else if leb 2 ctx.distinct_types && leb ctx.distinct_types 4
    then if leb 2 (rank ctx.confidence) then polymorphic else do_not_speculate
    else decide_alone ctx

unfoldable pub decide : SpeculationContext → SpeculationDecision
decide ctx = if ctx.is_storm then recompile else decide_calm ctx

-- Rule 2: a site that deoptimised more than five times is speculated on only with a confidence above
-- Low.
abbrev pub IsStable : SpeculationContext → Type 0
IsStable ctx = (ctx.deopt_count ≤ 5) ⊎ (2 ≤ rank ctx.confidence)

-- Why a site is left alone.
pub data Declined (ctx : SpeculationContext) : Type 0 where
  unstable : 5 < ctx.deopt_count → rank ctx.confidence ≤ 1 → Declined ctx
  unknown : rank ctx.confidence ≡ 0 → Declined ctx
  doubtful : rank ctx.confidence ≤ 1 → ctx.distinct_types ≤ 4 → Declined ctx
  mixed : ctx.is_monomorphic ≡ false → ctx.distinct_types < 2 → Declined ctx

-- What must hold of a site for a decision.
abbrev pub IsJustified : SpeculationContext → SpeculationDecision → Type 0
IsJustified ctx recompile = ctx.is_storm ≡ true
IsJustified ctx do_not_speculate = (ctx.is_storm ≡ false) × Declined ctx
IsJustified ctx megamorphic =
    (ctx.is_storm ≡ false) × IsStable ctx × (1 ≤ rank ctx.confidence) × (4 < ctx.distinct_types)
IsJustified ctx polymorphic =
    (ctx.is_storm ≡ false)
    × (2 ≤ rank ctx.confidence)
    × (2 ≤ ctx.distinct_types)
    × (ctx.distinct_types ≤ 4)
IsJustified ctx uncommon_trap =
    (ctx.is_storm ≡ false)
    × (ctx.is_monomorphic ≡ true)
    × (2 ≤ rank ctx.confidence)
    × (ctx.distinct_types < 2)
IsJustified ctx insert_guard =
    (ctx.is_storm ≡ false)
    × (ctx.is_monomorphic ≡ true)
    × (3 ≤ rank ctx.confidence)
    × (ctx.distinct_types < 2)
    × (ctx.guard_cost ≤ ctx.code_size_budget_remaining)
IsJustified ctx clone =
    (ctx.is_storm ≡ false)
    × (ctx.is_monomorphic ≡ true)
    × (rank ctx.confidence ≡ 4)
    × (ctx.distinct_types < 2)
    × (ctx.guard_cost ≤ ctx.code_size_budget_remaining)
    × (30 < ctx.expected_speedup_pct)
    × (0 < ctx.clone_budget_remaining)

decide_high-IsJustified :
    (ctx : SpeculationContext)
    → ctx.is_storm ≡ false
    → ctx.is_monomorphic ≡ true
    → 3 ≤ rank ctx.confidence
    → ctx.distinct_types < 2
    → IsJustified ctx (decide_high ctx)
unfolding decide_high
decide_high-IsJustified ctx calm mono sure few =
    elim (Bool-cases (ltb 0 ctx.guard_cost && ltb ctx.code_size_budget_remaining ctx.guard_cost)) [
      | inl dear ↦ rw dear (calm, mono, omega arith, few)
      | inr cheap ↦
          let cost : ctx.guard_cost ≤ ctx.code_size_budget_remaining = ground arith in
          rw cheap
            (elim (Bool-cases (
              rank ctx.confidence == 4
              && ltb 30 ctx.expected_speedup_pct
              && ltb 0 ctx.clone_budget_remaining)) [
                | inl worth ↦
                    rw worth (calm, mono, ground arith, few, cost, ground arith, ground arith)
                | inr not_worth ↦ rw not_worth (calm, mono, sure, few, cost)
              ])
    ]

alone-Declined :
    (ctx : SpeculationContext)
    → ctx.distinct_types < 2
    → (ctx.is_monomorphic && leb 2 (rank ctx.confidence)) ≡ false
    → Declined ctx
alone-Declined ctx few poor = elim (Bool-cases ctx.is_monomorphic) [
  | inl mono ↦ doubtful (ground arith) (omega arith)
  | inr other ↦ mixed other few
]

site-IsStable :
    (ctx : SpeculationContext)
    → (ltb 5 ctx.deopt_count && leb (rank ctx.confidence) 1) ≡ false
    → IsStable ctx
site-IsStable ctx h = elim (Bool-cases (ltb 5 ctx.deopt_count)) [
  | inl often ↦ inr (ground arith)
  | inr seldom ↦ inl (ground arith)
]

decide_alone-IsJustified :
    (ctx : SpeculationContext)
    → ctx.is_storm ≡ false
    → ctx.distinct_types < 2
    → IsJustified ctx (decide_alone ctx)
unfolding decide_alone
decide_alone-IsJustified ctx calm few =
    elim (Bool-cases (ctx.is_monomorphic && leb 3 (rank ctx.confidence))) [
      | inl sure ↦ rw sure (decide_high-IsJustified ctx calm (ground arith) (ground arith) few)
      | inr unsure ↦
          rw unsure (elim (Bool-cases (ctx.is_monomorphic && leb 2 (rank ctx.confidence))) [
            | inl fair ↦ rw fair (calm, ground arith, ground arith, few)
            | inr poor ↦ rw poor (calm, alone-Declined ctx few poor)
          ])
    ]

decide_calm-IsJustified :
    (ctx : SpeculationContext) → ctx.is_storm ≡ false → IsJustified ctx (decide_calm ctx)
unfolding decide_calm
decide_calm-IsJustified ctx calm =
    elim (Bool-cases (ltb 5 ctx.deopt_count && leb (rank ctx.confidence) 1)) [
      | inl shaky ↦ rw shaky (calm, unstable (ground arith) (ground arith))
      | inr stable ↦ rw stable (elim (Bool-cases (rank ctx.confidence == 0)) [
        | inl none_known ↦ rw none_known (calm, unknown (ground arith))
        | inr known ↦ rw known (elim (Bool-cases (ltb 4 ctx.distinct_types)) [
          | inl many ↦ rw many (calm, site-IsStable ctx stable, ground arith, ground arith)
          | inr not_many ↦
              rw not_many
                (elim (Bool-cases (leb 2 ctx.distinct_types && leb ctx.distinct_types 4)) [
                  | inr few ↦ rw few (decide_alone-IsJustified ctx calm (ground arith))
                  | inl several ↦ rw several (elim (Bool-cases (leb 2 (rank ctx.confidence))) [
                    | inl fair ↦ rw fair (calm, ground arith, ground arith, ground arith)
                    | inr poor ↦ rw poor (calm, doubtful (ground arith) (ground arith))
                  ])
                ])
        ])
      ])
    ]

decide-cases :
    (ctx : SpeculationContext)
    → ((ctx.is_storm ≡ true) × (decide ctx ≡ recompile))
      ⊎ ((ctx.is_storm ≡ false) × (decide ctx ≡ decide_calm ctx))
unfolding decide
decide-cases ctx = elim (Bool-cases ctx.is_storm) [
  | inl storm ↦ inl (storm, ap (λ (b : Bool). if b then recompile else decide_calm ctx) storm)
  | inr calm ↦ inr (calm, ap (λ (b : Bool). if b then recompile else decide_calm ctx) calm)
]

-- Every decision is justified: recompilation by a storm, a clone or a guard by a monomorphic site of
-- high confidence without a storm and with room for the guard, a clone also by a speedup and a clone
-- budget, a trap by a monomorphic site of medium confidence, polymorphic code by two to four types
-- and megamorphic code by more; a site without a storm but with more than five deoptimisations gets
-- none of these without a confidence of at least Medium; and a site without a storm is left alone only for one of four
-- reasons: many deoptimisations with low confidence, no confidence, low confidence with at most four
-- types, or fewer than two types without being monomorphic.
pub decide-IsJustified : (ctx : SpeculationContext) → IsJustified ctx (decide ctx)
decide-IsJustified ctx = elim (decide-cases ctx) [
  | inl (storm, e) ↦ subst (IsJustified ctx) (sym e) storm
  | inr (calm, e) ↦ subst (IsJustified ctx) (sym e) (decide_calm-IsJustified ctx calm)
]
