-- ===== src/Machinery/Capacitor.antt =====
-- src/machinery/capacitor.h and capacitor.cpp: the accounting of code memory. An address is a number.
-- The mutex that every operation holds makes each one step.
pub mod Keyed
pub mod Evicted
mod Tests
use arc_jit.Core.Graph.{u32}
use arc_jit.Machinery.Meter.{u64}
use arc_jit.Prelude.{
  ℕ, ◌+◌, ◌-◌, ◌^◌, Bool, true, false, ◌&&◌, ◌==◌, ltb, leb, if◌then◌else◌, Option, none, some,
  List, [], ◌∷◌, find, put,
}
use mathlib.Core.Bool.{not}

pub record CodeAllocation : Type 0 where
  pub base : ℕ
  pub size : ℕ
  pub age : ℕ
  pub hits : ℕ
  pub is_hot : Bool
  pub is_evictable : Bool

pub record Capacitor : Type 0 where
  pub allocations : List (ℕ × CodeAllocation)
  pub total_allocated : ℕ
  pub eviction_count : ℕ

abbrev pub new_capacitor : Capacitor
new_capacitor = record { allocations = []; total_allocated = 0; eviction_count = 0 }

abbrev pub register_allocation : ℕ → ℕ → Bool → Capacitor → Capacitor
register_allocation base size evictable c = record c {
  allocations =
      put base
        (record {
          base = base;
          size = size;
          age = 0;
          hits = 0;
          is_hot = false;
          is_evictable = evictable;
        })
        c.allocations;
  total_allocated = u64 (c.total_allocated + u32 size);
}

abbrev pub hit : CodeAllocation → CodeAllocation
hit a = record a {
  hits = u32 (a.hits + 1);
  age = 0;
  is_hot = if ltb 100 (u32 (a.hits + 1)) then true else a.is_hot;
}

abbrev pub hit_found : ℕ → Option CodeAllocation → Capacitor → Capacitor
hit_found base none c = c
hit_found base (some a) c = record c { allocations = put base (hit a) c.allocations }

abbrev pub record_hit : ℕ → Capacitor → Capacitor
record_hit base c = hit_found base (find base c.allocations) c

abbrev pub grow_old : CodeAllocation → CodeAllocation
grow_old a = record a {
  age = u32 (a.age + 1);
  is_hot = if ltb 10000 (u32 (a.age + 1)) && ltb a.hits 10 then false else a.is_hot;
}

abbrev pub age_each : List (ℕ × CodeAllocation) → List (ℕ × CodeAllocation)
age_each [] = []
age_each ((k, a) ∷ m) = (k, grow_old a) ∷ age_each m

abbrev pub age_all : Capacitor → Capacitor
age_all c = record c { allocations = age_each c.allocations }

abbrev pub candidates : List (ℕ × CodeAllocation) → List CodeAllocation
candidates [] = []
candidates ((k, a) ∷ m) = if a.is_evictable && not a.is_hot then a ∷ candidates m else candidates m

-- The comparison of the sort: fewer hits first, then the older one.
abbrev pub colder : CodeAllocation → CodeAllocation → Bool
colder a b = if a.hits == b.hits then ltb b.age a.age else ltb a.hits b.hits

-- `allocations_.erase`
abbrev pub erase_key : ℕ → List (ℕ × CodeAllocation) → List (ℕ × CodeAllocation)
erase_key k [] = []
erase_key k ((j, a) ∷ m) = if k == j then erase_key k m else (j, a) ∷ erase_key k m

pub record Eviction : Type 0 where
  pub freed : ℕ
  pub capacitor : Capacitor

abbrev pub evict_one : CodeAllocation → Eviction → Eviction
evict_one a v = record {
  freed = u64 (v.freed + u32 a.size);
  capacitor = record {
    allocations = erase_key a.base v.capacitor.allocations;
    total_allocated = u64 (v.capacitor.total_allocated + (2 ^ 64 - u32 a.size));
    eviction_count = u64 (v.capacitor.eviction_count + 1);
  };
}

unfoldable pub evict : ℕ → List CodeAllocation → Eviction → Eviction
evict target [] v = v
evict target (a ∷ xs) v =
    let rest = evict target xs (evict_one a v) in if leb target v.freed then v else rest

-- `std::sort` is the argument: where it puts equal elements is left open by it.
abbrev pub Sort : Type 0
Sort = (CodeAllocation → CodeAllocation → Bool) → List CodeAllocation → List CodeAllocation

abbrev pub evict_cold : Sort → ℕ → Capacitor → Eviction
evict_cold sort target c =
    evict target (sort colder (candidates c.allocations)) (record { freed = 0; capacitor = c })
