-- ===== src/Interp/Value.antt =====
-- src/bytecode/value.h, value.cpp and heap.h: values, the objects they name, and truth. A reference
-- count and the memory of an object are not modelled: an object stays once it is made.
use arc_jit.Prelude.{
  ℕ, ◌+◌, ◌-◌, Bool, true, false, ◌==◌, if◌then◌else◌, Option, none, some, List, [], ◌∷◌, ◌++◌,
  length, get_elem?,
}

-- An integer is its 64 bits, a double its 64 bits and an object its address.
pub data Value : Type 0 where
  undef null : Value
  int float obj : ℕ → Value

-- What the interpreter reads of an object; the other kinds are their `ObjType`.
pub data Object : Type 0 where
  number_int number_float : ℕ → Object
  string : List ℕ → Object
  list : List ℕ → Object
  null_object : Object
  other_object : ℕ → Object

-- Address 0 is the null pointer; the objects follow in the order in which they were made.
abbrev pub Heap : Type 0
Heap = List (Object × Bool)

unfoldable pub object_at : Heap → ℕ → Option Object
object_at h p = if p == 0 then none else read (get_elem? h (p - 1))
  where
    read : Option (Object × Bool) → Option Object
    read none = none
    read (some (o, _)) = some o

abbrev pub is_undef : Value → Bool
is_undef undef = true
is_undef _ = false

abbrev pub is_null : Value → Bool
is_null null = true
is_null _ = false

-- The new string, which is not static, and its address.
unfoldable pub alloc_string : List ℕ → Heap → Value × Heap
alloc_string s h = (obj (length h + 1), h ++ ((string s, false) ∷ []))
