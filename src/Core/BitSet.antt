-- ===== src/Core/BitSet.antt =====
-- src/core/bitmask.h, `NodeBitSet`: a set of nodes as a vector of words of 64 bits.
pub mod Laws
mod Tests
use arc_jit.Prelude.{
  ℕ, zero, suc, ◌+◌, ◌-◌, ◌/◌, ◌%◌, Bool, true, false, ◌&&◌, ◌||◌, ◌==◌, ltb, leb, if◌then◌else◌,
  List, [], ◌∷◌, ◌++◌, length, get_or, map, replicate, set,
}

-- A word gives its bits by their numbers, 0 to 63.
abbrev pub Word : Type 0
Word = ℕ → Bool

abbrev pub zero_word : Word
zero_word = λ j. false

abbrev pub NodeBitSet : Type 0
NodeBitSet = List Word

-- The constructor and `resize`.
unfoldable pub new_bit_set : ℕ → NodeBitSet
new_bit_set max_nodes = replicate ((max_nodes + 63) / 64) zero_word

abbrev pub grow : ℕ → NodeBitSet → NodeBitSet
grow n s = s ++ replicate (n - length s) zero_word

abbrev pub word_at : NodeBitSet → ℕ → Word
word_at s idx = get_or s idx zero_word

-- `bits_[id >> 6] |= 1 << (id & 63)`, where the vector grows if it is too short.
unfoldable pub insert : ℕ → NodeBitSet → NodeBitSet
insert id s =
    let g = if leb (length s) (id / 64) then grow (id / 64 + 1) s else s in
    set g (id / 64) (λ j. word_at g (id / 64) j || j == id % 64)

unfoldable pub clear : ℕ → NodeBitSet → NodeBitSet
clear id s =
    if ltb (id / 64) (length s)
    then set s (id / 64) (λ j. if j == id % 64 then false else word_at s (id / 64) j)
    else s

unfoldable pub test : NodeBitSet → ℕ → Bool
test s id = ltb (id / 64) (length s) && word_at s (id / 64) (id % 64)

unfoldable pub clear_all : NodeBitSet → NodeBitSet
clear_all s = map (λ w. zero_word) s

-- `operator|=`: the vector grows to the length of the other.
unfoldable pub union : NodeBitSet → NodeBitSet → NodeBitSet
union [] [] = []
union (w ∷ ws) [] = w ∷ ws
union [] (v ∷ vs) = (λ j. zero_word j || v j) ∷ union [] vs
union (w ∷ ws) (v ∷ vs) = (λ j. w j || v j) ∷ union ws vs

-- `operator&=`: the words past the end of the other become zero.
unfoldable pub intersection : NodeBitSet → NodeBitSet → NodeBitSet
intersection [] vs = []
intersection (w ∷ ws) [] = zero_word ∷ intersection ws []
intersection (w ∷ ws) (v ∷ vs) = (λ j. w j && v j) ∷ intersection ws vs
