-- ===== src/Core/BitSet/Tests.antt =====
-- Sets of nodes across the border of a word.
use arc_jit.Core.BitSet.Laws.{bit_set_lem}
use arc_jit.Core.BitSet.{
  NodeBitSet, clear, clear_all, insert, intersection, new_bit_set, test, union,
}
use arc_jit.Prelude.{◌≡◌, false, ◌&&◌, ◌||◌, ◌==◌, if◌then◌else◌}

abbrev low_nodes : NodeBitSet
low_nodes = insert 63 (insert 3 (new_bit_set 10))

abbrev high_nodes : NodeBitSet
high_nodes = insert 64 (insert 3 (new_bit_set 100))

bit_set_example :
    (test (new_bit_set 10) 64 ≡ false)
    × (test (clear_all low_nodes) 64 ≡ false)
    × (test (insert 130 low_nodes) 64 ≡ (test low_nodes 64 || 64 == 130))
    × (test (clear 130 low_nodes) 64 ≡ (if 64 == 130 then false else test low_nodes 64))
    × (test (union low_nodes high_nodes) 64 ≡ (test low_nodes 64 || test high_nodes 64))
    × (test (intersection low_nodes high_nodes) 64 ≡ (test low_nodes 64 && test high_nodes 64))
bit_set_example = bit_set_lem 130 64 10 low_nodes high_nodes
