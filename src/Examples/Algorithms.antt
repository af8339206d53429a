-- ===== src/Examples/Algorithms.antt =====
-- The theorems on the sample algorithms, at the tree of test_tree and at a number.
use redis_rest.Base.{ℕ, ◌*◌, ◌^◌, ◌≤◌, ◌<◌, ◌&&◌, false, Option, none, some, ◌≡◌, refl, arith}
use redis_rest.Base.Int.{pos}
use redis_rest.Samples.Ancestor.{
  Tree, null, node, covers, common_ancestor, Distinct, Within, Lowest, common_ancestor-Lowest,
}
use redis_rest.Samples.Length.{length, length-Bits}

abbrev single : ℕ → Tree
single id = node id (pos id) null null

abbrev left_side : Tree
left_side = node 2 (pos 2) (single 1) (single 3)

abbrev right_side : Tree
right_side = node 5 (pos 5) null (single 4)

abbrev test_tree : Tree
test_tree = node 6 (pos 6) left_side right_side

sides_apart : (p : Option ℕ) → (covers left_side p && covers right_side p) ≡ false
unfolding covers
sides_apart none = refl
sides_apart (some p) = ground arith

leaves_apart : (p : Option ℕ) → (covers (single 1) p && covers (single 3) p) ≡ false
unfolding covers
leaves_apart none = refl
leaves_apart (some p) = ground arith

test_tree-Distinct : Distinct test_tree
unfolding covers
test_tree-Distinct = (
  refl,
  refl,
  sides_apart,
  (refl, refl, leaves_apart, (refl, refl, λ p. refl, tt, tt), (refl, refl, λ p. refl, tt, tt)),
  (refl, refl, λ p. refl, tt, (refl, refl, λ p. refl, tt, tt)),
)

common_ancestor-Lowest_example :
    Within test_tree (common_ancestor test_tree (some 3) (some 4))
    × Lowest (some 3) (some 4) (common_ancestor test_tree (some 3) (some 4))
unfolding covers
common_ancestor-Lowest_example =
    common_ancestor-Lowest test_tree (some 3) (some 4) test_tree-Distinct refl refl

length-Bits_example :
    (n : ℕ) × (length (pos 1000) ≡ some n) × (1000 < 2 ^ n) × (2 ^ n ≤ 2 * 1000) × (n ≤ 31)
length-Bits_example = length-Bits 1000 (omega arith) (omega arith)
