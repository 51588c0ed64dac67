-- ===== src/Symbols/Tests.antt =====
-- The theorems on maps at maps of numbers.
use Prim.Native.Nat.{compare, Ordering}
use tools.Base.{ℕ, ◌+◌, ◌*◌, ◌^◌, ◌≤◌, ◌≡◌, List, [], ◌∷◌, some, arith}
use tools.Symbols.Tree.{Tree, leaf, node, red, black}
use tools.Symbols.Map.{KeyOrder, map_set, map_get, map_count, map_find}
use tools.Symbols.Lookup.{IsOrdered}
use tools.Symbols.Laws.{map_get-map_set}
use tools.Symbols.Balance.{IsBalanced}
use tools.Symbols.Entries.{entries}
use tools.Symbols.Depth.{map_set-IsBalanced, compared}
use tools.Symbols.Build.{set_all, map_get-set_all}

compare_refl : (a : ℕ) → compare a a ≡ Ordering.eq
compare_refl a = ground arith

compare-lt_of_gt : (a b : ℕ) → compare a b ≡ Ordering.gt → compare b a ≡ Ordering.lt
compare-lt_of_gt a b h = ground arith

compare-gt_of_lt : (a b : ℕ) → compare a b ≡ Ordering.lt → compare b a ≡ Ordering.gt
compare-gt_of_lt a b h = ground arith

compare-lt_trans :
    (a b c : ℕ) → compare a b ≡ Ordering.lt → compare b c ≡ Ordering.lt → compare a c ≡ Ordering.lt
compare-lt_trans a b c h k = ground arith

compare-eq_left : (a b c : ℕ) → compare a b ≡ Ordering.eq → compare a c ≡ compare b c
compare-eq_left a b c h = ground arith

instance by_number : KeyOrder ℕ
by_number = record {
  strncmp = compare;
  cmp_refl = compare_refl;
  lt_of_gt = compare-lt_of_gt;
  gt_of_lt = compare-gt_of_lt;
  lt_trans = compare-lt_trans;
  eq_left = compare-eq_left;
}

abbrev three : Tree ℕ ℕ
three = node black (node red leaf 1 10 leaf) 2 20 (node red leaf 3 30 leaf)

map_get-map_set_example :
    (map_get (map_set three 4 40) 3 ≡ some 30) × IsOrdered (map_set three 4 40)
unfolding map_get map_find by_number
map_get-map_set_example = map_get-map_set three 4 3 40 (unfold entries in ground arith)

map_set-IsBalanced_example : IsBalanced (map_set three 4 40)
map_set-IsBalanced_example = map_set-IsBalanced three 4 40 (ground arith)

abbrev calls : List (ℕ × ℕ)
calls = (5, 50) ∷ (6, 60) ∷ (5, 55) ∷ []

abbrev built : Tree ℕ ℕ
built = set_all calls leaf

map_get-set_all_example :
    (map_get built 5 ≡ some 55)
    × ((k : ℕ) × (compared built 5 ≤ 2 * k) × (2 ^ k ≤ map_count built + 1))
unfolding by_number
map_get-set_all_example = map_get-set_all calls 5
