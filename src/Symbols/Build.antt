-- ===== src/Symbols/Build.antt =====
-- Maps that are built by calls of map_set from the null map.
use tools.Base.{
  ℕ, ◌+◌, ◌*◌, ◌^◌, ◌≤◌, ◌≡◌, refl, ◌∙◌, ap, List, [], ◌∷◌, Option, none, some, if◌then◌else◌,
}
use tools.Symbols.Tree.{Tree, leaf}
use tools.Symbols.Map.{KeyOrder, map_find, map_set, map_get, map_count}
use tools.Symbols.Sorted.{is_key}
use tools.Symbols.Lookup.{IsOrdered}
use tools.Symbols.Laws.{map_get-map_set}
use tools.Symbols.Entries.{entries}
use tools.Symbols.Balance.{IsBalanced}
use tools.Symbols.Depth.{map_set-IsBalanced, compared, compared-IsBalanced}

module _ {ℓ κ} {K : Type ℓ} {V : Type κ} ⦃o : KeyOrder K⦄ where
  unfoldable pub set_all : List (K × V) → Tree K V → Tree K V
  set_all [] m = m
  set_all ((k, v) ∷ es) m = set_all es (map_set m k v)

  -- what the calls say of a key: the last value that was set, or what was known before
  abbrev pub last_value : K → List (K × V) → Option V → Option V
  last_value q [] known = known
  last_value q ((k, v) ∷ es) known = last_value q es (if is_key k q then some v else known)

  set_all_lem :
      (es : List (K × V)) (m : Tree K V) (q : K)
      → IsOrdered m
      → IsBalanced m
      → (map_get (set_all es m) q ≡ last_value q es (map_get m q)) × IsBalanced (set_all es m)
  unfolding set_all
  set_all_lem [] m q s b = (refl, b)
  set_all_lem ((k, v) ∷ es) m q s b =
      let (reads, ordered) = map_get-map_set m k q v s in
      let (rest, balanced) =
        set_all_lem es (map_set m k v) q ordered (map_set-IsBalanced m k v b) in
      (rest ∙ ap (last_value q es) reads, balanced)

  -- After any calls of map_set from the null map, map_get of a key gives the value that was set
  -- last under a key equal to it, or nothing, and finds it by at most 2 k comparisons for a k with
  -- 2 ^ k at most the number of entries plus 1.
  pub map_get-set_all :
      (es : List (K × V)) (q : K)
      → (map_get (set_all es leaf) q ≡ last_value q es none)
        × ((k : ℕ) × (compared (set_all es leaf) q ≤ 2 * k)
            × (2 ^ k ≤ map_count (set_all es leaf) + 1))
  map_get-set_all es q =
      let (reads, balanced) = set_all_lem es leaf q (unfold entries in tt) tt in
      (
        reads ∙ ap (last_value q es) (unfold map_get map_find in refl),
        compared-IsBalanced (set_all es leaf) q balanced,
      )
