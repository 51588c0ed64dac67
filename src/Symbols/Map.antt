-- ===== src/Symbols/Map.antt =====
-- The operations on maps of as-c/src/value.c.
use Prim.Native.Nat.{Ordering}
use Prim.Native.Nat.Ordering.{lt, eq, gt}
use tools.Base.{ℕ, ◌+◌, ◌≡◌, Option, none, some}
use tools.Symbols.Tree.{red, Tree, leaf, node, Ancestors, top, left_of, right_of, repair}

-- `strncmp` of the C library on the first MAX_LABEL characters: a total order of keys, in which
-- two keys with the same first characters are equal.
pub record KeyOrder {ℓ} (K : Type ℓ) : Type ℓ where
  pub strncmp : K → K → Ordering
  pub cmp_refl : (a : K) → strncmp a a ≡ eq
  pub lt_of_gt : (a b : K) → strncmp a b ≡ gt → strncmp b a ≡ lt
  pub gt_of_lt : (a b : K) → strncmp a b ≡ lt → strncmp b a ≡ gt
  pub lt_trans : (a b c : K) → strncmp a b ≡ lt → strncmp b c ≡ lt → strncmp a c ≡ lt
  pub eq_left : (a b c : K) → strncmp a b ≡ eq → strncmp a c ≡ strncmp b c

module _ {ℓ κ} {K : Type ℓ} {V : Type κ} ⦃o : KeyOrder K⦄ where
  unfoldable pub map_find : Tree K V → K → Option V
  map_find leaf key = none
  map_find (node c l k v r) key = elim (o.strncmp k key) [
    | gt ↦ map_find l key
    | eq ↦ some v
    | lt ↦ map_find r key
  ]

  -- the node that is found gets the value; its key stays
  unfoldable pub replace : Tree K V → K → V → Tree K V
  replace leaf key value = leaf
  replace (node c l k v r) key value = elim (o.strncmp k key) [
    | gt ↦ node c (replace l key value) k v r
    | eq ↦ node c l k value r
    | lt ↦ node c l k v (replace r key value)
  ]

  -- insertRecurse: the way down to the place of the new node
  unfoldable pub descend : K → Tree K V → Ancestors K V → Ancestors K V
  descend key leaf up = up
  descend key (node c l k v r) up = elim (o.strncmp key k) [
    | lt ↦ descend key l (left_of c k v r up)
    | eq ↦ descend key r (right_of c l k v up)
    | gt ↦ descend key r (right_of c l k v up)
  ]

  -- The new node comes from as_mallocz, so it has no children and the color 0, which is RED.
  unfoldable pub insert : Tree K V → K → V → Tree K V
  insert root key value = repair (node red leaf key value leaf) (descend key root top)

  -- The first node of a map is not repaired and stays red.
  abbrev pub add_node : Tree K V → K → V → Tree K V
  add_node leaf key value = node red leaf key value leaf
  add_node map key value = insert map key value

  -- by what map_find returns
  abbrev pub set_found : Option V → Tree K V → K → V → Tree K V
  set_found none map key value = add_node map key value
  set_found (some _) map key value = replace map key value

  unfoldable pub map_set : Tree K V → K → V → Tree K V
  map_set map key value = set_found (map_find map key) map key value

  unfoldable pub map_get : Tree K V → K → Option V
  map_get map key = map_find map key

module _ {ℓ κ} {K : Type ℓ} {V : Type κ} where
  unfoldable pub map_count : Tree K V → ℕ
  map_count leaf = 0
  map_count (node c l k v r) = 1 + map_count l + map_count r
