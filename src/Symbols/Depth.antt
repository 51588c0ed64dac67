-- ===== src/Symbols/Depth.antt =====
-- How far map_find has to go.
use Prim.Native.Nat.Ordering.{lt, eq, gt}
use native.Mathlib.Nat.{two-pow-succ}
use tools.Base.{ℕ, suc, ◌+◌, ◌*◌, ◌^◌, ◌≤◌, ◌≡◌, refl, arith, if◌then◌else◌, Option, none, some}
use tools.Symbols.Tree.{red, black, Tree, leaf, node, Ancestors, top, left_of, right_of, is_red}
use tools.Symbols.Map.{KeyOrder, map_find, replace, descend, insert, set_found, map_set, map_count}
use tools.Symbols.Balance.{height, IsSound, IsBalanced, HasPlace, Fits, repair-IsBalanced}

module _ {ℓ κ} {K : Type ℓ} {V : Type κ} ⦃o : KeyOrder K⦄ where
  descend-Fits :
      (key : K) (t : Tree K V) (up : Ancestors K V)
      → IsSound t
      → HasPlace t up
      → Fits (height t) up
      → Fits 0 (descend key t up)
  unfolding descend
  descend-Fits key leaf up s p f = f
  descend-Fits key (node red l k v r) up s p f =
      ground (
        arith,
        descend-Fits key l (left_of red k v r up),
        descend-Fits key r (right_of red l k v up),
      )
  descend-Fits key (node black l k v r) up s p f = ground (
    arith,
    descend-Fits key l (left_of black k v r up),
    descend-Fits key r (right_of black l k v up),
  )

  descend_root : (key : K) (t : Tree K V) → IsBalanced t → Fits 0 (descend key t top)
  unfolding descend
  descend_root key leaf s = tt
  descend_root key (node red l k v r) s = ground (
    arith,
    descend-Fits key l (left_of red k v r top),
    descend-Fits key r (right_of red l k v top),
  )
  descend_root key (node black l k v r) s = ground (
    arith,
    descend-Fits key l (left_of black k v r top),
    descend-Fits key r (right_of black l k v top),
  )

  insert-IsBalanced : (m : Tree K V) (key : K) (v : V) → IsBalanced m → IsBalanced (insert m key v)
  unfolding insert
  insert-IsBalanced m key v s =
      repair-IsBalanced leaf key v leaf (descend key m top) (ground arith) (descend_root key m s)

  -- a replaced value leaves the shape and the colors
  height-replace : (m : Tree K V) (key : K) (v : V) → height (replace m key v) ≡ height m
  unfolding replace
  height-replace leaf key v = refl
  height-replace (node c l k w r) key v = ground (arith, height-replace l key v)

  is_red-replace : (m : Tree K V) (key : K) (v : V) → is_red (replace m key v) ≡ is_red m
  unfolding replace
  is_red-replace leaf key v = refl
  is_red-replace (node red l k w r) key v = ground arith
  is_red-replace (node black l k w r) key v = ground arith

  replace-IsSound : (m : Tree K V) (key : K) (v : V) → IsSound m → IsSound (replace m key v)
  unfolding replace
  replace-IsSound leaf key v s = s
  replace-IsSound (node red l k w r) key v s = ground (
    arith,
    height-replace l key v,
    height-replace r key v,
    is_red-replace l key v,
    is_red-replace r key v,
    replace-IsSound l key v,
    replace-IsSound r key v,
  )
  replace-IsSound (node black l k w r) key v s = ground (
    arith,
    height-replace l key v,
    height-replace r key v,
    replace-IsSound l key v,
    replace-IsSound r key v,
  )

  replace-IsBalanced :
      (m : Tree K V) (key : K) (v : V) → IsBalanced m → IsBalanced (replace m key v)
  unfolding replace
  replace-IsBalanced leaf key v s = s
  replace-IsBalanced (node c l k w r) key v s = ground (
    arith,
    height-replace l key v,
    height-replace r key v,
    replace-IsSound l key v,
    replace-IsSound r key v,
  )

  set_found-IsBalanced :
      (found : Option V) (m : Tree K V) (key : K) (v : V)
      → IsBalanced m
      → IsBalanced (set_found found m key v)
  set_found-IsBalanced none leaf key v s = ground arith
  set_found-IsBalanced none (node c l k w r) key v s = insert-IsBalanced (node c l k w r) key v s
  set_found-IsBalanced (some w) m key v s = replace-IsBalanced m key v s

  -- map_set keeps a map balanced: every way down passes the same number of black nodes, and below
  -- the children of the root no red node has a red child.
  pub map_set-IsBalanced :
      (m : Tree K V) (key : K) (v : V) → IsBalanced m → IsBalanced (map_set m key v)
  unfolding map_set
  map_set-IsBalanced m key v s = set_found-IsBalanced (map_find m key) m key v s

  -- the number of keys that map_find compares
  unfoldable pub compared : Tree K V → K → ℕ
  compared leaf key = 0
  compared (node c l k v r) key =
      suc (elim (o.strncmp k key) [ gt ↦ compared l key | eq ↦ 0 | lt ↦ compared r key ])

  compared-IsSound :
      (t : Tree K V) (key : K)
      → IsSound t
      → compared t key ≤ (if is_red t then 1 else 0) + 2 * height t
  unfolding compared
  compared-IsSound leaf key s = omega arith
  compared-IsSound (node red l k v r) key s =
      ground (arith, compared-IsSound l key, compared-IsSound r key)
  compared-IsSound (node black l k v r) key s =
      ground (arith, compared-IsSound l key, compared-IsSound r key)

  count-IsSound : (t : Tree K V) → IsSound t → 2 ^ height t ≤ map_count t + 1
  unfolding map_count
  count-IsSound leaf s = omega arith
  count-IsSound (node red l k v r) s = ground (arith, count-IsSound l, count-IsSound r)
  count-IsSound (node black l k v r) s =
      ground (arith, count-IsSound l, count-IsSound r, two-pow-succ (height l))

  -- In a balanced map with n entries map_find compares at most 2 k keys for a k with
  -- 2 ^ k at most n + 1.
  pub compared-IsBalanced :
      (m : Tree K V) (key : K)
      → IsBalanced m
      → (k : ℕ) × (compared m key ≤ 2 * k) × (2 ^ k ≤ map_count m + 1)
  unfolding compared map_count
  compared-IsBalanced leaf key s = (0, omega arith, omega arith)
  compared-IsBalanced (node c l k v r) key s = (
    suc (height l),
    ground (arith, compared-IsSound l key, compared-IsSound r key),
    ground (arith, count-IsSound l, count-IsSound r, two-pow-succ (height l)),
  )
