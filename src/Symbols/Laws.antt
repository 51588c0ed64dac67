-- ===== src/Symbols/Laws.antt =====
-- map_get and map_count behind map_set.
use Prim.Native.Nat.Ordering.{lt}
use tools.Base.{
  ◌+◌, ◌≡◌, ◌≢◌, refl, ◌∙◌, ap, sym, ◌∷◌, ◌++◌, append-nil, Option, none, some, arith,
  if◌then◌else◌, All, All-append, All-split, subst, length, length-append,
}
use tools.Symbols.Tree.{red, Tree, leaf, node, top}
use tools.Symbols.Map.{
  KeyOrder, map_find, replace, descend, insert, add_node, set_found, map_set, map_get, map_count,
}
use tools.Symbols.Entries.{entries, before, after, entries-root_of, entries-repair}
use tools.Symbols.Sorted.{
  is_key, assoc, IsBefore, IsAfter, IsSorted, IsSorted-split, IsSorted-append, IsSorted-join,
  assoc-insert,
}
use tools.Symbols.Lookup.{IsOrdered, map_find-assoc, descend-entries, descend-place}

module _ {ℓ κ} {K : Type ℓ} {V : Type κ} ⦃o : KeyOrder K⦄ where
  -- the entries of a map with a new node
  entries-insert :
      (m : Tree K V) (key : K) (v : V)
      → entries (insert m key v)
        ≡ before (descend key m top) ++ ((key, v) ∷ after (descend key m top))
  unfolding insert
  entries-insert m key v =
      entries-repair (node red leaf key v leaf) (descend key m top)
      ∙ entries-root_of (node red leaf key v leaf) (descend key m top)
      ∙ (unfold entries in refl)

  entries_split :
      (m : Tree K V) (key : K) → before (descend key m top) ++ after (descend key m top) ≡ entries m
  entries_split m key = descend-entries key m top ∙ (unfold before after in append-nil (entries m))

  -- where the new node stands
  place :
      (m : Tree K V) (key : K)
      → IsOrdered m
      → map_find m key ≡ none
      → All (IsBefore key) (before (descend key m top))
        × All (IsAfter key) (after (descend key m top))
  place m key s n = unfold before after in descend-place key m top s n tt tt

  insert-IsOrdered :
      (m : Tree K V) (key : K) (v : V)
      → IsOrdered m
      → map_find m key ≡ none
      → IsOrdered (insert m key v)
  insert-IsOrdered m key v s n =
      let (b, a) = place m key s n in
      let (sx, sy) = IsSorted-append _ _ (subst IsSorted (sym (entries_split m key)) s) in
      subst IsSorted (sym (entries-insert m key v)) (IsSorted-join _ _ key v sx b a sy)

  map_find-insert :
      (m : Tree K V) (key q : K) (v : V)
      → IsOrdered m
      → map_find m key ≡ none
      → map_find (insert m key v) q ≡ (if is_key key q then some v else map_find m q)
  map_find-insert m key q v s n =
      let (b, a) = place m key s n in
      map_find-assoc (insert m key v) q (insert-IsOrdered m key v s n)
      ∙ ap (assoc q) (entries-insert m key v)
      ∙ assoc-insert key q v (before (descend key m top)) (after (descend key m top)) b
      ∙ ap (λ x. if is_key key q then some v else x)
          (ap (assoc q) (entries_split m key) ∙ sym (map_find-assoc m q s))

  map_find-replace :
      (m : Tree K V) (key q : K) (v : V)
      → map_find m key ≢ none
      → map_find (replace m key v) q ≡ (if is_key key q then some v else map_find m q)
  unfolding map_find replace
  map_find-replace leaf key q v n = absurd (n refl)
  map_find-replace (node c l k w r) key q v n = ground (
    arith,
    map_find-replace l key q v,
    map_find-replace r key q v,
    o.eq_left k key q,
    o.eq_left key q k,
    o.eq_left k q key,
    o.lt_trans key k q,
    o.lt_trans q k key,
    o.lt_of_gt k key,
    o.lt_of_gt k q,
    o.gt_of_lt key k,
    o.gt_of_lt k key,
    o.gt_of_lt k q,
    o.gt_of_lt q k,
    o.gt_of_lt q key,
  )

  All-replace {μ} :
      (P : K → Type μ) (m : Tree K V) (key : K) (v : V)
      → All (λ e. P e.0) (entries m)
      → All (λ e. P e.0) (entries (replace m key v))
  unfolding entries replace
  All-replace P leaf key v h = h
  All-replace P (node c l k w r) key v h =
      let (left, (here, right)) = All-split (λ e. P e.0) (entries l) ((k, w) ∷ entries r) h in
      ground (
        arith,
        All-replace P l key v left,
        All-replace P r key v right,
        All-append (λ e. P e.0) (entries (replace l key v)) ((k, w) ∷ entries r),
        All-append (λ e. P e.0) (entries l) ((k, v) ∷ entries r),
        All-append (λ e. P e.0) (entries l) ((k, w) ∷ entries (replace r key v)),
        here,
        left,
        right,
      )

  replace-IsOrdered : (m : Tree K V) (key : K) (v : V) → IsOrdered m → IsOrdered (replace m key v)
  unfolding entries replace
  replace-IsOrdered leaf key v s = s
  replace-IsOrdered (node c l k w r) key v s =
      let (sl, b, a, sr) = IsSorted-split (entries l) (entries r) k w s in
      ground (
        arith,
        IsSorted-join (entries (replace l key v)) (entries r) k w (replace-IsOrdered l key v sl)
            (All-replace (λ x. o.strncmp x k ≡ lt) l key v b) a sr,
        IsSorted-join (entries l) (entries r) k v sl b a sr,
        IsSorted-join (entries l) (entries (replace r key v)) k w sl b
            (All-replace (λ x. o.strncmp k x ≡ lt) r key v a) (replace-IsOrdered r key v sr),
      )

  set_found-law :
      (found : Option V) (m : Tree K V) (key q : K) (v : V)
      → map_find m key ≡ found
      → IsOrdered m
      → (map_find (set_found found m key v) q ≡ (if is_key key q then some v else map_find m q))
        × IsOrdered (set_found found m key v)
  set_found-law none leaf key q v e s =
      (unfold map_find in ground arith, unfold entries in (tt, tt))
  set_found-law none (node c l k w r) key q v e s =
      (map_find-insert (node c l k w r) key q v s e, insert-IsOrdered (node c l k w r) key v s e)
  set_found-law (some w) m key q v e s =
      (map_find-replace m key q v (λ n. cc), replace-IsOrdered m key v s)

  -- In an ordered map map_set makes the key read back the value, any other key that strncmp tells
  -- apart from it read as before, and the map stays ordered.
  pub map_get-map_set :
      (m : Tree K V) (key q : K) (v : V)
      → IsOrdered m
      → (map_get (map_set m key v) q ≡ (if is_key key q then some v else map_get m q))
        × IsOrdered (map_set m key v)
  unfolding map_get map_set
  map_get-map_set m key q v s = set_found-law (map_find m key) m key q v refl s

  -- map_count counts the entries.
  map_count-length : (m : Tree K V) → map_count m ≡ length (entries m)
  unfolding map_count entries
  map_count-length leaf = refl
  map_count-length (node c l k v r) = omega (
    arith,
    map_count-length l,
    map_count-length r,
    length-append (entries l) ((k, v) ∷ entries r),
  )

  map_count-insert : (m : Tree K V) (key : K) (v : V) → map_count (insert m key v) ≡ 1 + map_count m
  map_count-insert m key v = omega (
    arith,
    map_count-length (insert m key v),
    map_count-length m,
    ap length (entries-insert m key v),
    ap length (entries_split m key),
    length-append (before (descend key m top)) ((key, v) ∷ after (descend key m top)),
    length-append (before (descend key m top)) (after (descend key m top)),
  )

  map_count-add_node :
      (m : Tree K V) (key : K) (v : V) → map_count (add_node m key v) ≡ 1 + map_count m
  unfolding map_count
  map_count-add_node leaf key v = refl
  map_count-add_node (node c l k w r) key v = map_count-insert (node c l k w r) key v

  map_count-replace : (m : Tree K V) (key : K) (v : V) → map_count (replace m key v) ≡ map_count m
  unfolding map_count replace
  map_count-replace leaf key v = refl
  map_count-replace (node c l k w r) key v =
      ground (arith, map_count-replace l key v, map_count-replace r key v)

  -- map_set adds one to map_count if map_get finds nothing under the key, and nothing otherwise.
  pub map_count-map_set :
      (m : Tree K V) (key : K) (v : V)
      → map_count (map_set m key v)
        ≡ (elim (map_get m key) [ none ↦ 1 + map_count m | some _ ↦ map_count m ])
  unfolding map_get map_set
  map_count-map_set m key v = by_found (map_find m key)
    where
      by_found :
          (found : Option V)
          → map_count (set_found found m key v)
            ≡ (elim found [ none ↦ 1 + map_count m | some _ ↦ map_count m ])
      by_found none = map_count-add_node m key v
      by_found (some w) = map_count-replace m key v
