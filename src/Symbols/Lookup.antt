-- ===== src/Symbols/Lookup.antt =====
-- map_get behind map_set, by the entries of the tree.
use tools.Base.{◌≡◌, refl, [], ◌∷◌, ◌++◌, append_assoc, none, arith, All, All-append}
use tools.Symbols.Tree.{Tree, leaf, node, Ancestors, left_of, right_of}
use tools.Symbols.Map.{KeyOrder, map_find, descend}
use tools.Symbols.Entries.{entries, before, after}
use tools.Symbols.Sorted.{
  assoc, IsBefore, IsAfter, IsSorted, After-trans, Before-trans, IsSorted-split, assoc-gt, assoc-eq,
  assoc-lt,
}

module _ {ℓ κ} {K : Type ℓ} {V : Type κ} ⦃o : KeyOrder K⦄ where
  -- from left to right the keys of the tree grow
  abbrev pub IsOrdered : Tree K V → Type (ℓ ⊔ κ)
  IsOrdered t = IsSorted (entries t)

  -- The descent of map_find meets the entry with the key, if there is one.
  pub map_find-assoc :
      (t : Tree K V) (key : K) → IsOrdered t → map_find t key ≡ assoc key (entries t)
  unfolding map_find entries
  map_find-assoc leaf key s = refl
  map_find-assoc (node c l k v r) key s =
      let (sl, b, a, sr) = IsSorted-split (entries l) (entries r) k v s in
      let left = map_find-assoc l key sl in
      let right = map_find-assoc r key sr in
      ground (
        arith,
        left,
        right,
        assoc-gt key k v (entries l) (entries r),
        assoc-eq key k v (entries l) (entries r),
        assoc-lt key k v (entries l) (entries r),
      )

  -- the descent for a new node ends between the smaller keys and the larger ones
  pub descend-entries :
      (key : K) (t : Tree K V) (up : Ancestors K V)
      → before (descend key t up) ++ after (descend key t up) ≡ before up ++ (entries t ++ after up)
  unfolding descend entries before after
  descend-entries key leaf up = refl
  descend-entries key (node c l k v r) up = ground (
    arith,
    descend-entries key l (left_of c k v r up),
    descend-entries key r (right_of c l k v up),
    append_assoc (entries l) ((k, v) ∷ entries r) (after up),
    append_assoc (before up) (entries l ++ ((k, v) ∷ [])) (entries r ++ after up),
    append_assoc (entries l) ((k, v) ∷ []) (entries r ++ after up),
  )

  pub descend-place :
      (key : K) (t : Tree K V) (up : Ancestors K V)
      → IsOrdered t
      → map_find t key ≡ none
      → All (IsBefore key) (before up)
      → All (IsAfter key) (after up)
      → All (IsBefore key) (before (descend key t up))
        × All (IsAfter key) (after (descend key t up))
  unfolding descend entries before after map_find
  descend-place key leaf up s n b a = (b, a)
  descend-place key (node c l k v r) up s n b a =
      let (sl, bl, ar, sr) = IsSorted-split (entries l) (entries r) k v s in
      ground (
        arith,
        descend-place key l (left_of c k v r up) sl,
        descend-place key r (right_of c l k v up) sr,
        All-append (IsAfter key) ((k, v) ∷ entries r) (after up),
        After-trans key k (entries r),
        All-append (IsBefore key) (before up) (entries l ++ ((k, v) ∷ [])),
        All-append (IsBefore key) (entries l) ((k, v) ∷ []),
        Before-trans k key (entries l),
        o.gt_of_lt key k,
        o.lt_of_gt key k,
        o.eq_left key k key,
        o.cmp_refl key,
        bl,
        ar,
      )
