-- ===== src/Symbols/Sorted.antt =====
-- Sorted lists of entries, and the search for a key in one.
use Prim.Native.Nat.Ordering.{lt, eq, gt}
use tools.Base.{
  ◌≡◌, refl, ◌∙◌, sym, Bool, true, false, List, [], ◌∷◌, ◌++◌, Option, none, some, arith,
  if◌then◌else◌, All, All-append, All-split,
}
use tools.Symbols.Map.{KeyOrder}

module _ {ℓ} {K : Type ℓ} ⦃o : KeyOrder K⦄ where
  abbrev pub is_key : K → K → Bool
  is_key k key = elim (o.strncmp k key) [ eq ↦ true | _ ↦ false ]

module _ {ℓ κ} {K : Type ℓ} {V : Type κ} ⦃o : KeyOrder K⦄ where
  -- the first entry with the key
  abbrev pub assoc : K → List (K × V) → Option V
  assoc key [] = none
  assoc key ((k, v) ∷ es) = let rest = assoc key es in if is_key k key then some v else rest

  abbrev pub IsBefore : K → K × V → Type 0
  IsBefore key e = o.strncmp e.0 key ≡ lt

  abbrev pub IsAfter : K → K × V → Type 0
  IsAfter key e = o.strncmp key e.0 ≡ lt

  abbrev pub IsSorted : List (K × V) → Type (ℓ ⊔ κ)
  IsSorted [] = Unit
  IsSorted (e ∷ es) = All (IsAfter e.0) es × IsSorted es

  pub After-trans :
      (j k : K) (es : List (K × V)) → o.strncmp j k ≡ lt → All (IsAfter k) es → All (IsAfter j) es
  After-trans j k [] h a = a
  After-trans j k (e ∷ es) h a = (o.lt_trans j k e.0 h a.0, After-trans j k es h a.1)

  pub Before-trans :
      (j k : K) (es : List (K × V)) → o.strncmp j k ≡ lt → All (IsBefore j) es → All (IsBefore k) es
  Before-trans j k [] h a = a
  Before-trans j k (e ∷ es) h a = (o.lt_trans e.0 j k a.0 h, Before-trans j k es h a.1)

  -- a list that is sorted around an entry
  pub IsSorted-split :
      (xs ys : List (K × V)) (k : K) (v : V)
      → IsSorted (xs ++ ((k, v) ∷ ys))
      → IsSorted xs × All (IsBefore k) xs × All (IsAfter k) ys × IsSorted ys
  IsSorted-split [] ys k v s = (tt, tt, s.0, s.1)
  IsSorted-split (x ∷ xs) ys k v s =
      let (sx, b, a, sy) = IsSorted-split xs ys k v s.1 in
      let (first, rest) = All-split (IsAfter x.0) xs ((k, v) ∷ ys) s.0 in
      ((first, sx), (rest.0, b), a, sy)

  pub IsSorted-append : (xs ys : List (K × V)) → IsSorted (xs ++ ys) → IsSorted xs × IsSorted ys
  IsSorted-append [] ys s = (tt, s)
  IsSorted-append (x ∷ xs) ys s =
      let (sx, sy) = IsSorted-append xs ys s.1 in (((All-split (IsAfter x.0) xs ys s.0).0, sx), sy)

  pub IsSorted-join :
      (xs ys : List (K × V)) (k : K) (v : V)
      → IsSorted xs
      → All (IsBefore k) xs
      → All (IsAfter k) ys
      → IsSorted ys
      → IsSorted (xs ++ ((k, v) ∷ ys))
  IsSorted-join [] ys k v sx b a sy = (a, sy)
  IsSorted-join (x ∷ xs) ys k v sx b a sy = (
    All-append (IsAfter x.0) xs ((k, v) ∷ ys) sx.0 (b.0, After-trans x.0 k ys b.0 a),
    IsSorted-join xs ys k v sx.1 b.1 a sy,
  )

  -- entries on one side of the key are passed over
  pub assoc-After : (key : K) (es : List (K × V)) → All (IsAfter key) es → assoc key es ≡ none
  assoc-After key [] a = refl
  assoc-After key (e ∷ es) a = ground (arith, assoc-After key es a.1, o.gt_of_lt key e.0 a.0)

  pub assoc-Before :
      (key : K) (xs ys : List (K × V)) → All (IsBefore key) xs → assoc key (xs ++ ys) ≡ assoc key ys
  assoc-Before key [] ys b = refl
  assoc-Before key (x ∷ xs) ys b = ground (arith, assoc-Before key xs ys b.1, b.0)

  pub assoc-append_none :
      (key : K) (xs ys : List (K × V)) → assoc key ys ≡ none → assoc key (xs ++ ys) ≡ assoc key xs
  assoc-append_none key [] ys h = h
  assoc-append_none key (x ∷ xs) ys h = ground (arith, assoc-append_none key xs ys h)

  -- one entry more, behind those before it
  pub assoc-insert :
      (key q : K) (v : V) (xs ys : List (K × V))
      → All (IsBefore key) xs
      → assoc q (xs ++ ((key, v) ∷ ys)) ≡ (if is_key key q then some v else assoc q (xs ++ ys))
  assoc-insert key q v [] ys b = refl
  assoc-insert key q v (x ∷ xs) ys b = ground (
    arith,
    assoc-insert key q v xs ys b.1,
    b.0,
    o.eq_left x.0 q key,
    o.gt_of_lt q key,
    o.gt_of_lt x.0 key,
  )

  Before-eq :
      (j k : K) (es : List (K × V)) → o.strncmp j k ≡ eq → All (IsBefore j) es → All (IsBefore k) es
  Before-eq j k [] h a = a
  Before-eq j k (e ∷ es) h a =
      (o.lt_of_gt k e.0 (sym (o.eq_left j k e.0 h) ∙ o.gt_of_lt e.0 j a.0), Before-eq j k es h a.1)

  -- the search around an entry, by the comparison that map_find makes there
  module _ (key k : K) (v : V) (xs ys : List (K × V)) where
    pub assoc-gt :
        o.strncmp k key ≡ gt → All (IsAfter k) ys → assoc key (xs ++ ((k, v) ∷ ys)) ≡ assoc key xs
    assoc-gt h a =
        let below = o.lt_of_gt k key h in
        assoc-append_none key xs ((k, v) ∷ ys)
          (assoc-After key ((k, v) ∷ ys) (below, After-trans key k ys below a))

    pub assoc-eq :
        o.strncmp k key ≡ eq → All (IsBefore k) xs → assoc key (xs ++ ((k, v) ∷ ys)) ≡ some v
    assoc-eq h b = assoc-Before key xs ((k, v) ∷ ys) (Before-eq k key xs h b) ∙ ground (arith, h)

    pub assoc-lt :
        o.strncmp k key ≡ lt → All (IsBefore k) xs → assoc key (xs ++ ((k, v) ∷ ys)) ≡ assoc key ys
    assoc-lt h b = assoc-Before key xs ((k, v) ∷ ys) (Before-trans k key xs h b) ∙ ground (arith, h)
