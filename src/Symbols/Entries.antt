-- ===== src/Symbols/Entries.antt =====
-- The entries of a tree from left to right.
use tools.Base.{
  ◌≡◌, refl, ◌∙◌, ap, sym, List, [], ◌∷◌, ◌++◌, append_assoc, append-nil, Bool-cases, inl, inr,
}
use tools.Symbols.Tree.{
  Color, red, black, Tree, leaf, node, Ancestors, top, left_of, right_of, root_of, repair, blacken,
  is_red, rotate_left, rotate_right, paint_left, paint_right,
}

module _ {ℓ κ} {K : Type ℓ} {V : Type κ} where
  unfoldable pub entries : Tree K V → List (K × V)
  entries leaf = []
  entries (node c l k v r) = entries l ++ ((k, v) ∷ entries r)

  entries-blacken : (t : Tree K V) → entries (blacken t) ≡ entries t
  unfolding entries
  entries-blacken leaf = refl
  entries-blacken (node c l k v r) = refl

  -- the entries in front of a place and behind it
  unfoldable pub before : Ancestors K V → List (K × V)
  before top = []
  before (left_of c k v r up) = before up
  before (right_of c l k v up) = before up ++ (entries l ++ ((k, v) ∷ []))

  unfoldable pub after : Ancestors K V → List (K × V)
  after top = []
  after (left_of c k v r up) = ((k, v) ∷ entries r) ++ after up
  after (right_of c l k v up) = after up

  pub entries-root_of :
      (t : Tree K V) (up : Ancestors K V)
      → entries (root_of t up) ≡ before up ++ (entries t ++ after up)
  unfolding root_of entries before after
  entries-root_of t top = sym (append-nil (entries t))
  entries-root_of t (left_of c k v r up) =
      entries-root_of (node c t k v r) up ∙ simp append_assoc refl
  entries-root_of t (right_of c l k v up) =
      entries-root_of (node c l k v t) up ∙ simp append_assoc refl

  -- A tree in which the place holds other nodes with the same entries has the same entries.
  same_place :
      (t u : Tree K V) (up : Ancestors K V)
      → entries t ≡ entries u
      → entries (root_of t up) ≡ entries (root_of u up)
  same_place t u up e =
      entries-root_of t up ∙ ap (λ es. before up ++ (es ++ after up)) e ∙ sym (entries-root_of u up)

  entries-rotate_left : (t : Tree K V) → entries (rotate_left t) ≡ entries t
  unfolding entries
  entries-rotate_left leaf = refl
  entries-rotate_left (node c a k v leaf) = refl
  entries-rotate_left (node c a k v (node d x l w y)) = simp append_assoc refl

  entries-rotate_right : (t : Tree K V) → entries (rotate_right t) ≡ entries t
  unfolding entries
  entries-rotate_right leaf = refl
  entries-rotate_right (node c leaf k v b) = refl
  entries-rotate_right (node c (node d x l w y) k v b) = simp append_assoc refl

  entries-paint_left : (t : Tree K V) → entries (paint_left t) ≡ entries t
  unfolding entries
  entries-paint_left leaf = refl
  entries-paint_left (node c leaf k v b) = refl
  entries-paint_left (node c (node d x l w y) k v b) = refl

  entries-paint_right : (t : Tree K V) → entries (paint_right t) ≡ entries t
  unfolding entries
  entries-paint_right leaf = refl
  entries-paint_right (node c a k v leaf) = refl
  entries-paint_right (node c a k v (node d x l w y)) = refl

  entries-lift_left : (t : Tree K V) → entries (paint_right (rotate_right t)) ≡ entries t
  entries-lift_left t = entries-paint_right (rotate_right t) ∙ entries-rotate_right t

  entries-lift_right : (t : Tree K V) → entries (paint_left (rotate_left t)) ≡ entries t
  entries-lift_right t = entries-paint_left (rotate_left t) ∙ entries-rotate_left t

  -- the children's entries decide those of a node, whatever its color
  children :
      (c d : Color) (l l' r r' : Tree K V) (k : K) (v : V)
      → entries l ≡ entries l'
      → entries r ≡ entries r'
      → entries (node c l k v r) ≡ entries (node d l' k v r')
  unfolding entries
  children c d l l' r r' k v p q = rw (p, q) refl

  -- Repairing a tree keeps its entries and their order.
  pub entries-repair :
      (n : Tree K V) (up : Ancestors K V) → entries (repair n up) ≡ entries (root_of n up)
  unfolding repair root_of
  entries-repair n top = entries-blacken n
  entries-repair n (left_of black pk pv pr up) = refl
  entries-repair n (right_of black pl pk pv up) = refl
  entries-repair n (left_of red pk pv pr top) = refl
  entries-repair n (right_of red pl pk pv top) = refl
  entries-repair n (left_of red pk pv pr (left_of gc gk gv uncle up)) =
      elim (Bool-cases (is_red uncle)) [
        | inl e ↦ rw e (
            entries-repair (node red (node black n pk pv pr) gk gv (blacken uncle)) up
            ∙ same_place _ _ up (
                children red gc _ (node red n pk pv pr) _ uncle gk gv
                  (children black red _ _ _ _ pk pv refl refl) (entries-blacken uncle)))
        | inr e ↦
            rw e (same_place _ _ up (entries-lift_left (node gc (node red n pk pv pr) gk gv uncle)))
      ]
  entries-repair n (right_of red pl pk pv (left_of gc gk gv uncle up)) =
      elim (Bool-cases (is_red uncle)) [
        | inl e ↦ rw e (
            entries-repair (node red (node black pl pk pv n) gk gv (blacken uncle)) up
            ∙ same_place _ _ up (
                children red gc _ (node red pl pk pv n) _ uncle gk gv
                  (children black red _ _ _ _ pk pv refl refl) (entries-blacken uncle)))
        | inr e ↦ rw e (
            same_place _ _ up (
              entries-lift_left (node gc (rotate_left (node red pl pk pv n)) gk gv uncle)
              ∙ children gc gc _ _ uncle uncle gk gv (entries-rotate_left (node red pl pk pv n))
                  refl))
      ]
  entries-repair n (left_of red pk pv pr (right_of gc uncle gk gv up)) =
      elim (Bool-cases (is_red uncle)) [
        | inl e ↦ rw e (
            entries-repair (node red (blacken uncle) gk gv (node black n pk pv pr)) up
            ∙ same_place _ _ up (
                children red gc _ uncle _ (node red n pk pv pr) gk gv (entries-blacken uncle)
                  (children black red _ _ _ _ pk pv refl refl)))
        | inr e ↦ rw e (
            same_place _ _ up (
              entries-lift_right (node gc uncle gk gv (rotate_right (node red n pk pv pr)))
              ∙ children gc gc uncle uncle _ _ gk gv refl
                  (entries-rotate_right (node red n pk pv pr))))
      ]
  entries-repair n (right_of red pl pk pv (right_of gc uncle gk gv up)) =
      elim (Bool-cases (is_red uncle)) [
        | inl e ↦ rw e (
            entries-repair (node red (blacken uncle) gk gv (node black pl pk pv n)) up
            ∙ same_place _ _ up (
                children red gc _ uncle _ (node red pl pk pv n) gk gv (entries-blacken uncle)
                  (children black red _ _ _ _ pk pv refl refl)))
        | inr e ↦
            rw e
              (same_place _ _ up (entries-lift_right (node gc uncle gk gv (node red pl pk pv n))))
      ]
