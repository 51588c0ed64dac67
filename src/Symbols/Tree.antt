-- ===== src/Symbols/Tree.antt =====
-- The tree of as-c/src/value.c. A node has a pointer to its parent in the source; here a node in a
-- tree is the subtree below it and the path of its parents.
use tools.Base.{Bool, true, false, if◌then◌else◌}

pub data Color : Type 0 where
  red black : Color

pub data Tree {ℓ κ} (K : Type ℓ) (V : Type κ) : Type (ℓ ⊔ κ) where
  leaf : Tree K V
  node : Color → Tree K V → K → V → Tree K V → Tree K V

-- `left_of` is the parent of a left child, with its right child, and `right_of` the reverse.
pub data Ancestors {ℓ κ} (K : Type ℓ) (V : Type κ) : Type (ℓ ⊔ κ) where
  top : Ancestors K V
  left_of : Color → K → V → Tree K V → Ancestors K V → Ancestors K V
  right_of : Color → Tree K V → K → V → Ancestors K V → Ancestors K V

module _ {ℓ κ} {K : Type ℓ} {V : Type κ} where
  abbrev pub is_red : Tree K V → Bool
  is_red (node red l k v r) = true
  is_red _ = false

  abbrev pub blacken : Tree K V → Tree K V
  blacken leaf = leaf
  blacken (node c l k v r) = node black l k v r

  -- the loop to the root at the end of `insert`
  unfoldable pub root_of : Tree K V → Ancestors K V → Tree K V
  root_of t top = t
  root_of t (left_of c k v r up) = root_of (node c t k v r) up
  root_of t (right_of c l k v up) = root_of (node c l k v t) up

  -- A node without the child that the rotation lifts is an error in the source (`nnew` is null),
  -- and stays.
  abbrev pub rotate_left : Tree K V → Tree K V
  rotate_left (node c a k v (node d x l w y)) = node d (node c a k v x) l w y
  rotate_left t = t

  abbrev pub rotate_right : Tree K V → Tree K V
  rotate_right (node c (node d x l w y) k v b) = node d x l w (node c y k v b)
  rotate_right t = t

  -- `p->color = BLACK; g->color = RED` behind a rotation of `g`, which is the right or the left
  -- child of `p` now
  abbrev pub paint_right : Tree K V → Tree K V
  paint_right (node c a k v (node d x l w y)) = node black a k v (node red x l w y)
  paint_right t = t

  abbrev pub paint_left : Tree K V → Tree K V
  paint_left (node c (node d x l w y) k v b) = node black (node red x l w y) k v b
  paint_left t = t

  -- insertRepairTree of the node with the subtree `n` and the path `up`, with the tree that
  -- `insert` returns then. The parent of a case is the inner frame, the grandparent the outer one.
  unfoldable pub repair : Tree K V → Ancestors K V → Tree K V
  repair n top = blacken n
  repair n (left_of black pk pv pr up) = root_of n (left_of black pk pv pr up)
  repair n (right_of black pl pk pv up) = root_of n (right_of black pl pk pv up)
  repair n (left_of red pk pv pr top) = root_of n (left_of red pk pv pr top)
  repair n (right_of red pl pk pv top) = root_of n (right_of red pl pk pv top)
  repair n (left_of red pk pv pr (left_of gc gk gv uncle up)) =
      let again = repair (node red (node black n pk pv pr) gk gv (blacken uncle)) up in
      if is_red uncle
      then again
      else root_of (paint_right (rotate_right (node gc (node red n pk pv pr) gk gv uncle))) up
  repair n (right_of red pl pk pv (left_of gc gk gv uncle up)) =
      let again = repair (node red (node black pl pk pv n) gk gv (blacken uncle)) up in
      if is_red uncle
      then again
      else root_of
          (paint_right (rotate_right (node gc (rotate_left (node red pl pk pv n)) gk gv uncle))) up
  repair n (left_of red pk pv pr (right_of gc uncle gk gv up)) =
      let again = repair (node red (blacken uncle) gk gv (node black n pk pv pr)) up in
      if is_red uncle
      then again
      else root_of
          (paint_left (rotate_left (node gc uncle gk gv (rotate_right (node red n pk pv pr))))) up
  repair n (right_of red pl pk pv (right_of gc uncle gk gv up)) =
      let again = repair (node red (blacken uncle) gk gv (node black pl pk pv n)) up in
      if is_red uncle
      then again
      else root_of (paint_left (rotate_left (node gc uncle gk gv (node red pl pk pv n)))) up
