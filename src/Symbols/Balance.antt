-- ===== src/Symbols/Balance.antt =====
-- The colors of a map: how far its tree can lean.
use tools.Base.{ℕ, suc, ◌≡◌, Bool, true, false, arith, if◌then◌else◌, Bool-cases, inl, inr}
use tools.Symbols.Tree.{
  Color, red, black, Tree, leaf, node, Ancestors, top, left_of, right_of, is_red, blacken, root_of,
  repair,
}

abbrev pub grow : Color → ℕ → ℕ
grow red h = h
grow black h = suc h

module _ {ℓ κ} {K : Type ℓ} {V : Type κ} where
  -- the black nodes on the way down on the left
  abbrev pub height : Tree K V → ℕ
  height leaf = 0
  height (node c l k v r) = grow c (height l)

  -- Both ways down pass as many black nodes, and no red node has a red child.
  abbrev pub IsSound : Tree K V → Type 0
  IsSound leaf = Unit
  IsSound (node red l k v r) =
      (height l ≡ height r) × (is_red l ≡ false) × (is_red r ≡ false) × IsSound l × IsSound r
  IsSound (node black l k v r) = (height l ≡ height r) × IsSound l × IsSound r

  -- The root may have any color, and red children even if it is red.
  abbrev pub IsBalanced : Tree K V → Type 0
  IsBalanced leaf = Unit
  IsBalanced (node c l k v r) = (height l ≡ height r) × IsSound l × IsSound r

  -- a red node has a place at the root, under it, and under a black node
  abbrev pub takes_red : Ancestors K V → Bool
  takes_red top = true
  takes_red (left_of black k v r up) = true
  takes_red (right_of black l k v up) = true
  takes_red (left_of red k v r top) = true
  takes_red (right_of red l k v top) = true
  takes_red _ = false

  abbrev pub HasPlace : Tree K V → Ancestors K V → Type 0
  HasPlace t up = (if is_red t then takes_red up else true) ≡ true

  abbrev pub has_place : Color → Ancestors K V → Bool
  has_place red up = takes_red up
  has_place black up = true

  -- With a tree of this height at the place, all above it is as it should be.
  abbrev pub Fits : ℕ → Ancestors K V → Type 0
  Fits h top = Unit
  Fits h (left_of c k v r up) =
      (h ≡ height r)
      × IsSound r
      × HasPlace r (left_of c k v r up)
      × (has_place c up ≡ true)
      × Fits (grow c h) up
  Fits h (right_of c l k v up) =
      (height l ≡ h)
      × IsSound l
      × HasPlace l (right_of c l k v up)
      × (has_place c up ≡ true)
      × Fits (grow c h) up

  root_of-IsBalanced :
      (t : Tree K V) (up : Ancestors K V)
      → IsSound t
      → HasPlace t up
      → Fits (height t) up
      → IsBalanced (root_of t up)
  unfolding root_of
  root_of-IsBalanced leaf top s p f = tt
  root_of-IsBalanced (node red l k v r) top s p f = ground arith
  root_of-IsBalanced (node black l k v r) top s p f = ground arith
  root_of-IsBalanced t (left_of red k v r top) s p f = ground arith
  root_of-IsBalanced t (left_of red k v r (left_of d j w x up)) s p f =
      root_of-IsBalanced (node red t k v r) (left_of d j w x up) (ground arith) (ground arith)
        (ground arith)
  root_of-IsBalanced t (left_of red k v r (right_of d x j w up)) s p f =
      root_of-IsBalanced (node red t k v r) (right_of d x j w up) (ground arith) (ground arith)
        (ground arith)
  root_of-IsBalanced t (left_of black k v r top) s p f = ground arith
  root_of-IsBalanced t (left_of black k v r (left_of d j w x up)) s p f =
      root_of-IsBalanced (node black t k v r) (left_of d j w x up) (ground arith) (ground arith)
        (ground arith)
  root_of-IsBalanced t (left_of black k v r (right_of d x j w up)) s p f =
      root_of-IsBalanced (node black t k v r) (right_of d x j w up) (ground arith) (ground arith)
        (ground arith)
  root_of-IsBalanced t (right_of red l k v top) s p f = ground arith
  root_of-IsBalanced t (right_of red l k v (left_of d j w x up)) s p f =
      root_of-IsBalanced (node red l k v t) (left_of d j w x up) (ground arith) (ground arith)
        (ground arith)
  root_of-IsBalanced t (right_of red l k v (right_of d x j w up)) s p f =
      root_of-IsBalanced (node red l k v t) (right_of d x j w up) (ground arith) (ground arith)
        (ground arith)
  root_of-IsBalanced t (right_of black l k v top) s p f = ground arith
  root_of-IsBalanced t (right_of black l k v (left_of d j w x up)) s p f =
      root_of-IsBalanced (node black l k v t) (left_of d j w x up) (ground arith) (ground arith)
        (ground arith)
  root_of-IsBalanced t (right_of black l k v (right_of d x j w up)) s p f =
      root_of-IsBalanced (node black l k v t) (right_of d x j w up) (ground arith) (ground arith)
        (ground arith)

  IsSound-blacken :
      (t : Tree K V)
      → is_red t ≡ true
      → IsSound t
      → IsSound (blacken t) × (height (blacken t) ≡ suc (height t)) × (is_red (blacken t) ≡ false)
  IsSound-blacken leaf e s = cc
  IsSound-blacken (node red l k v r) e s = ground arith
  IsSound-blacken (node black l k v r) e s = cc

  pub repair-IsBalanced :
      (a : Tree K V) (k : K) (v : V) (b : Tree K V) (up : Ancestors K V)
      → IsSound (node red a k v b)
      → Fits (height a) up
      → IsBalanced (repair (node red a k v b) up)
  unfolding repair
  repair-IsBalanced a k v b top s f = ground arith
  repair-IsBalanced a k v b (left_of black pk pv pr up) s f =
      root_of-IsBalanced (node red a k v b) (left_of black pk pv pr up) (ground arith)
        (ground arith) (ground arith)
  repair-IsBalanced a k v b (left_of red pk pv pr top) s f =
      root_of-IsBalanced (node red a k v b) (left_of red pk pv pr top) (ground arith) (ground arith)
        (ground arith)
  repair-IsBalanced a k v b (right_of black pl pk pv up) s f =
      root_of-IsBalanced (node red a k v b) (right_of black pl pk pv up) (ground arith)
        (ground arith) (ground arith)
  repair-IsBalanced a k v b (right_of red pl pk pv top) s f =
      root_of-IsBalanced (node red a k v b) (right_of red pl pk pv top) (ground arith)
        (ground arith) (ground arith)
  repair-IsBalanced a k v b (left_of red pk pv pr (left_of black gk gv uncle up)) s f =
      elim (Bool-cases (is_red uncle)) [
        | inl e ↦ rw e (
            repair-IsBalanced (node black (node red a k v b) pk pv pr) gk gv (blacken uncle) up
              (ground (arith, IsSound-blacken uncle)) (ground (arith, IsSound-blacken uncle)))
        | inr e ↦ rw e (
            root_of-IsBalanced (node black (node red a k v b) pk pv (node red pr gk gv uncle)) up
              (ground arith) (ground arith) (ground arith))
      ]
  repair-IsBalanced a k v b (left_of red pk pv pr (left_of red gk gv uncle top)) s f =
      elim (Bool-cases (is_red uncle)) [
        | inl e ↦ rw e (
            repair-IsBalanced (node black (node red a k v b) pk pv pr) gk gv (blacken uncle) top
              (ground (arith, IsSound-blacken uncle)) (ground (arith, IsSound-blacken uncle)))
        | inr e ↦ rw e (
            root_of-IsBalanced (node black (node red a k v b) pk pv (node red pr gk gv uncle)) top
              (ground arith) (ground arith) (ground arith))
      ]
  repair-IsBalanced a k v b (left_of red pk pv pr (left_of red gk gv uncle (left_of d j w x up))) s
        f =
      ground arith
  repair-IsBalanced a k v b (left_of red pk pv pr (left_of red gk gv uncle (right_of d x j w up))) s
        f =
      ground arith
  repair-IsBalanced a k v b (left_of red pk pv pr (right_of black uncle gk gv up)) s f =
      elim (Bool-cases (is_red uncle)) [
        | inl e ↦ rw e (
            repair-IsBalanced (blacken uncle) gk gv (node black (node red a k v b) pk pv pr) up
              (ground (arith, IsSound-blacken uncle)) (ground (arith, IsSound-blacken uncle)))
        | inr e ↦ rw e (
            root_of-IsBalanced (node black (node red uncle gk gv a) k v (node red b pk pv pr)) up
              (ground arith) (ground arith) (ground arith))
      ]
  repair-IsBalanced a k v b (left_of red pk pv pr (right_of red uncle gk gv top)) s f =
      elim (Bool-cases (is_red uncle)) [
        | inl e ↦ rw e (
            repair-IsBalanced (blacken uncle) gk gv (node black (node red a k v b) pk pv pr) top
              (ground (arith, IsSound-blacken uncle)) (ground (arith, IsSound-blacken uncle)))
        | inr e ↦ rw e (
            root_of-IsBalanced (node black (node red uncle gk gv a) k v (node red b pk pv pr)) top
              (ground arith) (ground arith) (ground arith))
      ]
  repair-IsBalanced a k v b (left_of red pk pv pr (right_of red uncle gk gv (left_of d j w x up))) s
        f =
      ground arith
  repair-IsBalanced a k v b (left_of red pk pv pr (right_of red uncle gk gv (right_of d x j w up)))
        s f =
      ground arith
  repair-IsBalanced a k v b (right_of red pl pk pv (left_of black gk gv uncle up)) s f =
      elim (Bool-cases (is_red uncle)) [
        | inl e ↦ rw e (
            repair-IsBalanced (node black pl pk pv (node red a k v b)) gk gv (blacken uncle) up
              (ground (arith, IsSound-blacken uncle)) (ground (arith, IsSound-blacken uncle)))
        | inr e ↦ rw e (
            root_of-IsBalanced (node black (node red pl pk pv a) k v (node red b gk gv uncle)) up
              (ground arith) (ground arith) (ground arith))
      ]
  repair-IsBalanced a k v b (right_of red pl pk pv (left_of red gk gv uncle top)) s f =
      elim (Bool-cases (is_red uncle)) [
        | inl e ↦ rw e (
            repair-IsBalanced (node black pl pk pv (node red a k v b)) gk gv (blacken uncle) top
              (ground (arith, IsSound-blacken uncle)) (ground (arith, IsSound-blacken uncle)))
        | inr e ↦ rw e (
            root_of-IsBalanced (node black (node red pl pk pv a) k v (node red b gk gv uncle)) top
              (ground arith) (ground arith) (ground arith))
      ]
  repair-IsBalanced a k v b (right_of red pl pk pv (left_of red gk gv uncle (left_of d j w x up))) s
        f =
      ground arith
  repair-IsBalanced a k v b (right_of red pl pk pv (left_of red gk gv uncle (right_of d x j w up)))
        s f =
      ground arith
  repair-IsBalanced a k v b (right_of red pl pk pv (right_of black uncle gk gv up)) s f =
      elim (Bool-cases (is_red uncle)) [
        | inl e ↦ rw e (
            repair-IsBalanced (blacken uncle) gk gv (node black pl pk pv (node red a k v b)) up
              (ground (arith, IsSound-blacken uncle)) (ground (arith, IsSound-blacken uncle)))
        | inr e ↦ rw e (
            root_of-IsBalanced (node black (node red uncle gk gv pl) pk pv (node red a k v b)) up
              (ground arith) (ground arith) (ground arith))
      ]
  repair-IsBalanced a k v b (right_of red pl pk pv (right_of red uncle gk gv top)) s f =
      elim (Bool-cases (is_red uncle)) [
        | inl e ↦ rw e (
            repair-IsBalanced (blacken uncle) gk gv (node black pl pk pv (node red a k v b)) top
              (ground (arith, IsSound-blacken uncle)) (ground (arith, IsSound-blacken uncle)))
        | inr e ↦ rw e (
            root_of-IsBalanced (node black (node red uncle gk gv pl) pk pv (node red a k v b)) top
              (ground arith) (ground arith) (ground arith))
      ]
  repair-IsBalanced a k v b (right_of red pl pk pv (right_of red uncle gk gv (left_of d j w x up)))
        s f =
      ground arith
  repair-IsBalanced a k v b (right_of red pl pk pv (right_of red uncle gk gv (right_of d x j w up)))
        s f =
      ground arith
