-- ===== src/Interp/Values.antt =====
-- The operations on the values of a list, which were pushed in its order: what they emit.
use tools.Base.{
  subst, bind_some, ℕ, suc, ◌+◌, ◌≡◌, refl, List, [], ◌∷◌, ◌++◌, Option, some, ◌>>=◌, arith, length,
  get_elem?,
}
use tools.Codegen.State.{State}
use tools.Codegen.Layout.{Emits, Emits-refl, Emits-trans}
use tools.Interp.Object.{Object}
use tools.Interp.Stack.{stack_delete}
use tools.Interp.Emit.{each_value}

-- the stack after the values were pushed one by one
abbrev pub push_all : List Object → List Object → List Object
push_all [] st = st
push_all (v ∷ vs) st = push_all vs (v ∷ st)

pub get_elem?-push_all :
    (vs st : List Object) (k : ℕ) → get_elem? (push_all vs st) (length vs + k) ≡ get_elem? st k
get_elem?-push_all [] st k = ground arith
get_elem?-push_all (v ∷ vs) st k = ground (arith, get_elem?-push_all vs (v ∷ st) (suc k))

pub stack_delete-push_all :
    (vs st : List Object) (k : ℕ)
    → stack_delete (length vs + k) (push_all vs st) ≡ stack_delete k st
unfolding stack_delete
stack_delete-push_all [] st k = ground arith
stack_delete-push_all (v ∷ vs) st k = ground (arith, stack_delete-push_all vs (v ∷ st) (suc k))

-- the bytes of all values, from what one value stands for at its distance from the top
abbrev pub listing : (ℕ → Object → Option (List ℕ)) → List Object → Option (List ℕ)
listing g [] = some []
listing g (v ∷ vs) = g (suc (length vs)) v >>= λ bs. listing g vs >>= λ cs. some (bs ++ cs)

-- The result is some state, by which the bytes were emitted.
abbrev pub HasEmitted : State → List ℕ → Option State → Type 0
HasEmitted s bs r = (s' : State) × (r ≡ some s') × Emits s s' bs

module _ (f : ℕ → Object → State → Option State) (g : ℕ → Object → Option (List ℕ)) where
  pub each_value-push_all :
      ((i : ℕ) (v : Object) (s : State) (bs : List ℕ) → g i v ≡ some bs → HasEmitted s bs (f i v s))
      → (vs st : List Object) (s : State) (bs : List ℕ) → listing g vs ≡ some bs
      → HasEmitted s bs (each_value f (length vs) (push_all vs st) s)
  unfolding each_value
  each_value-push_all h [] st s bs e =
      let same : [] ≡ bs = cc in (s, refl, subst (Emits s s) same (Emits-refl s))
  each_value-push_all h (v ∷ vs) st s bs e =
      let (b, e', e'') = bind_some (g (suc (length vs)) v) _ e in
      let (cs, k, k') = bind_some (listing g vs) _ e'' in
      let (s1, r, emits) = h (suc (length vs)) v s b e' in
      let (s2, r', emits') = each_value-push_all h vs (v ∷ st) s1 cs k in
      let top : get_elem? (push_all vs (v ∷ st)) (length vs) ≡ some v =
        ground (arith, get_elem?-push_all vs (v ∷ st) 0) in
      let same : b ++ cs ≡ bs = cc in
      (s2, rw top (rw r r'), subst (Emits s s2) same (Emits-trans b cs emits emits'))
