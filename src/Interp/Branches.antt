-- ===== src/Interp/Branches.antt =====
-- if and else branches, as parse_if compiles them, under the flags of interp_interp.
use tools.Base.{
  ◌≡◌, refl, ap, ◌∙◌, true, false, Bool, not, List, ◌∷◌, ◌++◌, some, ◌>>=◌, bind_ext_some, length,
  ltb, if◌then◌else◌,
}
use tools.Interp.Object.{Object}
use tools.Interp.Emit.{Target}
use tools.Interp.Run.{
  Operation, op_if_begin, op_else_begin, op_scope_end, Interp, is_true, begin, keep_exec,
  under_exec, execute, leave, scope_end, step, interp_interp,
}
use tools.Interp.Postfix.{Expr, value, postfix, pushed, interp_interp-postfix}
use tools.Interp.Flags.{
  IsFlat, IsInside, IsFlat-IsInside, skipped, flat-KeepsFlags, interp_interp-append,
}

-- inside a branch in the state `s`, and behind it, with all but the flags from `s'`
abbrev pub inside : Bool → Interp → Interp → Interp
inside b s s' = record s' { exec = b; outer = true ∷ s.outer; last_exec = b }

abbrev pub behind : Bool → Interp → Interp → Interp
behind b s s' = record s' { exec = true; outer = s.outer; last_exec = b }

-- the operations of an if with an else, followed by others
abbrev pub if_else : Expr → List Operation → List Operation → List Operation → List Operation
if_else c a b rest =
    postfix c
    ++ (op_if_begin ∷ (a ++ (op_scope_end ∷ op_else_begin ∷ (b ++ (op_scope_end ∷ rest)))))

module _ (t : Target) (s : Interp) (e : s.exec ≡ true) (room : ltb (length s.outer) 15 ≡ true) where
  begin_lem :
      (b : Bool) (s' : Interp)
      → begin b (record s' { exec = true; outer = s.outer })
        ≡ some (record s' { exec = b; outer = true ∷ s.outer })
  unfolding begin
  begin_lem b s' = rw room refl

  interp_interp-if_begin :
      (v : Object) (ops : List Operation)
      → interp_interp t (op_if_begin ∷ ops) (pushed s v)
        ≡ interp_interp t ops (inside (is_true t v) s s)
  unfolding interp_interp step execute
  interp_interp-if_begin v ops =
      ap (λ b. under_exec b t op_if_begin (pushed s v) >>= interp_interp t ops) e
      ∙ ap
          (λ x.
            keep_exec (begin (is_true t v) (record s { exec = x; last_exec = x }))
            >>= interp_interp t ops)
          e
      ∙ ap (λ o. keep_exec o >>= interp_interp t ops)
          (begin_lem (is_true t v) (record s { last_exec = true }))

  interp_interp-else_begin :
      (b : Bool) (ops : List Operation) (s' : Interp)
      → interp_interp t (op_else_begin ∷ ops) (behind b s s')
        ≡ interp_interp t ops (inside (not b) s s')
  unfolding interp_interp step execute
  interp_interp-else_begin b ops s' =
      ap (λ o. keep_exec o >>= interp_interp t ops) (begin_lem (not b) (behind b s s'))

  interp_interp-scope_end :
      (b : Bool) (ops : List Operation) (s' : Interp)
      → (s'.exec ≡ b) × (s'.outer ≡ true ∷ s.outer)
      → interp_interp t (op_scope_end ∷ ops) s' ≡ interp_interp t ops (behind b s s')
  unfolding interp_interp step scope_end
  interp_interp-scope_end b ops s' (h, k) =
      ap (λ x. interp_interp t ops (leave x s'.outer s')) h
      ∙ ap (λ xs. interp_interp t ops (leave b xs s')) k

  -- a branch that is executed, to its end
  taken :
      (a ops : List Operation) (s' : Interp)
      → IsFlat a
      → interp_interp t (a ++ (op_scope_end ∷ ops)) (inside true s s')
        ≡ (interp_interp t a (inside true s s') >>= λ s''. interp_interp t ops (behind true s s''))
  taken a ops s' flat =
      interp_interp-append t a (op_scope_end ∷ ops) (inside true s s')
      ∙ bind_ext_some (interp_interp t a (inside true s s')) (λ s'' r.
        interp_interp-scope_end true ops s''
          (flat-KeepsFlags t a (inside true s s') refl flat s'' r))

  not_taken :
      (a ops : List Operation) (s' : Interp)
      → IsInside a
      → interp_interp t (a ++ (op_scope_end ∷ ops)) (inside false s s')
        ≡ interp_interp t ops (behind false s s')
  not_taken a ops s' h =
      skipped t a (op_scope_end ∷ ops) (inside false s s') refl h
      ∙ interp_interp-scope_end false ops (inside false s s') (refl, refl)

  after_condition :
      (a b rest : List Operation) (test : Bool)
      → IsFlat a
      → IsFlat b
      → interp_interp t
          (a ++ (op_scope_end ∷ op_else_begin ∷ (b ++ (op_scope_end ∷ rest))))
          (inside test s s)
        ≡ (interp_interp t (if test then a else b) (inside true s s) >>= λ s'.
            interp_interp t rest (behind (not test) s s'))
  after_condition a b rest true h k =
      taken a (op_else_begin ∷ (b ++ (op_scope_end ∷ rest))) s h
      ∙ bind_ext_some (interp_interp t a (inside true s s)) (λ s' r.
        interp_interp-else_begin true (b ++ (op_scope_end ∷ rest)) s'
        ∙ not_taken b rest s' (IsFlat-IsInside b k))
  after_condition a b rest false h k =
      not_taken a (op_else_begin ∷ (b ++ (op_scope_end ∷ rest))) s (IsFlat-IsInside a h)
      ∙ interp_interp-else_begin false (b ++ (op_scope_end ∷ rest)) s
      ∙ taken b rest s k

  module _ (c : Expr) (v : Object) (h : value c ≡ some v) where
    at_condition :
        (ops : List Operation)
        → interp_interp t (postfix c ++ (op_if_begin ∷ ops)) s
          ≡ interp_interp t ops (inside (is_true t v) s s)
    at_condition ops =
        interp_interp-postfix t c (op_if_begin ∷ ops) s e
        ∙ ap (λ o. o >>= λ x. interp_interp t (op_if_begin ∷ ops) (pushed s x)) h
        ∙ interp_interp-if_begin v ops

    -- Where operations are executed and at most 15 flags are in use, an if whose condition has a
    -- value and whose two branches hold no branches of their own runs exactly one of them, the
    -- first if the value is true and else the second, and goes on behind the if with the flags of
    -- before.
    pub interp_interp-if_else :
        (a b rest : List Operation)
        → IsFlat a
        → IsFlat b
        → interp_interp t (if_else c a b rest) s ≡ (
            interp_interp t (if is_true t v then a else b) (inside true s s) >>= λ s'.
            interp_interp t rest (behind (not (is_true t v)) s s'))
    interp_interp-if_else a b rest flat flat' =
        at_condition (a ++ (op_scope_end ∷ op_else_begin ∷ (b ++ (op_scope_end ∷ rest))))
        ∙ after_condition a b rest (is_true t v) flat flat'

    -- Where operations are executed and at most 15 flags are in use, if the condition is false and
    -- its branch holds, behind operations that end no scope, an if of which the same holds, the end
    -- of the inner if ends the outer branch: what follows it inside the outer if is executed.
    pub interp_interp-nested_if :
        (d : Expr) (a b rest : List Operation)
        → is_true t v ≡ false
        → IsInside (a ++ postfix d)
        → IsInside b
        → interp_interp t
            (postfix c
              ++ (op_if_begin ∷ (a ++ postfix d ++ (op_if_begin ∷ (b ++ (op_scope_end ∷ rest))))))
            s
          ≡ interp_interp t rest (behind false s s)
    interp_interp-nested_if d a b rest untrue i j =
        at_condition (a ++ postfix d ++ (op_if_begin ∷ (b ++ (op_scope_end ∷ rest))))
        ∙ ap
            (λ x.
              interp_interp t (a ++ postfix d ++ (op_if_begin ∷ (b ++ (op_scope_end ∷ rest))))
                (inside x s s))
            untrue
        ∙ skipped t (a ++ postfix d) (op_if_begin ∷ (b ++ (op_scope_end ∷ rest))) (inside false s s)
            refl i
        ∙ skipped t (op_if_begin ∷ b) (op_scope_end ∷ rest) (inside false s s) refl (refl, j)
        ∙ interp_interp-scope_end false rest (inside false s s) (refl, refl)
