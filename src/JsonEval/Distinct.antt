-- ===== src/JsonEval/Distinct.antt =====
-- The names that rename_binders draws, in the order of the binders of the renamed term.
use perennial.Prelude.{
  ℕ, zero, suc, ◌≡◌, refl, inl, inr, ◌||◌, true, String, List, [], ◌∷◌, ◌++◌, Bool-cases,
}
use perennial.Outcome.{ok}
use perennial.Json.{Value, Items, str, nil, cons, is_str, get, as_list, as_str}
use perennial.JsonEval.Bound.{
  texts, bound_by_pat, bound_items, bound_case, bound_cases, bound_at, bound, is_str-eq, Draws,
  Draws-pure, Draws-fail, Draws-lift, Draws-bind, Draws-if, Draws-after, Draws-anon_binder,
  Draws-unbound,
}
use perennial.JsonEval.Rename.{
  Fresh, NameMap, find_name, rename_args, rename_pat, rename_items, rename_case, rename_cases,
  rename_lambda, rename_let, rename_case_expr, rename_constructor, rename_apply, rename_coerce,
  rename_rel, rename_step, rename_binders,
}

Draws-rename_args : (xs : Items) (nm : NameMap) → Draws [] (λ p. texts p.0) (rename_args xs nm)
unfolding rename_args
Draws-rename_args nil nm = Draws-pure _ refl
Draws-rename_args (cons a xs) nm = Draws-lift (as_str a) _ λ x _.
    Draws-bind (λ n. n ∷ []) _ _ (Draws-anon_binder [] x)
      λ n.
        Draws-bind (λ p. n ∷ texts p.0) _ _ (Draws-after (n ∷ []) (Draws-rename_args xs _))
          λ p. Draws-pure _ refl

Draws-rename_pat :
    (pat : Value) (nm : NameMap) → Draws [] (λ p. bound_by_pat p.0) (rename_pat pat nm)
unfolding rename_pat
Draws-rename_pat pat nm = Draws-lift (get "what" pat) _ λ w e.
    Draws-if (is_str "pat:constructor" w) _ _
      (λ yes. Draws-lift (get "argnames" pat) _ λ v _. Draws-lift (as_list v) _ λ names _.
        Draws-bind (λ q. texts q.0) _ _ (Draws-rename_args names nm)
          λ q. Draws-lift (get "name" pat) _ λ n _. Draws-pure _ (rw yes refl))
      λ no.
        Draws-if (is_str "pat:wild" w) _ _ (λ wild. Draws-pure _ (rw (e, no) refl))
          λ tame.
            Draws-if (is_str "pat:rel" w) _ _
              (λ rel. Draws-lift (get "name" pat) _ λ v _. Draws-lift (as_str v) _ λ x _.
                Draws-bind (λ n. []) _ _ (Draws-unbound [] x) λ n. Draws-pure _ (rw (e, no) refl))
              λ other. Draws-fail _

-- A global, a dummy or an axiom binds nothing.
bound_at-global :
    (own : Value → List String) (e w : Value)
    → get "what" e ≡ ok w
    → (is_str "expr:global" w || (is_str "expr:dummy" w || is_str "expr:axiom" w)) ≡ true
    → bound_at own (get "what" e) e ≡ []
bound_at-global own e w q h = elim (Bool-cases (is_str "expr:global" w)) [
  | inl global ↦ rw (q, is_str-eq "expr:global" w global) refl
  | inr local ↦ elim (Bool-cases (is_str "expr:dummy" w)) [
    | inl dummy ↦ rw (q, is_str-eq "expr:dummy" w dummy) refl
    | inr real ↦ rw (q, is_str-eq "expr:axiom" w (rw (local, real) at h)) refl
  ]
]

module _ (rec : NameMap → Value → Fresh Value) (own : Value → List String)
    (h : (nm : NameMap) (e : Value) → Draws [] own (rec nm e)) where
  abbrev Bounds : Fresh Value → Type 0
  Bounds = Draws [] (λ e. bound_at own (get "what" e) e)

  Draws-rename_items :
      (nm : NameMap) (es : Items) → Draws [] (bound_items own) (rename_items rec nm es)
  unfolding rename_items
  Draws-rename_items nm nil = Draws-pure _ refl
  Draws-rename_items nm (cons e es) = Draws-bind own _ _ (h nm e) λ e'.
      Draws-bind (λ es'. own e' ++ bound_items own es') _ _
        (Draws-after (own e') (Draws-rename_items nm es)) λ es'. Draws-pure _ refl

  Draws-rename_case : (nm : NameMap) (c : Value) → Draws [] (bound_case own) (rename_case rec nm c)
  unfolding rename_case
  Draws-rename_case nm c = Draws-lift (get "pat" c) _ λ pat _.
      Draws-bind (λ q. bound_by_pat q.0) _ _ (Draws-rename_pat pat nm)
        λ q. Draws-lift (get "what" c) _ λ w _. Draws-lift (get "body" c) _ λ body _.
          Draws-bind (λ b. bound_by_pat q.0 ++ own b) _ _ (Draws-after _ (h _ body))
            λ b. Draws-pure _ refl

  Draws-rename_cases :
      (nm : NameMap) (cs : Items) → Draws [] (bound_cases own) (rename_cases rec nm cs)
  unfolding rename_cases
  Draws-rename_cases nm nil = Draws-pure _ refl
  Draws-rename_cases nm (cons c cs) = Draws-bind (bound_case own) _ _ (Draws-rename_case nm c) λ c'.
      Draws-bind (λ cs'. bound_case own c' ++ bound_cases own cs') _ _
        (Draws-after _ (Draws-rename_cases nm cs)) λ cs'. Draws-pure _ refl

  Bounds-rename_lambda :
      (nm : NameMap) (e : Value) → Bounds (rename_lambda rec nm (str "expr:lambda") e)
  unfolding rename_lambda
  Bounds-rename_lambda nm e = Draws-lift (get "argnames" e) _ λ v _.
      Draws-lift (as_list v) _ λ names _.
        Draws-bind (λ q. texts q.0) _ _ (Draws-rename_args names nm)
          λ q. Draws-lift (get "body" e) _ λ body _.
            Draws-bind (λ b. texts q.0 ++ own b) _ _ (Draws-after _ (h _ body))
              λ b. Draws-pure _ refl

  Bounds-rename_let : (nm : NameMap) (e : Value) → Bounds (rename_let rec nm (str "expr:let") e)
  unfolding rename_let
  Bounds-rename_let nm e = Draws-lift (get "name" e) _ λ v _. Draws-lift (as_str v) _ λ x _.
      Draws-bind (λ n. n ∷ []) _ _ (Draws-anon_binder [] x)
        λ n. Draws-lift (get "nameval" e) _ λ v _.
          Draws-bind (λ v'. (n ∷ []) ++ own v') _ _ (Draws-after (n ∷ []) (h nm v))
            λ v'. Draws-lift (get "body" e) _ λ body _.
              Draws-bind (λ b. ((n ∷ []) ++ own v') ++ own b) _ _ (Draws-after _ (h _ body))
                λ b. Draws-pure _ refl

  Bounds-rename_case_expr :
      (nm : NameMap) (e : Value) → Bounds (rename_case_expr rec nm (str "expr:case") e)
  unfolding rename_case_expr
  Bounds-rename_case_expr nm e = Draws-lift (get "cases" e) _ λ v _.
      Draws-lift (as_list v) _ λ cs _.
        Draws-bind (bound_cases own) _ _ (Draws-rename_cases nm cs) λ cs'.
          Draws-lift (get "expr" e) _ λ x _.
            Draws-bind (λ x'. bound_cases own cs' ++ own x') _ _ (Draws-after _ (h nm x))
              λ x'. Draws-pure _ refl

  Bounds-rename_constructor :
      (nm : NameMap) (e : Value) → Bounds (rename_constructor rec nm (str "expr:constructor") e)
  unfolding rename_constructor
  Bounds-rename_constructor nm e = Draws-lift (get "mod" e) _ λ m _.
      Draws-lift (get "name" e) _ λ n _. Draws-lift (get "args" e) _ λ v _.
        Draws-lift (as_list v) _ λ args _.
          Draws-bind (bound_items own) _ _ (Draws-rename_items nm args) λ args'. Draws-pure _ refl

  Bounds-rename_apply :
      (nm : NameMap) (e : Value) → Bounds (rename_apply rec nm (str "expr:apply") e)
  unfolding rename_apply
  Bounds-rename_apply nm e = Draws-lift (get "args" e) _ λ v _. Draws-lift (as_list v) _ λ args _.
      Draws-bind (bound_items own) _ _ (Draws-rename_items nm args) λ args'.
        Draws-lift (get "func" e) _ λ f _.
          Draws-bind (λ f'. bound_items own args' ++ own f') _ _ (Draws-after _ (h nm f))
            λ f'. Draws-pure _ refl

  Bounds-rename_coerce :
      (nm : NameMap) (e : Value) → Bounds (rename_coerce rec nm (str "expr:coerce") e)
  unfolding rename_coerce
  Bounds-rename_coerce nm e =
      Draws-lift (get "value" e) _ λ v _. Draws-bind own _ _ (h nm v) λ v'. Draws-pure _ refl

  Bounds-rename_rel : (nm : NameMap) (e : Value) → Bounds (rename_rel nm (str "expr:rel") e)
  unfolding rename_rel
  Bounds-rename_rel nm e =
      Draws-lift (get "name" e) _
        λ v _. Draws-lift (as_str v) _ λ x _. Draws-lift (find_name x nm) _ λ n _. Draws-pure _ refl

  Bounds-rename_step :
      (nm : NameMap) (e w : Value) → get "what" e ≡ ok w → Bounds (rename_step rec nm e w)
  unfolding rename_step
  Bounds-rename_step nm e w q =
      Draws-if (is_str "expr:lambda" w) _ _ (λ t. rw (is_str-eq _ w t) (Bounds-rename_lambda nm e))
        λ _.
          Draws-if (is_str "expr:let" w) _ _ (λ t. rw (is_str-eq _ w t) (Bounds-rename_let nm e))
            λ _.
              Draws-if (is_str "expr:case" w) _ _
                (λ t. rw (is_str-eq _ w t) (Bounds-rename_case_expr nm e))
                λ _.
                  Draws-if (is_str "expr:constructor" w) _ _
                    (λ t. rw (is_str-eq _ w t) (Bounds-rename_constructor nm e))
                    λ _.
                      Draws-if (is_str "expr:apply" w) _ _
                        (λ t. rw (is_str-eq _ w t) (Bounds-rename_apply nm e))
                        λ _.
                          Draws-if (is_str "expr:rel" w) _ _
                            (λ t. rw (is_str-eq _ w t) (Bounds-rename_rel nm e))
                            λ _.
                              Draws-if _ _ _ (λ t. Draws-pure _ (bound_at-global own e w q t))
                                λ _.
                                  Draws-if (is_str "expr:coerce" w) _ _
                                    (λ t. rw (is_str-eq _ w t) (Bounds-rename_coerce nm e))
                                    λ _. Draws-fail _

pub Draws-rename_binders :
    (f : ℕ) (nm : NameMap) (e : Value) → Draws [] (bound f) (rename_binders f nm e)
unfolding rename_binders bound
Draws-rename_binders zero nm e = Draws-fail _
Draws-rename_binders (suc f) nm e =
    Draws-lift (get "what" e) _
      λ w q. Bounds-rename_step (rename_binders f) (bound f) (Draws-rename_binders f) nm e w q
