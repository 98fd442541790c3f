-- ===== src/JsonEval/Beta.antt =====
-- Beta reduction: an application of a lambda to as many arguments as it has names.
use native.Mathlib.Nat.{zero-add}
use perennial.Prelude.{ℕ, suc, ◌+◌, String, ◌≡◌, refl, ◌∙◌, true, arith, if◌then◌else◌}
use perennial.Outcome.{Result, ok, err, index_error, ◌>>=◌, >>=-eq-ok}
use perennial.Json.{Value, Items, null, str, nil, cons, as_str, is_empty}
use perennial.JsonEval.Modules.{Context}
use perennial.JsonEval.Subst.{subst_what, apply, lambda}
use perennial.JsonEval.Reduce.{
  apply_expr, reduce_apply, reduce_lambda, reduce_dict, reduce_step, reduce,
}

-- The body with each argument put for its name, from the left.
unfoldable pub instantiate : Items → Items → Value → Result Value
instantiate nil nil body = ok body
instantiate (cons x xs) (cons a as') body = do
  name ← as_str x
  body' ← subst_what "expr:rel" name a body
  instantiate xs as' body'
instantiate _ _ body = err index_error

abbrev pub count : Items → ℕ
count nil = 0
count (cons x xs) = suc (count xs)

-- A lambda that waits for arguments is its own normal form.
reduce-lambda :
    (n : ℕ) (ctx : Context) (x : Value) (xs : Items) (body : Value)
    → reduce (suc n) ctx (lambda (cons x xs) body) ≡ ok (lambda (cons x xs) body)
unfolding reduce reduce_step reduce_dict reduce_lambda
reduce-lambda n ctx x xs body = refl

beta_round :
    (n : ℕ) (ctx : Context) (x : String) (xs : Items) (a : Value) (as' : Items) (body body' : Value)
    → subst_what "expr:rel" x a body ≡ ok body'
    → reduce (suc (suc n)) ctx (apply_expr (lambda (cons (str x) xs) body) (cons a as')) ≡ (
        let res = (if is_empty xs then body' else lambda xs body') in
        reduce (suc n) ctx (if is_empty as' then res else apply_expr res as'))
unfolding reduce_step reduce_dict reduce_apply apply
beta_round n ctx x xs a as' body body' h =
    unfold reduce in rw (reduce-lambda n ctx (str x) xs body) (rw h refl)

-- What a successful instantiation at one more name consists of.
instantiate-cons :
    (x : String) (xs : Items) (a : Value) (as' : Items) (body b : Value)
    → instantiate (cons (str x) xs) (cons a as') body ≡ ok b
    → (body' : Value) × (subst_what "expr:rel" x a body ≡ ok body')
      × (instantiate xs as' body' ≡ ok b)
unfolding instantiate
instantiate-cons x xs a as' body b h = >>=-eq-ok (subst_what "expr:rel" x a body) _ h

instantiate-nil :
    (as' : Items) (body b : Value)
    → instantiate nil as' body ≡ ok b
    → (is_empty as' ≡ true) × (body ≡ b)
unfolding instantiate
instantiate-nil nil body b h = (refl, cc)
instantiate-nil (cons a as') body b h = cc

-- Applied to as many arguments as it has names, a lambda reduces as its instantiated body does: the
-- names are consumed one a round, from the left.
pub reduce-beta :
    (x : Value) (xs : Items) (a : Value) (as' : Items) (n : ℕ) (ctx : Context) (body b : Value)
    → instantiate (cons x xs) (cons a as') body ≡ ok b
    → reduce (count xs + suc (suc n)) ctx (apply_expr (lambda (cons x xs) body) (cons a as'))
      ≡ reduce (suc n) ctx b
reduce-beta (str x) nil a as' n ctx body b h =
    let (body', p, q) = instantiate-cons x nil a as' body b h in
    let (e, e') = instantiate-nil as' body' b q in
    rw zero-add (beta_round n ctx x nil a as' body body' p ∙ rw (e, e'))
reduce-beta (str x) (cons y ys) a nil n ctx body b h =
    let (body', p, q) = instantiate-cons x (cons y ys) a nil body b h in unfold instantiate in cc
reduce-beta (str x) (cons y ys) a (cons c cs) n ctx body b h =
    let (body', p, q) = instantiate-cons x (cons y ys) a (cons c cs) body b h in
    let fuel : count (cons y ys) + suc (suc n) ≡ suc (suc (count ys + suc n)) = omega arith in
    let rest : suc (count ys + suc n) ≡ count ys + suc (suc n) = omega arith in
    rw fuel (
      beta_round (count ys + suc n) ctx x (cons y ys) a (cons c cs) body body' p
      ∙ rw rest (reduce-beta y ys c cs n ctx body' b q))
reduce-beta null xs a as' n ctx body b h = unfold instantiate in cc
reduce-beta _ xs a as' n ctx body b h = unfold instantiate in cc
