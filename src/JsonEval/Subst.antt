-- ===== src/JsonEval/Subst.antt =====
-- src/goose_lang/examples/nfs_spec/symtest/json_eval.py: subst_what and apply.
use perennial.Prelude.{Bool, false, String, none, some, if◌then◌else◌}
use perennial.Outcome.{Result, ok, err, exception, ◌>>=◌}
use perennial.Json.{
  Value, Items, Fields, str, list, dict, nil, cons, end, field, lookup, is_str, get, as_list,
  as_str, uncons, is_empty,
}

-- `expr.get('what') == what`
abbrev pub has_what : String → Fields → Bool
has_what w fs = elim (lookup "what" fs) [ none ↦ false | some v ↦ is_str w v ]

-- `expr.get('what') == what and expr['name'] == argname`
unfoldable pub is_target : String → String → Fields → Result Bool
is_target w x fs =
    if has_what w fs then (do v ← get "name" (dict fs); ok (is_str x v)) else ok false

-- subst_what: replace each node of the kind `w` with the name `x`, at any depth.
unfoldable mutual
  pub subst_what : String → String → Value → Value → Result Value
  subst_what w x v (dict fs) = do
    hit ← is_target w x fs
    let rest = subst_what_fields w x v fs
    if hit then ok v else rest >>= λ fs'. ok (dict fs')
  subst_what w x v (list es) = do es' ← subst_what_items w x v es; ok (list es')
  subst_what w x v e = ok e

  pub subst_what_items : String → String → Value → Items → Result Items
  subst_what_items w x v nil = ok nil
  subst_what_items w x v (cons e es) = do
    e' ← subst_what w x v e
    es' ← subst_what_items w x v es
    ok (cons e' es')

  pub subst_what_fields : String → String → Value → Fields → Result Fields
  subst_what_fields w x v end = ok end
  subst_what_fields w x v (field k e fs) = do
    e' ← subst_what w x v e
    fs' ← subst_what_fields w x v fs
    ok (field k e' fs')

-- The dict that `apply` builds for a lambda.
abbrev pub lambda : Items → Value → Value
lambda names body =
    dict (field "what" (str "expr:lambda") (field "argnames" (list names) (field "body" body end)))

-- apply: give a lambda its first argument.
unfoldable pub apply : Value → Value → Result Value
apply lam argval = do
  w ← get "what" lam
  let run = do
    names ← get "argnames" lam
    names ← as_list names
    (argname, rest) ← uncons names
    body ← get "body" lam
    argname ← as_str argname
    body' ← subst_what "expr:rel" argname argval body
    ok (if is_empty rest then body' else lambda rest body')
  if is_str "expr:lambda" w then run else err exception
