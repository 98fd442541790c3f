-- ===== src/JsonEval/Reduce.antt =====
-- src/goose_lang/examples/nfs_spec/symtest/json_eval.py: Context.reduce. One round of its loop is
-- `reduce_step`, which takes the recursive call as an argument; `reduce` runs rounds on fuel.
use Prim.Native.String
use perennial.Prelude.{ℕ, zero, suc, String, none, some, if◌then◌else◌}
use perennial.Outcome.{Result, ok, err, type_error, assertion_error, out_of_fuel, ◌>>=◌}
use perennial.Json.{
  Value, Items, Fields, str, list, dict, module_ref, nil, end, field, lookup, insert, is_str, get,
  get_or_nil, as_list, as_str, as_dict, uncons, append, nth, is_empty,
}
use perennial.JsonEval.Modules.{Context, deref, get_type, get_term, scope_name}
use perennial.JsonEval.Subst.{subst_what, apply}

-- A round returns its expression, or goes on with another.
pub data Round : Type 0 where
  halt : Value → Round
  continue_with : Value → Round

abbrev pub apply_expr : Value → Items → Value
apply_expr f args =
    dict (field "what" (str "expr:apply") (field "args" (list args) (field "func" f end)))

-- The name of a node and the module in which it stands, looked up: `scope_name` and the heap.
unfoldable pub scoped : Context → Value → Result (ℕ × String)
scoped ctx e = do
  n ← get "name" e
  m ← get "mod" e
  name ← as_str n
  here ← as_module m
  scope_name ctx name here
  where
    as_module : Value → Result ℕ
    as_module (module_ref i) = ok i
    as_module _ = err type_error

-- 'expr:apply': beta reduction by the first argument, where the function reduces to a lambda.
unfoldable pub reduce_apply : (Value → Result Value) → Value → Result Round
reduce_apply rec e = do
  f ← get "func" e
  f ← rec f
  w ← get "what" f
  let beta = do
    args ← get "args" e
    args ← as_list args
    (a, rest) ← uncons args
    res ← apply f a
    ok (continue_with (if is_empty rest then res else apply_expr res rest))
  if is_str "expr:lambda" w then beta else ok (halt e)

-- 'expr:lambda': a lambda with no arguments is its body.
unfoldable pub reduce_lambda : Value → Result Round
reduce_lambda e = do
  names ← get "argnames" e
  names ← as_list names
  let enter = do body ← get "body" e; ok (continue_with body)
  if is_empty names then enter else ok (halt e)

-- 'expr:global': the value of the declaration.
unfoldable pub reduce_global : Context → Value → Result Round
reduce_global ctx e = do
  (i, name) ← scoped ctx e
  m ← deref ctx.heap i
  (v, ty) ← get_term name m
  ok (continue_with v)

-- 'type:glob': the type's declaration, with the arguments of both.
unfoldable pub reduce_type : Context → Fields → Result Round
reduce_type ctx fs = do
  (i, name) ← scoped ctx (dict fs)
  m ← deref ctx.heap i
  res ← get_type name m
  res ← as_dict res
  args ← as_list (get_or_nil "args" res)
  more ← as_list (get_or_nil "args" fs)
  ok (continue_with (dict (insert "args" (list (append args more)) res)))

-- The argument that stands for a type variable is taken for `inode_state`, in the type `async` only.
unfoldable pub type_argument : Value → Value → Result Value
type_argument e arg = do
  w ← get "what" arg
  let guess = do
    cs ← get "constructors" e
    cs ← as_list cs
    c ← nth 0 cs
    tys ← get "argtypes" c
    tys ← as_list tys
    ty ← nth 1 tys
    m ← get "mod" ty
    ok (
        dict (
          field "what" (str "type:glob")
            (field "mod" m (field "name" (str "inode_state") (field "args" (list nil) end)))))
  let checked = do n ← get "name" e; if is_str "async" n then guess else err assertion_error
  if is_str "type:varidx" w then checked else ok arg

-- `expr.get('name_with_args', expr['name'])`
abbrev name_with_args : Value → Fields → Value
name_with_args n fs = elim (lookup "name_with_args" fs) [ none ↦ n | some v ↦ v ]

-- 'decl:ind': instantiate the first type parameter, and note the argument in the name.
unfoldable pub reduce_ind : Fields → Result Round
unfolding type_argument
reduce_ind fs = do
  args ← as_list (get_or_nil "args" fs)
  let instantiate = do
    (arg, rest) ← uncons args
    names ← get "argnames" (dict fs)
    names ← as_list names
    (argname, more) ← uncons names
    arg ← type_argument (dict fs) arg
    w ← get "what" (dict fs)
    cs ← get "constructors" (dict fs)
    x ← as_str argname
    cs' ← subst_what "type:var" x arg cs
    own ← get "args" (dict fs)
    own ← as_list own
    (_, own) ← uncons own
    n ← get "name" (dict fs)
    full ← as_str (name_with_args n fs)
    argn ← get "name" arg
    argn ← as_str argn
    ok (
        continue_with (
          dict (
            field "what" w (
              field "constructors" cs' (
                field "argnames" (list more) (
                  field "args" (list own) (
                    field "name" n (
                      field "name_with_args" (str (String.◌++◌ full (String.◌++◌ "_" argn)))
                        end))))))))
  if is_empty args then ok (halt (dict fs)) else instantiate

-- 'expr:let'
unfoldable pub reduce_let : Value → Result Round
reduce_let e = do
  body ← get "body" e
  x ← get "name" e
  x ← as_str x
  v ← get "nameval" e
  body' ← subst_what "expr:rel" x v body
  ok (continue_with body')

unfoldable pub reduce_coerce : Value → Result Round
reduce_coerce e = do v ← get "value" e; ok (continue_with v)

-- One round on a dict, by its 'what'.
unfoldable pub reduce_dict : Context → (Value → Result Value) → Fields → Value → Result Round
reduce_dict ctx rec fs w =
    if is_str "expr:apply" w
    then reduce_apply rec (dict fs)
    else if is_str "expr:lambda" w
    then reduce_lambda (dict fs)
    else if is_str "expr:coerce" w
    then reduce_coerce (dict fs)
    else if is_str "expr:global" w
    then reduce_global ctx (dict fs)
    else if is_str "type:glob" w
    then reduce_type ctx fs
    else if is_str "decl:ind" w
    then reduce_ind fs
    else if is_str "expr:let" w
    then reduce_let (dict fs)
    else ok (halt (dict fs))

unfoldable pub reduce_step : Context → (Value → Result Value) → Value → Result Round
reduce_step ctx rec (dict fs) = do w ← get "what" (dict fs); reduce_dict ctx rec fs w
reduce_step ctx rec e = ok (halt e)

-- What a round leaves to do.
abbrev pub finish : (Value → Result Value) → Round → Result Value
finish rec (halt v) = ok v
finish rec (continue_with e) = rec e

-- Context.reduce
unfoldable pub reduce : ℕ → Context → Value → Result Value
reduce zero ctx e = err out_of_fuel
reduce (suc n) ctx e = reduce_step ctx (reduce n ctx) e >>= finish (reduce n ctx)
