-- ===== src/JsonEval/Rename.antt =====
-- src/goose_lang/examples/nfs_spec/symtest/json_eval.py: rename_binders and anon_binder. The global
-- counter is a state that is passed on; the recursion over the JSON tree is on fuel.
use Prim.Native.String.{◌++◌ as text_append}
use perennial.Prelude.{ℕ, zero, suc, ◌+◌, String, ◌||◌, List, [], ◌∷◌, str_eq, if◌then◌else◌}
use perennial.Decimal.{decimal}
use perennial.Outcome.{Error, Result, ok, err, key_error, exception, out_of_fuel}
use perennial.Json.{
  Value, Items, str, list, dict, nil, cons, end, field, is_str, get, as_list, as_str,
}
use perennial.Outcome

-- A computation that draws on `anon_binder_ctr`.
abbrev pub Fresh {ℓ} : Type ℓ → Type ℓ
Fresh A = ℕ → Result (A × ℕ)

infixl 5 ◌>>=◌
abbrev pub ◌>>=◌ {ℓ κ} : {A : Type ℓ} {B : Type κ} → Fresh A → (A → Fresh B) → Fresh B
(m >>= f) c = Outcome.◌>>=◌ (m c) λ (a, c'). f a c'

abbrev pub pure {ℓ} : {A : Type ℓ} → A → Fresh A
pure a c = ok (a, c)

-- A call that leaves the counter alone.
abbrev pub lift {ℓ} : {A : Type ℓ} → Result A → Fresh A
lift r c = Outcome.◌>>=◌ r λ a. ok (a, c)

abbrev pub fail {ℓ} : {A : Type ℓ} → Error → Fresh A
fail e c = err e

-- The name for the counter value `c`.
unfoldable pub binder_name : String → ℕ → String
binder_name orig c = text_append "__anon_binder_" (text_append orig (text_append "_" (decimal c)))

-- anon_binder: the counter is bumped first.
unfoldable pub anon_binder : String → Fresh String
anon_binder orig c = ok (binder_name orig (c + 1), c + 1)

abbrev pub NameMap : Type 0
NameMap = List (String × String)

-- `namemap[x]`
abbrev pub find_name : String → NameMap → Result String
find_name x [] = err key_error
find_name x ((y, z) ∷ nm) = if str_eq y x then ok z else find_name x nm

-- One fresh name for each argument name, and the map with those added.
unfoldable pub rename_args : Items → NameMap → Fresh (Items × NameMap)
rename_args nil nm = pure (nil, nm)
rename_args (cons a as') nm = do
  x ← lift (as_str a)
  n ← anon_binder x
  (rest, nm') ← rename_args as' ((x, n) ∷ nm)
  pure (cons (str n) rest, nm')

-- A pattern, and the map for its case. The pattern 'pat:rel' is kept as it is, with its old name.
unfoldable pub rename_pat : Value → NameMap → Fresh (Value × NameMap)
rename_pat pat nm = do
  w ← lift (get "what" pat)
  let constructor = do
    names ← lift (get "argnames" pat)
    names ← lift (as_list names)
    (names', nm') ← rename_args names nm
    n ← lift (get "name" pat)
    pure (dict (field "what" w (field "name" n (field "argnames" (list names') end))), nm')
  let rel = do
    x ← lift (get "name" pat)
    x ← lift (as_str x)
    n ← anon_binder x
    pure (pat, (x, n) ∷ nm)
  if is_str "pat:constructor" w
      then constructor
      else if is_str "pat:wild" w
      then pure (pat, nm)
      else if is_str "pat:rel" w
      then rel
      else fail exception

module _ (rec : NameMap → Value → Fresh Value) where
  unfoldable pub rename_items : NameMap → Items → Fresh Items
  rename_items nm nil = pure nil
  rename_items nm (cons e es) = do e' ← rec nm e; es' ← rename_items nm es; pure (cons e' es')

  unfoldable pub rename_case : NameMap → Value → Fresh Value
  rename_case nm c = do
    pat ← lift (get "pat" c)
    (pat', nm') ← rename_pat pat nm
    w ← lift (get "what" c)
    body ← lift (get "body" c)
    body' ← rec nm' body
    pure (dict (field "what" w (field "pat" pat' (field "body" body' end))))

  unfoldable pub rename_cases : NameMap → Items → Fresh Items
  rename_cases nm nil = pure nil
  rename_cases nm (cons c cs) = do
    c' ← rename_case nm c
    cs' ← rename_cases nm cs
    pure (cons c' cs')

  unfoldable pub rename_lambda : NameMap → Value → Value → Fresh Value
  rename_lambda nm w e = do
    names ← lift (get "argnames" e)
    names ← lift (as_list names)
    (names', nm') ← rename_args names nm
    body ← lift (get "body" e)
    body' ← rec nm' body
    pure (dict (field "what" w (field "argnames" (list names') (field "body" body' end))))

  unfoldable pub rename_let : NameMap → Value → Value → Fresh Value
  rename_let nm w e = do
    x ← lift (get "name" e)
    x ← lift (as_str x)
    n ← anon_binder x
    v ← lift (get "nameval" e)
    v' ← rec nm v
    body ← lift (get "body" e)
    body' ← rec ((x, n) ∷ nm) body
    pure
        (dict (field "what" w (field "name" (str n) (field "nameval" v' (field "body" body' end)))))

  unfoldable pub rename_case_expr : NameMap → Value → Value → Fresh Value
  rename_case_expr nm w e = do
    cs ← lift (get "cases" e)
    cs ← lift (as_list cs)
    cs' ← rename_cases nm cs
    x ← lift (get "expr" e)
    x' ← rec nm x
    pure (dict (field "what" w (field "expr" x' (field "cases" (list cs') end))))

  unfoldable pub rename_constructor : NameMap → Value → Value → Fresh Value
  rename_constructor nm w e = do
    m ← lift (get "mod" e)
    n ← lift (get "name" e)
    args ← lift (get "args" e)
    args ← lift (as_list args)
    args' ← rename_items nm args
    pure (dict (field "what" w (field "mod" m (field "name" n (field "args" (list args') end)))))

  unfoldable pub rename_apply : NameMap → Value → Value → Fresh Value
  rename_apply nm w e = do
    args ← lift (get "args" e)
    args ← lift (as_list args)
    args' ← rename_items nm args
    f ← lift (get "func" e)
    f' ← rec nm f
    pure (dict (field "what" w (field "args" (list args') (field "func" f' end))))

  unfoldable pub rename_coerce : NameMap → Value → Value → Fresh Value
  rename_coerce nm w e = do
    v ← lift (get "value" e)
    v' ← rec nm v
    pure (dict (field "what" w (field "value" v' end)))

unfoldable pub rename_rel : NameMap → Value → Value → Fresh Value
rename_rel nm w e = do
  x ← lift (get "name" e)
  x ← lift (as_str x)
  n ← lift (find_name x nm)
  pure (dict (field "what" w (field "name" (str n) end)))

unfoldable pub rename_step : (NameMap → Value → Fresh Value) → NameMap → Value → Value → Fresh Value
rename_step rec nm e w =
    if is_str "expr:lambda" w
    then rename_lambda rec nm w e
    else if is_str "expr:let" w
    then rename_let rec nm w e
    else if is_str "expr:case" w
    then rename_case_expr rec nm w e
    else if is_str "expr:constructor" w
    then rename_constructor rec nm w e
    else if is_str "expr:apply" w
    then rename_apply rec nm w e
    else if is_str "expr:rel" w
    then rename_rel nm w e
    else if is_str "expr:global" w || (is_str "expr:dummy" w || is_str "expr:axiom" w)
    then pure e
    else if is_str "expr:coerce" w
    then rename_coerce rec nm w e
    else fail exception

-- rename_binders
unfoldable pub rename_binders : ℕ → NameMap → Value → Fresh Value
rename_binders zero nm e = fail out_of_fuel
rename_binders (suc f) nm e = do w ← lift (get "what" e); rename_step (rename_binders f) nm e w
