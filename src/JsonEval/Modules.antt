-- ===== src/JsonEval/Modules.antt =====
-- src/goose_lang/examples/nfs_spec/symtest/json_eval.py: the tables of class `Module`, the modules of
-- class `Context`, and the look-up of a name.
use Prim.Native.Char.{code}
use perennial.Prelude.{ℕ, zero, suc, String, str_eq, List, [], ◌∷◌, none, some, ◌==◌, if◌then◌else◌}
use perennial.Outcome.{Result, ok, err, key_error, value_error, type_error, ◌>>=◌}
use perennial.Json.{Value, Fields, dict, lookup, insert, get}

-- class Module
pub record Module : Type 0 where
  pub modname : String
  pub types : Fields
  pub decls : Fields
  pub constructors : Fields

-- class Context: `heap` holds every `Module` object made, `modules` maps a name to its object.
pub record Context : Type 0 where
  pub heap : List Module
  pub modules : List (String × ℕ)

abbrev pub deref : List Module → ℕ → Result Module
deref [] i = err type_error
deref (m ∷ ms) zero = ok m
deref (m ∷ ms) (suc i) = deref ms i

-- A dict's item access, `table[n]`.
abbrev pub item : String → Fields → Result Value
item k fs = elim (lookup k fs) [ none ↦ err key_error | some v ↦ ok v ]

-- Module.get_type
unfoldable pub get_type : String → Module → Result Value
get_type n m = item n m.types

-- Module.get_term: the declaration's value and its type.
unfoldable pub get_term : String → Module → Result (Value × Value)
get_term n m = do t ← item n m.decls; v ← get "value" t; ty ← get "type" t; ok (v, ty)

-- Module.get_constructor
unfoldable pub get_constructor : String → Module → Result Value
get_constructor n m = item n m.constructors

abbrev set_value : Value → Value → Result Value
set_value val (dict fs) = ok (dict (insert "value" val fs))
set_value val _ = err type_error

-- Module.redefine_term
unfoldable pub redefine_term : String → Value → Module → Result Module
redefine_term n val m = do
  d ← item n m.decls
  d' ← set_value val d
  ok (record m { decls = insert n d' m.decls })

abbrev find_module : String → List (String × ℕ) → Result ℕ
find_module n [] = err key_error
find_module n ((k, i) ∷ rest) = if str_eq k n then ok i else find_module n rest

-- Context.get_module
unfoldable pub get_module : String → Context → Result ℕ
get_module n ctx = find_module n ctx.modules

-- `name.split('.')`
unfoldable pub split_dots : String → List String
split_dots String.[] = String.[] ∷ []
split_dots (String.◌∷◌ c s) =
    if code c == b'.' then String.[] ∷ split_dots s else extend (split_dots s)
  where
    extend : List String → List String
    extend [] = String.◌∷◌ c String.[] ∷ []
    extend (w ∷ ws) = String.◌∷◌ c w ∷ ws

abbrev scope_parts : Context → ℕ → List String → Result (ℕ × String)
scope_parts ctx here (name ∷ []) = ok (here, name)
scope_parts ctx here (modname ∷ localname ∷ []) = do
  i ← find_module modname ctx.modules
  ok (i, localname)
scope_parts ctx here _ = err value_error

-- Context.scope_name: a qualified name belongs to the module it names, any other to the module in
-- which it stands. A second dot makes the unpacking of the pair fail.
unfoldable pub scope_name : Context → String → ℕ → Result (ℕ × String)
unfolding split_dots
scope_name ctx name here = scope_parts ctx here (split_dots name)
