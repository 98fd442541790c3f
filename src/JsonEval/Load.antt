-- ===== src/JsonEval/Load.antt =====
-- src/goose_lang/examples/nfs_spec/symtest/json_eval.py: the construction of a `Module` from JSON,
-- and Context.load.
use perennial.Prelude.{ℕ, String, Bool, ◌||◌, List, [], ◌∷◌, ◌++◌, str_eq, length, if◌then◌else◌}
use perennial.Outcome.{Result, ok, exception}
use perennial.Outcome
use perennial.Json.{
  Value, Items, Fields, list, dict, module_ref, nil, cons, end, field, insert, is_str, get, as_list,
  as_str, as_dict,
}
use perennial.JsonEval.Modules.{Module, Context}
use perennial.JsonEval.Rename.{Fresh, ◌>>=◌, pure, lift, fail, rename_binders}
use perennial.JsonEval.Subst.{has_what}

-- The module reference is put into each node of these three kinds.
abbrev pub is_global : Fields → Bool
is_global fs =
    has_what "expr:global" fs || (has_what "type:glob" fs || has_what "expr:constructor" fs)

abbrev mark : ℕ → Fields → Fields → Fields
mark self fs fs' = if is_global fs then insert "mod" (module_ref self) fs' else fs'

-- Module._annotate_globals, at any depth.
unfoldable mutual
  pub annotate_globals : ℕ → Value → Value
  annotate_globals self (dict fs) = dict (mark self fs (annotate_fields self fs))
  annotate_globals self (list es) = list (annotate_items self es)
  annotate_globals self e = e

  pub annotate_items : ℕ → Items → Items
  annotate_items self nil = nil
  annotate_items self (cons e es) = cons (annotate_globals self e) (annotate_items self es)

  pub annotate_fields : ℕ → Fields → Fields
  annotate_fields self end = end
  annotate_fields self (field k e fs) = field k (annotate_globals self e) (annotate_fields self fs)

-- One entry of the table of constructors.
unfoldable pub add_constructors : Value → Items → Fields → Result Fields
add_constructors typename nil table = ok table
add_constructors typename (cons c cs) table = Outcome.◌>>=◌ (get "name" c) λ n.
    Outcome.◌>>=◌ (as_str n) λ x. Outcome.◌>>=◌ (get "argtypes" c) λ tys.
      add_constructors typename cs
        (insert x (dict (field "typename" typename (field "argtypes" tys end))) table)

-- 'decl:ind': the type, and its constructors.
unfoldable pub load_ind : Value → Module → Fresh Module
load_ind d m = do
  n ← lift (get "name" d)
  x ← lift (as_str n)
  cs ← lift (get "constructors" d)
  cs ← lift (as_list cs)
  table ← lift (add_constructors n cs m.constructors)
  pure (record m { types = insert x d m.types; constructors = table })

-- 'decl:term': the term, with its binders renamed.
unfoldable pub load_term : ℕ → Value → Module → Fresh Module
load_term fuel d m = do
  fs ← lift (as_dict d)
  v ← lift (get "value" d)
  v' ← rename_binders fuel [] v
  n ← lift (get "name" d)
  x ← lift (as_str n)
  pure (record m { decls = insert x (dict (insert "value" v' fs)) m.decls })

-- 'decl:type'
unfoldable pub load_type : Value → Module → Fresh Module
load_type d m = do
  v ← lift (get "value" d)
  n ← lift (get "name" d)
  x ← lift (as_str n)
  pure (record m { types = insert x v m.types })

unfoldable pub load_decl : ℕ → ℕ → Value → Module → Fresh Module
load_decl fuel self d₀ m = do
  let d = annotate_globals self d₀
  w ← lift (get "what" d)
  if is_str "decl:ind" w
      then load_ind d m
      else if is_str "decl:term" w
      then load_term fuel d m
      else if is_str "decl:type" w
      then load_type d m
      else if is_str "decl:fixgroup" w
      then pure m
      else fail exception

unfoldable pub load_decls : ℕ → ℕ → Items → Module → Fresh Module
load_decls fuel self nil m = pure m
load_decls fuel self (cons d ds) m = do m' ← load_decl fuel self d m; load_decls fuel self ds m'

-- Module.__init__, for the object at the place `self` of the heap.
unfoldable pub new_module : ℕ → ℕ → Value → Fresh Module
new_module fuel self j = do
  n ← lift (get "name" j)
  x ← lift (as_str n)
  ds ← lift (get "declarations" j)
  ds ← lift (as_list ds)
  load_decls fuel self ds (record { modname = x; types = end; decls = end; constructors = end })

abbrev bind_module : String → ℕ → List (String × ℕ) → List (String × ℕ)
bind_module n i [] = (n, i) ∷ []
bind_module n i ((k, j) ∷ rest) =
    if str_eq k n then (k, i) ∷ rest else (k, j) ∷ bind_module n i rest

-- Context.load: the new object goes to the end of the heap.
unfoldable pub load : ℕ → Context → Value → Fresh Context
load fuel ctx j = do
  let self = length ctx.heap
  m ← new_module fuel self j
  pure (record { heap = ctx.heap ++ (m ∷ []); modules = bind_module m.modname self ctx.modules })
