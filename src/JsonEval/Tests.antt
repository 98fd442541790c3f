-- ===== src/JsonEval/Tests.antt =====
-- Runs of json_eval.py's reduction, and its theorems at concrete terms.
use perennial.Prelude.{◌≢◌, arith, ℕ, ◌+◌, String, ◌≡◌, refl, [], ◌∷◌}
use perennial.Outcome.{out_of_fuel, ok, err, value_error}
use perennial.Json.{Value, null, str, dict, module_ref, foreign, nil, cons, end, field}
use perennial.JsonEval.Modules.{Module, Context, get_term, scope_name}
use perennial.JsonEval.Subst.{is_target, subst_what, apply, lambda}
use perennial.JsonEval.Reduce.{
  apply_expr, scoped, reduce_apply, reduce_lambda, reduce_global, reduce_dict, reduce_step, reduce,
}
use perennial.JsonEval.ReduceLaws.{reduce_idem}
use perennial.JsonEval.Beta.{instantiate, reduce-beta}
use perennial.Decimal.{decimal_before, decimal}
use perennial.JsonEval.Rename.{
  binder_name, anon_binder, rename_args, rename_lambda, rename_rel, rename_step, rename_binders,
}
use perennial.JsonEval.RenameLaws.{binder_name-injective}
use perennial.JsonEval.Size.{size}
use perennial.JsonEval.Fuel.{rename_binders-ends}
use perennial.JsonEval.Bound.{bound}
use perennial.JsonEval.NewNames.{rename_binders-Nodup}
use mathlib.Core.List.{Nodup}

abbrev rel : String → Value
rel x = dict (field "what" (str "expr:rel") (field "name" (str x) end))

abbrev global : String → Value
global x =
    dict (field "what" (str "expr:global") (field "name" (str x) (field "mod" (module_ref 0) end)))

-- fun x y => y, declared as `second` in the module Main.
abbrev second : Value
second = lambda (cons (str "x") (cons (str "y") nil)) (rel "y")

abbrev main : Module
main = record {
  modname = "Main";
  types = end;
  decls = field "second" (dict (field "value" second (field "type" null end))) end;
  constructors = end;
}

abbrev ctx : Context
ctx = record { heap = main ∷ []; modules = ("Main", 0) ∷ [] }

abbrev call_second : Value
call_second = apply_expr (global "Main.second") (cons (foreign 1) (cons (foreign 2) nil))

call_second_reduces : reduce 5 ctx call_second ≡ ok (foreign 2)
unfolding reduce reduce_step reduce_dict reduce_apply reduce_lambda reduce_global scoped scope_name
    get_term apply subst_what is_target
call_second_reduces = refl

-- A lambda given one argument of two.
abbrev partial : Value
partial = apply_expr (global "Main.second") (cons (foreign 1) nil)

partial_reduces : reduce 4 ctx partial ≡ ok (lambda (cons (str "y") nil) (rel "y"))
unfolding reduce reduce_step reduce_dict reduce_apply reduce_lambda reduce_global scoped scope_name
    get_term apply subst_what is_target
partial_reduces = refl

reduce_idem_example :
    reduce 4 ctx (lambda (cons (str "y") nil) (rel "y"))
    ≡ ok (lambda (cons (str "y") nil) (rel "y"))
reduce_idem_example =
    reduce_idem 4 ctx partial (lambda (cons (str "y") nil) (rel "y")) partial_reduces

second_instantiates :
    instantiate
      (cons (str "x") (cons (str "y") nil))
      (cons (foreign 1) (cons (foreign 2) nil))
      (rel "y")
    ≡ ok (foreign 2)
unfolding instantiate subst_what is_target
second_instantiates = refl

reduce-beta_example :
    reduce (1 + 3) ctx (apply_expr second (cons (foreign 1) (cons (foreign 2) nil)))
    ≡ reduce 2 ctx (foreign 2)
reduce-beta_example =
    reduce-beta (str "x") (cons (str "y") nil) (foreign 1) (cons (foreign 2) nil) 1 ctx (rel "y")
      (foreign 2) second_instantiates

qualified_twice : scope_name ctx "A.B.c" 0 ≡ err value_error
unfolding scope_name
qualified_twice = refl

-- The name drawn at 12 for `x`, computed.
drawn_at_12 : binder_name "x" 12 ≡ "__anon_binder_x_12"
unfolding binder_name decimal decimal_before
drawn_at_12 = refl

binder_name-injective_example : ◌≡◌ {A = ℕ} 12 12
binder_name-injective_example = binder_name-injective "x" "x" 12 12 refl

-- `second` with its two names drawn anew.
abbrev renamed : Value
renamed =
    lambda (cons (str "__anon_binder_x_8") (cons (str "__anon_binder_y_9") nil))
      (rel "__anon_binder_y_9")

run_renames : rename_binders 3 [] second 7 ≡ ok (renamed, 9)
unfolding rename_binders rename_step rename_lambda rename_args rename_rel anon_binder binder_name
    decimal decimal_before
run_renames = refl

-- The same term once more, from the count that is left.
abbrev renamed_again : Value
renamed_again =
    lambda (cons (str "__anon_binder_x_10") (cons (str "__anon_binder_y_11") nil))
      (rel "__anon_binder_y_11")

run_renames_again : rename_binders 3 [] second 9 ≡ ok (renamed_again, 11)
unfolding rename_binders rename_step rename_lambda rename_args rename_rel anon_binder binder_name
    decimal decimal_before
run_renames_again = refl

rename_binders-Nodup_example :
    Nodup {A = String}
      ("__anon_binder_x_8" ∷ "__anon_binder_y_9" ∷ "__anon_binder_x_10" ∷ "__anon_binder_y_11" ∷ [])
unfolding bound
rename_binders-Nodup_example =
    rename_binders-Nodup 3 3 [] [] second renamed second renamed_again 7 9 11 run_renames
      run_renames_again

-- `second` has eight nodes.
rename_binders-ends_example : rename_binders 8 [] second 7 ≢ err out_of_fuel
unfolding size
rename_binders-ends_example = rename_binders-ends 8 [] second 7 (omega arith)
