-- ===== src/JsonEval/Fuel.antt =====
-- The fuel of rename_binders: the number of nodes of the term is enough.
use mathlib.Core.Logic.{◌≢◌}
use perennial.Prelude.{
  ℕ, zero, suc, ◌≤◌, String, ◌≡◌, refl, inl, inr, Bool, true, false, [], ◌∷◌, arith, str_eq,
  if◌then◌else◌, Bool-cases,
}
use perennial.Outcome.{Result, ok, err, out_of_fuel, exception}
use perennial.Json.{Value, Items, nil, cons, get, as_list, as_str}
use perennial.Outcome
use perennial.JsonEval.Size.{size, size_items, get-size, as_list-size, size-gt-0}
use perennial.JsonEval.Rename.{
  Fresh, ◌>>=◌, pure, lift, fail, anon_binder, NameMap, find_name, rename_args, rename_pat,
  rename_items, rename_case, rename_cases, rename_lambda, rename_let, rename_case_expr,
  rename_constructor, rename_apply, rename_coerce, rename_rel, rename_step, rename_binders,
}

-- From no counter the run ends for lack of fuel.
pub record Ends {ℓ} {A : Type ℓ} (m : Fresh A) : Type ℓ where
  pub ends : (c : ℕ) → m c ≢ err out_of_fuel

module _ {ℓ} {A : Type ℓ} where
  Ends-pure : (a : A) → Ends (pure a)
  Ends-pure a = record { ends = λ c e. cc }

  Ends-fail : Ends (fail {A = A} exception)
  Ends-fail = record { ends = λ c e. cc }

  Ends-if : (t : Bool) (m n : Fresh A) → Ends m → Ends n → Ends (if t then m else n)
  Ends-if true m n h k = h
  Ends-if false m n h k = k

  Ends-bind {κ} :
      {B : Type κ} (m : Fresh A) (f : A → Fresh B)
      → Ends m
      → ((a : A) → Ends (f a))
      → Ends (m >>= f)
  Ends-bind m f h k = record { ends = λ c. go c (m c) (h.ends c) }
    where
      go :
          (c : ℕ) (r : Result (A × ℕ))
          → r ≢ err out_of_fuel
          → Outcome.◌>>=◌ r (λ p. f p.0 p.1) ≢ err out_of_fuel
      go c (ok (a, c')) n q = (k a).ends c' q
      go c (err e) n q = n (cc q)

  -- What a lift returned is known to the rest.
  Ends-lift {κ} :
      {B : Type κ} (r : Result A) (f : A → Fresh B)
      → r ≢ err out_of_fuel
      → ((a : A) → r ≡ ok a → Ends (f a))
      → Ends (lift r >>= f)
  Ends-lift (ok a) f n k = k a refl
  Ends-lift (err e) f n k = record { ends = λ c q. n (cc q) }

Ends-anon_binder : (x : String) → Ends (anon_binder x)
unfolding anon_binder
Ends-anon_binder x = record { ends = λ c e. cc }

get-ends : (k : String) (e : Value) → get k e ≢ err out_of_fuel
get-ends k e q = ground (arith, q)

as_list-ends : (e : Value) → as_list e ≢ err out_of_fuel
as_list-ends e q = ground (arith, q)

as_str-ends : (e : Value) → as_str e ≢ err out_of_fuel
as_str-ends e q = ground (arith, q)

find_name-ends : (x : String) (nm : NameMap) → find_name x nm ≢ err out_of_fuel
find_name-ends x [] q = cc
find_name-ends x ((y, z) ∷ nm) q = elim (Bool-cases (str_eq y x)) [
  | inl same ↦ cc (rw same at q)
  | inr other ↦ find_name-ends x nm (rw other at q)
]

Ends-rename_args : (xs : Items) (nm : NameMap) → Ends (rename_args xs nm)
unfolding rename_args
Ends-rename_args nil nm = Ends-pure _
Ends-rename_args (cons x xs) nm = Ends-lift _ _ (as_str-ends x) λ y _.
    Ends-bind _ _ (Ends-anon_binder y) λ n. Ends-bind _ _ (Ends-rename_args xs _) λ p. Ends-pure _

Ends-rename_pat : (pat : Value) (nm : NameMap) → Ends (rename_pat pat nm)
unfolding rename_pat
Ends-rename_pat pat nm = Ends-lift _ _ (get-ends "what" pat) λ w _.
    Ends-if _ _ _
      (Ends-lift _ _ (get-ends "argnames" pat) λ v _. Ends-lift _ _ (as_list-ends v) λ names _.
        Ends-bind _ _ (Ends-rename_args names nm)
          λ p. Ends-lift _ _ (get-ends "name" pat) λ n _. Ends-pure _)
      (Ends-if _ _ _ (Ends-pure _) (
        Ends-if _ _ _
          (Ends-lift _ _ (get-ends "name" pat) λ v _.
            Ends-lift _ _ (as_str-ends v)
              λ x _. Ends-bind _ _ (Ends-anon_binder x) λ n. Ends-pure _)
          Ends-fail))

module _ (rec : NameMap → Value → Fresh Value) (f : ℕ)
    (h : (nm : NameMap) (e : Value) → size e ≤ f → Ends (rec nm e)) where
  -- The renaming of a part of `e`.
  Ends-part :
      (nm : NameMap) (k : String) (e v : Value) → size e ≤ suc f → get k e ≡ ok v → Ends (rec nm v)
  Ends-part nm k e v b q = let smaller = get-size k e v q in h nm v (omega (arith, smaller))

  Ends-rename_items :
      (nm : NameMap) (es : Items) → size_items es ≤ f → Ends (rename_items rec nm es)
  unfolding rename_items size
  Ends-rename_items nm nil b = Ends-pure _
  Ends-rename_items nm (cons e es) b =
      Ends-bind _ _ (h nm e (omega arith))
        λ e'. Ends-bind _ _ (Ends-rename_items nm es (omega arith)) λ es'. Ends-pure _

  Ends-rename_case : (nm : NameMap) (c : Value) → size c ≤ f → Ends (rename_case rec nm c)
  unfolding rename_case
  Ends-rename_case nm c b = Ends-lift _ _ (get-ends "pat" c) λ pat _.
      Ends-bind _ _ (Ends-rename_pat pat nm) λ p. Ends-lift _ _ (get-ends "what" c) λ w _.
        Ends-lift _ _ (get-ends "body" c)
          λ body q. Ends-bind _ _ (Ends-part p.1 "body" c body (omega arith) q) λ body'. Ends-pure _

  Ends-rename_cases :
      (nm : NameMap) (es : Items) → size_items es ≤ f → Ends (rename_cases rec nm es)
  unfolding rename_cases size
  Ends-rename_cases nm nil b = Ends-pure _
  Ends-rename_cases nm (cons e es) b =
      Ends-bind _ _ (Ends-rename_case nm e (omega arith))
        λ e'. Ends-bind _ _ (Ends-rename_cases nm es (omega arith)) λ es'. Ends-pure _

  -- The list in the field `k`.
  part_list :
      (k : String) (e v : Value) (es : Items)
      → size e ≤ suc f
      → get k e ≡ ok v
      → as_list v ≡ ok es
      → size_items es ≤ f
  part_list k e v es b q r =
      let smaller = get-size k e v q in
      let inner = as_list-size v es r in omega (arith, smaller, inner)

  module _ (nm : NameMap) (w e : Value) (b : size e ≤ suc f) where
    Ends-rename_lambda : Ends (rename_lambda rec nm w e)
    unfolding rename_lambda
    Ends-rename_lambda = Ends-lift _ _ (get-ends "argnames" e) λ v _.
        Ends-lift _ _ (as_list-ends v) λ names _. Ends-bind _ _ (Ends-rename_args names nm) λ p.
          Ends-lift _ _ (get-ends "body" e)
            λ body q. Ends-bind _ _ (Ends-part p.1 "body" e body b q) λ body'. Ends-pure _

    Ends-rename_let : Ends (rename_let rec nm w e)
    unfolding rename_let
    Ends-rename_let = Ends-lift _ _ (get-ends "name" e) λ v _. Ends-lift _ _ (as_str-ends v) λ x _.
        Ends-bind _ _ (Ends-anon_binder x) λ n. Ends-lift _ _ (get-ends "nameval" e) λ val q.
          Ends-bind _ _ (Ends-part nm "nameval" e val b q) λ val'.
            Ends-lift _ _ (get-ends "body" e)
              λ body r. Ends-bind _ _ (Ends-part _ "body" e body b r) λ body'. Ends-pure _

    Ends-rename_case_expr : Ends (rename_case_expr rec nm w e)
    unfolding rename_case_expr
    Ends-rename_case_expr = Ends-lift _ _ (get-ends "cases" e) λ v q.
        Ends-lift _ _ (as_list-ends v) λ cs r.
          Ends-bind _ _ (Ends-rename_cases nm cs (part_list "cases" e v cs b q r)) λ cs'.
            Ends-lift _ _ (get-ends "expr" e)
              λ x s. Ends-bind _ _ (Ends-part nm "expr" e x b s) λ x'. Ends-pure _

    Ends-rename_constructor : Ends (rename_constructor rec nm w e)
    unfolding rename_constructor
    Ends-rename_constructor = Ends-lift _ _ (get-ends "mod" e) λ m _.
        Ends-lift _ _ (get-ends "name" e) λ n _. Ends-lift _ _ (get-ends "args" e) λ v q.
          Ends-lift _ _ (as_list-ends v) λ args r.
            Ends-bind _ _ (Ends-rename_items nm args (part_list "args" e v args b q r))
              λ args'. Ends-pure _

    Ends-rename_apply : Ends (rename_apply rec nm w e)
    unfolding rename_apply
    Ends-rename_apply = Ends-lift _ _ (get-ends "args" e) λ v q.
        Ends-lift _ _ (as_list-ends v) λ args r.
          Ends-bind _ _ (Ends-rename_items nm args (part_list "args" e v args b q r)) λ args'.
            Ends-lift _ _ (get-ends "func" e)
              λ g s. Ends-bind _ _ (Ends-part nm "func" e g b s) λ g'. Ends-pure _

    Ends-rename_coerce : Ends (rename_coerce rec nm w e)
    unfolding rename_coerce
    Ends-rename_coerce =
        Ends-lift _ _ (get-ends "value" e)
          λ v q. Ends-bind _ _ (Ends-part nm "value" e v b q) λ v'. Ends-pure _

    Ends-rename_rel : Ends (rename_rel nm w e)
    unfolding rename_rel
    Ends-rename_rel = Ends-lift _ _ (get-ends "name" e) λ v _.
        Ends-lift _ _ (as_str-ends v) λ x _. Ends-lift _ _ (find_name-ends x nm) λ n _. Ends-pure _

    Ends-rename_step : Ends (rename_step rec nm e w)
    unfolding rename_step
    Ends-rename_step = Ends-if _ _ _ Ends-rename_lambda (
        Ends-if _ _ _ Ends-rename_let (
          Ends-if _ _ _ Ends-rename_case_expr (
            Ends-if _ _ _ Ends-rename_constructor (
              Ends-if _ _ _ Ends-rename_apply (
                Ends-if _ _ _ Ends-rename_rel
                  (Ends-if _ _ _ (Ends-pure e) (Ends-if _ _ _ Ends-rename_coerce Ends-fail)))))))

Ends-rename_binders : (f : ℕ) (nm : NameMap) (e : Value) → size e ≤ f → Ends (rename_binders f nm e)
unfolding rename_binders
Ends-rename_binders zero nm e b = let one = size-gt-0 e in absurd (omega (arith, one))
Ends-rename_binders (suc f) nm e b =
    Ends-lift _ _ (get-ends "what" e)
      λ w _. Ends-rename_step (rename_binders f) f (Ends-rename_binders f) nm w e b

-- With as much fuel as the term has nodes, a renaming does not run out of fuel: it returns, or it
-- raises an exception of the program.
pub rename_binders-ends :
    (f : ℕ) (nm : NameMap) (e : Value) (c : ℕ)
    → size e ≤ f
    → rename_binders f nm e c ≢ err out_of_fuel
rename_binders-ends f nm e c b = (Ends-rename_binders f nm e b).ends c
