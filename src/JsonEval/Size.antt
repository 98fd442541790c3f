-- ===== src/JsonEval/Size.antt =====
-- The number of nodes of a JSON tree, which bounds what json_eval.py recurses on.
use perennial.Prelude.{
  ap, some, ℕ, suc, ◌+◌, ◌<◌, ◌≤◌, String, ◌≡◌, inl, inr, arith, str_eq, Bool-cases,
}
use perennial.Outcome.{ok}
use perennial.Json.{
  Value, Items, Fields, null, bool, num, str, list, dict, module_ref, foreign, nil, cons, end,
  field, get, lookup, as_list,
}

-- The number of nodes of a JSON tree.
unfoldable mutual
  pub size : Value → ℕ
  size (list es) = suc (size_items es)
  size (dict fs) = suc (size_fields fs)
  size _ = 1

  pub size_items : Items → ℕ
  size_items nil = 0
  size_items (cons e es) = size e + size_items es

  pub size_fields : Fields → ℕ
  size_fields end = 0
  size_fields (field k e fs) = size e + size_fields fs

lookup-size :
    (k : String) (fs : Fields) (v : Value) → lookup k fs ≡ some v → size v ≤ size_fields fs
unfolding size
lookup-size k end v h = cc
lookup-size k (field j e fs) v h = elim (Bool-cases (str_eq j k)) [
  | inl same ↦
      let found : some e ≡ some v = rw same at h in
      let here : size e ≡ size v = ap size (cc found) in omega (arith, here)
  | inr other ↦ let rest = lookup-size k fs v (rw other at h) in omega (arith, rest)
]

get-eq-ok : (k : String) (fs : Fields) (v : Value) → get k (dict fs) ≡ ok v → lookup k fs ≡ some v
get-eq-ok k fs v h = ground (arith, h)

pub get-size : (k : String) (e v : Value) → get k e ≡ ok v → size v < size e
unfolding size
get-size k (dict fs) v h =
    let inner = lookup-size k fs v (get-eq-ok k fs v h) in omega (arith, inner)
get-size k null v h = cc
get-size k (bool b) v h = cc
get-size k (num n) v h = cc
get-size k (str s) v h = cc
get-size k (list es) v h = cc
get-size k (module_ref n) v h = cc
get-size k (foreign n) v h = cc

pub as_list-size : (v : Value) (es : Items) → as_list v ≡ ok es → size_items es ≤ size v
unfolding size
as_list-size (list es) es' h = ground (arith, h)
as_list-size null es h = cc
as_list-size (bool b) es h = cc
as_list-size (num n) es h = cc
as_list-size (str s) es h = cc
as_list-size (dict fs) es h = cc
as_list-size (module_ref n) es h = cc
as_list-size (foreign n) es h = cc

pub size-gt-0 : (e : Value) → 1 ≤ size e
unfolding size
size-gt-0 null = omega arith
size-gt-0 (bool b) = omega arith
size-gt-0 (num n) = omega arith
size-gt-0 (str s) = omega arith
size-gt-0 (list es) = omega arith
size-gt-0 (dict fs) = omega arith
size-gt-0 (module_ref n) = omega arith
size-gt-0 (foreign n) = omega arith
