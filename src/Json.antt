-- ===== src/Json.antt =====
-- The JSON values that json_eval.py and json_sym.py work on.
use perennial.Prelude.{
  ℕ, zero, suc, Bool, true, false, String, Option, none, some, str_eq, if◌then◌else◌,
}
use perennial.Outcome.{Result, ok, err, key_error, index_error, type_error}

-- What `json.loads` returns, with the two kinds of object that the program puts into it: a
-- `Module`, named by its place in the heap of modules, and an object of another library (a z3 term).
mutual
  pub data Value : Type 0 where
    null : Value
    bool : Bool → Value
    num : ℕ → Value
    str : String → Value
    list : Items → Value
    dict : Fields → Value
    module_ref : ℕ → Value
    foreign : ℕ → Value

  pub data Items : Type 0 where
    nil : Items
    cons : Value → Items → Items

  pub data Fields : Type 0 where
    end : Fields
    field : String → Value → Fields → Fields

-- `d.get(k)` on a dict.
abbrev pub lookup : String → Fields → Option Value
lookup k end = none
lookup k (field j v fs) = if str_eq j k then some v else lookup k fs

-- `d[k] = v`: a key keeps its place.
abbrev pub insert : String → Value → Fields → Fields
insert k v end = field k v end
insert k v (field j w fs) = if str_eq j k then field j v fs else field j w (insert k v fs)

-- `v == s` for a text `s`.
abbrev pub is_str : String → Value → Bool
is_str s (str t) = str_eq t s
is_str s _ = false

-- `d[k]`: a KeyError on a missing key, a TypeError on what is no dict.
abbrev pub get : String → Value → Result Value
get k (dict fs) = elim (lookup k fs) [ none ↦ err key_error | some v ↦ ok v ]
get k _ = err type_error

-- `d.get(k, [])`.
abbrev pub get_or_nil : String → Fields → Value
get_or_nil k fs = elim (lookup k fs) [ none ↦ list nil | some v ↦ v ]

abbrev pub as_list : Value → Result Items
as_list (list xs) = ok xs
as_list _ = err type_error

abbrev pub as_str : Value → Result String
as_str (str s) = ok s
as_str _ = err type_error

abbrev pub as_dict : Value → Result Fields
as_dict (dict fs) = ok fs
as_dict _ = err type_error

-- `xs[0]` and `xs[1:]` of a list that must not be empty.
abbrev pub uncons : Items → Result (Value × Items)
uncons nil = err index_error
uncons (cons x xs) = ok (x, xs)

abbrev pub append : Items → Items → Items
append nil ys = ys
append (cons x xs) ys = cons x (append xs ys)

abbrev pub nth : ℕ → Items → Result Value
nth n nil = err index_error
nth zero (cons x xs) = ok x
nth (suc n) (cons x xs) = nth n xs

abbrev pub is_empty : Items → Bool
is_empty nil = true
is_empty (cons _ _) = false
