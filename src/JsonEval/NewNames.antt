-- ===== src/JsonEval/NewNames.antt =====
-- The names of the binders that rename_binders leaves, within one renaming and over two.
use mathlib.Core.List.{
  Mem, Nodup, Nodup-append, not-mem-nil, mem-append, eq-or-mem_of_mem-cons, Pairwise,
}
use mathlib.Core.Logic.{not-or}
use perennial.Prelude.{ℕ, ◌+◌, ◌<◌, ◌≡◌, sym, String, List, [], ◌∷◌, ◌++◌, arith}
use perennial.Outcome.{ok}
use perennial.Json.{Value}
use perennial.JsonEval.Bound.{bound, Numbers, start, skipped, drawn, Numbers-append}
use perennial.JsonEval.Distinct.{Draws-rename_binders}
use perennial.JsonEval.Rename.{binder_name, NameMap, rename_binders}
use perennial.JsonEval.RenameLaws.{binder_name-injective}

only : {a b : String} → ¬ (a ≡ b) → ¬ Mem a (b ∷ [])
only n m = not-or.1 (n, λ k. not-mem-nil k) (eq-or-mem_of_mem-cons m)

-- A name of a later count is not among those drawn.
Numbers-new :
    {c₀ c : ℕ} {xs : List String} (y : String) (n : ℕ)
    → Numbers c₀ c xs
    → c < n
    → ¬ Mem (binder_name y n) xs
Numbers-new y n start lt = λ m. not-mem-nil m
Numbers-new y n (skipped h) lt = Numbers-new y n h (omega (arith, lt))
Numbers-new y n (drawn {c = d} {xs = ys} x h) lt = λ m.
    not-or.1
      (
        Numbers-new y n h (omega (arith, lt)),
        λ k.
            only
              (λ e.
                let e' = binder_name-injective y x n (d + 1) e in absurd (omega (arith, lt, e')))
              k,
      )
      (mem-append.0 m)

Numbers-Nodup : {c₀ c : ℕ} {xs : List String} → Numbers c₀ c xs → Nodup xs
Numbers-Nodup start = Pairwise.nil
Numbers-Nodup (skipped h) = Numbers-Nodup h
Numbers-Nodup (drawn {c = d} {xs = ys} x h) = Nodup-append.1 (
  Numbers-Nodup h,
  Pairwise.cons (λ a m. absurd (not-mem-nil m)) Pairwise.nil,
  λ a m k. only (λ e. Numbers-new x (d + 1) h (omega arith) (rw (sym e) m)) k,
)

-- Of two terms renamed one after the other, the second from the count that the first has left, the names that the
-- lambdas, lets and constructor patterns of both results bind are all different.
pub rename_binders-Nodup :
    (f g : ℕ) (nm nm' : NameMap) (e e' k k' : Value) (c c' c'' : ℕ)
    → rename_binders f nm e c ≡ ok (e', c')
    → rename_binders g nm' k c' ≡ ok (k', c'')
    → Nodup (bound f e' ++ bound g k')
rename_binders-Nodup f g nm nm' e e' k k' c c' c'' p q = Numbers-Nodup (
    Numbers-append ((Draws-rename_binders f nm e).numbers c c c' e' start p)
      ((Draws-rename_binders g nm' k).numbers c' c' c'' k' start q))
