-- ===== src/JsonEval/ReduceLaws.antt =====
-- Reduction: the fuel does not change an answer, and an answer is in normal form.
use Prim.Native.Nat.add
use native.Mathlib.Nat.{zero-add}
use perennial.Prelude.{ℕ, zero, suc, ◌+◌, ◌≡◌, refl, Bool, true, false, if◌then◌else◌}
use perennial.Outcome.{Error, Result, ok, err, ◌>>=◌, >>=-eq-ok}
use perennial.Json.{Value, Fields, null, dict, is_str, get}
use perennial.JsonEval.Modules.{Context}
use perennial.JsonEval.Reduce.{
  Round, halt, continue_with, reduce_apply, reduce_lambda, reduce_global, reduce_type, reduce_ind,
  reduce_let, reduce_coerce, reduce_dict, reduce_step, finish, reduce,
}

-- The round returns no other expression than `e`.
data HaltsAt (e : Value) : Result Round → Type 0 where
  halts : HaltsAt e (ok (halt e))
  goes_on : (e' : Value) → HaltsAt e (ok (continue_with e'))
  fails : (x : Error) → HaltsAt e (err x)

HaltsAt-bind {ℓ} :
    {A : Type ℓ} {e : Value} (m : Result A) (f : A → Result Round)
    → ((a : A) → HaltsAt e (f a))
    → HaltsAt e (m >>= f)
HaltsAt-bind (ok a) f k = k a
HaltsAt-bind (err x) f k = fails x

HaltsAt-if :
    {e : Value} (b : Bool) (x y : Result Round)
    → HaltsAt e x
    → HaltsAt e y
    → HaltsAt e (if b then x else y)
HaltsAt-if true x y hx hy = hx
HaltsAt-if false x y hx hy = hy

ruleset rounds = (HaltsAt-bind, HaltsAt-if, halts, goes_on, fails)

reduce_lambda-HaltsAt : (e : Value) → HaltsAt e (reduce_lambda e)
unfolding reduce_lambda
reduce_lambda-HaltsAt e = search rounds depth 12

reduce_apply-HaltsAt : (rec : Value → Result Value) (e : Value) → HaltsAt e (reduce_apply rec e)
unfolding reduce_apply
reduce_apply-HaltsAt rec e = search rounds depth 12

reduce_global-HaltsAt : (ctx : Context) (e : Value) → HaltsAt e (reduce_global ctx e)
unfolding reduce_global
reduce_global-HaltsAt ctx e = search rounds depth 12

reduce_type-HaltsAt : (ctx : Context) (fs : Fields) → HaltsAt (dict fs) (reduce_type ctx fs)
unfolding reduce_type
reduce_type-HaltsAt ctx fs = search rounds depth 12

reduce_ind-HaltsAt : (fs : Fields) → HaltsAt (dict fs) (reduce_ind fs)
unfolding reduce_ind
reduce_ind-HaltsAt fs = search rounds depth 24

reduce_dict-HaltsAt :
    (ctx : Context) (rec : Value → Result Value) (fs : Fields) (w : Value)
    → HaltsAt (dict fs) (reduce_dict ctx rec fs w)
unfolding reduce_dict reduce_coerce reduce_let
reduce_dict-HaltsAt ctx rec fs w =
    search
      (
        rounds, reduce_apply-HaltsAt, reduce_lambda-HaltsAt, reduce_global-HaltsAt,
        reduce_type-HaltsAt, reduce_ind-HaltsAt,
      )
      depth 14

reduce_step-HaltsAt :
    (ctx : Context) (rec : Value → Result Value) (e : Value) → HaltsAt e (reduce_step ctx rec e)
unfolding reduce_step
reduce_step-HaltsAt ctx rec (dict fs) = HaltsAt-bind _ _ (reduce_dict-HaltsAt ctx rec fs)
reduce_step-HaltsAt ctx rec null = halts
reduce_step-HaltsAt ctx rec _ = halts

HaltsAt-eq : {e v : Value} {r : Result Round} → HaltsAt e r → r ≡ ok (halt v) → v ≡ e
HaltsAt-eq halts p = cc
HaltsAt-eq (goes_on e') p = cc
HaltsAt-eq (fails x) p = cc

-- Every answer of the left side is one of the right side.
record Refines {ℓ} {A : Type ℓ} (m m' : Result A) : Type ℓ where
  keep : (a : A) → m ≡ ok a → m' ≡ ok a

module _ {ℓ} {A : Type ℓ} where
  Refines-refl : (m : Result A) → Refines m m
  Refines-refl m = record { keep = λ a p. p }

  Refines-bind {κ} :
      {B : Type κ} (m m' : Result A) (f f' : A → Result B)
      → Refines m m'
      → ((a : A) → Refines (f a) (f' a))
      → Refines (m >>= f) (m' >>= f')
  Refines-bind (ok a) m' f f' r k = rw (r.keep a refl) (k a)
  Refines-bind (err x) m' f f' r k = record { keep = λ a p. cc }

  Refines-if :
      (b : Bool) (x x' y y' : Result A)
      → Refines x x'
      → Refines y y'
      → Refines (if b then x else y) (if b then x' else y')
  Refines-if true x x' y y' p q = p
  Refines-if false x x' y y' p q = q

reduce_apply-Refines :
    (rec rec' : Value → Result Value) (e : Value)
    → ((x : Value) → Refines (rec x) (rec' x))
    → Refines (reduce_apply rec e) (reduce_apply rec' e)
unfolding reduce_apply
reduce_apply-Refines rec rec' e h = search (Refines-bind, Refines-refl, h) depth 8

reduce_step-Refines :
    (ctx : Context) (rec rec' : Value → Result Value) (e : Value)
    → ((x : Value) → Refines (rec x) (rec' x))
    → Refines (reduce_step ctx rec e) (reduce_step ctx rec' e)
unfolding reduce_step reduce_dict
reduce_step-Refines ctx rec rec' (dict fs) h =
    Refines-bind (get "what" (dict fs)) _ _ _ (Refines-refl _) λ w.
      Refines-if (is_str "expr:apply" w) _ _ _ _ (reduce_apply-Refines rec rec' (dict fs) h)
        (Refines-refl _)
reduce_step-Refines ctx rec rec' null h = Refines-refl _
reduce_step-Refines ctx rec rec' _ h = Refines-refl _

finish-Refines :
    (rec rec' : Value → Result Value) (r : Round)
    → ((x : Value) → Refines (rec x) (rec' x))
    → Refines (finish rec r) (finish rec' r)
finish-Refines rec rec' (halt v) h = Refines-refl _
finish-Refines rec rec' (continue_with e) h = h e

reduce-Refines :
    (n : ℕ) (ctx : Context) (e : Value) → Refines (reduce n ctx e) (reduce (suc n) ctx e)
unfolding reduce
reduce-Refines zero ctx e = record { keep = λ a p. cc }
reduce-Refines (suc n) ctx e =
    Refines-bind _ _ _ _ (reduce_step-Refines ctx _ _ e (reduce-Refines n ctx))
      λ r. finish-Refines _ _ r (reduce-Refines n ctx)

-- With more fuel `reduce` gives the answer that it gave with less.
pub reduce_mono :
    (k n : ℕ) (ctx : Context) (e v : Value) → reduce n ctx e ≡ ok v → reduce (k + n) ctx e ≡ ok v
reduce_mono zero n ctx e v h = rw zero-add h
reduce_mono (suc k) n ctx e v h =
    rw (add.suc k n) ((reduce-Refines (k + n) ctx e).keep v (reduce_mono k n ctx e v h))

-- One round on `v` ends: a value at which the loop stops is its own answer.
halted :
    (n : ℕ) (ctx : Context) (e v : Value)
    → reduce_step ctx (reduce n ctx) e ≡ ok (halt v)
    → reduce (suc n) ctx v ≡ ok v
unfolding reduce
halted n ctx e v h =
    let same : v ≡ e = HaltsAt-eq (reduce_step-HaltsAt ctx (reduce n ctx) e) h in
    rw same (rw h (rw same))

-- An answer of `reduce` is in normal form: reduced again, with the same fuel, it is itself.
pub reduce_idem :
    (n : ℕ) (ctx : Context) (e v : Value) → reduce n ctx e ≡ ok v → reduce n ctx v ≡ ok v
reduce_idem zero ctx e v h = unfold reduce in cc
reduce_idem (suc n) ctx e v h =
    by_round (λ e' q. reduce_idem n ctx e' v q) (>>=-eq-ok _ _ (unfold reduce in h))
  where
    by_round :
        ((e' : Value) → reduce n ctx e' ≡ ok v → reduce n ctx v ≡ ok v)
        → (r : Round) × (reduce_step ctx (reduce n ctx) e ≡ ok r) × (finish (reduce n ctx) r ≡ ok v)
        → reduce (suc n) ctx v ≡ ok v
    by_round ih (halt w, p, q) = halted n ctx e v (cc)
    by_round ih (continue_with e', p, q) = (reduce-Refines n ctx v).keep v (ih e' q)
