-- ===== src/JsonEval/Bound.antt =====
-- The names that a renamed term binds.
use perennial.Prelude.{
  ℕ, zero, suc, ◌+◌, ◌≡◌, refl, sym, ap, Bool, true, false, String, eq_iff, List, [], ◌∷◌, ◌++◌,
  append-nil, append_assoc, if◌then◌else◌,
}
use perennial.Outcome.{Error, Result, ok, err, >>=-eq-ok}
use perennial.Json.{Value, Items, str, list, nil, cons, is_str, get}
use perennial.JsonEval.Rename.{Fresh, ◌>>=◌, pure, lift, fail, binder_name, anon_binder}

abbrev pub texts : Items → List String
texts nil = []
texts (cons (str s) es) = s ∷ texts es
texts (cons _ es) = texts es

abbrev pub listed_texts : Result Value → List String
listed_texts (ok (list es)) = texts es
listed_texts _ = []

abbrev pub one_text : Result Value → List String
one_text (ok (str s)) = s ∷ []
one_text _ = []

-- A pattern binds its argument names if it is one of a constructor.
abbrev pub bound_at_pat : Result Value → Value → List String
bound_at_pat (ok w) pat =
    if is_str "pat:constructor" w then listed_texts (get "argnames" pat) else []
bound_at_pat (err e) pat = []

abbrev pub bound_by_pat : Value → List String
bound_by_pat pat = bound_at_pat (get "what" pat) pat

module _ (rec : Value → List String) where
  abbrev pub bound_part : Result Value → List String
  bound_part (ok v) = rec v
  bound_part (err e) = []

  abbrev pub bound_items : Items → List String
  bound_items nil = []
  bound_items (cons e es) = rec e ++ bound_items es

  abbrev pub bound_list : Result Value → List String
  bound_list (ok (list es)) = bound_items es
  bound_list _ = []

  abbrev pub bound_pat_of : Result Value → List String
  bound_pat_of (ok pat) = bound_by_pat pat
  bound_pat_of (err e) = []

  abbrev pub bound_case : Value → List String
  bound_case c = bound_pat_of (get "pat" c) ++ bound_part (get "body" c)

  abbrev pub bound_cases : Items → List String
  bound_cases nil = []
  bound_cases (cons c cs) = bound_case c ++ bound_cases cs

  abbrev pub bound_case_list : Result Value → List String
  bound_case_list (ok (list cs)) = bound_cases cs
  bound_case_list _ = []

  abbrev pub bound_step : Value → Value → List String
  bound_step e w =
      if is_str "expr:lambda" w
      then listed_texts (get "argnames" e) ++ bound_part (get "body" e)
      else if is_str "expr:let" w
      then (one_text (get "name" e) ++ bound_part (get "nameval" e)) ++ bound_part (get "body" e)
      else if is_str "expr:case" w
      then bound_case_list (get "cases" e) ++ bound_part (get "expr" e)
      else if is_str "expr:constructor" w
      then bound_list (get "args" e)
      else if is_str "expr:apply" w
      then bound_list (get "args" e) ++ bound_part (get "func" e)
      else if is_str "expr:coerce" w
      then bound_part (get "value" e)
      else []

abbrev pub bound_at : (Value → List String) → Result Value → Value → List String
bound_at rec (ok w) e = bound_step rec e w
bound_at rec (err x) e = []

-- The names that the lambdas, lets and constructor patterns of a term bind, down to a depth.
unfoldable pub bound : ℕ → Value → List String
bound zero e = []
bound (suc f) e = bound_at (bound f) (get "what" e) e

-- The names were drawn by anon_binder one after the other, while its counter went from c₀ to c.
pub data Numbers (c₀ : ℕ) : ℕ → List String → Type 0 where
  start : Numbers c₀ c₀ []
  skipped : {c : ℕ} {xs : List String} → Numbers c₀ c xs → Numbers c₀ (c + 1) xs
  drawn :
      {c : ℕ} {xs : List String} (x : String)
      → Numbers c₀ c xs
      → Numbers c₀ (c + 1) (xs ++ (binder_name x (c + 1) ∷ []))

pub Numbers-append :
    {c₀ c c' : ℕ} {xs ys : List String}
    → Numbers c₀ c xs
    → Numbers c c' ys
    → Numbers c₀ c' (xs ++ ys)
Numbers-append {xs = xs} h start = rw (append-nil xs) h
Numbers-append h (skipped k) = skipped (Numbers-append h k)
Numbers-append {xs = xs} h (drawn {c = c} {xs = ys} x k) =
    rw (sym (append_assoc xs ys (binder_name x (c + 1) ∷ []))) (drawn x (Numbers-append h k))

pub is_str-eq : (s : String) (w : Value) → is_str s w ≡ true → w ≡ str s
is_str-eq s (str t) h = ap str ((eq_iff t s).0 h)
is_str-eq s _ h = cc

-- After names pre, a run of m that succeeds has drawn the names of its result.
pub record Draws {A : Type 0} (pre : List String) (names : A → List String) (m : Fresh A)
    : Type 0 where
  pub numbers :
      (c₀ c c' : ℕ) (a : A) → Numbers c₀ c pre → m c ≡ ok (a, c') → Numbers c₀ c' (names a)

module _ {A : Type 0} {pre : List String} {names : A → List String} where
  pub Draws-pure : (a : A) → names a ≡ pre → Draws pre names (pure a)
  Draws-pure a e = record {
    numbers = λ c₀ c c' b h q. let e₁ : b ≡ a = cc in let e₂ : c' ≡ c = cc in rw (e₁, e₂, e) h;
  }

  pub Draws-fail : (x : Error) → Draws pre names (fail x)
  Draws-fail x = record { numbers = λ c₀ c c' b h q. cc }

  pub Draws-lift :
      {B : Type 0} (r : Result B) (f : B → Fresh A)
      → ((b : B) → r ≡ ok b → Draws pre names (f b))
      → Draws pre names (lift r >>= f)
  Draws-lift (ok b) f h = h b refl
  Draws-lift (err x) f h = record { numbers = λ c₀ c c' b q e. cc }

  pub Draws-bind :
      {B : Type 0} (own : B → List String) (m : Fresh B) (f : B → Fresh A)
      → Draws pre own m
      → ((b : B) → Draws (own b) names (f b))
      → Draws pre names (m >>= f)
  Draws-bind own m f h k = record {
    numbers = λ c₀ c c' a n e.
        let (p, q, r) = >>=-eq-ok (m c) (λ x. f x.0 x.1) e in
        (k p.0).numbers c₀ p.1 c' a (h.numbers c₀ c p.1 p.0 n q) r;
  }

  pub Draws-if :
      (t : Bool) (m n : Fresh A)
      → (t ≡ true → Draws pre names m)
      → (t ≡ false → Draws pre names n)
      → Draws pre names (if t then m else n)
  Draws-if true m n h k = h refl
  Draws-if false m n h k = k refl

pub Draws-after :
    {A : Type 0} {names : A → List String} {m : Fresh A} (pre : List String)
    → Draws [] names m
    → Draws pre (λ a. pre ++ names a) m
Draws-after pre h = record {
  numbers = λ c₀ c c' a n e. Numbers-append n (h.numbers c c c' a start e);
}

pub Draws-anon_binder :
    (pre : List String) (x : String) → Draws pre (λ n. pre ++ (n ∷ [])) (anon_binder x)
unfolding anon_binder
Draws-anon_binder pre x = record {
  numbers = λ c₀ c c' a n e.
      let e₁ : a ≡ binder_name x (c + 1) = cc in
      let e₂ : c' ≡ c + 1 = cc in rw (e₁, e₂) (drawn x n);
}

-- A name that is drawn and bound nowhere.
pub Draws-unbound : (pre : List String) (x : String) → Draws pre (λ n. pre) (anon_binder x)
unfolding anon_binder
Draws-unbound pre x = record {
  numbers = λ c₀ c c' a n e. let e₂ : c' ≡ c + 1 = cc in rw e₂ (skipped n);
}
