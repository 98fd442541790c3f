-- ===== src/Coqc/Obligations.antt =====
-- The names that Classify.get_def makes up for obligations and goals.
use Prim.Native.Char.{code}
use Prim.Native.String.{◌++◌ as text_append}
use text.Mathlib.TextLemmas.{cons-append, append_cancel_left, append_cancel_right}
use perennial.Decimal.{decimal}
use perennial.Decimal.Value.{decimal-injective}
use perennial.Prelude.{
  ℕ, ◌+◌, ◌≤◌, ◌≡◌, ◌≢◌, ◌⊎◌, refl, sym, ap, ◌∙◌, inl, inr, true, false, none, some, Option, String,
  List, [], ◌∷◌, Bool-cases, arith,
}
use perennial.Coqc.{Python, Counts, get_def}

abbrev obligation_name : ℕ → String
obligation_name n = text_append "<obligation " (text_append (decimal n) ">")

abbrev goal_name : ℕ → String
goal_name n = text_append "<goal " (text_append (decimal n) ">")

obligation_name-injective : (n m : ℕ) → obligation_name n ≡ obligation_name m → n ≡ m
obligation_name-injective n m e = decimal-injective n m (
    append_cancel_right (decimal n) (decimal m) ">" (
      append_cancel_left "<obligation " (text_append (decimal n) ">") (text_append (decimal m) ">")
        e))

goal_name-injective : (n m : ℕ) → goal_name n ≡ goal_name m → n ≡ m
goal_name-injective n m e = decimal-injective n m (
    append_cancel_right (decimal n) (decimal m) ">"
      (append_cancel_left "<goal " (text_append (decimal n) ">") (text_append (decimal m) ">") e))

option_cases : {A : Type 0} (o : Option A) → (o ≡ none) ⊎ ((x : A) × (o ≡ some x))
option_cases none = inl refl
option_cases (some x) = inr (x, refl)

some-injective : {a b : String} → some a ≡ some b → a ≡ b
some-injective e = cc

second : String → ℕ
second String.[] = 0
second (String.◌∷◌ c String.[]) = 0
second (String.◌∷◌ c (String.◌∷◌ d s)) = code d

second-obligation_name : (n : ℕ) → second (obligation_name n) ≡ 111
unfolding second
second-obligation_name n = rw (cons-append, cons-append) refl

second-goal_name : (n : ℕ) → second (goal_name n) ≡ 103
unfolding second
second-goal_name n = rw (cons-append, cons-append) refl

obligation_name-goal_name : (n m : ℕ) → obligation_name n ≢ goal_name m
unfolding second
obligation_name-goal_name n m e =
    absurd (omega (arith, ap second e, second-obligation_name n, second-goal_name m))

module _ (python : Python) where
  open python use {def_re, obligation_re, goal_re}

  -- The sentence starts an obligation or a goal.
  pub data IsUnnamed (s : String) : Type 0 where
    obligation : def_re s ≡ none → obligation_re s ≡ true → IsUnnamed s
    goal : def_re s ≡ none → obligation_re s ≡ false → goal_re s ≡ true → IsUnnamed s

  -- The counts after some sentences.
  abbrev pub counts_after : List String → Counts → Counts
  counts_after [] c = c
  counts_after (s ∷ ss) c = counts_after ss (get_def python s c).1

  -- No count of c is above that of c'.
  record IsUpTo (c c' : Counts) : Type 0 where
    obligations : c.obligation_count ≤ c'.obligation_count
    goals : c.goal_count ≤ c'.goal_count

  get_def-obligation :
      (s : String) (c : Counts)
      → def_re s ≡ none
      → obligation_re s ≡ true
      → get_def python s c ≡ (
        some (obligation_name (c.obligation_count + 1)),
        record c { obligation_count = c.obligation_count + 1 },
      )
  unfolding get_def
  get_def-obligation s c n o = rw (n, o) refl

  get_def-goal :
      (s : String) (c : Counts)
      → def_re s ≡ none
      → obligation_re s ≡ false
      → goal_re s ≡ true
      → get_def python s c
        ≡ (some (goal_name (c.goal_count + 1)), record c { goal_count = c.goal_count + 1 })
  unfolding get_def
  get_def-goal s c n o g = rw (n, o, g) refl

  get_def-IsUpTo : (s : String) (c : Counts) → IsUpTo c (get_def python s c).1
  unfolding get_def
  get_def-IsUpTo s c = elim (option_cases (def_re s)) [
    | inl none_found ↦ elim (Bool-cases (obligation_re s)) [
      | inl is_obligation ↦
          rw (none_found, is_obligation) (record { obligations = omega arith; goals = omega arith })
      | inr no_obligation ↦ elim (Bool-cases (goal_re s)) [
        | inl is_goal ↦
            rw (none_found, no_obligation, is_goal)
              (record { obligations = omega arith; goals = omega arith })
        | inr no_goal ↦
            rw (none_found, no_obligation, no_goal)
              (record { obligations = omega arith; goals = omega arith })
      ]
    ]
    | inr (x, found) ↦ rw found (record { obligations = omega arith; goals = omega arith })
  ]

  counts_after-IsUpTo : (ss : List String) (c : Counts) → IsUpTo c (counts_after ss c)
  counts_after-IsUpTo [] c = record { obligations = omega arith; goals = omega arith }
  counts_after-IsUpTo (s ∷ ss) c =
      let h : IsUpTo c (get_def python s c).1 = get_def-IsUpTo s c in
      let k : IsUpTo (get_def python s c).1 (counts_after (s ∷ ss) c) = counts_after-IsUpTo ss _ in
      record {
        obligations = omega (arith, h.obligations, k.obligations);
        goals = omega (arith, h.goals, k.goals);
      }

  -- Each obligation and each goal of a run gets a name that no obligation or goal after it gets, whatever the
  -- sentences between the two.
  pub get_def-fresh :
      (s t : String) (between : List String) (c : Counts)
      → IsUnnamed s
      → IsUnnamed t
      → (get_def python s c).0 ≢ (get_def python t (counts_after between (get_def python s c).1)).0
  get_def-fresh s t between c (obligation n o) (obligation n' o') e =
      let c' : Counts = counts_after between (get_def python s c).1 in
      let p = get_def-obligation s c n o in
      let q = get_def-obligation t c' n' o' in
      let same : c.obligation_count + 1 ≡ c'.obligation_count + 1 =
        obligation_name-injective _ _
          (some-injective (sym (ap (λ r. r.0) p) ∙ e ∙ ap (λ r. r.0) q)) in
      absurd (
        omega (
          arith,
          same,
          (counts_after-IsUpTo between (get_def python s c).1).obligations,
          ap (λ r. r.1.obligation_count) p,
        ))
  get_def-fresh s t between c (obligation n o) (goal n' o' g') e =
      let p = get_def-obligation s c n o in
      let q = get_def-goal t (counts_after between (get_def python s c).1) n' o' g' in
      obligation_name-goal_name _ _ (some-injective (sym (ap (λ r. r.0) p) ∙ e ∙ ap (λ r. r.0) q))
  get_def-fresh s t between c (goal n o g) (obligation n' o') e =
      let p = get_def-goal s c n o g in
      let q = get_def-obligation t (counts_after between (get_def python s c).1) n' o' in
      obligation_name-goal_name _ _
        (some-injective (sym (ap (λ r. r.0) q) ∙ sym e ∙ ap (λ r. r.0) p))
  get_def-fresh s t between c (goal n o g) (goal n' o' g') e =
      let c' : Counts = counts_after between (get_def python s c).1 in
      let p = get_def-goal s c n o g in
      let q = get_def-goal t c' n' o' g' in
      let same : c.goal_count + 1 ≡ c'.goal_count + 1 =
        goal_name-injective _ _ (some-injective (sym (ap (λ r. r.0) p) ∙ e ∙ ap (λ r. r.0) q)) in
      absurd (
        omega (
          arith,
          same,
          (counts_after-IsUpTo between (get_def python s c).1).goals,
          ap (λ r. r.1.goal_count) p,
        ))
