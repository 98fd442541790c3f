-- ===== src/JsonEval/RenameLaws.antt =====
-- The names of anon_binder and their counts.
use Prim.Native.Char.{code}
use Prim.Native.String.{◌++◌ as text_append}
use text.Mathlib.TextLemmas.{nil-append, cons-append, append_assoc as text_append_assoc}
use perennial.Decimal.{digit, decimal_before, decimal}
use perennial.Decimal.Value.{code-digit, decimal-injective}
use perennial.JsonEval.Rename.{binder_name}
use perennial.Prelude.{
  ltb→lt, ℕ, zero, suc, ◌/◌, ◌%◌, ◌<◌, String, ◌≡◌, refl, sym, ap, ◌∙◌, inl, inr, arith, ltb, ◌==◌,
  if◌then◌else◌, Bool-cases,
}

-- The suffix behind the last underscore of `s`, or `acc` if there is none.
behind : String → String → String
behind acc String.[] = acc
behind acc (String.◌∷◌ c s) = if code c == b'_' then behind s s else behind acc s

behind-digit :
    (d : ℕ) (acc s : String) → d < 10 → behind acc (String.◌∷◌ (digit d) s) ≡ behind acc s
unfolding behind
behind-digit d acc s h = ground (arith, code-digit d)

behind-decimal_before :
    (f n : ℕ) (acc s : String) → behind acc (decimal_before f n s) ≡ behind acc s
unfolding decimal_before
behind-decimal_before zero n acc s = refl
behind-decimal_before (suc f) n acc s = elim (Bool-cases (ltb n 10)) [
  | inl small ↦ rw small (behind-digit n acc s (ltb→lt _ _ small))
  | inr large ↦
      rw large (behind-decimal_before f (n / 10) acc _ ∙ behind-digit (n % 10) acc s (omega arith))
]

behind_underscore :
    (s acc : String) (n : ℕ) → behind acc (text_append s (text_append "_" (decimal n))) ≡ decimal n
unfolding behind decimal
behind_underscore String.[] acc n =
    rw (nil-append, cons-append, nil-append) (behind-decimal_before (suc n) n _ String.[])
behind_underscore (String.◌∷◌ c s) acc n = elim (Bool-cases (code c == b'_')) [
  | inl e ↦
      rw cons-append (rw e (behind_underscore s (text_append s (text_append "_" (decimal n))) n))
  | inr e ↦ rw cons-append (rw e (behind_underscore s acc n))
]

-- Names drawn at different counts are different, whatever names they stand for.
pub binder_name-injective : (x y : String) (c d : ℕ) → binder_name x c ≡ binder_name y d → c ≡ d
unfolding binder_name
binder_name-injective x y c d e =
    decimal-injective c d (sym (last x c) ∙ ap (behind String.[]) e ∙ last y d)
  where
    last : (z : String) (n : ℕ) → behind String.[] (binder_name z n) ≡ decimal n
    last z n =
        rw (← text_append_assoc "__anon_binder_" z (text_append "_" (decimal n)))
          (behind_underscore (text_append "__anon_binder_" z) String.[] n)
