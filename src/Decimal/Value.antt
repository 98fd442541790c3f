-- ===== src/Decimal/Value.antt =====
-- The numbers that decimal texts stand for.
use Prim.Native.Char.{code}
use perennial.Decimal.{digit, decimal_before, decimal}
use perennial.Prelude.{
  ltb→lt, ℕ, zero, suc, ◌+◌, ◌-◌, ◌*◌, ◌/◌, ◌%◌, ◌<◌, String, ◌≡◌, refl, sym, ap, ◌∙◌, inl, inr,
  arith, ltb, Bool-cases,
}

-- The number that the digits of `s` continue.
value_from : ℕ → String → ℕ
value_from a String.[] = a
value_from a (String.◌∷◌ c s) = value_from (a * 10 + (code c - b'0')) s

pub code-digit : (d : ℕ) → d < 10 → code (digit d) ≡ 48 + d
code-digit zero h = refl
code-digit (suc zero) h = refl
code-digit (suc (suc zero)) h = refl
code-digit (suc (suc (suc zero))) h = refl
code-digit (suc (suc (suc (suc zero)))) h = refl
code-digit (suc (suc (suc (suc (suc zero))))) h = refl
code-digit (suc (suc (suc (suc (suc (suc zero)))))) h = refl
code-digit (suc (suc (suc (suc (suc (suc (suc zero))))))) h = refl
code-digit (suc (suc (suc (suc (suc (suc (suc (suc zero)))))))) h = refl
code-digit (suc (suc (suc (suc (suc (suc (suc (suc (suc zero))))))))) h = refl
code-digit (suc (suc (suc (suc (suc (suc (suc (suc (suc (suc d)))))))))) h = absurd (omega arith)

value-decimal_before :
    (f n : ℕ) (s : String) → n < f → value_from 0 (decimal_before f n s) ≡ value_from n s
unfolding decimal_before value_from
value-decimal_before zero n s h = absurd (omega arith)
value-decimal_before (suc f) n s h = elim (Bool-cases (ltb n 10)) [
  | inl small ↦
      let e : 0 * 10 + (code (digit n) - 48) ≡ n = omega (arith, code-digit n (ltb→lt _ _ small)) in
      rw small (ap (λ v. value_from v s) e)
  | inr large ↦
      let e : n / 10 * 10 + (code (digit (n % 10)) - 48) ≡ n =
        omega (arith, code-digit (n % 10) (omega arith)) in
      rw large
        (value-decimal_before f (n / 10) _ (ground (arith, large)) ∙ ap (λ v. value_from v s) e)
]

pub decimal-injective : (n m : ℕ) → decimal n ≡ decimal m → n ≡ m
unfolding decimal value_from
decimal-injective n m e =
    sym (value-decimal_before (suc n) n String.[] (omega arith))
    ∙ ap (value_from 0) e
    ∙ value-decimal_before (suc m) m String.[] (omega arith)
