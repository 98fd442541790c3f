-- ===== src/Decimal.antt =====
-- Python's decimal text of a number: `"%d" % n` in json_eval.py, `"{}".format(n)` in coqc.py.
pub mod Value
use Prim.Native.Char.{Char}
use perennial.Prelude.{ℕ, zero, suc, ◌/◌, ◌%◌, String, ltb, if◌then◌else◌}

abbrev pub digit : ℕ → Char
digit zero = "0"
digit (suc zero) = "1"
digit (suc (suc zero)) = "2"
digit (suc (suc (suc zero))) = "3"
digit (suc (suc (suc (suc zero)))) = "4"
digit (suc (suc (suc (suc (suc zero))))) = "5"
digit (suc (suc (suc (suc (suc (suc zero)))))) = "6"
digit (suc (suc (suc (suc (suc (suc (suc zero))))))) = "7"
digit (suc (suc (suc (suc (suc (suc (suc (suc zero)))))))) = "8"
digit _ = "9"

-- The decimal digits of `n` before `s`; each round takes the lowest digit off.
unfoldable pub decimal_before : ℕ → ℕ → String → String
decimal_before zero n s = s
decimal_before (suc f) n s =
    let more = decimal_before f (n / 10) (String.◌∷◌ (digit (n % 10)) s) in
    if ltb n 10 then String.◌∷◌ (digit n) s else more

-- `"%d" % n`
unfoldable pub decimal : ℕ → String
unfolding decimal_before
decimal n = decimal_before (suc n) n String.[]
