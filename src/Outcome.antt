-- ===== src/Outcome.antt =====
-- The outcome of a Python call: a value, or the exception that it raises.
use perennial.Prelude.{◌≡◌, refl}

-- The classes of exception that the modelled files raise. `out_of_fuel` is no exception of the
-- program: a loop of the model ran out of its rounds.
pub data Error : Type 0 where
  key_error index_error type_error value_error : Error
  attribute_error assertion_error eof_error xdr_error struct_error : Error
  exception : Error
  out_of_fuel : Error

-- A call returns or raises.
pub data Result {ℓ} (A : Type ℓ) : Type ℓ where
  err : Error → Result A
  ok : A → Result A

-- An exception passes through what follows the call.
infixl 5 ◌>>=◌
abbrev pub ◌>>=◌ {ℓ ℓ'} : {A : Type ℓ} {B : Type ℓ'} (m : Result A) (k : A → Result B) → Result B
err raised >>= k = err raised
ok returned >>= k = k returned

-- The call returned, and then what follows it returned `b`.
abbrev pub Both {ℓ ℓ'} : {A : Type ℓ} {B : Type ℓ'} → Result A → (A → Result B) → B → Type (ℓ ⊔ ℓ')
Both {A = A} call next b = (returned : A) × (call ≡ ok returned) × (next returned ≡ ok b)

pub >>=-eq-ok {ℓ ℓ'} :
    {A : Type ℓ} {B : Type ℓ'} {b : B} (call : Result A) (next : A → Result B)
    → (call >>= next) ≡ ok b
    → Both call next b
>>=-eq-ok (err raised) next b_returned = cc
>>=-eq-ok (ok returned) next b_returned = (returned, refl, b_returned)

pub >>=-assoc {ℓ ℓ' ℓ''} :
    {A : Type ℓ} {B : Type ℓ'} {C : Type ℓ''} (call : Result A) (next : A → Result B)
    (last : B → Result C)
    → ((call >>= next) >>= last) ≡ (call >>= λ a. next a >>= last)
>>=-assoc (err raised) next last = refl
>>=-assoc (ok returned) next last = refl
