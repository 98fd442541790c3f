-- ===== src/Xdr/Decodes.antt =====
-- What an unpacker does to the bytes: it leaves no more than it was given, and on fewer than `k`
-- bytes it returns or raises one of xdrlib's exceptions.
use native.Mathlib.Nat.{le_trans}
use perennial.Prelude.{
  ℕ, suc, ◌≤◌, ◌<◌, ◌≡◌, refl, Bool, true, false, some, List, [], ◌∷◌, arith, length,
  length-drop-le, ltb, if◌then◌else◌,
}
use perennial.Outcome.{Result, ok, err, xdr_error, eof_error, >>=-eq-ok}
use perennial.Outcome
use perennial.Xdr.{
  Bytes, raise, Unpacking, pure, ◌>>=◌, unpack_uint, unpack_int, unpack_bool, unpack_uhyper, padded,
  unpack_fopaque, unpack_opaque, unpack_field, unpack_bounded, unpack_enum,
}

-- A value, xdrlib's Error or the EOFError of its unpacker.
pub data Ends {ℓ} {A : Type ℓ} : Result A → Type ℓ where
  returned : (a : A) → Ends (ok a)
  raised_xdr : Ends (err xdr_error)
  raised_eof : Ends (err eof_error)

Ends-if {ℓ} : {A : Type ℓ} (t : Bool) {m n : Result A} → Ends m → Ends n → Ends (if t then m else n)
Ends-if true h h' = h
Ends-if false h h' = h'

pub record Decodes {ℓ} {A : Type ℓ} (k : ℕ) (u : Unpacking A) : Type ℓ where
  pub shrinks : (b r : Bytes) (a : A) → u b ≡ ok (a, r) → length r ≤ length b
  pub ends : (b : Bytes) → length b < k → Ends (u b)

pub bind-Ends {ℓ κ} :
    {A : Type ℓ} {B : Type κ} (m : Result A) (k : A → Result B)
    → Ends m
    → ((a : A) → m ≡ ok a → Ends (k a))
    → Ends (Outcome.◌>>=◌ m k)
bind-Ends _ k (returned a) g = g a refl
bind-Ends _ k raised_xdr g = raised_xdr
bind-Ends _ k raised_eof g = raised_eof

module _ {ℓ} {A : Type ℓ} {k : ℕ} where
  pub Decodes-pure : (a : A) → Decodes k (pure a)
  Decodes-pure a = record { shrinks = λ b r x e. ground (arith, e); ends = λ b _. returned _ }

  pub Decodes-raise : Decodes k (raise {A = A × Bytes})
  Decodes-raise = record { shrinks = λ b r x e. cc; ends = λ b _. raised_xdr }

  pub Decodes-if :
      (t : Bool) (u v : Unpacking A) → Decodes k u → Decodes k v → Decodes k (if t then u else v)
  Decodes-if true u v h k = h
  Decodes-if false u v h k = k

  pub Decodes-bind {κ} :
      {B : Type κ} (u : Unpacking A) (f : A → Unpacking B)
      → Decodes k u
      → ((a : A) → Decodes k (f a))
      → Decodes k (u >>= f)
  Decodes-bind u f h g = record {
    shrinks = λ b r x e.
        let (p, q, s) = >>=-eq-ok (u b) (λ y. f y.0 y.1) e in
        le_trans ((g p.0).shrinks p.1 r x s) (h.shrinks b p.1 p.0 q);
    ends = λ b fits.
        bind-Ends (u b) _ (h.ends b fits)
          λ p e. let fewer = h.shrinks b p.1 p.0 e in (g p.0).ends p.1 (omega (arith, fewer, fits));
  }

pub Decodes-uint : {k : ℕ} → Decodes k unpack_uint
unfolding unpack_uint
Decodes-uint = record { shrinks = go; ends = stop }
  where
    go : (b r : Bytes) (n : ℕ) → unpack_uint b ≡ ok (n, r) → length r ≤ length b
    go [] r n e = cc
    go (_ ∷ []) r n e = cc
    go (_ ∷ _ ∷ []) r n e = cc
    go (_ ∷ _ ∷ _ ∷ []) r n e = cc
    go (_ ∷ _ ∷ _ ∷ _ ∷ b) r n e = ground (arith, e)

    stop : {k : ℕ} (b : Bytes) → length b < k → Ends (unpack_uint b)
    stop [] _ = raised_eof
    stop (_ ∷ []) _ = raised_eof
    stop (_ ∷ _ ∷ []) _ = raised_eof
    stop (_ ∷ _ ∷ _ ∷ []) _ = raised_eof
    stop (_ ∷ _ ∷ _ ∷ _ ∷ b) _ = returned _

pub unpack_uint-lt : (b r : Bytes) (n : ℕ) → unpack_uint b ≡ ok (n, r) → length r < length b
unfolding unpack_uint
unpack_uint-lt [] r n e = cc
unpack_uint-lt (_ ∷ []) r n e = cc
unpack_uint-lt (_ ∷ _ ∷ []) r n e = cc
unpack_uint-lt (_ ∷ _ ∷ _ ∷ []) r n e = cc
unpack_uint-lt (_ ∷ _ ∷ _ ∷ _ ∷ b) r n e = ground (arith, e)

-- What follows a number has fewer bytes.
pub Decodes-uint_bind {ℓ} :
    {A : Type ℓ} {k : ℕ} (f : ℕ → Unpacking A)
    → ((n : ℕ) → Decodes k (f n))
    → Decodes (suc k) (unpack_uint >>= f)
Decodes-uint_bind {k = k} f h = record {
  shrinks = (Decodes-bind {k = k} _ _ Decodes-uint h).shrinks;
  ends = λ b fits. bind-Ends (unpack_uint b) _ ((Decodes-uint {k = suc k}).ends b fits) λ p e.
      let fewer = unpack_uint-lt b p.1 p.0 e in (h p.0).ends p.1 (omega (arith, fewer, fits));
}

pub Decodes-int : {k : ℕ} → Decodes k unpack_int
unfolding unpack_int
Decodes-int = Decodes-bind _ _ Decodes-uint λ n. Decodes-pure _

pub Decodes-bool : {k : ℕ} → Decodes k unpack_bool
unfolding unpack_bool
Decodes-bool = Decodes-bind _ _ Decodes-int λ z. Decodes-pure _

pub Decodes-uhyper : {k : ℕ} → Decodes k unpack_uhyper
unfolding unpack_uhyper
Decodes-uhyper =
    Decodes-bind _ _ Decodes-uint λ hi. Decodes-bind _ _ Decodes-uint λ lo. Decodes-pure _

pub Decodes-fopaque : {k : ℕ} (n : ℕ) → Decodes k (unpack_fopaque n)
unfolding unpack_fopaque
Decodes-fopaque n = record {
  shrinks = λ b r x e. let left = length-drop-le (padded n) b in ground (arith, e, left);
  ends = λ b _. Ends-if (ltb (length b) (padded n)) raised_eof (returned _);
}

pub Decodes-opaque : {k : ℕ} → Decodes k unpack_opaque
unfolding unpack_opaque
Decodes-opaque = Decodes-bind _ _ Decodes-uint Decodes-fopaque

pub Decodes-enum : {k : ℕ} (cs : List ℕ) → Decodes k (unpack_enum cs)
unfolding unpack_enum
Decodes-enum cs = Decodes-bind _ _ Decodes-int λ z. Decodes-if _ _ _ (Decodes-pure z) Decodes-raise

module _ {ℓ} {A : Type ℓ} {k : ℕ} where
  pub Decodes-field : (u : Unpacking A) → Decodes k u → Decodes k (unpack_field u)
  Decodes-field u h = Decodes-bind _ _ h λ a. Decodes-pure (some a)

  pub Decodes-bounded :
      (n : ℕ) (u : Unpacking (List A)) → Decodes k u → Decodes k (unpack_bounded n u)
  Decodes-bounded n u h = Decodes-bind _ _ h λ xs. Decodes-if _ _ _ Decodes-raise (Decodes-pure xs)

-- On fewer than `k` bytes, `v` reads what `u` reads.
pub record Follows {ℓ} {A : Type ℓ} (k : ℕ) (u v : Unpacking A) : Type ℓ where
  pub follows : (b : Bytes) (x : A × Bytes) → length b < k → u b ≡ ok x → v b ≡ ok x

module _ {ℓ} {A : Type ℓ} {k : ℕ} where
  pub Follows-refl : (u : Unpacking A) → Follows k u u
  Follows-refl u = record { follows = λ b x _ e. e }

  pub Follows-bind {κ} :
      {B : Type κ} {k' : ℕ} (u v : Unpacking A) (f g : A → Unpacking B)
      → Decodes k' u
      → Follows k u v
      → ((a : A) → Follows k (f a) (g a))
      → Follows k (u >>= f) (v >>= g)
  Follows-bind u v f g d h i = record {
    follows = λ b x fits e.
        let (p, q, s) = >>=-eq-ok (u b) (λ y. f y.0 y.1) e in
        let fewer = d.shrinks b p.1 p.0 q in
        rw (h.follows b p fits q) ((i p.0).follows p.1 x (omega (arith, fewer, fits)) s);
  }

pub Follows-uint_bind {ℓ} :
    {A : Type ℓ} {k : ℕ} (f g : ℕ → Unpacking A)
    → ((n : ℕ) → Follows k (f n) (g n))
    → Follows (suc k) (unpack_uint >>= f) (unpack_uint >>= g)
Follows-uint_bind f g h = record {
  follows = λ b x fits e.
      let (p, q, s) = >>=-eq-ok (unpack_uint b) (λ y. f y.0 y.1) e in
      let fewer = unpack_uint-lt b p.1 p.0 q in
      rw q ((h p.0).follows p.1 x (omega (arith, fewer, fits)) s);
}
