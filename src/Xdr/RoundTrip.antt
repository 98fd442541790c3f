-- ===== src/Xdr/RoundTrip.antt =====
-- Reading back the primitive values of xdrlib.
use perennial.Prelude.{
  ℕ, zero, suc, ◌+◌, ◌-◌, ◌*◌, ◌/◌, ◌%◌, ◌^◌, ◌<◌, ◌≡◌, refl, ◌⊎◌, inl, inr, false, Option, none,
  some, List, [], ◌∷◌, ◌++◌, append_assoc, arith, length, length-append, take, drop, ltb, ltb→lt,
  lt→ltb, Bool-cases,
}
use perennial.Outcome.{Error, ok}
use perennial.Prelude.{
  replicate, length-replicate, take-length_append, drop-length_append, take_all,
}
use perennial.Xdr.{
  ℤ, pos, negsuc, Bytes, Packing, Unpacking, four_bytes, pack_uint, unpack_uint, pack_int,
  unpack_int, pack_bool, unpack_bool, pack_uhyper, unpack_uhyper, padded, pack_fopaque,
  unpack_fopaque, pack_opaque, unpack_opaque, pack_items, pack_array, unpack_items, unpack_array,
  pack_or_raise, unpack_field, pack_bounded, unpack_bounded, is_in, OnSome, pack_enum, unpack_enum,
}
use perennial.Xdr.Reads.{Reads, Reads-pure, Reads-raise, Reads-bind, Reads-last, Reads-checked}

-- A packer that appends `w` outright, read back by `u`.
Reads-written {ℓ} :
    {A : Type ℓ} (p : Packing) (u : Unpacking A) (a : A) (w : Bytes)
    → ((b b' : Bytes) → p b ≡ ok b' → b' ≡ b ++ w)
    → ((rest : Bytes) → u (w ++ rest) ≡ ok (a, rest))
    → Reads p u a
Reads-written p u a w e r = record { reads = λ b b' h. (w, e b b' h, r) }

four_bytes_value :
    (n : ℕ)
    → n < 2 ^ 32
    → n / 2 ^ 24 * 2 ^ 24 + n / 2 ^ 16 % 256 * 2 ^ 16 + n / 2 ^ 8 % 256 * 2 ^ 8 + n % 256 ≡ n
four_bytes_value n h = omega arith

pub unpack_uint-four_bytes :
    (n : ℕ) (rest : Bytes) → n < 2 ^ 32 → unpack_uint (four_bytes n ++ rest) ≡ ok (n, rest)
unfolding unpack_uint
unpack_uint-four_bytes n rest h = rw (four_bytes_value n h)

pub Reads-uint : (n : ℕ) → Reads (pack_uint n) unpack_uint n
unfolding pack_uint
Reads-uint n = elim (Bool-cases (ltb n (2 ^ 32))) [
  | inl fits ↦
      Reads-written _ _ n (four_bytes n) (λ b b' h. cc (rw fits at h))
        (λ rest. unpack_uint-four_bytes n rest (ltb→lt _ _ fits))
  | inr over ↦ record { reads = λ b b' h. cc (rw over at h) }
]

abbrev pub IsUint64 : ℕ → Type 0
IsUint64 n = n < 2 ^ 64

pub Reads-uhyper : (n : ℕ) → IsUint64 n → Reads (pack_uhyper n) unpack_uhyper n
unfolding pack_uhyper unpack_uhyper
Reads-uhyper n h =
    let joined : n / 2 ^ 32 % 2 ^ 32 * 2 ^ 32 + n % 2 ^ 32 ≡ n = omega arith in
    Reads-bind _ _ _ _ (n / 2 ^ 32 % 2 ^ 32) n (Reads-uint _) (record {
      reads = λ b b' e.
          let (w, p, r) = (Reads-uint (n % 2 ^ 32)).reads b b' e in
          (w, p, λ rest. rw (r rest, joined));
    })

unpack_int-four_bytes :
    (n : ℕ) (rest : Bytes) → n < 2 ^ 31 → unpack_int (four_bytes n ++ rest) ≡ ok (pos n, rest)
unfolding unpack_int
unpack_int-four_bytes n rest h = rw (unpack_uint-four_bytes n rest (omega arith), lt→ltb _ _ h)

Reads-int_pos : (n : ℕ) → Reads (pack_int (pos n)) unpack_int (pos n)
unfolding pack_int
Reads-int_pos n = elim (Bool-cases (ltb n (2 ^ 31))) [
  | inl fits ↦
      Reads-written _ _ (pos n) (four_bytes n) (λ b b' h. cc (rw fits at h))
        (λ rest. unpack_int-four_bytes n rest (ltb→lt _ _ fits))
  | inr over ↦ record { reads = λ b b' h. cc (rw over at h) }
]

negsuc-is_in : (n : ℕ) (cs : List ℕ) → is_in (negsuc n) cs ≡ false
negsuc-is_in n [] = refl
negsuc-is_in n (c ∷ cs) = negsuc-is_in n cs

pub Reads-enum : (cs : List ℕ) (z : ℤ) → Reads (pack_enum cs z) (unpack_enum cs) z
unfolding pack_enum unpack_enum
Reads-enum cs (pos n) = Reads-checked (λ z. is_in z cs) _ _ (pos n) λ _. Reads-int_pos n
Reads-enum cs (negsuc n) = rw (negsuc-is_in n cs) (Reads-raise _ _)

-- The two values of a bool.
abbrev pub IsBit : ℤ → Type 0
IsBit z = (z ≡ pos 0) ⊎ (z ≡ pos 1)

Reads-bit : (n : ℕ) → n < 2 → Reads (pack_bool (pos n)) unpack_bool (pos n)
unfolding pack_bool unpack_bool
Reads-bit zero h =
    Reads-written _ _ (pos 0) (four_bytes 0) (λ b b' e. cc)
      (λ rest. rw (unpack_int-four_bytes 0 rest (omega arith)))
Reads-bit (suc zero) h =
    Reads-written _ _ (pos 1) (four_bytes 1) (λ b b' e. cc)
      (λ rest. rw (unpack_int-four_bytes 1 rest (omega arith)))
Reads-bit (suc (suc n)) h = absurd (omega arith)

pub Reads-bool : (z : ℤ) → IsBit z → Reads (pack_bool z) unpack_bool z
Reads-bool z (inl e) = rw e (Reads-bit 0 (omega arith))
Reads-bool z (inr e) = rw e (Reads-bit 1 (omega arith))

-- The bytes and their padding, taken off the front.
padding :
    (s pad rest : Bytes)
    → length pad ≡ padded (length s) - length s
    → unpack_fopaque (length s) ((s ++ pad) ++ rest) ≡ ok (s, rest)
unfolding unpack_fopaque
padding s pad rest e =
    let whole : length (s ++ pad) ≡ padded (length s) = omega (arith, length-append s pad) in
    let enough : ltb (length ((s ++ pad) ++ rest)) (padded (length s)) ≡ false =
      ground (arith, length-append (s ++ pad) rest, whole) in
    let front : take (length s) ((s ++ pad) ++ rest) ≡ s =
      rw append_assoc (take-length_append s (pad ++ rest)) in
    let back : drop (padded (length s)) ((s ++ pad) ++ rest) ≡ rest =
      rw (← whole) (drop-length_append (s ++ pad) rest) in
    rw (enough, front, back)

pub Reads-fopaque :
    (n : ℕ) (s : Bytes) → length s ≡ n → Reads (pack_fopaque n s) (unpack_fopaque n) s
unfolding pack_fopaque unpack_fopaque
Reads-fopaque n s e = rw (← e) (record {
  reads = λ b b' h.
      let pad = replicate (padded (length s) - length s) 0 in
      (s ++ pad, cc (rw take_all at h), λ rest. padding s pad rest (length-replicate _ _));
})

pub Reads-opaque : (s : Bytes) → Reads (pack_opaque s) unpack_opaque s
unfolding pack_opaque unpack_opaque
Reads-opaque s =
    Reads-bind _ _ _ _ (length s) s (Reads-uint (length s)) (Reads-fopaque (length s) s refl)

module _ {ℓ} {A : Type ℓ} where
  pub Reads-bounded :
      (bound : ℕ) (p : List A → Packing) (u : Unpacking (List A)) (xs : List A)
      → Reads (p xs) u xs
      → Reads (pack_bounded bound p xs) (unpack_bounded bound u) xs
  Reads-bounded bound p u xs h = elim (Bool-cases (ltb bound (length xs))) [
    | inl over ↦ rw over (Reads-raise _ xs)
    | inr fits ↦ rw fits (record {
      reads = λ b b' e. let (w, q, r) = h.reads b b' e in (w, q, λ rest. rw (r rest, fits));
    })
  ]

  Reads-items :
      (p : A → Packing) (u : Unpacking A)
      → ((a : A) → Reads (p a) u a)
      → (xs : List A) → Reads (pack_items p xs) (unpack_items u (length xs)) xs
  unfolding pack_items unpack_items
  Reads-items p u h [] = Reads-pure []
  Reads-items p u h (x ∷ xs) =
      Reads-bind _ _ _ _ x (x ∷ xs) (h x)
        (Reads-last _ _ (λ ys. x ∷ ys) xs (x ∷ xs) (Reads-items p u h xs) refl)

  pub Reads-array :
      (p : A → Packing) (u : Unpacking A)
      → ((a : A) → Reads (p a) u a)
      → (xs : List A) → Reads (pack_array p xs) (unpack_array u) xs
  unfolding pack_array unpack_array
  Reads-array p u h xs =
      Reads-bind _ _ _ _ (length xs) xs (Reads-uint (length xs)) (Reads-items p u h xs)

  -- A field that is None makes the packer fail.
  pub Reads-field_if {κ} :
      (x : Error) (p : A → Packing) (u : Unpacking A) (P : A → Type κ)
      → ((a : A) → P a → Reads (p a) u a)
      → (o : Option A) → OnSome P o
      → Reads (pack_or_raise x p o) (unpack_field u) o
  Reads-field_if x p u P h none c = record { reads = λ b b' e. cc }
  Reads-field_if x p u P h (some a) c = Reads-last _ _ some a (some a) (h a c) refl

  pub Reads-field :
      (x : Error) (p : A → Packing) (u : Unpacking A)
      → ((a : A) → Reads (p a) u a)
      → (o : Option A) → Reads (pack_or_raise x p o) (unpack_field u) o
  Reads-field x p u h none = record { reads = λ b b' e. cc }
  Reads-field x p u h (some a) = Reads-last _ _ some a (some a) (h a) refl
