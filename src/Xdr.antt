-- ===== src/Xdr.antt =====
-- The part of Python's xdrlib that the generated codecs call. A `Packer` is the bytes of its buffer,
-- an `Unpacker` the bytes that are left behind its position; a byte is a number. The subclasses of
-- `xdrlib.Error` are one exception here.
pub mod Reads
pub mod RoundTrip
pub mod Linked
pub mod Decodes
use perennial.Prelude.{
  ℕ, zero, suc, ◌+◌, ◌-◌, ◌*◌, ◌/◌, ◌%◌, ◌^◌, Bool, false, ◌||◌, Option, none, some, List, [], ◌∷◌,
  ◌++◌, length, take, drop, replicate, ltb, ◌==◌, if◌then◌else◌,
}
use perennial.Outcome.{Error, attribute_error, Result, ok, err, type_error, eof_error, xdr_error}
use perennial.Outcome

-- A Python int.
pub data ℤ : Type 0 where
  pos : ℕ → ℤ
  negsuc : ℕ → ℤ

abbrev pub Bytes : Type 0
Bytes = List ℕ

-- A call of a `pack_` method: it appends to the buffer.
abbrev pub Packing : Type 0
Packing = Bytes → Result Bytes

abbrev pub skip : Packing
skip b = ok b

infixr 6 ◌⨾◌
abbrev pub ◌⨾◌ : Packing → Packing → Packing
(p ⨾ q) b = Outcome.◌>>=◌ (p b) q

abbrev pub raise {ℓ} : {A : Type ℓ} → Bytes → Result A
raise b = err xdr_error

-- A call of an `unpack_` method.
abbrev pub Unpacking {ℓ} : Type ℓ → Type ℓ
Unpacking A = Bytes → Result (A × Bytes)

abbrev pub pure {ℓ} : {A : Type ℓ} → A → Unpacking A
pure a b = ok (a, b)

infixl 5 ◌>>=◌
abbrev pub ◌>>=◌ {ℓ κ} : {A : Type ℓ} {B : Type κ} → Unpacking A → (A → Unpacking B) → Unpacking B
(u >>= k) b = Outcome.◌>>=◌ (u b) λ (a, rest). k a rest

-- `struct.pack('>L', x)` of a number below 2^32.
abbrev pub four_bytes : ℕ → Bytes
four_bytes n = n / 2 ^ 24 ∷ n / 2 ^ 16 % 256 ∷ n / 2 ^ 8 % 256 ∷ n % 256 ∷ []

unfoldable pub pack_uint : ℕ → Packing
pack_uint n b = if ltb n (2 ^ 32) then ok (b ++ four_bytes n) else err xdr_error

unfoldable pub unpack_uint : Unpacking ℕ
unpack_uint (b₃ ∷ b₂ ∷ b₁ ∷ b₀ ∷ rest) = ok (b₃ * 2 ^ 24 + b₂ * 2 ^ 16 + b₁ * 2 ^ 8 + b₀, rest)
unpack_uint _ = err eof_error

-- Two's complement of 32 bits.
unfoldable pub pack_int : ℤ → Packing
pack_int (pos n) b = if ltb n (2 ^ 31) then ok (b ++ four_bytes n) else err xdr_error
pack_int (negsuc n) b =
    if ltb n (2 ^ 31) then ok (b ++ four_bytes (2 ^ 32 - 1 - n)) else err xdr_error

abbrev pub signed : ℕ → ℤ
signed n = if ltb n (2 ^ 31) then pos n else negsuc (2 ^ 32 - 1 - n)

unfoldable pub unpack_int : Unpacking ℤ
unpack_int = unpack_uint >>= λ n. pure (signed n)

-- A bool is the int that it is equal to; any int has a truth value.
unfoldable pub pack_bool : ℤ → Packing
pack_bool (pos zero) b = ok (b ++ four_bytes 0)
pack_bool _ b = ok (b ++ four_bytes 1)

abbrev pub bool_of : ℤ → ℤ
bool_of (pos zero) = pos 0
bool_of _ = pos 1

unfoldable pub unpack_bool : Unpacking ℤ
unpack_bool = unpack_int >>= λ z. pure (bool_of z)

-- The two halves of the low 64 bits.
unfoldable pub pack_uhyper : ℕ → Packing
pack_uhyper n = pack_uint (n / 2 ^ 32 % 2 ^ 32) ⨾ pack_uint (n % 2 ^ 32)

unfoldable pub unpack_uhyper : Unpacking ℕ
unpack_uhyper = unpack_uint >>= λ hi. unpack_uint >>= λ lo. pure (hi * 2 ^ 32 + lo)

abbrev pub padded : ℕ → ℕ
padded n = (n + 3) / 4 * 4

-- pack_fstring: the first `n` bytes, and zeros up to a multiple of four.
unfoldable pub pack_fopaque : ℕ → Bytes → Packing
pack_fopaque n s b = let kept = take n s in ok (b ++ (kept ++ replicate (padded n - length kept) 0))

unfoldable pub unpack_fopaque : ℕ → Unpacking Bytes
unpack_fopaque n b =
    if ltb (length b) (padded n) then err eof_error else ok (take n b, drop (padded n) b)

-- pack_string and its alias pack_opaque
unfoldable pub pack_opaque : Bytes → Packing
pack_opaque s = pack_uint (length s) ⨾ pack_fopaque (length s) s

unfoldable pub unpack_opaque : Unpacking Bytes
unpack_opaque = unpack_uint >>= unpack_fopaque

module _ {ℓ} {A : Type ℓ} where
  unfoldable pub pack_items : (A → Packing) → List A → Packing
  pack_items p [] = skip
  pack_items p (x ∷ xs) = p x ⨾ pack_items p xs

  unfoldable pub pack_array : (A → Packing) → List A → Packing
  unfolding pack_items
  pack_array p xs = pack_uint (length xs) ⨾ pack_items p xs

  unfoldable pub unpack_items : Unpacking A → ℕ → Unpacking (List A)
  unpack_items u zero = pure []
  unpack_items u (suc n) = u >>= λ x. unpack_items u n >>= λ xs. pure (x ∷ xs)

  unfoldable pub unpack_array : Unpacking A → Unpacking (List A)
  unfolding unpack_items
  unpack_array u = unpack_uint >>= unpack_items u

  abbrev pub pack_or_raise : Error → (A → Packing) → Option A → Packing
  pack_or_raise e p none b = err e
  pack_or_raise e p (some a) b = p a b

  -- `if data.f is None: raise TypeError`, then the field is packed.
  abbrev pub pack_field : (A → Packing) → Option A → Packing
  pack_field = pack_or_raise type_error

  -- The same for an attribute that no constructor sets: `none` is its absence.
  abbrev pub pack_attribute : (A → Packing) → Option A → Packing
  pack_attribute = pack_or_raise attribute_error

  -- `data.f = self.unpack_t()`
  abbrev pub unpack_field : Unpacking A → Unpacking (Option A)
  unpack_field u = u >>= λ a. pure (some a)

  -- `if len(data) > bound: raise XDRError`, before packing and after unpacking.
  abbrev pub pack_bounded : ℕ → (List A → Packing) → List A → Packing
  pack_bounded bound p xs = if ltb bound (length xs) then raise else p xs

  abbrev pub unpack_bounded : ℕ → Unpacking (List A) → Unpacking (List A)
  unpack_bounded bound u = u >>= λ xs. if ltb bound (length xs) then raise else pure xs

-- `P` of the value of a field that is set.
abbrev pub OnSome {ℓ κ} : {A : Type ℓ} → (A → Type κ) → Option A → Type κ
OnSome P none = Unit
OnSome P (some a) = P a

-- `z == c`, for a field that may be None
abbrev pub int_is : ℤ → ℕ → Bool
int_is (pos n) c = n == c
int_is (negsuc n) c = false

abbrev pub field_is : Option ℤ → ℕ → Bool
field_is none c = false
field_is (some z) c = int_is z c

-- `z in [c, …]`
abbrev pub is_in : ℤ → List ℕ → Bool
is_in z [] = false
is_in z (c ∷ cs) = int_is z c || is_in z cs

-- `if data not in [...]: raise XDRError`, round an int.
unfoldable pub pack_enum : List ℕ → ℤ → Packing
pack_enum cs z = if is_in z cs then pack_int z else raise

unfoldable pub unpack_enum : List ℕ → Unpacking ℤ
unpack_enum cs = unpack_int >>= λ z. if is_in z cs then pure z else raise
