-- ===== src/Xdr/Linked.antt =====
-- The linked lists of the generated codecs. Their element is a struct that ends in an array of at most
-- one further element (`next`), so the methods pack_X and unpack_X call themselves: entry3, entryplus3,
-- mount3, groups3, exports3. The recursion of unpack_X is on fuel; each round reads four bytes or more,
-- so the bytes that are there are enough.
pub mod Fuel
pub mod RoundTrip
use perennial.Prelude.{ℕ, zero, suc, ◌+◌, List, [], ◌∷◌, length, ltb, if◌then◌else◌}
use perennial.Outcome.{err, type_error, out_of_fuel}
use perennial.Xdr.{Packing, skip, ◌⨾◌, raise, Unpacking, pure, ◌>>=◌, pack_uint, unpack_uint}

-- The element, with the fields before `next` in `A`; `unset` is a `next` that is None.
mutual
  pub data Linked {ℓ} (A : Type ℓ) : Type ℓ where
    node : A → Next A → Linked A

  pub data Next {ℓ} (A : Type ℓ) : Type ℓ where
    unset : Next A
    set : Nodes A → Next A

  pub data Nodes {ℓ} (A : Type ℓ) : Type ℓ where
    last : Nodes A
    more : Linked A → Nodes A → Nodes A

module _ {ℓ} {A : Type ℓ} where
  -- `len(xs)`
  abbrev pub count : Nodes A → ℕ
  count last = 0
  count (more l ns) = suc (count ns)

  unfoldable mutual
    pub pack_linked : (A → Packing) → Linked A → Packing
    pack_linked p (node a nx) = p a ⨾ pack_next p nx

    -- `if data.next is None: raise TypeError`, then the array of at most one element.
    pub pack_next : (A → Packing) → Next A → Packing
    pack_next p unset = λ b. err type_error
    pack_next p (set ns) =
        if ltb 1 (count ns) then raise else pack_uint (count ns) ⨾ pack_nodes p ns

    pub pack_nodes : (A → Packing) → Nodes A → Packing
    pack_nodes p last = skip
    pack_nodes p (more l ns) = pack_linked p l ⨾ pack_nodes p ns

  -- The elements of an array, `n` times what `v` reads.
  unfoldable pub unpack_nodes : Unpacking (Linked A) → ℕ → Unpacking (Nodes A)
  unpack_nodes v zero = pure last
  unpack_nodes v (suc n) = v >>= λ l. unpack_nodes v n >>= λ ns. pure (more l ns)

  -- The array, and the check of its length behind it.
  unfoldable pub unpack_next : Unpacking (Linked A) → Unpacking (Nodes A)
  unpack_next v =
      (unpack_uint >>= unpack_nodes v) >>= λ ns. if ltb 1 (count ns) then raise else pure ns

  unfoldable pub unpack_linked : ℕ → Unpacking A → Unpacking (Linked A)
  unpack_linked zero u = λ b. err out_of_fuel
  unpack_linked (suc f) u =
      u >>= λ a. unpack_next (unpack_linked f u) >>= λ ns. pure (node a (set ns))

  -- The methods of pack.py: the fuel is the number of bytes that are left.
  unfoldable pub unpack_whole : Unpacking A → Unpacking (Linked A)
  unpack_whole u b = unpack_linked (suc (length b)) u b

  unfoldable pub unpack_whole_next : Unpacking A → Unpacking (Nodes A)
  unpack_whole_next u = unpack_next (unpack_whole u)
