-- ===== src/Rfc1813/Guards.antt =====
-- What the checks of rfc1813/pack.py ensure, and where one is missing.
use perennial.Prelude.{
  ℕ, suc, ◌≤◌, ◌≡◌, refl, inl, inr, Option, some, List, [], arith, length, ltb, if◌then◌else◌,
  Bool-cases,
}
use perennial.Outcome.{ok, err, eof_error, >>=-eq-ok}
use perennial.Xdr.{
  unpack_field, pos, Bytes, four_bytes, Unpacking, unpack_bounded, unpack_opaque, pack_bool,
  unpack_uint, unpack_int, unpack_bool, pure, raise,
}
use perennial.Rfc1813.Const.{nfs3_fhsize}
use perennial.Rfc1813.Structs.{NfsFh3, unpack_nfs_fh3}
use perennial.Rfc1813.Sattr.{pack_set_mode3, unpack_set_mode3}

module _ {ℓ} {A : Type ℓ} where
  checked-length :
      (bound : ℕ) (xs ys : List A) (b rest : Bytes)
      → (if ltb bound (length xs) then raise else pure xs) b ≡ ok (ys, rest)
      → length ys ≤ bound
  checked-length bound xs ys b rest h = elim (Bool-cases (ltb bound (length xs))) [
    | inl over ↦ cc (rw over at h)
    | inr fits ↦
        let q : (pure xs b ≡ ok (ys, rest)) = rw fits at h in
        let e : xs ≡ ys = cc q in rw (← e) (ground (arith, fits))
  ]

  unpack_bounded-length :
      (bound : ℕ) (u : Unpacking (List A)) (b rest : Bytes) (xs : List A)
      → unpack_bounded bound u b ≡ ok (xs, rest)
      → length xs ≤ bound
  unpack_bounded-length bound u b rest xs h =
      let (p, e, q) = >>=-eq-ok (u b) _ h in checked-length bound p.0 xs p.1 rest q

-- A file handle that is unpacked is set, and holds 64 bytes at most.
pub unpack_nfs_fh3_bound :
    (b rest : Bytes) (d : NfsFh3)
    → unpack_nfs_fh3 b ≡ ok (d, rest)
    → (s : Bytes) × (d.contents ≡ some s) × (length s ≤ 64)
unfolding unpack_nfs_fh3
unpack_nfs_fh3_bound b rest d h =
    let (p, e, q) =
      >>=-eq-ok (unpack_field (unpack_bounded nfs3_fhsize unpack_opaque) b)
        (λ x. pure {A = NfsFh3} (record { contents = x.0 }) x.1) h in
    let (p', e', q') =
      >>=-eq-ok (unpack_bounded nfs3_fhsize unpack_opaque b)
        (λ x. pure {A = Option Bytes} (some x.0) x.1) e in
    (p'.0, cc (q, q'), unpack_bounded-length nfs3_fhsize unpack_opaque b p'.1 p'.0 e')

-- For a set_it that is true but not 1, the packer of set_mode3 writes the discriminant of the
-- arm and no mode, and a message of those bytes alone is refused by the unpacker.
pub pack_set_mode3_truthy :
    (n : ℕ) (mode : Option ℕ)
    → (pack_set_mode3 (record { set_it = some (pos (suc (suc n))); mode = mode }) []
        ≡ ok (four_bytes 1))
      × (unpack_set_mode3 (four_bytes 1) ≡ err eof_error)
unfolding pack_set_mode3 unpack_set_mode3 pack_bool unpack_bool unpack_int unpack_uint
pack_set_mode3_truthy n mode = (ground arith, refl)
