-- ===== src/Rfc1813/Messages.antt =====
-- Round trips of whole messages of rfc1813/pack.py, from an empty buffer.
use perennial.Prelude.{[], ◌++◌, ◌≡◌}
use perennial.Outcome.{ok}
use perennial.Xdr.{Bytes}
use perennial.Xdr.Reads.{Reads-message}
use perennial.Rfc1813.Getattr.{Getattr3Res, pack_getattr3res, unpack_getattr3res}
use perennial.Rfc1813.Getattr.RoundTrip.{IsGetattr3Res, Reads-getattr3res}
use perennial.Rfc1813.Lookup.{
  Lookup3Res, pack_lookup3res, unpack_lookup3res, Access3Res, pack_access3res, unpack_access3res,
}
use perennial.Rfc1813.Lookup.RoundTrip.{
  IsLookup3Res, Reads-lookup3res, IsAccess3Res, Reads-access3res,
}
use perennial.Rfc1813.Setattr.{Setattr3Args, pack_setattr3args, unpack_setattr3args}
use perennial.Rfc1813.Setattr.RoundTrip.{IsSetattr3Args, Reads-setattr3args}
use perennial.Rfc1813.Create.{Create3Args, pack_create3args, unpack_create3args}
use perennial.Rfc1813.Create.RoundTrip.{IsCreate3Args, Reads-create3args}
use perennial.Rfc1813.Write.{Write3Args, pack_write3args, unpack_write3args}
use perennial.Rfc1813.Write.RoundTrip.{IsWrite3Args, Reads-write3args}

-- If a GETATTR reply whose parts are canonical (unselected arms None, bools 0 or 1, 64-bit numbers below
-- 2^64, fixed-size fields of their size) is packed, unpacking gives it back and leaves what follows.
pub unpack_getattr3res-pack_getattr3res :
    (d : Getattr3Res) (w rest : Bytes)
    → IsGetattr3Res d
    → pack_getattr3res d [] ≡ ok w
    → unpack_getattr3res (w ++ rest) ≡ ok (d, rest)
unpack_getattr3res-pack_getattr3res d w rest c = Reads-message w rest (Reads-getattr3res d c)

-- If a LOOKUP reply whose parts are canonical (unselected arms None, bools 0 or 1, 64-bit numbers below
-- 2^64, fixed-size fields of their size) is packed, unpacking gives it back and leaves what follows.
pub unpack_lookup3res-pack_lookup3res :
    (d : Lookup3Res) (w rest : Bytes)
    → IsLookup3Res d
    → pack_lookup3res d [] ≡ ok w
    → unpack_lookup3res (w ++ rest) ≡ ok (d, rest)
unpack_lookup3res-pack_lookup3res d w rest c = Reads-message w rest (Reads-lookup3res d c)

-- If an ACCESS reply whose parts are canonical (unselected arms None, bools 0 or 1, 64-bit numbers below
-- 2^64, fixed-size fields of their size) is packed, unpacking gives it back and leaves what follows.
pub unpack_access3res-pack_access3res :
    (d : Access3Res) (w rest : Bytes)
    → IsAccess3Res d
    → pack_access3res d [] ≡ ok w
    → unpack_access3res (w ++ rest) ≡ ok (d, rest)
unpack_access3res-pack_access3res d w rest c = Reads-message w rest (Reads-access3res d c)

-- If the arguments of SETATTR whose parts are canonical (unselected arms None, bools 0 or 1, 64-bit numbers below
-- 2^64, fixed-size fields of their size) is packed, unpacking gives it back and leaves what follows.
pub unpack_setattr3args-pack_setattr3args :
    (d : Setattr3Args) (w rest : Bytes)
    → IsSetattr3Args d
    → pack_setattr3args d [] ≡ ok w
    → unpack_setattr3args (w ++ rest) ≡ ok (d, rest)
unpack_setattr3args-pack_setattr3args d w rest c = Reads-message w rest (Reads-setattr3args d c)

-- If the arguments of CREATE whose parts are canonical (unselected arms None, bools 0 or 1, 64-bit numbers below
-- 2^64, fixed-size fields of their size) is packed, unpacking gives it back and leaves what follows.
pub unpack_create3args-pack_create3args :
    (d : Create3Args) (w rest : Bytes)
    → IsCreate3Args d
    → pack_create3args d [] ≡ ok w
    → unpack_create3args (w ++ rest) ≡ ok (d, rest)
unpack_create3args-pack_create3args d w rest c = Reads-message w rest (Reads-create3args d c)

-- If the arguments of WRITE whose parts are canonical (unselected arms None, bools 0 or 1, 64-bit numbers below
-- 2^64, fixed-size fields of their size) is packed, unpacking gives it back and leaves what follows.
pub unpack_write3args-pack_write3args :
    (d : Write3Args) (w rest : Bytes)
    → IsWrite3Args d
    → pack_write3args d [] ≡ ok w
    → unpack_write3args (w ++ rest) ≡ ok (d, rest)
unpack_write3args-pack_write3args d w rest c = Reads-message w rest (Reads-write3args d c)
