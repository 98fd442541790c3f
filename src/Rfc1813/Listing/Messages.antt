-- ===== src/Rfc1813/Listing/Messages.antt =====
-- The messages of rfc1813/pack.py that hold linked lists: their round trips, and the end of their
-- unpackers.
use perennial.Prelude.{[], ◌++◌, ◌≡◌, length, suc, arith}
use perennial.Outcome.{ok}
use perennial.Xdr.{Bytes}
use perennial.Xdr.Decodes.{Ends}
use perennial.Xdr.Reads.{Reads-message}
use perennial.Rfc1813.Listing.{
  Readdir3Res, pack_readdir3res, unpack_readdir3res, Readdirplus3Res, pack_readdirplus3res,
  unpack_readdirplus3res,
}
use perennial.Rfc1813.Listing.Decoding.{Decodes-readdir3res, Decodes-readdirplus3res}
use perennial.Rfc1813.Listing.RoundTrip.{
  IsReaddir3Res, Reads-readdir3res, IsReaddirplus3Res, Reads-readdirplus3res,
}

-- If a READDIRPLUS reply whose parts are canonical (unselected arms None, bools 0 or 1, 64-bit numbers
-- below 2^64, fixed-size fields of their size) is packed, unpacking gives it back, with every entry of
-- its linked list, and leaves what follows.
pub unpack_readdirplus3res-pack_readdirplus3res :
    (d : Readdirplus3Res) (w rest : Bytes)
    → IsReaddirplus3Res d
    → pack_readdirplus3res d [] ≡ ok w
    → unpack_readdirplus3res (w ++ rest) ≡ ok (d, rest)
unpack_readdirplus3res-pack_readdirplus3res d w rest c =
    Reads-message w rest (Reads-readdirplus3res d c)

-- If a READDIR reply whose parts are canonical in that sense is packed, unpacking gives it back, with every
-- entry, and leaves what follows.
pub unpack_readdir3res-pack_readdir3res :
    (d : Readdir3Res) (w rest : Bytes)
    → IsReaddir3Res d
    → pack_readdir3res d [] ≡ ok w
    → unpack_readdir3res (w ++ rest) ≡ ok (d, rest)
unpack_readdir3res-pack_readdir3res d w rest c = Reads-message w rest (Reads-readdir3res d c)

-- On any bytes, unpacking a READDIR or a READDIRPLUS reply returns a value or raises xdrlib's Error or
-- EOFError, where Python's limit on the depth of calls is not met: the recursion through the entries does
-- not run out of the fuel that the bytes give it.
pub unpack_readdir-Ends :
    (b : Bytes) → Ends (unpack_readdir3res b) × Ends (unpack_readdirplus3res b)
unpack_readdir-Ends b = (
  (Decodes-readdir3res {k = suc (length b)}).ends b (omega arith),
  (Decodes-readdirplus3res {k = suc (length b)}).ends b (omega arith),
)
