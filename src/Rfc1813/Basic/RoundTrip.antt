-- ===== src/Rfc1813/Basic/RoundTrip.antt =====
-- Reading back what the packers of Rfc1813/Basic.antt write.
use perennial.Prelude.{◌≡◌, length}
use perennial.Xdr.{ℤ, Bytes}
use perennial.Xdr.Reads.{Reads}
use perennial.Xdr.RoundTrip.{Reads-fopaque, Reads-enum}
use perennial.Rfc1813.Const.{nfs3_cookieverfsize, nfs3_createverfsize, nfs3_writeverfsize}
use perennial.Rfc1813.Basic.{
  pack_cookieverf3, unpack_cookieverf3, pack_createverf3, unpack_createverf3, pack_writeverf3,
  unpack_writeverf3, nfsstat3_values, pack_nfsstat3, unpack_nfsstat3, ftype3_values, pack_ftype3,
  unpack_ftype3,
}

abbrev pub IsCookieverf3 : Bytes → Type 0
IsCookieverf3 s = length s ≡ nfs3_cookieverfsize

pub Reads-cookieverf3 :
    (s : Bytes) → IsCookieverf3 s → Reads (pack_cookieverf3 s) unpack_cookieverf3 s
unfolding pack_cookieverf3 unpack_cookieverf3
Reads-cookieverf3 = Reads-fopaque nfs3_cookieverfsize

abbrev pub IsCreateverf3 : Bytes → Type 0
IsCreateverf3 s = length s ≡ nfs3_createverfsize

pub Reads-createverf3 :
    (s : Bytes) → IsCreateverf3 s → Reads (pack_createverf3 s) unpack_createverf3 s
unfolding pack_createverf3 unpack_createverf3
Reads-createverf3 = Reads-fopaque nfs3_createverfsize

abbrev pub IsWriteverf3 : Bytes → Type 0
IsWriteverf3 s = length s ≡ nfs3_writeverfsize

pub Reads-writeverf3 : (s : Bytes) → IsWriteverf3 s → Reads (pack_writeverf3 s) unpack_writeverf3 s
unfolding pack_writeverf3 unpack_writeverf3
Reads-writeverf3 = Reads-fopaque nfs3_writeverfsize

pub Reads-nfsstat3 : (z : ℤ) → Reads (pack_nfsstat3 z) unpack_nfsstat3 z
unfolding pack_nfsstat3 unpack_nfsstat3
Reads-nfsstat3 = Reads-enum nfsstat3_values

pub Reads-ftype3 : (z : ℤ) → Reads (pack_ftype3 z) unpack_ftype3 z
unfolding pack_ftype3 unpack_ftype3
Reads-ftype3 = Reads-enum ftype3_values
