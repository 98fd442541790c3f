-- ===== src/Rfc1813/Structs/RoundTrip.antt =====
-- Reading back what the packers of Rfc1813/Structs.antt write.
use perennial.Prelude.{refl}
use perennial.Xdr.{pack_opaque}
use perennial.Xdr.Reads.{Reads, Reads-bind, Reads-last}
use perennial.Xdr.RoundTrip.{Reads-uint, Reads-opaque, Reads-bounded, Reads-field}
use perennial.Rfc1813.Structs.{
  Specdata3, pack_specdata3, unpack_specdata3, NfsFh3, pack_nfs_fh3, unpack_nfs_fh3, Nfstime3,
  pack_nfstime3, unpack_nfstime3, Diropargs3, pack_diropargs3, unpack_diropargs3,
}

pub Reads-specdata3 : (d : Specdata3) → Reads (pack_specdata3 d) unpack_specdata3 d
unfolding pack_specdata3 unpack_specdata3
Reads-specdata3 d =
    Reads-bind _ _ _ _ d.specdata1 d (Reads-field _ _ _ Reads-uint d.specdata1)
      (Reads-last _ _ _ d.specdata2 d (Reads-field _ _ _ Reads-uint d.specdata2) refl)

pub Reads-nfs_fh3 : (d : NfsFh3) → Reads (pack_nfs_fh3 d) unpack_nfs_fh3 d
unfolding pack_nfs_fh3 unpack_nfs_fh3
Reads-nfs_fh3 d =
    Reads-last _ _ _ d.contents d
      (Reads-field _ _ _ (λ xs. Reads-bounded _ pack_opaque _ xs (Reads-opaque xs)) d.contents) refl

pub Reads-nfstime3 : (d : Nfstime3) → Reads (pack_nfstime3 d) unpack_nfstime3 d
unfolding pack_nfstime3 unpack_nfstime3
Reads-nfstime3 d =
    Reads-bind _ _ _ _ d.seconds d (Reads-field _ _ _ Reads-uint d.seconds)
      (Reads-last _ _ _ d.nseconds d (Reads-field _ _ _ Reads-uint d.nseconds) refl)

pub Reads-diropargs3 : (d : Diropargs3) → Reads (pack_diropargs3 d) unpack_diropargs3 d
unfolding pack_diropargs3 unpack_diropargs3
Reads-diropargs3 d =
    Reads-bind _ _ _ _ d.dir d (Reads-field _ _ _ Reads-nfs_fh3 d.dir)
      (Reads-last _ _ _ d.name d (Reads-field _ _ _ Reads-opaque d.name) refl)
