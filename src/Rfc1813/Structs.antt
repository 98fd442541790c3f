-- ===== src/Rfc1813/Structs.antt =====
-- rfc1813/types.py and rfc1813/pack.py: specdata3, nfs_fh3, nfstime3, diropargs3.
pub mod RoundTrip
use perennial.Prelude.{ℕ, Option}
use perennial.Xdr.{
  Bytes, Packing, ◌⨾◌, Unpacking, pure, ◌>>=◌, pack_opaque, unpack_opaque, pack_field, unpack_field,
  pack_bounded, unpack_bounded,
}
use perennial.Rfc1813.Const.{nfs3_fhsize}
use perennial.Rfc1813.Basic.{pack_uint32, unpack_uint32, pack_filename3, unpack_filename3}

-- struct specdata3
pub record Specdata3 : Type 0 where
  pub specdata1 : Option ℕ
  pub specdata2 : Option ℕ

unfoldable pub pack_specdata3 : Specdata3 → Packing
pack_specdata3 d = pack_field pack_uint32 d.specdata1 ⨾ pack_field pack_uint32 d.specdata2

unfoldable pub unpack_specdata3 : Unpacking Specdata3
unpack_specdata3 = do
  specdata1' ← unpack_field unpack_uint32
  specdata2' ← unpack_field unpack_uint32
  pure (record { specdata1 = specdata1'; specdata2 = specdata2' })

-- struct nfs_fh3
pub record NfsFh3 : Type 0 where
  pub contents : Option Bytes

unfoldable pub pack_nfs_fh3 : NfsFh3 → Packing
pack_nfs_fh3 d = pack_field (pack_bounded nfs3_fhsize pack_opaque) d.contents

unfoldable pub unpack_nfs_fh3 : Unpacking NfsFh3
unpack_nfs_fh3 = do
  contents' ← unpack_field (unpack_bounded nfs3_fhsize unpack_opaque)
  pure (record { contents = contents' })

-- struct nfstime3
pub record Nfstime3 : Type 0 where
  pub seconds : Option ℕ
  pub nseconds : Option ℕ

unfoldable pub pack_nfstime3 : Nfstime3 → Packing
pack_nfstime3 d = pack_field pack_uint32 d.seconds ⨾ pack_field pack_uint32 d.nseconds

unfoldable pub unpack_nfstime3 : Unpacking Nfstime3
unpack_nfstime3 = do
  seconds' ← unpack_field unpack_uint32
  nseconds' ← unpack_field unpack_uint32
  pure (record { seconds = seconds'; nseconds = nseconds' })

-- struct diropargs3
pub record Diropargs3 : Type 0 where
  pub dir : Option NfsFh3
  pub name : Option Bytes

unfoldable pub pack_diropargs3 : Diropargs3 → Packing
pack_diropargs3 d = pack_field pack_nfs_fh3 d.dir ⨾ pack_field pack_filename3 d.name

unfoldable pub unpack_diropargs3 : Unpacking Diropargs3
unpack_diropargs3 = do
  dir' ← unpack_field unpack_nfs_fh3
  name' ← unpack_field unpack_filename3
  pure (record { dir = dir'; name = name' })
