-- ===== src/Rfc1813/Getattr.antt =====
-- rfc1813/types.py and rfc1813/pack.py: GETATTR3args, GETATTR3resok, GETATTR3res.
pub mod RoundTrip
use perennial.Prelude.{Option, none, if◌then◌else◌}
use perennial.Xdr.{
  ℤ, Packing, skip, ◌⨾◌, Unpacking, pure, ◌>>=◌, pack_field, unpack_field, field_is,
}
use perennial.Rfc1813.Const.{nfs3_ok}
use perennial.Rfc1813.Basic.{pack_nfsstat3, unpack_nfsstat3}
use perennial.Rfc1813.Structs.{NfsFh3, pack_nfs_fh3, unpack_nfs_fh3}
use perennial.Rfc1813.Attributes.{Fattr3, pack_fattr3, unpack_fattr3}

-- struct GETATTR3args
pub record Getattr3Args : Type 0 where
  pub object : Option NfsFh3

unfoldable pub pack_getattr3args : Getattr3Args → Packing
pack_getattr3args d = pack_field pack_nfs_fh3 d.object

unfoldable pub unpack_getattr3args : Unpacking Getattr3Args
unpack_getattr3args = do object' ← unpack_field unpack_nfs_fh3; pure (record { object = object' })

-- struct GETATTR3resok
pub record Getattr3ResOk : Type 0 where
  pub obj_attributes : Option Fattr3

unfoldable pub pack_getattr3resok : Getattr3ResOk → Packing
pack_getattr3resok d = pack_field pack_fattr3 d.obj_attributes

unfoldable pub unpack_getattr3resok : Unpacking Getattr3ResOk
unpack_getattr3resok = do
  obj_attributes' ← unpack_field unpack_fattr3
  pure (record { obj_attributes = obj_attributes' })

-- union GETATTR3res
pub record Getattr3Res : Type 0 where
  pub status : Option ℤ
  pub resok : Option Getattr3ResOk

unfoldable pub pack_getattr3res : Getattr3Res → Packing
pack_getattr3res d =
    pack_field pack_nfsstat3 d.status
    ⨾ (if field_is d.status nfs3_ok then pack_field pack_getattr3resok d.resok else skip)

unfoldable pub unpack_getattr3res : Unpacking Getattr3Res
unpack_getattr3res = do
  status' ← unpack_field unpack_nfsstat3
  (if field_is status' nfs3_ok
      then (unpack_field unpack_getattr3resok >>= λ arm.
          pure (record { status = status'; resok = arm }))
      else pure (record { status = status'; resok = none }))
