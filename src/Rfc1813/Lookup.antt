-- ===== src/Rfc1813/Lookup.antt =====
-- rfc1813/types.py and rfc1813/pack.py: LOOKUP3args, LOOKUP3resok, LOOKUP3resfail, LOOKUP3res,
-- ACCESS3args, ACCESS3resok, ACCESS3resfail, ACCESS3res.
pub mod RoundTrip
use perennial.Prelude.{ℕ, Option, none, if◌then◌else◌}
use perennial.Xdr.{
  ℤ, Packing, ◌⨾◌, Unpacking, pure, ◌>>=◌, pack_field, pack_attribute, unpack_field, field_is,
}
use perennial.Rfc1813.Const.{nfs3_ok}
use perennial.Rfc1813.Basic.{pack_uint32, unpack_uint32, pack_nfsstat3, unpack_nfsstat3}
use perennial.Rfc1813.Structs.{
  NfsFh3, pack_nfs_fh3, unpack_nfs_fh3, Diropargs3, pack_diropargs3, unpack_diropargs3,
}
use perennial.Rfc1813.Attributes.{PostOpAttr, pack_post_op_attr, unpack_post_op_attr}

-- struct LOOKUP3args
pub record Lookup3Args : Type 0 where
  pub what : Option Diropargs3

unfoldable pub pack_lookup3args : Lookup3Args → Packing
pack_lookup3args d = pack_field pack_diropargs3 d.what

unfoldable pub unpack_lookup3args : Unpacking Lookup3Args
unpack_lookup3args = do what' ← unpack_field unpack_diropargs3; pure (record { what = what' })

-- struct LOOKUP3resok
pub record Lookup3ResOk : Type 0 where
  pub object : Option NfsFh3
  pub obj_attributes : Option PostOpAttr
  pub dir_attributes : Option PostOpAttr

unfoldable pub pack_lookup3resok : Lookup3ResOk → Packing
pack_lookup3resok d =
    pack_field pack_nfs_fh3 d.object
    ⨾ pack_field pack_post_op_attr d.obj_attributes
    ⨾ pack_field pack_post_op_attr d.dir_attributes

unfoldable pub unpack_lookup3resok : Unpacking Lookup3ResOk
unpack_lookup3resok = do
  object' ← unpack_field unpack_nfs_fh3
  obj_attributes' ← unpack_field unpack_post_op_attr
  dir_attributes' ← unpack_field unpack_post_op_attr
  pure (record {
    object = object';
    obj_attributes = obj_attributes';
    dir_attributes = dir_attributes';
  })

-- struct LOOKUP3resfail
pub record Lookup3ResFail : Type 0 where
  pub dir_attributes : Option PostOpAttr

unfoldable pub pack_lookup3resfail : Lookup3ResFail → Packing
pack_lookup3resfail d = pack_field pack_post_op_attr d.dir_attributes

unfoldable pub unpack_lookup3resfail : Unpacking Lookup3ResFail
unpack_lookup3resfail = do
  dir_attributes' ← unpack_field unpack_post_op_attr
  pure (record { dir_attributes = dir_attributes' })

-- union LOOKUP3res
pub record Lookup3Res : Type 0 where
  pub status : Option ℤ
  pub resok : Option Lookup3ResOk
  pub resfail : Option Lookup3ResFail

unfoldable pub pack_lookup3res : Lookup3Res → Packing
pack_lookup3res d =
    pack_field pack_nfsstat3 d.status
    ⨾ (if field_is d.status nfs3_ok
        then pack_field pack_lookup3resok d.resok
        else pack_attribute pack_lookup3resfail d.resfail)

unfoldable pub unpack_lookup3res : Unpacking Lookup3Res
unpack_lookup3res = do
  status' ← unpack_field unpack_nfsstat3
  (if field_is status' nfs3_ok
      then (unpack_field unpack_lookup3resok >>= λ arm.
          pure (record { status = status'; resok = arm; resfail = none }))
      else (unpack_field unpack_lookup3resfail >>= λ arm.
          pure (record { status = status'; resok = none; resfail = arm })))

-- struct ACCESS3args
pub record Access3Args : Type 0 where
  pub object : Option NfsFh3
  pub access : Option ℕ

unfoldable pub pack_access3args : Access3Args → Packing
pack_access3args d = pack_field pack_nfs_fh3 d.object ⨾ pack_field pack_uint32 d.access

unfoldable pub unpack_access3args : Unpacking Access3Args
unpack_access3args = do
  object' ← unpack_field unpack_nfs_fh3
  access' ← unpack_field unpack_uint32
  pure (record { object = object'; access = access' })

-- struct ACCESS3resok
pub record Access3ResOk : Type 0 where
  pub obj_attributes : Option PostOpAttr
  pub access : Option ℕ

unfoldable pub pack_access3resok : Access3ResOk → Packing
pack_access3resok d =
    pack_field pack_post_op_attr d.obj_attributes ⨾ pack_field pack_uint32 d.access

unfoldable pub unpack_access3resok : Unpacking Access3ResOk
unpack_access3resok = do
  obj_attributes' ← unpack_field unpack_post_op_attr
  access' ← unpack_field unpack_uint32
  pure (record { obj_attributes = obj_attributes'; access = access' })

-- struct ACCESS3resfail
pub record Access3ResFail : Type 0 where
  pub obj_attributes : Option PostOpAttr

unfoldable pub pack_access3resfail : Access3ResFail → Packing
pack_access3resfail d = pack_field pack_post_op_attr d.obj_attributes

unfoldable pub unpack_access3resfail : Unpacking Access3ResFail
unpack_access3resfail = do
  obj_attributes' ← unpack_field unpack_post_op_attr
  pure (record { obj_attributes = obj_attributes' })

-- union ACCESS3res
pub record Access3Res : Type 0 where
  pub status : Option ℤ
  pub resok : Option Access3ResOk
  pub resfail : Option Access3ResFail

unfoldable pub pack_access3res : Access3Res → Packing
pack_access3res d =
    pack_field pack_nfsstat3 d.status
    ⨾ (if field_is d.status nfs3_ok
        then pack_field pack_access3resok d.resok
        else pack_attribute pack_access3resfail d.resfail)

unfoldable pub unpack_access3res : Unpacking Access3Res
unpack_access3res = do
  status' ← unpack_field unpack_nfsstat3
  (if field_is status' nfs3_ok
      then (unpack_field unpack_access3resok >>= λ arm.
          pure (record { status = status'; resok = arm; resfail = none }))
      else (unpack_field unpack_access3resfail >>= λ arm.
          pure (record { status = status'; resok = none; resfail = arm })))
