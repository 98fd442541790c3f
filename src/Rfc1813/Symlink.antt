-- ===== src/Rfc1813/Symlink.antt =====
-- rfc1813/types.py and rfc1813/pack.py: symlinkdata3, SYMLINK3args, SYMLINK3resok,
-- SYMLINK3resfail, SYMLINK3res.
pub mod RoundTrip
use perennial.Prelude.{Option, none, if◌then◌else◌}
use perennial.Xdr.{
  ℤ, Bytes, Packing, ◌⨾◌, Unpacking, pure, ◌>>=◌, pack_field, pack_attribute, unpack_field,
  field_is,
}
use perennial.Rfc1813.Const.{nfs3_ok}
use perennial.Rfc1813.Basic.{pack_nfspath3, unpack_nfspath3, pack_nfsstat3, unpack_nfsstat3}
use perennial.Rfc1813.Structs.{Diropargs3, pack_diropargs3, unpack_diropargs3}
use perennial.Rfc1813.Attributes.{
  PostOpAttr, pack_post_op_attr, unpack_post_op_attr, WccData, pack_wcc_data, unpack_wcc_data,
  PostOpFh3, pack_post_op_fh3, unpack_post_op_fh3,
}
use perennial.Rfc1813.Sattr.{Sattr3, pack_sattr3, unpack_sattr3}

-- struct symlinkdata3
pub record Symlinkdata3 : Type 0 where
  pub symlink_attributes : Option Sattr3
  pub symlink_data : Option Bytes

unfoldable pub pack_symlinkdata3 : Symlinkdata3 → Packing
pack_symlinkdata3 d =
    pack_field pack_sattr3 d.symlink_attributes ⨾ pack_field pack_nfspath3 d.symlink_data

unfoldable pub unpack_symlinkdata3 : Unpacking Symlinkdata3
unpack_symlinkdata3 = do
  symlink_attributes' ← unpack_field unpack_sattr3
  symlink_data' ← unpack_field unpack_nfspath3
  pure (record { symlink_attributes = symlink_attributes'; symlink_data = symlink_data' })

-- struct SYMLINK3args
pub record Symlink3Args : Type 0 where
  pub place : Option Diropargs3
  pub symlink : Option Symlinkdata3

unfoldable pub pack_symlink3args : Symlink3Args → Packing
pack_symlink3args d = pack_field pack_diropargs3 d.place ⨾ pack_field pack_symlinkdata3 d.symlink

unfoldable pub unpack_symlink3args : Unpacking Symlink3Args
unpack_symlink3args = do
  place' ← unpack_field unpack_diropargs3
  symlink' ← unpack_field unpack_symlinkdata3
  pure (record { place = place'; symlink = symlink' })

-- struct SYMLINK3resok
pub record Symlink3ResOk : Type 0 where
  pub obj : Option PostOpFh3
  pub obj_attributes : Option PostOpAttr
  pub dir_wcc : Option WccData

unfoldable pub pack_symlink3resok : Symlink3ResOk → Packing
pack_symlink3resok d =
    pack_field pack_post_op_fh3 d.obj
    ⨾ pack_field pack_post_op_attr d.obj_attributes
    ⨾ pack_field pack_wcc_data d.dir_wcc

unfoldable pub unpack_symlink3resok : Unpacking Symlink3ResOk
unpack_symlink3resok = do
  obj' ← unpack_field unpack_post_op_fh3
  obj_attributes' ← unpack_field unpack_post_op_attr
  dir_wcc' ← unpack_field unpack_wcc_data
  pure (record { obj = obj'; obj_attributes = obj_attributes'; dir_wcc = dir_wcc' })

-- struct SYMLINK3resfail
pub record Symlink3ResFail : Type 0 where
  pub dir_wcc : Option WccData

unfoldable pub pack_symlink3resfail : Symlink3ResFail → Packing
pack_symlink3resfail d = pack_field pack_wcc_data d.dir_wcc

unfoldable pub unpack_symlink3resfail : Unpacking Symlink3ResFail
unpack_symlink3resfail = do
  dir_wcc' ← unpack_field unpack_wcc_data
  pure (record { dir_wcc = dir_wcc' })

-- union SYMLINK3res
pub record Symlink3Res : Type 0 where
  pub status : Option ℤ
  pub resok : Option Symlink3ResOk
  pub resfail : Option Symlink3ResFail

unfoldable pub pack_symlink3res : Symlink3Res → Packing
pack_symlink3res d =
    pack_field pack_nfsstat3 d.status
    ⨾ (if field_is d.status nfs3_ok
        then pack_field pack_symlink3resok d.resok
        else pack_attribute pack_symlink3resfail d.resfail)

unfoldable pub unpack_symlink3res : Unpacking Symlink3Res
unpack_symlink3res = do
  status' ← unpack_field unpack_nfsstat3
  (if field_is status' nfs3_ok
      then (unpack_field unpack_symlink3resok >>= λ arm.
          pure (record { status = status'; resok = arm; resfail = none }))
      else (unpack_field unpack_symlink3resfail >>= λ arm.
          pure (record { status = status'; resok = none; resfail = arm })))
