-- ===== src/Rfc1813/Mknod.antt =====
-- rfc1813/types.py and rfc1813/pack.py: devicedata3, mknoddata3, MKNOD3args, MKNOD3resok,
-- MKNOD3resfail, MKNOD3res.
pub mod RoundTrip
use perennial.Prelude.{◌||◌, Option, none, if◌then◌else◌}
use perennial.Xdr.{
  ℤ, Packing, skip, ◌⨾◌, Unpacking, pure, ◌>>=◌, pack_field, pack_attribute, unpack_field, field_is,
}
use perennial.Rfc1813.Const.{nfs3_ok, nf3blk, nf3chr, nf3sock, nf3fifo}
use perennial.Rfc1813.Basic.{pack_nfsstat3, unpack_nfsstat3, pack_ftype3, unpack_ftype3}
use perennial.Rfc1813.Structs.{
  Specdata3, pack_specdata3, unpack_specdata3, Diropargs3, pack_diropargs3, unpack_diropargs3,
}
use perennial.Rfc1813.Attributes.{
  PostOpAttr, pack_post_op_attr, unpack_post_op_attr, WccData, pack_wcc_data, unpack_wcc_data,
  PostOpFh3, pack_post_op_fh3, unpack_post_op_fh3,
}
use perennial.Rfc1813.Sattr.{Sattr3, pack_sattr3, unpack_sattr3}

-- struct devicedata3
pub record Devicedata3 : Type 0 where
  pub dev_attributes : Option Sattr3
  pub spec : Option Specdata3

unfoldable pub pack_devicedata3 : Devicedata3 → Packing
pack_devicedata3 d = pack_field pack_sattr3 d.dev_attributes ⨾ pack_field pack_specdata3 d.spec

unfoldable pub unpack_devicedata3 : Unpacking Devicedata3
unpack_devicedata3 = do
  dev_attributes' ← unpack_field unpack_sattr3
  spec' ← unpack_field unpack_specdata3
  pure (record { dev_attributes = dev_attributes'; spec = spec' })

-- union mknoddata3
pub record Mknoddata3 : Type 0 where
  pub ftype : Option ℤ
  pub device : Option Devicedata3
  pub pipe_attributes : Option Sattr3

unfoldable pub pack_mknoddata3 : Mknoddata3 → Packing
pack_mknoddata3 d =
    pack_field pack_ftype3 d.ftype
    ⨾ (if field_is d.ftype nf3chr || field_is d.ftype nf3blk
        then pack_field pack_devicedata3 d.device
        else if field_is d.ftype nf3sock || field_is d.ftype nf3fifo
        then pack_field pack_sattr3 d.pipe_attributes
        else skip)

unfoldable pub unpack_mknoddata3 : Unpacking Mknoddata3
unpack_mknoddata3 = do
  ftype' ← unpack_field unpack_ftype3
  (if field_is ftype' nf3chr || field_is ftype' nf3blk
      then (unpack_field unpack_devicedata3 >>= λ arm.
          pure (record { ftype = ftype'; device = arm; pipe_attributes = none }))
      else if field_is ftype' nf3sock || field_is ftype' nf3fifo
      then (unpack_field unpack_sattr3 >>= λ arm.
          pure (record { ftype = ftype'; device = none; pipe_attributes = arm }))
      else pure (record { ftype = ftype'; device = none; pipe_attributes = none }))

-- struct MKNOD3args
pub record Mknod3Args : Type 0 where
  pub place : Option Diropargs3
  pub what : Option Mknoddata3

unfoldable pub pack_mknod3args : Mknod3Args → Packing
pack_mknod3args d = pack_field pack_diropargs3 d.place ⨾ pack_field pack_mknoddata3 d.what

unfoldable pub unpack_mknod3args : Unpacking Mknod3Args
unpack_mknod3args = do
  place' ← unpack_field unpack_diropargs3
  what' ← unpack_field unpack_mknoddata3
  pure (record { place = place'; what = what' })

-- struct MKNOD3resok
pub record Mknod3ResOk : Type 0 where
  pub obj : Option PostOpFh3
  pub obj_attributes : Option PostOpAttr
  pub dir_wcc : Option WccData

unfoldable pub pack_mknod3resok : Mknod3ResOk → Packing
pack_mknod3resok d =
    pack_field pack_post_op_fh3 d.obj
    ⨾ pack_field pack_post_op_attr d.obj_attributes
    ⨾ pack_field pack_wcc_data d.dir_wcc

unfoldable pub unpack_mknod3resok : Unpacking Mknod3ResOk
unpack_mknod3resok = do
  obj' ← unpack_field unpack_post_op_fh3
  obj_attributes' ← unpack_field unpack_post_op_attr
  dir_wcc' ← unpack_field unpack_wcc_data
  pure (record { obj = obj'; obj_attributes = obj_attributes'; dir_wcc = dir_wcc' })

-- struct MKNOD3resfail
pub record Mknod3ResFail : Type 0 where
  pub dir_wcc : Option WccData

unfoldable pub pack_mknod3resfail : Mknod3ResFail → Packing
pack_mknod3resfail d = pack_field pack_wcc_data d.dir_wcc

unfoldable pub unpack_mknod3resfail : Unpacking Mknod3ResFail
unpack_mknod3resfail = do
  dir_wcc' ← unpack_field unpack_wcc_data
  pure (record { dir_wcc = dir_wcc' })

-- union MKNOD3res
pub record Mknod3Res : Type 0 where
  pub status : Option ℤ
  pub resok : Option Mknod3ResOk
  pub resfail : Option Mknod3ResFail

unfoldable pub pack_mknod3res : Mknod3Res → Packing
pack_mknod3res d =
    pack_field pack_nfsstat3 d.status
    ⨾ (if field_is d.status nfs3_ok
        then pack_field pack_mknod3resok d.resok
        else pack_attribute pack_mknod3resfail d.resfail)

unfoldable pub unpack_mknod3res : Unpacking Mknod3Res
unpack_mknod3res = do
  status' ← unpack_field unpack_nfsstat3
  (if field_is status' nfs3_ok
      then (unpack_field unpack_mknod3resok >>= λ arm.
          pure (record { status = status'; resok = arm; resfail = none }))
      else (unpack_field unpack_mknod3resfail >>= λ arm.
          pure (record { status = status'; resok = none; resfail = arm })))
