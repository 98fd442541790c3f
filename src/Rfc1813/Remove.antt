-- ===== src/Rfc1813/Remove.antt =====
-- rfc1813/types.py and rfc1813/pack.py: REMOVE3args, REMOVE3resok, REMOVE3resfail, REMOVE3res,
-- RMDIR3args, RMDIR3resok, RMDIR3resfail, RMDIR3res.
pub mod RoundTrip
use perennial.Prelude.{Option, none, if◌then◌else◌}
use perennial.Xdr.{
  ℤ, Packing, ◌⨾◌, Unpacking, pure, ◌>>=◌, pack_field, pack_attribute, unpack_field, field_is,
}
use perennial.Rfc1813.Const.{nfs3_ok}
use perennial.Rfc1813.Basic.{pack_nfsstat3, unpack_nfsstat3}
use perennial.Rfc1813.Structs.{Diropargs3, pack_diropargs3, unpack_diropargs3}
use perennial.Rfc1813.Attributes.{WccData, pack_wcc_data, unpack_wcc_data}

-- struct REMOVE3args
pub record Remove3Args : Type 0 where
  pub object : Option Diropargs3

unfoldable pub pack_remove3args : Remove3Args → Packing
pack_remove3args d = pack_field pack_diropargs3 d.object

unfoldable pub unpack_remove3args : Unpacking Remove3Args
unpack_remove3args = do object' ← unpack_field unpack_diropargs3; pure (record { object = object' })

-- struct REMOVE3resok
pub record Remove3ResOk : Type 0 where
  pub dir_wcc : Option WccData

unfoldable pub pack_remove3resok : Remove3ResOk → Packing
pack_remove3resok d = pack_field pack_wcc_data d.dir_wcc

unfoldable pub unpack_remove3resok : Unpacking Remove3ResOk
unpack_remove3resok = do
  dir_wcc' ← unpack_field unpack_wcc_data
  pure (record { dir_wcc = dir_wcc' })

-- struct REMOVE3resfail
pub record Remove3ResFail : Type 0 where
  pub dir_wcc : Option WccData

unfoldable pub pack_remove3resfail : Remove3ResFail → Packing
pack_remove3resfail d = pack_field pack_wcc_data d.dir_wcc

unfoldable pub unpack_remove3resfail : Unpacking Remove3ResFail
unpack_remove3resfail = do
  dir_wcc' ← unpack_field unpack_wcc_data
  pure (record { dir_wcc = dir_wcc' })

-- union REMOVE3res
pub record Remove3Res : Type 0 where
  pub status : Option ℤ
  pub resok : Option Remove3ResOk
  pub resfail : Option Remove3ResFail

unfoldable pub pack_remove3res : Remove3Res → Packing
pack_remove3res d =
    pack_field pack_nfsstat3 d.status
    ⨾ (if field_is d.status nfs3_ok
        then pack_field pack_remove3resok d.resok
        else pack_attribute pack_remove3resfail d.resfail)

unfoldable pub unpack_remove3res : Unpacking Remove3Res
unpack_remove3res = do
  status' ← unpack_field unpack_nfsstat3
  (if field_is status' nfs3_ok
      then (unpack_field unpack_remove3resok >>= λ arm.
          pure (record { status = status'; resok = arm; resfail = none }))
      else (unpack_field unpack_remove3resfail >>= λ arm.
          pure (record { status = status'; resok = none; resfail = arm })))

-- struct RMDIR3args
pub record Rmdir3Args : Type 0 where
  pub object : Option Diropargs3

unfoldable pub pack_rmdir3args : Rmdir3Args → Packing
pack_rmdir3args d = pack_field pack_diropargs3 d.object

unfoldable pub unpack_rmdir3args : Unpacking Rmdir3Args
unpack_rmdir3args = do object' ← unpack_field unpack_diropargs3; pure (record { object = object' })

-- struct RMDIR3resok
pub record Rmdir3ResOk : Type 0 where
  pub dir_wcc : Option WccData

unfoldable pub pack_rmdir3resok : Rmdir3ResOk → Packing
pack_rmdir3resok d = pack_field pack_wcc_data d.dir_wcc

unfoldable pub unpack_rmdir3resok : Unpacking Rmdir3ResOk
unpack_rmdir3resok = do
  dir_wcc' ← unpack_field unpack_wcc_data
  pure (record { dir_wcc = dir_wcc' })

-- struct RMDIR3resfail
pub record Rmdir3ResFail : Type 0 where
  pub dir_wcc : Option WccData

unfoldable pub pack_rmdir3resfail : Rmdir3ResFail → Packing
pack_rmdir3resfail d = pack_field pack_wcc_data d.dir_wcc

unfoldable pub unpack_rmdir3resfail : Unpacking Rmdir3ResFail
unpack_rmdir3resfail = do
  dir_wcc' ← unpack_field unpack_wcc_data
  pure (record { dir_wcc = dir_wcc' })

-- union RMDIR3res
pub record Rmdir3Res : Type 0 where
  pub status : Option ℤ
  pub resok : Option Rmdir3ResOk
  pub resfail : Option Rmdir3ResFail

unfoldable pub pack_rmdir3res : Rmdir3Res → Packing
pack_rmdir3res d =
    pack_field pack_nfsstat3 d.status
    ⨾ (if field_is d.status nfs3_ok
        then pack_field pack_rmdir3resok d.resok
        else pack_attribute pack_rmdir3resfail d.resfail)

unfoldable pub unpack_rmdir3res : Unpacking Rmdir3Res
unpack_rmdir3res = do
  status' ← unpack_field unpack_nfsstat3
  (if field_is status' nfs3_ok
      then (unpack_field unpack_rmdir3resok >>= λ arm.
          pure (record { status = status'; resok = arm; resfail = none }))
      else (unpack_field unpack_rmdir3resfail >>= λ arm.
          pure (record { status = status'; resok = none; resfail = arm })))
