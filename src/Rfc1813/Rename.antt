-- ===== src/Rfc1813/Rename.antt =====
-- rfc1813/types.py and rfc1813/pack.py: RENAME3args, RENAME3resok, RENAME3resfail, RENAME3res,
-- LINK3args, LINK3resok, LINK3resfail, LINK3res.
pub mod RoundTrip
use perennial.Prelude.{Option, none, if◌then◌else◌}
use perennial.Xdr.{
  ℤ, Packing, ◌⨾◌, Unpacking, pure, ◌>>=◌, pack_field, pack_attribute, unpack_field, field_is,
}
use perennial.Rfc1813.Const.{nfs3_ok}
use perennial.Rfc1813.Basic.{pack_nfsstat3, unpack_nfsstat3}
use perennial.Rfc1813.Structs.{
  NfsFh3, pack_nfs_fh3, unpack_nfs_fh3, Diropargs3, pack_diropargs3, unpack_diropargs3,
}
use perennial.Rfc1813.Attributes.{
  PostOpAttr, pack_post_op_attr, unpack_post_op_attr, WccData, pack_wcc_data, unpack_wcc_data,
}

-- struct RENAME3args
pub record Rename3Args : Type 0 where
  pub xfrom : Option Diropargs3
  pub xto : Option Diropargs3

unfoldable pub pack_rename3args : Rename3Args → Packing
pack_rename3args d = pack_field pack_diropargs3 d.xfrom ⨾ pack_field pack_diropargs3 d.xto

unfoldable pub unpack_rename3args : Unpacking Rename3Args
unpack_rename3args = do
  xfrom' ← unpack_field unpack_diropargs3
  xto' ← unpack_field unpack_diropargs3
  pure (record { xfrom = xfrom'; xto = xto' })

-- struct RENAME3resok
pub record Rename3ResOk : Type 0 where
  pub fromdir_wcc : Option WccData
  pub todir_wcc : Option WccData

unfoldable pub pack_rename3resok : Rename3ResOk → Packing
pack_rename3resok d = pack_field pack_wcc_data d.fromdir_wcc ⨾ pack_field pack_wcc_data d.todir_wcc

unfoldable pub unpack_rename3resok : Unpacking Rename3ResOk
unpack_rename3resok = do
  fromdir_wcc' ← unpack_field unpack_wcc_data
  todir_wcc' ← unpack_field unpack_wcc_data
  pure (record { fromdir_wcc = fromdir_wcc'; todir_wcc = todir_wcc' })

-- struct RENAME3resfail
pub record Rename3ResFail : Type 0 where
  pub fromdir_wcc : Option WccData
  pub todir_wcc : Option WccData

unfoldable pub pack_rename3resfail : Rename3ResFail → Packing
pack_rename3resfail d =
    pack_field pack_wcc_data d.fromdir_wcc ⨾ pack_field pack_wcc_data d.todir_wcc

unfoldable pub unpack_rename3resfail : Unpacking Rename3ResFail
unpack_rename3resfail = do
  fromdir_wcc' ← unpack_field unpack_wcc_data
  todir_wcc' ← unpack_field unpack_wcc_data
  pure (record { fromdir_wcc = fromdir_wcc'; todir_wcc = todir_wcc' })

-- union RENAME3res
pub record Rename3Res : Type 0 where
  pub status : Option ℤ
  pub resok : Option Rename3ResOk
  pub resfail : Option Rename3ResFail

unfoldable pub pack_rename3res : Rename3Res → Packing
pack_rename3res d =
    pack_field pack_nfsstat3 d.status
    ⨾ (if field_is d.status nfs3_ok
        then pack_field pack_rename3resok d.resok
        else pack_attribute pack_rename3resfail d.resfail)

unfoldable pub unpack_rename3res : Unpacking Rename3Res
unpack_rename3res = do
  status' ← unpack_field unpack_nfsstat3
  (if field_is status' nfs3_ok
      then (unpack_field unpack_rename3resok >>= λ arm.
          pure (record { status = status'; resok = arm; resfail = none }))
      else (unpack_field unpack_rename3resfail >>= λ arm.
          pure (record { status = status'; resok = none; resfail = arm })))

-- struct LINK3args
pub record Link3Args : Type 0 where
  pub file : Option NfsFh3
  pub link : Option Diropargs3

unfoldable pub pack_link3args : Link3Args → Packing
pack_link3args d = pack_field pack_nfs_fh3 d.file ⨾ pack_field pack_diropargs3 d.link

unfoldable pub unpack_link3args : Unpacking Link3Args
unpack_link3args = do
  file' ← unpack_field unpack_nfs_fh3
  link' ← unpack_field unpack_diropargs3
  pure (record { file = file'; link = link' })

-- struct LINK3resok
pub record Link3ResOk : Type 0 where
  pub file_attributes : Option PostOpAttr
  pub linkdir_wcc : Option WccData

unfoldable pub pack_link3resok : Link3ResOk → Packing
pack_link3resok d =
    pack_field pack_post_op_attr d.file_attributes ⨾ pack_field pack_wcc_data d.linkdir_wcc

unfoldable pub unpack_link3resok : Unpacking Link3ResOk
unpack_link3resok = do
  file_attributes' ← unpack_field unpack_post_op_attr
  linkdir_wcc' ← unpack_field unpack_wcc_data
  pure (record { file_attributes = file_attributes'; linkdir_wcc = linkdir_wcc' })

-- struct LINK3resfail
pub record Link3ResFail : Type 0 where
  pub file_attributes : Option PostOpAttr
  pub linkdir_wcc : Option WccData

unfoldable pub pack_link3resfail : Link3ResFail → Packing
pack_link3resfail d =
    pack_field pack_post_op_attr d.file_attributes ⨾ pack_field pack_wcc_data d.linkdir_wcc

unfoldable pub unpack_link3resfail : Unpacking Link3ResFail
unpack_link3resfail = do
  file_attributes' ← unpack_field unpack_post_op_attr
  linkdir_wcc' ← unpack_field unpack_wcc_data
  pure (record { file_attributes = file_attributes'; linkdir_wcc = linkdir_wcc' })

-- union LINK3res
pub record Link3Res : Type 0 where
  pub status : Option ℤ
  pub resok : Option Link3ResOk
  pub resfail : Option Link3ResFail

unfoldable pub pack_link3res : Link3Res → Packing
pack_link3res d =
    pack_field pack_nfsstat3 d.status
    ⨾ (if field_is d.status nfs3_ok
        then pack_field pack_link3resok d.resok
        else pack_attribute pack_link3resfail d.resfail)

unfoldable pub unpack_link3res : Unpacking Link3Res
unpack_link3res = do
  status' ← unpack_field unpack_nfsstat3
  (if field_is status' nfs3_ok
      then (unpack_field unpack_link3resok >>= λ arm.
          pure (record { status = status'; resok = arm; resfail = none }))
      else (unpack_field unpack_link3resfail >>= λ arm.
          pure (record { status = status'; resok = none; resfail = arm })))
