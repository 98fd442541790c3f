-- ===== src/Rfc1813/Pathconf.antt =====
-- rfc1813/types.py and rfc1813/pack.py: PATHCONF3args, PATHCONF3resok, PATHCONF3resfail,
-- PATHCONF3res, COMMIT3args, COMMIT3resok, COMMIT3resfail, COMMIT3res.
pub mod RoundTrip
use perennial.Prelude.{ℕ, Option, none, if◌then◌else◌}
use perennial.Xdr.{
  ℤ, Bytes, Packing, ◌⨾◌, Unpacking, pure, ◌>>=◌, pack_bool, unpack_bool, pack_field,
  pack_attribute, unpack_field, field_is,
}
use perennial.Rfc1813.Const.{nfs3_ok}
use perennial.Rfc1813.Basic.{
  pack_uint32, unpack_uint32, pack_writeverf3, unpack_writeverf3, pack_offset3, unpack_offset3,
  pack_count3, unpack_count3, pack_nfsstat3, unpack_nfsstat3,
}
use perennial.Rfc1813.Structs.{NfsFh3, pack_nfs_fh3, unpack_nfs_fh3}
use perennial.Rfc1813.Attributes.{
  PostOpAttr, pack_post_op_attr, unpack_post_op_attr, WccData, pack_wcc_data, unpack_wcc_data,
}

-- struct PATHCONF3args
pub record Pathconf3Args : Type 0 where
  pub object : Option NfsFh3

unfoldable pub pack_pathconf3args : Pathconf3Args → Packing
pack_pathconf3args d = pack_field pack_nfs_fh3 d.object

unfoldable pub unpack_pathconf3args : Unpacking Pathconf3Args
unpack_pathconf3args = do object' ← unpack_field unpack_nfs_fh3; pure (record { object = object' })

-- struct PATHCONF3resok
pub record Pathconf3ResOk : Type 0 where
  pub obj_attributes : Option PostOpAttr
  pub linkmax : Option ℕ
  pub name_max : Option ℕ
  pub no_trunc : Option ℤ
  pub chown_restricted : Option ℤ
  pub case_insensitive : Option ℤ
  pub case_preserving : Option ℤ

unfoldable pub pack_pathconf3resok : Pathconf3ResOk → Packing
pack_pathconf3resok d =
    pack_field pack_post_op_attr d.obj_attributes
    ⨾ pack_field pack_uint32 d.linkmax
    ⨾ pack_field pack_uint32 d.name_max
    ⨾ pack_field pack_bool d.no_trunc
    ⨾ pack_field pack_bool d.chown_restricted
    ⨾ pack_field pack_bool d.case_insensitive
    ⨾ pack_field pack_bool d.case_preserving

unfoldable pub unpack_pathconf3resok : Unpacking Pathconf3ResOk
unpack_pathconf3resok = do
  obj_attributes' ← unpack_field unpack_post_op_attr
  linkmax' ← unpack_field unpack_uint32
  name_max' ← unpack_field unpack_uint32
  no_trunc' ← unpack_field unpack_bool
  chown_restricted' ← unpack_field unpack_bool
  case_insensitive' ← unpack_field unpack_bool
  case_preserving' ← unpack_field unpack_bool
  pure (record {
    obj_attributes = obj_attributes';
    linkmax = linkmax';
    name_max = name_max';
    no_trunc = no_trunc';
    chown_restricted = chown_restricted';
    case_insensitive = case_insensitive';
    case_preserving = case_preserving';
  })

-- struct PATHCONF3resfail
pub record Pathconf3ResFail : Type 0 where
  pub obj_attributes : Option PostOpAttr

unfoldable pub pack_pathconf3resfail : Pathconf3ResFail → Packing
pack_pathconf3resfail d = pack_field pack_post_op_attr d.obj_attributes

unfoldable pub unpack_pathconf3resfail : Unpacking Pathconf3ResFail
unpack_pathconf3resfail = do
  obj_attributes' ← unpack_field unpack_post_op_attr
  pure (record { obj_attributes = obj_attributes' })

-- union PATHCONF3res
pub record Pathconf3Res : Type 0 where
  pub status : Option ℤ
  pub resok : Option Pathconf3ResOk
  pub resfail : Option Pathconf3ResFail

unfoldable pub pack_pathconf3res : Pathconf3Res → Packing
pack_pathconf3res d =
    pack_field pack_nfsstat3 d.status
    ⨾ (if field_is d.status nfs3_ok
        then pack_field pack_pathconf3resok d.resok
        else pack_attribute pack_pathconf3resfail d.resfail)

unfoldable pub unpack_pathconf3res : Unpacking Pathconf3Res
unpack_pathconf3res = do
  status' ← unpack_field unpack_nfsstat3
  (if field_is status' nfs3_ok
      then (unpack_field unpack_pathconf3resok >>= λ arm.
          pure (record { status = status'; resok = arm; resfail = none }))
      else (unpack_field unpack_pathconf3resfail >>= λ arm.
          pure (record { status = status'; resok = none; resfail = arm })))

-- struct COMMIT3args
pub record Commit3Args : Type 0 where
  pub file : Option NfsFh3
  pub offset : Option ℕ
  pub count : Option ℕ

unfoldable pub pack_commit3args : Commit3Args → Packing
pack_commit3args d =
    pack_field pack_nfs_fh3 d.file
    ⨾ pack_field pack_offset3 d.offset
    ⨾ pack_field pack_count3 d.count

unfoldable pub unpack_commit3args : Unpacking Commit3Args
unpack_commit3args = do
  file' ← unpack_field unpack_nfs_fh3
  offset' ← unpack_field unpack_offset3
  count' ← unpack_field unpack_count3
  pure (record { file = file'; offset = offset'; count = count' })

-- struct COMMIT3resok
pub record Commit3ResOk : Type 0 where
  pub file_wcc : Option WccData
  pub verf : Option Bytes

unfoldable pub pack_commit3resok : Commit3ResOk → Packing
pack_commit3resok d = pack_field pack_wcc_data d.file_wcc ⨾ pack_field pack_writeverf3 d.verf

unfoldable pub unpack_commit3resok : Unpacking Commit3ResOk
unpack_commit3resok = do
  file_wcc' ← unpack_field unpack_wcc_data
  verf' ← unpack_field unpack_writeverf3
  pure (record { file_wcc = file_wcc'; verf = verf' })

-- struct COMMIT3resfail
pub record Commit3ResFail : Type 0 where
  pub file_wcc : Option WccData

unfoldable pub pack_commit3resfail : Commit3ResFail → Packing
pack_commit3resfail d = pack_field pack_wcc_data d.file_wcc

unfoldable pub unpack_commit3resfail : Unpacking Commit3ResFail
unpack_commit3resfail = do
  file_wcc' ← unpack_field unpack_wcc_data
  pure (record { file_wcc = file_wcc' })

-- union COMMIT3res
pub record Commit3Res : Type 0 where
  pub status : Option ℤ
  pub resok : Option Commit3ResOk
  pub resfail : Option Commit3ResFail

unfoldable pub pack_commit3res : Commit3Res → Packing
pack_commit3res d =
    pack_field pack_nfsstat3 d.status
    ⨾ (if field_is d.status nfs3_ok
        then pack_field pack_commit3resok d.resok
        else pack_attribute pack_commit3resfail d.resfail)

unfoldable pub unpack_commit3res : Unpacking Commit3Res
unpack_commit3res = do
  status' ← unpack_field unpack_nfsstat3
  (if field_is status' nfs3_ok
      then (unpack_field unpack_commit3resok >>= λ arm.
          pure (record { status = status'; resok = arm; resfail = none }))
      else (unpack_field unpack_commit3resfail >>= λ arm.
          pure (record { status = status'; resok = none; resfail = arm })))
