-- ===== src/Rfc1813/Read.antt =====
-- rfc1813/types.py and rfc1813/pack.py: READLINK3args, READLINK3resok, READLINK3resfail,
-- READLINK3res, READ3args, READ3resok, READ3resfail, READ3res.
pub mod RoundTrip
use perennial.Prelude.{ℕ, Option, none, if◌then◌else◌}
use perennial.Xdr.{
  ℤ, Bytes, Packing, ◌⨾◌, Unpacking, pure, ◌>>=◌, pack_bool, unpack_bool, pack_opaque,
  unpack_opaque, pack_field, pack_attribute, unpack_field, field_is,
}
use perennial.Rfc1813.Const.{nfs3_ok}
use perennial.Rfc1813.Basic.{
  pack_nfspath3, unpack_nfspath3, pack_offset3, unpack_offset3, pack_count3, unpack_count3,
  pack_nfsstat3, unpack_nfsstat3,
}
use perennial.Rfc1813.Structs.{NfsFh3, pack_nfs_fh3, unpack_nfs_fh3}
use perennial.Rfc1813.Attributes.{PostOpAttr, pack_post_op_attr, unpack_post_op_attr}

-- struct READLINK3args
pub record Readlink3Args : Type 0 where
  pub symlink : Option NfsFh3

unfoldable pub pack_readlink3args : Readlink3Args → Packing
pack_readlink3args d = pack_field pack_nfs_fh3 d.symlink

unfoldable pub unpack_readlink3args : Unpacking Readlink3Args
unpack_readlink3args = do
  symlink' ← unpack_field unpack_nfs_fh3
  pure (record { symlink = symlink' })

-- struct READLINK3resok
pub record Readlink3ResOk : Type 0 where
  pub symlink_attributes : Option PostOpAttr
  pub contents : Option Bytes

unfoldable pub pack_readlink3resok : Readlink3ResOk → Packing
pack_readlink3resok d =
    pack_field pack_post_op_attr d.symlink_attributes ⨾ pack_field pack_nfspath3 d.contents

unfoldable pub unpack_readlink3resok : Unpacking Readlink3ResOk
unpack_readlink3resok = do
  symlink_attributes' ← unpack_field unpack_post_op_attr
  contents' ← unpack_field unpack_nfspath3
  pure (record { symlink_attributes = symlink_attributes'; contents = contents' })

-- struct READLINK3resfail
pub record Readlink3ResFail : Type 0 where
  pub symlink_attributes : Option PostOpAttr

unfoldable pub pack_readlink3resfail : Readlink3ResFail → Packing
pack_readlink3resfail d = pack_field pack_post_op_attr d.symlink_attributes

unfoldable pub unpack_readlink3resfail : Unpacking Readlink3ResFail
unpack_readlink3resfail = do
  symlink_attributes' ← unpack_field unpack_post_op_attr
  pure (record { symlink_attributes = symlink_attributes' })

-- union READLINK3res
pub record Readlink3Res : Type 0 where
  pub status : Option ℤ
  pub resok : Option Readlink3ResOk
  pub resfail : Option Readlink3ResFail

unfoldable pub pack_readlink3res : Readlink3Res → Packing
pack_readlink3res d =
    pack_field pack_nfsstat3 d.status
    ⨾ (if field_is d.status nfs3_ok
        then pack_field pack_readlink3resok d.resok
        else pack_attribute pack_readlink3resfail d.resfail)

unfoldable pub unpack_readlink3res : Unpacking Readlink3Res
unpack_readlink3res = do
  status' ← unpack_field unpack_nfsstat3
  (if field_is status' nfs3_ok
      then (unpack_field unpack_readlink3resok >>= λ arm.
          pure (record { status = status'; resok = arm; resfail = none }))
      else (unpack_field unpack_readlink3resfail >>= λ arm.
          pure (record { status = status'; resok = none; resfail = arm })))

-- struct READ3args
pub record Read3Args : Type 0 where
  pub file : Option NfsFh3
  pub offset : Option ℕ
  pub count : Option ℕ

unfoldable pub pack_read3args : Read3Args → Packing
pack_read3args d =
    pack_field pack_nfs_fh3 d.file
    ⨾ pack_field pack_offset3 d.offset
    ⨾ pack_field pack_count3 d.count

unfoldable pub unpack_read3args : Unpacking Read3Args
unpack_read3args = do
  file' ← unpack_field unpack_nfs_fh3
  offset' ← unpack_field unpack_offset3
  count' ← unpack_field unpack_count3
  pure (record { file = file'; offset = offset'; count = count' })

-- struct READ3resok
pub record Read3ResOk : Type 0 where
  pub file_attributes : Option PostOpAttr
  pub count : Option ℕ
  pub eof : Option ℤ
  pub contents : Option Bytes

unfoldable pub pack_read3resok : Read3ResOk → Packing
pack_read3resok d =
    pack_field pack_post_op_attr d.file_attributes
    ⨾ pack_field pack_count3 d.count
    ⨾ pack_field pack_bool d.eof
    ⨾ pack_field pack_opaque d.contents

unfoldable pub unpack_read3resok : Unpacking Read3ResOk
unpack_read3resok = do
  file_attributes' ← unpack_field unpack_post_op_attr
  count' ← unpack_field unpack_count3
  eof' ← unpack_field unpack_bool
  contents' ← unpack_field unpack_opaque
  pure (record {
    file_attributes = file_attributes';
    count = count';
    eof = eof';
    contents = contents';
  })

-- struct READ3resfail
pub record Read3ResFail : Type 0 where
  pub file_attributes : Option PostOpAttr

unfoldable pub pack_read3resfail : Read3ResFail → Packing
pack_read3resfail d = pack_field pack_post_op_attr d.file_attributes

unfoldable pub unpack_read3resfail : Unpacking Read3ResFail
unpack_read3resfail = do
  file_attributes' ← unpack_field unpack_post_op_attr
  pure (record { file_attributes = file_attributes' })

-- union READ3res
pub record Read3Res : Type 0 where
  pub status : Option ℤ
  pub resok : Option Read3ResOk
  pub resfail : Option Read3ResFail

unfoldable pub pack_read3res : Read3Res → Packing
pack_read3res d =
    pack_field pack_nfsstat3 d.status
    ⨾ (if field_is d.status nfs3_ok
        then pack_field pack_read3resok d.resok
        else pack_attribute pack_read3resfail d.resfail)

unfoldable pub unpack_read3res : Unpacking Read3Res
unpack_read3res = do
  status' ← unpack_field unpack_nfsstat3
  (if field_is status' nfs3_ok
      then (unpack_field unpack_read3resok >>= λ arm.
          pure (record { status = status'; resok = arm; resfail = none }))
      else (unpack_field unpack_read3resfail >>= λ arm.
          pure (record { status = status'; resok = none; resfail = arm })))
