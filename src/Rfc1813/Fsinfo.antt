-- ===== src/Rfc1813/Fsinfo.antt =====
-- rfc1813/types.py and rfc1813/pack.py: FSSTAT3args, FSSTAT3resok, FSSTAT3resfail, FSSTAT3res,
-- FSINFO3args, FSINFO3resok, FSINFO3resfail, FSINFO3res.
pub mod RoundTrip
use perennial.Prelude.{ℕ, Option, none, if◌then◌else◌}
use perennial.Xdr.{
  ℤ, Packing, ◌⨾◌, Unpacking, pure, ◌>>=◌, pack_field, pack_attribute, unpack_field, field_is,
}
use perennial.Rfc1813.Const.{nfs3_ok}
use perennial.Rfc1813.Basic.{
  pack_uint32, unpack_uint32, pack_size3, unpack_size3, pack_nfsstat3, unpack_nfsstat3,
}
use perennial.Rfc1813.Structs.{
  NfsFh3, pack_nfs_fh3, unpack_nfs_fh3, Nfstime3, pack_nfstime3, unpack_nfstime3,
}
use perennial.Rfc1813.Attributes.{PostOpAttr, pack_post_op_attr, unpack_post_op_attr}

-- struct FSSTAT3args
pub record Fsstat3Args : Type 0 where
  pub fsroot : Option NfsFh3

unfoldable pub pack_fsstat3args : Fsstat3Args → Packing
pack_fsstat3args d = pack_field pack_nfs_fh3 d.fsroot

unfoldable pub unpack_fsstat3args : Unpacking Fsstat3Args
unpack_fsstat3args = do fsroot' ← unpack_field unpack_nfs_fh3; pure (record { fsroot = fsroot' })

-- struct FSSTAT3resok
pub record Fsstat3ResOk : Type 0 where
  pub obj_attributes : Option PostOpAttr
  pub tbytes : Option ℕ
  pub fbytes : Option ℕ
  pub abytes : Option ℕ
  pub tfiles : Option ℕ
  pub ffiles : Option ℕ
  pub afiles : Option ℕ
  pub invarsec : Option ℕ

unfoldable pub pack_fsstat3resok : Fsstat3ResOk → Packing
pack_fsstat3resok d =
    pack_field pack_post_op_attr d.obj_attributes
    ⨾ pack_field pack_size3 d.tbytes
    ⨾ pack_field pack_size3 d.fbytes
    ⨾ pack_field pack_size3 d.abytes
    ⨾ pack_field pack_size3 d.tfiles
    ⨾ pack_field pack_size3 d.ffiles
    ⨾ pack_field pack_size3 d.afiles
    ⨾ pack_field pack_uint32 d.invarsec

unfoldable pub unpack_fsstat3resok : Unpacking Fsstat3ResOk
unpack_fsstat3resok = do
  obj_attributes' ← unpack_field unpack_post_op_attr
  tbytes' ← unpack_field unpack_size3
  fbytes' ← unpack_field unpack_size3
  abytes' ← unpack_field unpack_size3
  tfiles' ← unpack_field unpack_size3
  ffiles' ← unpack_field unpack_size3
  afiles' ← unpack_field unpack_size3
  invarsec' ← unpack_field unpack_uint32
  pure (record {
    obj_attributes = obj_attributes';
    tbytes = tbytes';
    fbytes = fbytes';
    abytes = abytes';
    tfiles = tfiles';
    ffiles = ffiles';
    afiles = afiles';
    invarsec = invarsec';
  })

-- struct FSSTAT3resfail
pub record Fsstat3ResFail : Type 0 where
  pub obj_attributes : Option PostOpAttr

unfoldable pub pack_fsstat3resfail : Fsstat3ResFail → Packing
pack_fsstat3resfail d = pack_field pack_post_op_attr d.obj_attributes

unfoldable pub unpack_fsstat3resfail : Unpacking Fsstat3ResFail
unpack_fsstat3resfail = do
  obj_attributes' ← unpack_field unpack_post_op_attr
  pure (record { obj_attributes = obj_attributes' })

-- union FSSTAT3res
pub record Fsstat3Res : Type 0 where
  pub status : Option ℤ
  pub resok : Option Fsstat3ResOk
  pub resfail : Option Fsstat3ResFail

unfoldable pub pack_fsstat3res : Fsstat3Res → Packing
pack_fsstat3res d =
    pack_field pack_nfsstat3 d.status
    ⨾ (if field_is d.status nfs3_ok
        then pack_field pack_fsstat3resok d.resok
        else pack_attribute pack_fsstat3resfail d.resfail)

unfoldable pub unpack_fsstat3res : Unpacking Fsstat3Res
unpack_fsstat3res = do
  status' ← unpack_field unpack_nfsstat3
  (if field_is status' nfs3_ok
      then (unpack_field unpack_fsstat3resok >>= λ arm.
          pure (record { status = status'; resok = arm; resfail = none }))
      else (unpack_field unpack_fsstat3resfail >>= λ arm.
          pure (record { status = status'; resok = none; resfail = arm })))

-- struct FSINFO3args
pub record Fsinfo3Args : Type 0 where
  pub fsroot : Option NfsFh3

unfoldable pub pack_fsinfo3args : Fsinfo3Args → Packing
pack_fsinfo3args d = pack_field pack_nfs_fh3 d.fsroot

unfoldable pub unpack_fsinfo3args : Unpacking Fsinfo3Args
unpack_fsinfo3args = do fsroot' ← unpack_field unpack_nfs_fh3; pure (record { fsroot = fsroot' })

-- struct FSINFO3resok
pub record Fsinfo3ResOk : Type 0 where
  pub obj_attributes : Option PostOpAttr
  pub rtmax : Option ℕ
  pub rtpref : Option ℕ
  pub rtmult : Option ℕ
  pub wtmax : Option ℕ
  pub wtpref : Option ℕ
  pub wtmult : Option ℕ
  pub dtpref : Option ℕ
  pub maxfilesize : Option ℕ
  pub time_delta : Option Nfstime3
  pub properties : Option ℕ

unfoldable pub pack_fsinfo3resok : Fsinfo3ResOk → Packing
pack_fsinfo3resok d =
    pack_field pack_post_op_attr d.obj_attributes
    ⨾ pack_field pack_uint32 d.rtmax
    ⨾ pack_field pack_uint32 d.rtpref
    ⨾ pack_field pack_uint32 d.rtmult
    ⨾ pack_field pack_uint32 d.wtmax
    ⨾ pack_field pack_uint32 d.wtpref
    ⨾ pack_field pack_uint32 d.wtmult
    ⨾ pack_field pack_uint32 d.dtpref
    ⨾ pack_field pack_size3 d.maxfilesize
    ⨾ pack_field pack_nfstime3 d.time_delta
    ⨾ pack_field pack_uint32 d.properties

unfoldable pub unpack_fsinfo3resok : Unpacking Fsinfo3ResOk
unpack_fsinfo3resok = do
  obj_attributes' ← unpack_field unpack_post_op_attr
  rtmax' ← unpack_field unpack_uint32
  rtpref' ← unpack_field unpack_uint32
  rtmult' ← unpack_field unpack_uint32
  wtmax' ← unpack_field unpack_uint32
  wtpref' ← unpack_field unpack_uint32
  wtmult' ← unpack_field unpack_uint32
  dtpref' ← unpack_field unpack_uint32
  maxfilesize' ← unpack_field unpack_size3
  time_delta' ← unpack_field unpack_nfstime3
  properties' ← unpack_field unpack_uint32
  pure (record {
    obj_attributes = obj_attributes';
    rtmax = rtmax';
    rtpref = rtpref';
    rtmult = rtmult';
    wtmax = wtmax';
    wtpref = wtpref';
    wtmult = wtmult';
    dtpref = dtpref';
    maxfilesize = maxfilesize';
    time_delta = time_delta';
    properties = properties';
  })

-- struct FSINFO3resfail
pub record Fsinfo3ResFail : Type 0 where
  pub obj_attributes : Option PostOpAttr

unfoldable pub pack_fsinfo3resfail : Fsinfo3ResFail → Packing
pack_fsinfo3resfail d = pack_field pack_post_op_attr d.obj_attributes

unfoldable pub unpack_fsinfo3resfail : Unpacking Fsinfo3ResFail
unpack_fsinfo3resfail = do
  obj_attributes' ← unpack_field unpack_post_op_attr
  pure (record { obj_attributes = obj_attributes' })

-- union FSINFO3res
pub record Fsinfo3Res : Type 0 where
  pub status : Option ℤ
  pub resok : Option Fsinfo3ResOk
  pub resfail : Option Fsinfo3ResFail

unfoldable pub pack_fsinfo3res : Fsinfo3Res → Packing
pack_fsinfo3res d =
    pack_field pack_nfsstat3 d.status
    ⨾ (if field_is d.status nfs3_ok
        then pack_field pack_fsinfo3resok d.resok
        else pack_attribute pack_fsinfo3resfail d.resfail)

unfoldable pub unpack_fsinfo3res : Unpacking Fsinfo3Res
unpack_fsinfo3res = do
  status' ← unpack_field unpack_nfsstat3
  (if field_is status' nfs3_ok
      then (unpack_field unpack_fsinfo3resok >>= λ arm.
          pure (record { status = status'; resok = arm; resfail = none }))
      else (unpack_field unpack_fsinfo3resfail >>= λ arm.
          pure (record { status = status'; resok = none; resfail = arm })))
