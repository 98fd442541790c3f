-- ===== src/Rfc1813/Create.antt =====
-- rfc1813/types.py and rfc1813/pack.py: createmode3, createhow3, CREATE3args, CREATE3resok,
-- CREATE3resfail, CREATE3res, MKDIR3args, MKDIR3resok, MKDIR3resfail, MKDIR3res.
pub mod RoundTrip
use perennial.Prelude.{ℕ, ◌||◌, Option, none, List, [], ◌∷◌, if◌then◌else◌}
use perennial.Xdr.{
  ℤ, Bytes, Packing, ◌⨾◌, raise, Unpacking, pure, ◌>>=◌, pack_field, pack_attribute, unpack_field,
  field_is, pack_enum, unpack_enum,
}
use perennial.Rfc1813.Const.{nfs3_ok, unchecked, guarded, exclusive}
use perennial.Rfc1813.Basic.{pack_createverf3, unpack_createverf3, pack_nfsstat3, unpack_nfsstat3}
use perennial.Rfc1813.Structs.{Diropargs3, pack_diropargs3, unpack_diropargs3}
use perennial.Rfc1813.Attributes.{
  PostOpAttr, pack_post_op_attr, unpack_post_op_attr, WccData, pack_wcc_data, unpack_wcc_data,
  PostOpFh3, pack_post_op_fh3, unpack_post_op_fh3,
}
use perennial.Rfc1813.Sattr.{Sattr3, pack_sattr3, unpack_sattr3}

-- The constants of the enumeration createmode3.
abbrev pub createmode3_values : List ℕ
createmode3_values = unchecked ∷ guarded ∷ exclusive ∷ []

unfoldable pub pack_createmode3 : ℤ → Packing
pack_createmode3 = pack_enum createmode3_values

unfoldable pub unpack_createmode3 : Unpacking ℤ
unpack_createmode3 = unpack_enum createmode3_values

-- union createhow3
pub record Createhow3 : Type 0 where
  pub mode : Option ℤ
  pub obj_attributes : Option Sattr3
  pub verf : Option Bytes

unfoldable pub pack_createhow3 : Createhow3 → Packing
pack_createhow3 d =
    pack_field pack_createmode3 d.mode
    ⨾ (if field_is d.mode unchecked || field_is d.mode guarded
        then pack_field pack_sattr3 d.obj_attributes
        else if field_is d.mode exclusive
        then pack_field pack_createverf3 d.verf
        else raise)

unfoldable pub unpack_createhow3 : Unpacking Createhow3
unpack_createhow3 = do
  mode' ← unpack_field unpack_createmode3
  (if field_is mode' unchecked || field_is mode' guarded
      then (unpack_field unpack_sattr3 >>= λ arm.
          pure (record { mode = mode'; obj_attributes = arm; verf = none }))
      else if field_is mode' exclusive
      then (unpack_field unpack_createverf3 >>= λ arm.
          pure (record { mode = mode'; obj_attributes = none; verf = arm }))
      else raise)

-- struct CREATE3args
pub record Create3Args : Type 0 where
  pub place : Option Diropargs3
  pub how : Option Createhow3

unfoldable pub pack_create3args : Create3Args → Packing
pack_create3args d = pack_field pack_diropargs3 d.place ⨾ pack_field pack_createhow3 d.how

unfoldable pub unpack_create3args : Unpacking Create3Args
unpack_create3args = do
  place' ← unpack_field unpack_diropargs3
  how' ← unpack_field unpack_createhow3
  pure (record { place = place'; how = how' })

-- struct CREATE3resok
pub record Create3ResOk : Type 0 where
  pub obj : Option PostOpFh3
  pub obj_attributes : Option PostOpAttr
  pub dir_wcc : Option WccData

unfoldable pub pack_create3resok : Create3ResOk → Packing
pack_create3resok d =
    pack_field pack_post_op_fh3 d.obj
    ⨾ pack_field pack_post_op_attr d.obj_attributes
    ⨾ pack_field pack_wcc_data d.dir_wcc

unfoldable pub unpack_create3resok : Unpacking Create3ResOk
unpack_create3resok = do
  obj' ← unpack_field unpack_post_op_fh3
  obj_attributes' ← unpack_field unpack_post_op_attr
  dir_wcc' ← unpack_field unpack_wcc_data
  pure (record { obj = obj'; obj_attributes = obj_attributes'; dir_wcc = dir_wcc' })

-- struct CREATE3resfail
pub record Create3ResFail : Type 0 where
  pub dir_wcc : Option WccData

unfoldable pub pack_create3resfail : Create3ResFail → Packing
pack_create3resfail d = pack_field pack_wcc_data d.dir_wcc

unfoldable pub unpack_create3resfail : Unpacking Create3ResFail
unpack_create3resfail = do
  dir_wcc' ← unpack_field unpack_wcc_data
  pure (record { dir_wcc = dir_wcc' })

-- union CREATE3res
pub record Create3Res : Type 0 where
  pub status : Option ℤ
  pub resok : Option Create3ResOk
  pub resfail : Option Create3ResFail

unfoldable pub pack_create3res : Create3Res → Packing
pack_create3res d =
    pack_field pack_nfsstat3 d.status
    ⨾ (if field_is d.status nfs3_ok
        then pack_field pack_create3resok d.resok
        else pack_attribute pack_create3resfail d.resfail)

unfoldable pub unpack_create3res : Unpacking Create3Res
unpack_create3res = do
  status' ← unpack_field unpack_nfsstat3
  (if field_is status' nfs3_ok
      then (unpack_field unpack_create3resok >>= λ arm.
          pure (record { status = status'; resok = arm; resfail = none }))
      else (unpack_field unpack_create3resfail >>= λ arm.
          pure (record { status = status'; resok = none; resfail = arm })))

-- struct MKDIR3args
pub record Mkdir3Args : Type 0 where
  pub place : Option Diropargs3
  pub attributes : Option Sattr3

unfoldable pub pack_mkdir3args : Mkdir3Args → Packing
pack_mkdir3args d = pack_field pack_diropargs3 d.place ⨾ pack_field pack_sattr3 d.attributes

unfoldable pub unpack_mkdir3args : Unpacking Mkdir3Args
unpack_mkdir3args = do
  place' ← unpack_field unpack_diropargs3
  attributes' ← unpack_field unpack_sattr3
  pure (record { place = place'; attributes = attributes' })

-- struct MKDIR3resok
pub record Mkdir3ResOk : Type 0 where
  pub obj : Option PostOpFh3
  pub obj_attributes : Option PostOpAttr
  pub dir_wcc : Option WccData

unfoldable pub pack_mkdir3resok : Mkdir3ResOk → Packing
pack_mkdir3resok d =
    pack_field pack_post_op_fh3 d.obj
    ⨾ pack_field pack_post_op_attr d.obj_attributes
    ⨾ pack_field pack_wcc_data d.dir_wcc

unfoldable pub unpack_mkdir3resok : Unpacking Mkdir3ResOk
unpack_mkdir3resok = do
  obj' ← unpack_field unpack_post_op_fh3
  obj_attributes' ← unpack_field unpack_post_op_attr
  dir_wcc' ← unpack_field unpack_wcc_data
  pure (record { obj = obj'; obj_attributes = obj_attributes'; dir_wcc = dir_wcc' })

-- struct MKDIR3resfail
pub record Mkdir3ResFail : Type 0 where
  pub dir_wcc : Option WccData

unfoldable pub pack_mkdir3resfail : Mkdir3ResFail → Packing
pack_mkdir3resfail d = pack_field pack_wcc_data d.dir_wcc

unfoldable pub unpack_mkdir3resfail : Unpacking Mkdir3ResFail
unpack_mkdir3resfail = do
  dir_wcc' ← unpack_field unpack_wcc_data
  pure (record { dir_wcc = dir_wcc' })

-- union MKDIR3res
pub record Mkdir3Res : Type 0 where
  pub status : Option ℤ
  pub resok : Option Mkdir3ResOk
  pub resfail : Option Mkdir3ResFail

unfoldable pub pack_mkdir3res : Mkdir3Res → Packing
pack_mkdir3res d =
    pack_field pack_nfsstat3 d.status
    ⨾ (if field_is d.status nfs3_ok
        then pack_field pack_mkdir3resok d.resok
        else pack_attribute pack_mkdir3resfail d.resfail)

unfoldable pub unpack_mkdir3res : Unpacking Mkdir3Res
unpack_mkdir3res = do
  status' ← unpack_field unpack_nfsstat3
  (if field_is status' nfs3_ok
      then (unpack_field unpack_mkdir3resok >>= λ arm.
          pure (record { status = status'; resok = arm; resfail = none }))
      else (unpack_field unpack_mkdir3resfail >>= λ arm.
          pure (record { status = status'; resok = none; resfail = arm })))
