-- ===== src/Rfc1813/Setattr.antt =====
-- rfc1813/types.py and rfc1813/pack.py: sattrguard3, SETATTR3args, SETATTR3resok,
-- SETATTR3resfail, SETATTR3res.
pub mod RoundTrip
use perennial.Prelude.{Option, none, if◌then◌else◌}
use perennial.Xdr.{
  ℤ, Packing, skip, ◌⨾◌, raise, Unpacking, pure, ◌>>=◌, pack_bool, unpack_bool, pack_field,
  pack_attribute, unpack_field, field_is,
}
use perennial.Rfc1813.Const.{int_false, int_true, nfs3_ok}
use perennial.Rfc1813.Basic.{pack_nfsstat3, unpack_nfsstat3}
use perennial.Rfc1813.Structs.{
  NfsFh3, pack_nfs_fh3, unpack_nfs_fh3, Nfstime3, pack_nfstime3, unpack_nfstime3,
}
use perennial.Rfc1813.Attributes.{WccData, pack_wcc_data, unpack_wcc_data}
use perennial.Rfc1813.Sattr.{Sattr3, pack_sattr3, unpack_sattr3}

-- union sattrguard3
pub record Sattrguard3 : Type 0 where
  pub check : Option ℤ
  pub obj_ctime : Option Nfstime3

unfoldable pub pack_sattrguard3 : Sattrguard3 → Packing
pack_sattrguard3 d =
    pack_field pack_bool d.check
    ⨾ (if field_is d.check int_true
        then pack_field pack_nfstime3 d.obj_ctime
        else if field_is d.check int_false
        then skip
        else raise)

unfoldable pub unpack_sattrguard3 : Unpacking Sattrguard3
unpack_sattrguard3 = do
  check' ← unpack_field unpack_bool
  (if field_is check' int_true
      then (unpack_field unpack_nfstime3 >>= λ arm.
          pure (record { check = check'; obj_ctime = arm }))
      else if field_is check' int_false
      then pure (record { check = check'; obj_ctime = none })
      else raise)

-- struct SETATTR3args
pub record Setattr3Args : Type 0 where
  pub object : Option NfsFh3
  pub new_attributes : Option Sattr3
  pub guard : Option Sattrguard3

unfoldable pub pack_setattr3args : Setattr3Args → Packing
pack_setattr3args d =
    pack_field pack_nfs_fh3 d.object
    ⨾ pack_field pack_sattr3 d.new_attributes
    ⨾ pack_field pack_sattrguard3 d.guard

unfoldable pub unpack_setattr3args : Unpacking Setattr3Args
unpack_setattr3args = do
  object' ← unpack_field unpack_nfs_fh3
  new_attributes' ← unpack_field unpack_sattr3
  guard' ← unpack_field unpack_sattrguard3
  pure (record { object = object'; new_attributes = new_attributes'; guard = guard' })

-- struct SETATTR3resok
pub record Setattr3ResOk : Type 0 where
  pub obj_wcc : Option WccData

unfoldable pub pack_setattr3resok : Setattr3ResOk → Packing
pack_setattr3resok d = pack_field pack_wcc_data d.obj_wcc

unfoldable pub unpack_setattr3resok : Unpacking Setattr3ResOk
unpack_setattr3resok = do
  obj_wcc' ← unpack_field unpack_wcc_data
  pure (record { obj_wcc = obj_wcc' })

-- struct SETATTR3resfail
pub record Setattr3ResFail : Type 0 where
  pub obj_wcc : Option WccData

unfoldable pub pack_setattr3resfail : Setattr3ResFail → Packing
pack_setattr3resfail d = pack_field pack_wcc_data d.obj_wcc

unfoldable pub unpack_setattr3resfail : Unpacking Setattr3ResFail
unpack_setattr3resfail = do
  obj_wcc' ← unpack_field unpack_wcc_data
  pure (record { obj_wcc = obj_wcc' })

-- union SETATTR3res
pub record Setattr3Res : Type 0 where
  pub status : Option ℤ
  pub resok : Option Setattr3ResOk
  pub resfail : Option Setattr3ResFail

unfoldable pub pack_setattr3res : Setattr3Res → Packing
pack_setattr3res d =
    pack_field pack_nfsstat3 d.status
    ⨾ (if field_is d.status nfs3_ok
        then pack_field pack_setattr3resok d.resok
        else pack_attribute pack_setattr3resfail d.resfail)

unfoldable pub unpack_setattr3res : Unpacking Setattr3Res
unpack_setattr3res = do
  status' ← unpack_field unpack_nfsstat3
  (if field_is status' nfs3_ok
      then (unpack_field unpack_setattr3resok >>= λ arm.
          pure (record { status = status'; resok = arm; resfail = none }))
      else (unpack_field unpack_setattr3resfail >>= λ arm.
          pure (record { status = status'; resok = none; resfail = arm })))
