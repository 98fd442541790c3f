-- ===== src/Rfc1813/Write.antt =====
-- rfc1813/types.py and rfc1813/pack.py: stable_how, WRITE3args, WRITE3resok, WRITE3resfail,
-- WRITE3res.
pub mod RoundTrip
use perennial.Prelude.{ℕ, Option, none, List, [], ◌∷◌, if◌then◌else◌}
use perennial.Xdr.{
  ℤ, Bytes, Packing, ◌⨾◌, Unpacking, pure, ◌>>=◌, pack_opaque, unpack_opaque, pack_field,
  pack_attribute, unpack_field, field_is, pack_enum, unpack_enum,
}
use perennial.Rfc1813.Const.{nfs3_ok, unstable, data_sync, file_sync}
use perennial.Rfc1813.Basic.{
  pack_writeverf3, unpack_writeverf3, pack_offset3, unpack_offset3, pack_count3, unpack_count3,
  pack_nfsstat3, unpack_nfsstat3,
}
use perennial.Rfc1813.Structs.{NfsFh3, pack_nfs_fh3, unpack_nfs_fh3}
use perennial.Rfc1813.Attributes.{WccData, pack_wcc_data, unpack_wcc_data}

-- The constants of the enumeration stable_how.
abbrev pub stable_how_values : List ℕ
stable_how_values = unstable ∷ data_sync ∷ file_sync ∷ []

unfoldable pub pack_stable_how : ℤ → Packing
pack_stable_how = pack_enum stable_how_values

unfoldable pub unpack_stable_how : Unpacking ℤ
unpack_stable_how = unpack_enum stable_how_values

-- struct WRITE3args
pub record Write3Args : Type 0 where
  pub file : Option NfsFh3
  pub offset : Option ℕ
  pub count : Option ℕ
  pub stable : Option ℤ
  pub contents : Option Bytes

unfoldable pub pack_write3args : Write3Args → Packing
pack_write3args d =
    pack_field pack_nfs_fh3 d.file
    ⨾ pack_field pack_offset3 d.offset
    ⨾ pack_field pack_count3 d.count
    ⨾ pack_field pack_stable_how d.stable
    ⨾ pack_field pack_opaque d.contents

unfoldable pub unpack_write3args : Unpacking Write3Args
unpack_write3args = do
  file' ← unpack_field unpack_nfs_fh3
  offset' ← unpack_field unpack_offset3
  count' ← unpack_field unpack_count3
  stable' ← unpack_field unpack_stable_how
  contents' ← unpack_field unpack_opaque
  pure (record {
    file = file';
    offset = offset';
    count = count';
    stable = stable';
    contents = contents';
  })

-- struct WRITE3resok
pub record Write3ResOk : Type 0 where
  pub file_wcc : Option WccData
  pub count : Option ℕ
  pub committed : Option ℤ
  pub verf : Option Bytes

unfoldable pub pack_write3resok : Write3ResOk → Packing
pack_write3resok d =
    pack_field pack_wcc_data d.file_wcc
    ⨾ pack_field pack_count3 d.count
    ⨾ pack_field pack_stable_how d.committed
    ⨾ pack_field pack_writeverf3 d.verf

unfoldable pub unpack_write3resok : Unpacking Write3ResOk
unpack_write3resok = do
  file_wcc' ← unpack_field unpack_wcc_data
  count' ← unpack_field unpack_count3
  committed' ← unpack_field unpack_stable_how
  verf' ← unpack_field unpack_writeverf3
  pure (record { file_wcc = file_wcc'; count = count'; committed = committed'; verf = verf' })

-- struct WRITE3resfail
pub record Write3ResFail : Type 0 where
  pub file_wcc : Option WccData

unfoldable pub pack_write3resfail : Write3ResFail → Packing
pack_write3resfail d = pack_field pack_wcc_data d.file_wcc

unfoldable pub unpack_write3resfail : Unpacking Write3ResFail
unpack_write3resfail = do
  file_wcc' ← unpack_field unpack_wcc_data
  pure (record { file_wcc = file_wcc' })

-- union WRITE3res
pub record Write3Res : Type 0 where
  pub status : Option ℤ
  pub resok : Option Write3ResOk
  pub resfail : Option Write3ResFail

unfoldable pub pack_write3res : Write3Res → Packing
pack_write3res d =
    pack_field pack_nfsstat3 d.status
    ⨾ (if field_is d.status nfs3_ok
        then pack_field pack_write3resok d.resok
        else pack_attribute pack_write3resfail d.resfail)

unfoldable pub unpack_write3res : Unpacking Write3Res
unpack_write3res = do
  status' ← unpack_field unpack_nfsstat3
  (if field_is status' nfs3_ok
      then (unpack_field unpack_write3resok >>= λ arm.
          pure (record { status = status'; resok = arm; resfail = none }))
      else (unpack_field unpack_write3resfail >>= λ arm.
          pure (record { status = status'; resok = none; resfail = arm })))
