-- ===== src/Rfc1813/Sattr.antt =====
-- rfc1813/types.py and rfc1813/pack.py: time_how, set_mode3, set_uid3, set_gid3, set_size3,
-- set_atime, set_mtime, sattr3.
pub mod RoundTrip
use perennial.Prelude.{ℕ, Option, none, List, [], ◌∷◌, if◌then◌else◌}
use perennial.Xdr.{
  ℤ, Packing, skip, ◌⨾◌, Unpacking, pure, ◌>>=◌, pack_bool, unpack_bool, pack_field, unpack_field,
  field_is, pack_enum, unpack_enum,
}
use perennial.Rfc1813.Const.{int_true, dont_change, set_to_server_time, set_to_client_time}
use perennial.Rfc1813.Basic.{
  pack_uid3, unpack_uid3, pack_gid3, unpack_gid3, pack_size3, unpack_size3, pack_mode3,
  unpack_mode3,
}
use perennial.Rfc1813.Structs.{Nfstime3, pack_nfstime3, unpack_nfstime3}

-- The constants of the enumeration time_how.
abbrev pub time_how_values : List ℕ
time_how_values = dont_change ∷ set_to_server_time ∷ set_to_client_time ∷ []

unfoldable pub pack_time_how : ℤ → Packing
pack_time_how = pack_enum time_how_values

unfoldable pub unpack_time_how : Unpacking ℤ
unpack_time_how = unpack_enum time_how_values

-- union set_mode3
pub record SetMode3 : Type 0 where
  pub set_it : Option ℤ
  pub mode : Option ℕ

unfoldable pub pack_set_mode3 : SetMode3 → Packing
pack_set_mode3 d =
    pack_field pack_bool d.set_it
    ⨾ (if field_is d.set_it int_true then pack_field pack_mode3 d.mode else skip)

unfoldable pub unpack_set_mode3 : Unpacking SetMode3
unpack_set_mode3 = do
  set_it' ← unpack_field unpack_bool
  (if field_is set_it' int_true
      then (unpack_field unpack_mode3 >>= λ arm. pure (record { set_it = set_it'; mode = arm }))
      else pure (record { set_it = set_it'; mode = none }))

-- union set_uid3
pub record SetUid3 : Type 0 where
  pub set_it : Option ℤ
  pub uid : Option ℕ

unfoldable pub pack_set_uid3 : SetUid3 → Packing
pack_set_uid3 d =
    pack_field pack_bool d.set_it
    ⨾ (if field_is d.set_it int_true then pack_field pack_uid3 d.uid else skip)

unfoldable pub unpack_set_uid3 : Unpacking SetUid3
unpack_set_uid3 = do
  set_it' ← unpack_field unpack_bool
  (if field_is set_it' int_true
      then (unpack_field unpack_uid3 >>= λ arm. pure (record { set_it = set_it'; uid = arm }))
      else pure (record { set_it = set_it'; uid = none }))

-- union set_gid3
pub record SetGid3 : Type 0 where
  pub set_it : Option ℤ
  pub gid : Option ℕ

unfoldable pub pack_set_gid3 : SetGid3 → Packing
pack_set_gid3 d =
    pack_field pack_bool d.set_it
    ⨾ (if field_is d.set_it int_true then pack_field pack_gid3 d.gid else skip)

unfoldable pub unpack_set_gid3 : Unpacking SetGid3
unpack_set_gid3 = do
  set_it' ← unpack_field unpack_bool
  (if field_is set_it' int_true
      then (unpack_field unpack_gid3 >>= λ arm. pure (record { set_it = set_it'; gid = arm }))
      else pure (record { set_it = set_it'; gid = none }))

-- union set_size3
pub record SetSize3 : Type 0 where
  pub set_it : Option ℤ
  pub size : Option ℕ

unfoldable pub pack_set_size3 : SetSize3 → Packing
pack_set_size3 d =
    pack_field pack_bool d.set_it
    ⨾ (if field_is d.set_it int_true then pack_field pack_size3 d.size else skip)

unfoldable pub unpack_set_size3 : Unpacking SetSize3
unpack_set_size3 = do
  set_it' ← unpack_field unpack_bool
  (if field_is set_it' int_true
      then (unpack_field unpack_size3 >>= λ arm. pure (record { set_it = set_it'; size = arm }))
      else pure (record { set_it = set_it'; size = none }))

-- union set_atime
pub record SetAtime : Type 0 where
  pub set_it : Option ℤ
  pub atime : Option Nfstime3

unfoldable pub pack_set_atime : SetAtime → Packing
pack_set_atime d =
    pack_field pack_time_how d.set_it
    ⨾ (if field_is d.set_it set_to_client_time then pack_field pack_nfstime3 d.atime else skip)

unfoldable pub unpack_set_atime : Unpacking SetAtime
unpack_set_atime = do
  set_it' ← unpack_field unpack_time_how
  (if field_is set_it' set_to_client_time
      then (unpack_field unpack_nfstime3 >>= λ arm. pure (record { set_it = set_it'; atime = arm }))
      else pure (record { set_it = set_it'; atime = none }))

-- union set_mtime
pub record SetMtime : Type 0 where
  pub set_it : Option ℤ
  pub mtime : Option Nfstime3

unfoldable pub pack_set_mtime : SetMtime → Packing
pack_set_mtime d =
    pack_field pack_time_how d.set_it
    ⨾ (if field_is d.set_it set_to_client_time then pack_field pack_nfstime3 d.mtime else skip)

unfoldable pub unpack_set_mtime : Unpacking SetMtime
unpack_set_mtime = do
  set_it' ← unpack_field unpack_time_how
  (if field_is set_it' set_to_client_time
      then (unpack_field unpack_nfstime3 >>= λ arm. pure (record { set_it = set_it'; mtime = arm }))
      else pure (record { set_it = set_it'; mtime = none }))

-- struct sattr3
pub record Sattr3 : Type 0 where
  pub mode : Option SetMode3
  pub uid : Option SetUid3
  pub gid : Option SetGid3
  pub size : Option SetSize3
  pub atime : Option SetAtime
  pub mtime : Option SetMtime

unfoldable pub pack_sattr3 : Sattr3 → Packing
pack_sattr3 d =
    pack_field pack_set_mode3 d.mode
    ⨾ pack_field pack_set_uid3 d.uid
    ⨾ pack_field pack_set_gid3 d.gid
    ⨾ pack_field pack_set_size3 d.size
    ⨾ pack_field pack_set_atime d.atime
    ⨾ pack_field pack_set_mtime d.mtime

unfoldable pub unpack_sattr3 : Unpacking Sattr3
unpack_sattr3 = do
  mode' ← unpack_field unpack_set_mode3
  uid' ← unpack_field unpack_set_uid3
  gid' ← unpack_field unpack_set_gid3
  size' ← unpack_field unpack_set_size3
  atime' ← unpack_field unpack_set_atime
  mtime' ← unpack_field unpack_set_mtime
  pure (record {
    mode = mode';
    uid = uid';
    gid = gid';
    size = size';
    atime = atime';
    mtime = mtime';
  })
