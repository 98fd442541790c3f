-- ===== src/Rfc1813/Mount.antt =====
-- rfc1813/types.py and rfc1813/pack.py: fhandle3, dirpath3, name3, mountstat3, mountres3_ok,
-- mountres3.
pub mod RoundTrip
use perennial.Prelude.{ℕ, Option, none, List, [], ◌∷◌, if◌then◌else◌}
use perennial.Xdr.{
  ℤ, Bytes, Packing, skip, ◌⨾◌, Unpacking, pure, ◌>>=◌, pack_uint, unpack_uint, pack_opaque,
  unpack_opaque, pack_array, unpack_array, pack_field, unpack_field, pack_bounded, unpack_bounded,
  field_is, pack_enum, unpack_enum,
}
use perennial.Rfc1813.Const.{
  mntpathlen3, mntnamlen3, fhsize3, mnt3_ok, mnt3err_perm, mnt3err_noent, mnt3err_io, mnt3err_acces,
  mnt3err_notdir, mnt3err_inval, mnt3err_nametoolong, mnt3err_notsupp, mnt3err_serverfault,
}

unfoldable pub pack_fhandle3 : Bytes → Packing
pack_fhandle3 = pack_bounded fhsize3 pack_opaque

unfoldable pub unpack_fhandle3 : Unpacking Bytes
unpack_fhandle3 = unpack_bounded fhsize3 unpack_opaque

unfoldable pub pack_dirpath3 : Bytes → Packing
pack_dirpath3 = pack_bounded mntpathlen3 pack_opaque

unfoldable pub unpack_dirpath3 : Unpacking Bytes
unpack_dirpath3 = unpack_bounded mntpathlen3 unpack_opaque

unfoldable pub pack_name3 : Bytes → Packing
pack_name3 = pack_bounded mntnamlen3 pack_opaque

unfoldable pub unpack_name3 : Unpacking Bytes
unpack_name3 = unpack_bounded mntnamlen3 unpack_opaque

-- The constants of the enumeration mountstat3.
abbrev pub mountstat3_values : List ℕ
mountstat3_values =
    mnt3_ok ∷ mnt3err_perm ∷ mnt3err_noent ∷ mnt3err_io ∷ mnt3err_acces ∷ mnt3err_notdir
    ∷ mnt3err_inval ∷ mnt3err_nametoolong ∷ mnt3err_notsupp ∷ mnt3err_serverfault ∷ []

unfoldable pub pack_mountstat3 : ℤ → Packing
pack_mountstat3 = pack_enum mountstat3_values

unfoldable pub unpack_mountstat3 : Unpacking ℤ
unpack_mountstat3 = unpack_enum mountstat3_values

-- struct mountres3_ok
pub record Mountres3Ok : Type 0 where
  pub fhandle : Option Bytes
  pub auth_flavors : Option (List ℕ)

unfoldable pub pack_mountres3_ok : Mountres3Ok → Packing
pack_mountres3_ok d =
    pack_field pack_fhandle3 d.fhandle ⨾ pack_field (pack_array pack_uint) d.auth_flavors

unfoldable pub unpack_mountres3_ok : Unpacking Mountres3Ok
unpack_mountres3_ok = do
  fhandle' ← unpack_field unpack_fhandle3
  auth_flavors' ← unpack_field (unpack_array unpack_uint)
  pure (record { fhandle = fhandle'; auth_flavors = auth_flavors' })

-- union mountres3
pub record Mountres3 : Type 0 where
  pub fhs_status : Option ℤ
  pub mountinfo : Option Mountres3Ok

unfoldable pub pack_mountres3 : Mountres3 → Packing
pack_mountres3 d =
    pack_field pack_mountstat3 d.fhs_status
    ⨾ (if field_is d.fhs_status mnt3_ok then pack_field pack_mountres3_ok d.mountinfo else skip)

unfoldable pub unpack_mountres3 : Unpacking Mountres3
unpack_mountres3 = do
  fhs_status' ← unpack_field unpack_mountstat3
  (if field_is fhs_status' mnt3_ok
      then (unpack_field unpack_mountres3_ok >>= λ arm.
          pure (record { fhs_status = fhs_status'; mountinfo = arm }))
      else pure (record { fhs_status = fhs_status'; mountinfo = none }))
