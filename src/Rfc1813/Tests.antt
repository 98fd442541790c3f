-- ===== src/Rfc1813/Tests.antt =====
-- Runs of the codec, and its theorems at concrete messages.
use perennial.Prelude.{◌≤◌, ◌≡◌, refl, inl, inr, none, some, [], ◌∷◌, ◌++◌, arith, length}
use perennial.Outcome.{ok, err, eof_error}
use perennial.Xdr.{
  pos, Bytes, Packing, four_bytes, pack_uint, unpack_uint, pack_int, pack_bool, pack_uhyper,
  pack_fopaque, unpack_fopaque, unpack_opaque, pack_opaque, pack_enum,
}
use perennial.Rfc1813.Basic.{pack_nfsstat3, pack_ftype3, pack_createverf3}
use perennial.Rfc1813.Structs.{
  Nfstime3, NfsFh3, pack_specdata3, pack_nfstime3, pack_nfs_fh3, unpack_nfs_fh3, pack_diropargs3,
}
use perennial.Rfc1813.Attributes.{Fattr3, PostOpAttr, pack_fattr3, pack_post_op_attr}
use perennial.Rfc1813.Sattr.{
  Sattr3, pack_time_how, pack_set_mode3, pack_set_uid3, pack_set_gid3, pack_set_size3,
  pack_set_atime, pack_set_mtime, pack_sattr3, unpack_set_mode3,
}
use perennial.Rfc1813.Getattr.{
  Getattr3Res, pack_getattr3resok, pack_getattr3res, unpack_getattr3res,
}
use perennial.Rfc1813.Setattr.{
  Setattr3Args, pack_sattrguard3, pack_setattr3args, unpack_setattr3args,
}
use perennial.Rfc1813.Lookup.{
  Lookup3Res, pack_lookup3resfail, pack_lookup3res, unpack_lookup3res, Access3Res,
  pack_access3resok, pack_access3res, unpack_access3res,
}
use perennial.Rfc1813.Write.{Write3Args, pack_stable_how, pack_write3args, unpack_write3args}
use perennial.Rfc1813.Create.{
  Create3Args, pack_createmode3, pack_createhow3, pack_create3args, unpack_create3args,
}
use perennial.Rfc1813.Guards.{unpack_nfs_fh3_bound, pack_set_mode3_truthy}
use perennial.Rfc1813.Messages.{
  unpack_getattr3res-pack_getattr3res, unpack_lookup3res-pack_lookup3res,
  unpack_access3res-pack_access3res, unpack_setattr3args-pack_setattr3args,
  unpack_create3args-pack_create3args, unpack_write3args-pack_write3args,
}

-- The bytes that a call wrote into an empty buffer.
abbrev written : Packing → Bytes
written p = elim (p []) [ ok b ↦ b | err e ↦ [] ]

abbrev epoch : Nfstime3
epoch = record { seconds = some 1575645433; nseconds = some 999999999 }

-- A regular file of 5,000,000,000 bytes.
abbrev big_file : Fattr3
big_file = record {
  ftype = some (pos 1);
  mode = some 420;
  nlink = some 1;
  uid = some 1000;
  gid = some 1000;
  size = some 5_000_000_000;
  used = some 5_000_003_584;
  rdev = some (record { specdata1 = some 0; specdata2 = some 0 });
  fsid = some 64769;
  fileid = some 131077;
  atime = some epoch;
  mtime = some epoch;
  ctime = some epoch;
}

abbrev getattr_ok : Getattr3Res
getattr_ok = record {
  status = some (pos 0);
  resok = some (record { obj_attributes = some big_file });
}

getattr_ok_packs : pack_getattr3res getattr_ok [] ≡ ok (written (pack_getattr3res getattr_ok))
unfolding pack_getattr3res pack_nfsstat3 pack_enum pack_int pack_getattr3resok pack_fattr3
    pack_ftype3 pack_uint pack_uhyper pack_specdata3 pack_nfstime3
getattr_ok_packs = refl

unpack_getattr3res-pack_getattr3res_example :
    unpack_getattr3res (written (pack_getattr3res getattr_ok) ++ (7 ∷ [])) ≡ ok (getattr_ok, 7 ∷ [])
unpack_getattr3res-pack_getattr3res_example =
    unpack_getattr3res-pack_getattr3res getattr_ok (written (pack_getattr3res getattr_ok)) (7 ∷ [])
      (omega arith) getattr_ok_packs

abbrev no_attributes : PostOpAttr
no_attributes = record { attributes_follow = some (pos 0); attributes = none }

abbrev lookup_stale : Lookup3Res
lookup_stale = record {
  status = some (pos 70);
  resok = none;
  resfail = some (record { dir_attributes = some no_attributes });
}

lookup_stale_packs : pack_lookup3res lookup_stale [] ≡ ok (written (pack_lookup3res lookup_stale))
unfolding pack_lookup3res pack_nfsstat3 pack_enum pack_int pack_lookup3resfail pack_post_op_attr
    pack_bool
lookup_stale_packs = refl

unpack_lookup3res-pack_lookup3res_example :
    unpack_lookup3res (written (pack_lookup3res lookup_stale) ++ []) ≡ ok (lookup_stale, [])
unpack_lookup3res-pack_lookup3res_example =
    unpack_lookup3res-pack_lookup3res lookup_stale (written (pack_lookup3res lookup_stale)) []
      (tt, (inl refl, tt, refl), refl) lookup_stale_packs

abbrev access_ok : Access3Res
access_ok = record {
  status = some (pos 0);
  resok = some (record { obj_attributes = some no_attributes; access = some 31 });
  resfail = none;
}

access_ok_packs : pack_access3res access_ok [] ≡ ok (written (pack_access3res access_ok))
unfolding pack_access3res pack_nfsstat3 pack_enum pack_int pack_access3resok pack_post_op_attr
    pack_bool pack_uint
access_ok_packs = refl

unpack_access3res-pack_access3res_example :
    unpack_access3res (written (pack_access3res access_ok) ++ []) ≡ ok (access_ok, [])
unpack_access3res-pack_access3res_example =
    unpack_access3res-pack_access3res access_ok (written (pack_access3res access_ok)) []
      ((inl refl, tt, refl), tt, refl) access_ok_packs

abbrev handle : NfsFh3
handle = record { contents = some (1 ∷ 0 ∷ 7 ∷ 2 ∷ 9 ∷ []) }

-- Set the mode and the size, and the access time from the client.
abbrev chmod : Sattr3
chmod = record {
  mode = some (record { set_it = some (pos 1); mode = some 493 });
  uid = some (record { set_it = some (pos 0); uid = none });
  gid = some (record { set_it = some (pos 0); gid = none });
  size = some (record { set_it = some (pos 1); size = some 4_294_967_296 });
  atime = some (record { set_it = some (pos 2); atime = some epoch });
  mtime = some (record { set_it = some (pos 1); mtime = none });
}

abbrev setattr_call : Setattr3Args
setattr_call = record {
  object = some handle;
  new_attributes = some chmod;
  guard = some (record { check = some (pos 1); obj_ctime = some epoch });
}

setattr_call_packs :
    pack_setattr3args setattr_call [] ≡ ok (written (pack_setattr3args setattr_call))
unfolding pack_setattr3args pack_nfs_fh3 pack_opaque pack_fopaque pack_uint pack_uhyper pack_sattr3
    pack_set_mode3 pack_set_uid3 pack_set_gid3 pack_set_size3 pack_set_atime pack_set_mtime
    pack_time_how pack_enum pack_int pack_bool pack_nfstime3 pack_sattrguard3
setattr_call_packs = refl

unpack_setattr3args-pack_setattr3args_example :
    unpack_setattr3args (written (pack_setattr3args setattr_call) ++ []) ≡ ok (setattr_call, [])
unpack_setattr3args-pack_setattr3args_example =
    unpack_setattr3args-pack_setattr3args setattr_call (written (pack_setattr3args setattr_call)) []
      (
        ((inr refl, tt), (inl refl, refl), (inl refl, refl), (inr refl, omega arith, tt), tt, refl),
        (inr refl, tt),
      )
      setattr_call_packs

abbrev create_call : Create3Args
create_call = record {
  place = some (record { dir = some handle; name = some (102 ∷ 111 ∷ 111 ∷ []) });
  how = some (record {
    mode = some (pos 2);
    obj_attributes = none;
    verf = some (1 ∷ 2 ∷ 3 ∷ 4 ∷ 5 ∷ 6 ∷ 7 ∷ 8 ∷ []);
  });
}

create_call_packs : pack_create3args create_call [] ≡ ok (written (pack_create3args create_call))
unfolding pack_create3args pack_diropargs3 pack_nfs_fh3 pack_opaque pack_fopaque pack_uint
    pack_createhow3 pack_createmode3 pack_enum pack_int pack_createverf3
create_call_packs = refl

unpack_create3args-pack_create3args_example :
    unpack_create3args (written (pack_create3args create_call) ++ []) ≡ ok (create_call, [])
unpack_create3args-pack_create3args_example =
    unpack_create3args-pack_create3args create_call (written (pack_create3args create_call)) []
      (tt, refl, refl) create_call_packs

abbrev write_call : Write3Args
write_call = record {
  file = some handle;
  offset = some 9_000_000_000;
  count = some 3;
  stable = some (pos 2);
  contents = some (104 ∷ 105 ∷ 10 ∷ []);
}

write_call_packs : pack_write3args write_call [] ≡ ok (written (pack_write3args write_call))
unfolding pack_write3args pack_nfs_fh3 pack_opaque pack_fopaque pack_uint pack_uhyper
    pack_stable_how pack_enum pack_int
write_call_packs = refl

unpack_write3args-pack_write3args_example :
    unpack_write3args (written (pack_write3args write_call) ++ (0 ∷ [])) ≡ ok (write_call, 0 ∷ [])
unpack_write3args-pack_write3args_example =
    unpack_write3args-pack_write3args write_call (written (pack_write3args write_call)) (0 ∷ [])
      (omega arith) write_call_packs

abbrev handle_bytes : Bytes
handle_bytes = 0 ∷ 0 ∷ 0 ∷ 5 ∷ 1 ∷ 0 ∷ 7 ∷ 2 ∷ 9 ∷ 0 ∷ 0 ∷ 0 ∷ []

handle_unpacks : unpack_nfs_fh3 handle_bytes ≡ ok (handle, [])
unfolding unpack_nfs_fh3 unpack_opaque unpack_fopaque unpack_uint
handle_unpacks = refl

unpack_nfs_fh3_bound_example : (s : Bytes) × (handle.contents ≡ some s) × (length s ≤ 64)
unpack_nfs_fh3_bound_example = unpack_nfs_fh3_bound handle_bytes [] handle handle_unpacks

pack_set_mode3_truthy_example :
    (pack_set_mode3 (record { set_it = some (pos 2); mode = some 493 }) [] ≡ ok (four_bytes 1))
    × (unpack_set_mode3 (four_bytes 1) ≡ err eof_error)
pack_set_mode3_truthy_example = pack_set_mode3_truthy 0 (some 493)
