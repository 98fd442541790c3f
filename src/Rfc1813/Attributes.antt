-- ===== src/Rfc1813/Attributes.antt =====
-- rfc1813/types.py and rfc1813/pack.py: fattr3, post_op_attr, wcc_attr, pre_op_attr, wcc_data,
-- post_op_fh3.
pub mod Decoding
pub mod RoundTrip
use perennial.Prelude.{ℕ, Option, none, if◌then◌else◌}
use perennial.Xdr.{
  ℤ, Packing, skip, ◌⨾◌, raise, Unpacking, pure, ◌>>=◌, pack_bool, unpack_bool, pack_field,
  unpack_field, field_is,
}
use perennial.Rfc1813.Const.{int_false, int_true}
use perennial.Rfc1813.Basic.{
  pack_uint64, unpack_uint64, pack_uint32, unpack_uint32, pack_fileid3, unpack_fileid3, pack_uid3,
  unpack_uid3, pack_gid3, unpack_gid3, pack_size3, unpack_size3, pack_mode3, unpack_mode3,
  pack_ftype3, unpack_ftype3,
}
use perennial.Rfc1813.Structs.{
  Specdata3, pack_specdata3, unpack_specdata3, NfsFh3, pack_nfs_fh3, unpack_nfs_fh3, Nfstime3,
  pack_nfstime3, unpack_nfstime3,
}

-- struct fattr3
pub record Fattr3 : Type 0 where
  pub ftype : Option ℤ
  pub mode : Option ℕ
  pub nlink : Option ℕ
  pub uid : Option ℕ
  pub gid : Option ℕ
  pub size : Option ℕ
  pub used : Option ℕ
  pub rdev : Option Specdata3
  pub fsid : Option ℕ
  pub fileid : Option ℕ
  pub atime : Option Nfstime3
  pub mtime : Option Nfstime3
  pub ctime : Option Nfstime3

unfoldable pub pack_fattr3 : Fattr3 → Packing
pack_fattr3 d =
    pack_field pack_ftype3 d.ftype
    ⨾ pack_field pack_mode3 d.mode
    ⨾ pack_field pack_uint32 d.nlink
    ⨾ pack_field pack_uid3 d.uid
    ⨾ pack_field pack_gid3 d.gid
    ⨾ pack_field pack_size3 d.size
    ⨾ pack_field pack_size3 d.used
    ⨾ pack_field pack_specdata3 d.rdev
    ⨾ pack_field pack_uint64 d.fsid
    ⨾ pack_field pack_fileid3 d.fileid
    ⨾ pack_field pack_nfstime3 d.atime
    ⨾ pack_field pack_nfstime3 d.mtime
    ⨾ pack_field pack_nfstime3 d.ctime

unfoldable pub unpack_fattr3 : Unpacking Fattr3
unpack_fattr3 = do
  ftype' ← unpack_field unpack_ftype3
  mode' ← unpack_field unpack_mode3
  nlink' ← unpack_field unpack_uint32
  uid' ← unpack_field unpack_uid3
  gid' ← unpack_field unpack_gid3
  size' ← unpack_field unpack_size3
  used' ← unpack_field unpack_size3
  rdev' ← unpack_field unpack_specdata3
  fsid' ← unpack_field unpack_uint64
  fileid' ← unpack_field unpack_fileid3
  atime' ← unpack_field unpack_nfstime3
  mtime' ← unpack_field unpack_nfstime3
  ctime' ← unpack_field unpack_nfstime3
  pure (record {
    ftype = ftype';
    mode = mode';
    nlink = nlink';
    uid = uid';
    gid = gid';
    size = size';
    used = used';
    rdev = rdev';
    fsid = fsid';
    fileid = fileid';
    atime = atime';
    mtime = mtime';
    ctime = ctime';
  })

-- union post_op_attr
pub record PostOpAttr : Type 0 where
  pub attributes_follow : Option ℤ
  pub attributes : Option Fattr3

unfoldable pub pack_post_op_attr : PostOpAttr → Packing
pack_post_op_attr d =
    pack_field pack_bool d.attributes_follow
    ⨾ (if field_is d.attributes_follow int_true
        then pack_field pack_fattr3 d.attributes
        else if field_is d.attributes_follow int_false
        then skip
        else raise)

unfoldable pub unpack_post_op_attr : Unpacking PostOpAttr
unpack_post_op_attr = do
  attributes_follow' ← unpack_field unpack_bool
  (if field_is attributes_follow' int_true
      then (unpack_field unpack_fattr3 >>= λ arm.
          pure (record { attributes_follow = attributes_follow'; attributes = arm }))
      else if field_is attributes_follow' int_false
      then pure (record { attributes_follow = attributes_follow'; attributes = none })
      else raise)

-- struct wcc_attr
pub record WccAttr : Type 0 where
  pub size : Option ℕ
  pub mtime : Option Nfstime3
  pub ctime : Option Nfstime3

unfoldable pub pack_wcc_attr : WccAttr → Packing
pack_wcc_attr d =
    pack_field pack_size3 d.size
    ⨾ pack_field pack_nfstime3 d.mtime
    ⨾ pack_field pack_nfstime3 d.ctime

unfoldable pub unpack_wcc_attr : Unpacking WccAttr
unpack_wcc_attr = do
  size' ← unpack_field unpack_size3
  mtime' ← unpack_field unpack_nfstime3
  ctime' ← unpack_field unpack_nfstime3
  pure (record { size = size'; mtime = mtime'; ctime = ctime' })

-- union pre_op_attr
pub record PreOpAttr : Type 0 where
  pub attributes_follow : Option ℤ
  pub attributes : Option WccAttr

unfoldable pub pack_pre_op_attr : PreOpAttr → Packing
pack_pre_op_attr d =
    pack_field pack_bool d.attributes_follow
    ⨾ (if field_is d.attributes_follow int_true
        then pack_field pack_wcc_attr d.attributes
        else if field_is d.attributes_follow int_false
        then skip
        else raise)

unfoldable pub unpack_pre_op_attr : Unpacking PreOpAttr
unpack_pre_op_attr = do
  attributes_follow' ← unpack_field unpack_bool
  (if field_is attributes_follow' int_true
      then (unpack_field unpack_wcc_attr >>= λ arm.
          pure (record { attributes_follow = attributes_follow'; attributes = arm }))
      else if field_is attributes_follow' int_false
      then pure (record { attributes_follow = attributes_follow'; attributes = none })
      else raise)

-- struct wcc_data
pub record WccData : Type 0 where
  pub before : Option PreOpAttr
  pub after : Option PostOpAttr

unfoldable pub pack_wcc_data : WccData → Packing
pack_wcc_data d = pack_field pack_pre_op_attr d.before ⨾ pack_field pack_post_op_attr d.after

unfoldable pub unpack_wcc_data : Unpacking WccData
unpack_wcc_data = do
  before' ← unpack_field unpack_pre_op_attr
  after' ← unpack_field unpack_post_op_attr
  pure (record { before = before'; after = after' })

-- union post_op_fh3
pub record PostOpFh3 : Type 0 where
  pub handle_follows : Option ℤ
  pub handle : Option NfsFh3

unfoldable pub pack_post_op_fh3 : PostOpFh3 → Packing
pack_post_op_fh3 d =
    pack_field pack_bool d.handle_follows
    ⨾ (if field_is d.handle_follows int_true
        then pack_field pack_nfs_fh3 d.handle
        else if field_is d.handle_follows int_false
        then skip
        else raise)

unfoldable pub unpack_post_op_fh3 : Unpacking PostOpFh3
unpack_post_op_fh3 = do
  handle_follows' ← unpack_field unpack_bool
  (if field_is handle_follows' int_true
      then (unpack_field unpack_nfs_fh3 >>= λ arm.
          pure (record { handle_follows = handle_follows'; handle = arm }))
      else if field_is handle_follows' int_false
      then pure (record { handle_follows = handle_follows'; handle = none })
      else raise)
