-- ===== src/Rfc1813/Listing.antt =====
-- rfc1813/types.py and rfc1813/pack.py: entry3, dirlist3, READDIR3resok, READDIR3res, entryplus3,
-- dirlistplus3, READDIRPLUS3resok, READDIRPLUS3res.
pub mod Decoding
pub mod RoundTrip
pub mod Messages
mod Tests
use perennial.Prelude.{ℕ, Option, none, if◌then◌else◌}
use perennial.Xdr.{
  ℤ, Bytes, Packing, ◌⨾◌, Unpacking, pure, ◌>>=◌, pack_bool, unpack_bool, pack_field,
  pack_attribute, unpack_field, field_is,
}
use perennial.Xdr.Linked.{
  Linked, Nodes, set, pack_linked, pack_next, unpack_whole, unpack_whole_next,
}
use perennial.Rfc1813.Const.{nfs3_ok}
use perennial.Rfc1813.Basic.{
  pack_filename3, unpack_filename3, pack_fileid3, unpack_fileid3, pack_cookie3, unpack_cookie3,
  pack_cookieverf3, unpack_cookieverf3, pack_nfsstat3, unpack_nfsstat3,
}
use perennial.Rfc1813.Attributes.{
  PostOpAttr, pack_post_op_attr, unpack_post_op_attr, PostOpFh3, pack_post_op_fh3,
  unpack_post_op_fh3,
}
use perennial.Rfc1813.Readdir.{
  Readdir3ResFail, pack_readdir3resfail, unpack_readdir3resfail, Readdirplus3ResFail,
  pack_readdirplus3resfail, unpack_readdirplus3resfail,
}

-- The fields of entry3 before its next
pub record Entry3Fields : Type 0 where
  pub fileid : Option ℕ
  pub name : Option Bytes
  pub cookie : Option ℕ

unfoldable pub pack_entry3_fields : Entry3Fields → Packing
pack_entry3_fields d =
    pack_field pack_fileid3 d.fileid
    ⨾ pack_field pack_filename3 d.name
    ⨾ pack_field pack_cookie3 d.cookie

unfoldable pub unpack_entry3_fields : Unpacking Entry3Fields
unpack_entry3_fields = do
  fileid' ← unpack_field unpack_fileid3
  name' ← unpack_field unpack_filename3
  cookie' ← unpack_field unpack_cookie3
  pure (record { fileid = fileid'; name = name'; cookie = cookie' })

-- struct entry3, which ends in an array of at most one entry3
abbrev pub Entry3 : Type 0
Entry3 = Linked Entry3Fields

unfoldable pub pack_entry3 : Entry3 → Packing
pack_entry3 = pack_linked pack_entry3_fields

unfoldable pub unpack_entry3 : Unpacking Entry3
unpack_entry3 = unpack_whole unpack_entry3_fields

unfoldable pub pack_entry3_array : Nodes Entry3Fields → Packing
pack_entry3_array ns = pack_next pack_entry3_fields (set ns)

unfoldable pub unpack_entry3_array : Unpacking (Nodes Entry3Fields)
unpack_entry3_array = unpack_whole_next unpack_entry3_fields

-- struct dirlist3
pub record Dirlist3 : Type 0 where
  pub entries : Option (Nodes Entry3Fields)
  pub eof : Option ℤ

unfoldable pub pack_dirlist3 : Dirlist3 → Packing
pack_dirlist3 d = pack_field pack_entry3_array d.entries ⨾ pack_field pack_bool d.eof

unfoldable pub unpack_dirlist3 : Unpacking Dirlist3
unpack_dirlist3 = do
  entries' ← unpack_field unpack_entry3_array
  eof' ← unpack_field unpack_bool
  pure (record { entries = entries'; eof = eof' })

-- struct READDIR3resok
pub record Readdir3ResOk : Type 0 where
  pub dir_attributes : Option PostOpAttr
  pub cookieverf : Option Bytes
  pub reply : Option Dirlist3

unfoldable pub pack_readdir3resok : Readdir3ResOk → Packing
pack_readdir3resok d =
    pack_field pack_post_op_attr d.dir_attributes
    ⨾ pack_field pack_cookieverf3 d.cookieverf
    ⨾ pack_field pack_dirlist3 d.reply

unfoldable pub unpack_readdir3resok : Unpacking Readdir3ResOk
unpack_readdir3resok = do
  dir_attributes' ← unpack_field unpack_post_op_attr
  cookieverf' ← unpack_field unpack_cookieverf3
  reply' ← unpack_field unpack_dirlist3
  pure (record { dir_attributes = dir_attributes'; cookieverf = cookieverf'; reply = reply' })

-- union READDIR3res
pub record Readdir3Res : Type 0 where
  pub status : Option ℤ
  pub resok : Option Readdir3ResOk
  pub resfail : Option Readdir3ResFail

unfoldable pub pack_readdir3res : Readdir3Res → Packing
pack_readdir3res d =
    pack_field pack_nfsstat3 d.status
    ⨾ (if field_is d.status nfs3_ok
        then pack_field pack_readdir3resok d.resok
        else pack_attribute pack_readdir3resfail d.resfail)

unfoldable pub unpack_readdir3res : Unpacking Readdir3Res
unpack_readdir3res = do
  status' ← unpack_field unpack_nfsstat3
  (if field_is status' nfs3_ok
      then (unpack_field unpack_readdir3resok >>= λ arm.
          pure (record { status = status'; resok = arm; resfail = none }))
      else (unpack_field unpack_readdir3resfail >>= λ arm.
          pure (record { status = status'; resok = none; resfail = arm })))

-- The fields of entryplus3 before its next
pub record Entryplus3Fields : Type 0 where
  pub fileid : Option ℕ
  pub name : Option Bytes
  pub cookie : Option ℕ
  pub name_attributes : Option PostOpAttr
  pub name_handle : Option PostOpFh3

unfoldable pub pack_entryplus3_fields : Entryplus3Fields → Packing
pack_entryplus3_fields d =
    pack_field pack_fileid3 d.fileid
    ⨾ pack_field pack_filename3 d.name
    ⨾ pack_field pack_cookie3 d.cookie
    ⨾ pack_field pack_post_op_attr d.name_attributes
    ⨾ pack_field pack_post_op_fh3 d.name_handle

unfoldable pub unpack_entryplus3_fields : Unpacking Entryplus3Fields
unpack_entryplus3_fields = do
  fileid' ← unpack_field unpack_fileid3
  name' ← unpack_field unpack_filename3
  cookie' ← unpack_field unpack_cookie3
  name_attributes' ← unpack_field unpack_post_op_attr
  name_handle' ← unpack_field unpack_post_op_fh3
  pure (record {
    fileid = fileid';
    name = name';
    cookie = cookie';
    name_attributes = name_attributes';
    name_handle = name_handle';
  })

-- struct entryplus3, which ends in an array of at most one entryplus3
abbrev pub Entryplus3 : Type 0
Entryplus3 = Linked Entryplus3Fields

unfoldable pub pack_entryplus3 : Entryplus3 → Packing
pack_entryplus3 = pack_linked pack_entryplus3_fields

unfoldable pub unpack_entryplus3 : Unpacking Entryplus3
unpack_entryplus3 = unpack_whole unpack_entryplus3_fields

unfoldable pub pack_entryplus3_array : Nodes Entryplus3Fields → Packing
pack_entryplus3_array ns = pack_next pack_entryplus3_fields (set ns)

unfoldable pub unpack_entryplus3_array : Unpacking (Nodes Entryplus3Fields)
unpack_entryplus3_array = unpack_whole_next unpack_entryplus3_fields

-- struct dirlistplus3
pub record Dirlistplus3 : Type 0 where
  pub entries : Option (Nodes Entryplus3Fields)
  pub eof : Option ℤ

unfoldable pub pack_dirlistplus3 : Dirlistplus3 → Packing
pack_dirlistplus3 d = pack_field pack_entryplus3_array d.entries ⨾ pack_field pack_bool d.eof

unfoldable pub unpack_dirlistplus3 : Unpacking Dirlistplus3
unpack_dirlistplus3 = do
  entries' ← unpack_field unpack_entryplus3_array
  eof' ← unpack_field unpack_bool
  pure (record { entries = entries'; eof = eof' })

-- struct READDIRPLUS3resok
pub record Readdirplus3ResOk : Type 0 where
  pub dir_attributes : Option PostOpAttr
  pub cookieverf : Option Bytes
  pub reply : Option Dirlistplus3

unfoldable pub pack_readdirplus3resok : Readdirplus3ResOk → Packing
pack_readdirplus3resok d =
    pack_field pack_post_op_attr d.dir_attributes
    ⨾ pack_field pack_cookieverf3 d.cookieverf
    ⨾ pack_field pack_dirlistplus3 d.reply

unfoldable pub unpack_readdirplus3resok : Unpacking Readdirplus3ResOk
unpack_readdirplus3resok = do
  dir_attributes' ← unpack_field unpack_post_op_attr
  cookieverf' ← unpack_field unpack_cookieverf3
  reply' ← unpack_field unpack_dirlistplus3
  pure (record { dir_attributes = dir_attributes'; cookieverf = cookieverf'; reply = reply' })

-- union READDIRPLUS3res
pub record Readdirplus3Res : Type 0 where
  pub status : Option ℤ
  pub resok : Option Readdirplus3ResOk
  pub resfail : Option Readdirplus3ResFail

unfoldable pub pack_readdirplus3res : Readdirplus3Res → Packing
pack_readdirplus3res d =
    pack_field pack_nfsstat3 d.status
    ⨾ (if field_is d.status nfs3_ok
        then pack_field pack_readdirplus3resok d.resok
        else pack_attribute pack_readdirplus3resfail d.resfail)

unfoldable pub unpack_readdirplus3res : Unpacking Readdirplus3Res
unpack_readdirplus3res = do
  status' ← unpack_field unpack_nfsstat3
  (if field_is status' nfs3_ok
      then (unpack_field unpack_readdirplus3resok >>= λ arm.
          pure (record { status = status'; resok = arm; resfail = none }))
      else (unpack_field unpack_readdirplus3resfail >>= λ arm.
          pure (record { status = status'; resok = none; resfail = arm })))
