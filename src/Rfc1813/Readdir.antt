-- ===== src/Rfc1813/Readdir.antt =====
-- rfc1813/types.py and rfc1813/pack.py: READDIR3args, READDIR3resfail, READDIRPLUS3args,
-- READDIRPLUS3resfail.
pub mod RoundTrip
use perennial.Prelude.{ℕ, Option}
use perennial.Xdr.{Bytes, Packing, ◌⨾◌, Unpacking, pure, ◌>>=◌, pack_field, unpack_field}
use perennial.Rfc1813.Basic.{
  pack_cookie3, unpack_cookie3, pack_cookieverf3, unpack_cookieverf3, pack_count3, unpack_count3,
}
use perennial.Rfc1813.Structs.{NfsFh3, pack_nfs_fh3, unpack_nfs_fh3}
use perennial.Rfc1813.Attributes.{PostOpAttr, pack_post_op_attr, unpack_post_op_attr}

-- struct READDIR3args
pub record Readdir3Args : Type 0 where
  pub dir : Option NfsFh3
  pub cookie : Option ℕ
  pub cookieverf : Option Bytes
  pub count : Option ℕ

unfoldable pub pack_readdir3args : Readdir3Args → Packing
pack_readdir3args d =
    pack_field pack_nfs_fh3 d.dir
    ⨾ pack_field pack_cookie3 d.cookie
    ⨾ pack_field pack_cookieverf3 d.cookieverf
    ⨾ pack_field pack_count3 d.count

unfoldable pub unpack_readdir3args : Unpacking Readdir3Args
unpack_readdir3args = do
  dir' ← unpack_field unpack_nfs_fh3
  cookie' ← unpack_field unpack_cookie3
  cookieverf' ← unpack_field unpack_cookieverf3
  count' ← unpack_field unpack_count3
  pure (record { dir = dir'; cookie = cookie'; cookieverf = cookieverf'; count = count' })

-- struct READDIR3resfail
pub record Readdir3ResFail : Type 0 where
  pub dir_attributes : Option PostOpAttr

unfoldable pub pack_readdir3resfail : Readdir3ResFail → Packing
pack_readdir3resfail d = pack_field pack_post_op_attr d.dir_attributes

unfoldable pub unpack_readdir3resfail : Unpacking Readdir3ResFail
unpack_readdir3resfail = do
  dir_attributes' ← unpack_field unpack_post_op_attr
  pure (record { dir_attributes = dir_attributes' })

-- struct READDIRPLUS3args
pub record Readdirplus3Args : Type 0 where
  pub dir : Option NfsFh3
  pub cookie : Option ℕ
  pub cookieverf : Option Bytes
  pub dircount : Option ℕ
  pub maxcount : Option ℕ

unfoldable pub pack_readdirplus3args : Readdirplus3Args → Packing
pack_readdirplus3args d =
    pack_field pack_nfs_fh3 d.dir
    ⨾ pack_field pack_cookie3 d.cookie
    ⨾ pack_field pack_cookieverf3 d.cookieverf
    ⨾ pack_field pack_count3 d.dircount
    ⨾ pack_field pack_count3 d.maxcount

unfoldable pub unpack_readdirplus3args : Unpacking Readdirplus3Args
unpack_readdirplus3args = do
  dir' ← unpack_field unpack_nfs_fh3
  cookie' ← unpack_field unpack_cookie3
  cookieverf' ← unpack_field unpack_cookieverf3
  dircount' ← unpack_field unpack_count3
  maxcount' ← unpack_field unpack_count3
  pure (record {
    dir = dir';
    cookie = cookie';
    cookieverf = cookieverf';
    dircount = dircount';
    maxcount = maxcount';
  })

-- struct READDIRPLUS3resfail
pub record Readdirplus3ResFail : Type 0 where
  pub dir_attributes : Option PostOpAttr

unfoldable pub pack_readdirplus3resfail : Readdirplus3ResFail → Packing
pack_readdirplus3resfail d = pack_field pack_post_op_attr d.dir_attributes

unfoldable pub unpack_readdirplus3resfail : Unpacking Readdirplus3ResFail
unpack_readdirplus3resfail = do
  dir_attributes' ← unpack_field unpack_post_op_attr
  pure (record { dir_attributes = dir_attributes' })
