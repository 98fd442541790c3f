-- ===== src/Rfc1813/Readdir/RoundTrip.antt =====
-- Reading back what the packers of Rfc1813/Readdir.antt write.
use perennial.Prelude.{refl}
use perennial.Xdr.{OnSome}
use perennial.Xdr.Reads.{Reads, Reads-bind, Reads-last}
use perennial.Xdr.RoundTrip.{Reads-uint, IsUint64, Reads-uhyper, Reads-field, Reads-field_if}
use perennial.Rfc1813.Readdir.{
  Readdir3Args, pack_readdir3args, unpack_readdir3args, Readdir3ResFail, pack_readdir3resfail,
  unpack_readdir3resfail, Readdirplus3Args, pack_readdirplus3args, unpack_readdirplus3args,
  Readdirplus3ResFail, pack_readdirplus3resfail, unpack_readdirplus3resfail,
}
use perennial.Rfc1813.Basic.RoundTrip.{IsCookieverf3, Reads-cookieverf3}
use perennial.Rfc1813.Structs.RoundTrip.{Reads-nfs_fh3}
use perennial.Rfc1813.Attributes.RoundTrip.{IsPostOpAttr, Reads-post_op_attr}

abbrev pub IsReaddir3Args : Readdir3Args → Type 0
IsReaddir3Args d = OnSome IsUint64 d.cookie × OnSome IsCookieverf3 d.cookieverf

pub Reads-readdir3args :
    (d : Readdir3Args) → IsReaddir3Args d → Reads (pack_readdir3args d) unpack_readdir3args d
unfolding pack_readdir3args unpack_readdir3args
Reads-readdir3args d c = Reads-bind _ _ _ _ d.dir d (Reads-field _ _ _ Reads-nfs_fh3 d.dir) (
    Reads-bind _ _ _ _ d.cookie d (Reads-field_if _ _ _ IsUint64 Reads-uhyper d.cookie c.0) (
      Reads-bind _ _ _ _ d.cookieverf d
        (Reads-field_if _ _ _ IsCookieverf3 Reads-cookieverf3 d.cookieverf c.1)
        (Reads-last _ _ _ d.count d (Reads-field _ _ _ Reads-uint d.count) refl)))

abbrev pub IsReaddir3ResFail : Readdir3ResFail → Type 0
IsReaddir3ResFail d = OnSome IsPostOpAttr d.dir_attributes

pub Reads-readdir3resfail :
    (d : Readdir3ResFail)
    → IsReaddir3ResFail d
    → Reads (pack_readdir3resfail d) unpack_readdir3resfail d
unfolding pack_readdir3resfail unpack_readdir3resfail
Reads-readdir3resfail d c =
    Reads-last _ _ _ d.dir_attributes d
      (Reads-field_if _ _ _ IsPostOpAttr Reads-post_op_attr d.dir_attributes c) refl

abbrev pub IsReaddirplus3Args : Readdirplus3Args → Type 0
IsReaddirplus3Args d = OnSome IsUint64 d.cookie × OnSome IsCookieverf3 d.cookieverf

pub Reads-readdirplus3args :
    (d : Readdirplus3Args)
    → IsReaddirplus3Args d
    → Reads (pack_readdirplus3args d) unpack_readdirplus3args d
unfolding pack_readdirplus3args unpack_readdirplus3args
Reads-readdirplus3args d c = Reads-bind _ _ _ _ d.dir d (Reads-field _ _ _ Reads-nfs_fh3 d.dir) (
    Reads-bind _ _ _ _ d.cookie d (Reads-field_if _ _ _ IsUint64 Reads-uhyper d.cookie c.0) (
      Reads-bind _ _ _ _ d.cookieverf d
        (Reads-field_if _ _ _ IsCookieverf3 Reads-cookieverf3 d.cookieverf c.1)
        (Reads-bind _ _ _ _ d.dircount d (Reads-field _ _ _ Reads-uint d.dircount)
          (Reads-last _ _ _ d.maxcount d (Reads-field _ _ _ Reads-uint d.maxcount) refl))))

abbrev pub IsReaddirplus3ResFail : Readdirplus3ResFail → Type 0
IsReaddirplus3ResFail d = OnSome IsPostOpAttr d.dir_attributes

pub Reads-readdirplus3resfail :
    (d : Readdirplus3ResFail)
    → IsReaddirplus3ResFail d
    → Reads (pack_readdirplus3resfail d) unpack_readdirplus3resfail d
unfolding pack_readdirplus3resfail unpack_readdirplus3resfail
Reads-readdirplus3resfail d c =
    Reads-last _ _ _ d.dir_attributes d
      (Reads-field_if _ _ _ IsPostOpAttr Reads-post_op_attr d.dir_attributes c) refl
