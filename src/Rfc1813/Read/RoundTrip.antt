-- ===== src/Rfc1813/Read/RoundTrip.antt =====
-- Reading back what the packers of Rfc1813/Read.antt write.
use perennial.Prelude.{◌≡◌, refl, sym, none, if◌then◌else◌}
use perennial.Xdr.{field_is, OnSome}
use perennial.Xdr.Reads.{Reads, Reads-if, Reads-bind, Reads-last}
use perennial.Xdr.RoundTrip.{
  Reads-uint, IsUint64, Reads-uhyper, IsBit, Reads-bool, Reads-opaque, Reads-field, Reads-field_if,
}
use perennial.Rfc1813.Const.{nfs3_ok}
use perennial.Rfc1813.Read.{
  Readlink3Args, pack_readlink3args, unpack_readlink3args, Readlink3ResOk, pack_readlink3resok,
  unpack_readlink3resok, Readlink3ResFail, pack_readlink3resfail, unpack_readlink3resfail,
  Readlink3Res, pack_readlink3res, unpack_readlink3res, Read3Args, pack_read3args, unpack_read3args,
  Read3ResOk, pack_read3resok, unpack_read3resok, Read3ResFail, pack_read3resfail,
  unpack_read3resfail, Read3Res, pack_read3res, unpack_read3res,
}
use perennial.Rfc1813.Basic.RoundTrip.{Reads-nfsstat3}
use perennial.Rfc1813.Structs.RoundTrip.{Reads-nfs_fh3}
use perennial.Rfc1813.Attributes.RoundTrip.{IsPostOpAttr, Reads-post_op_attr}

pub Reads-readlink3args : (d : Readlink3Args) → Reads (pack_readlink3args d) unpack_readlink3args d
unfolding pack_readlink3args unpack_readlink3args
Reads-readlink3args d =
    Reads-last _ _ _ d.symlink d (Reads-field _ _ _ Reads-nfs_fh3 d.symlink) refl

abbrev pub IsReadlink3ResOk : Readlink3ResOk → Type 0
IsReadlink3ResOk d = OnSome IsPostOpAttr d.symlink_attributes

pub Reads-readlink3resok :
    (d : Readlink3ResOk)
    → IsReadlink3ResOk d
    → Reads (pack_readlink3resok d) unpack_readlink3resok d
unfolding pack_readlink3resok unpack_readlink3resok
Reads-readlink3resok d c =
    Reads-bind _ _ _ _ d.symlink_attributes d
      (Reads-field_if _ _ _ IsPostOpAttr Reads-post_op_attr d.symlink_attributes c)
      (Reads-last _ _ _ d.contents d (Reads-field _ _ _ Reads-opaque d.contents) refl)

abbrev pub IsReadlink3ResFail : Readlink3ResFail → Type 0
IsReadlink3ResFail d = OnSome IsPostOpAttr d.symlink_attributes

pub Reads-readlink3resfail :
    (d : Readlink3ResFail)
    → IsReadlink3ResFail d
    → Reads (pack_readlink3resfail d) unpack_readlink3resfail d
unfolding pack_readlink3resfail unpack_readlink3resfail
Reads-readlink3resfail d c =
    Reads-last _ _ _ d.symlink_attributes d
      (Reads-field_if _ _ _ IsPostOpAttr Reads-post_op_attr d.symlink_attributes c) refl

abbrev pub IsReadlink3Res : Readlink3Res → Type 0
IsReadlink3Res d =
    OnSome IsReadlink3ResOk d.resok
    × OnSome IsReadlink3ResFail d.resfail
    × (if field_is d.status nfs3_ok then (d.resfail ≡ none) else (d.resok ≡ none))

pub Reads-readlink3res :
    (d : Readlink3Res) → IsReadlink3Res d → Reads (pack_readlink3res d) unpack_readlink3res d
unfolding pack_readlink3res unpack_readlink3res
Reads-readlink3res d c = Reads-bind _ _ _ _ d.status d (Reads-field _ _ _ Reads-nfsstat3 d.status) (
    Reads-if (field_is d.status nfs3_ok) _ _ _ _ d
      (λ h0.
        let e = (rw h0 at c.2) in
        Reads-last _ _ _ d.resok d
          (Reads-field_if _ _ _ IsReadlink3ResOk Reads-readlink3resok d.resok c.0)
          (λ i. record { status = d.status; resok = d.resok; resfail = sym e i }))
      (λ h0.
        let e = (rw h0 at c.2) in
        Reads-last _ _ _ d.resfail d
          (Reads-field_if _ _ _ IsReadlink3ResFail Reads-readlink3resfail d.resfail c.1)
          (λ i. record { status = d.status; resok = sym e i; resfail = d.resfail })))

abbrev pub IsRead3Args : Read3Args → Type 0
IsRead3Args d = OnSome IsUint64 d.offset

pub Reads-read3args : (d : Read3Args) → IsRead3Args d → Reads (pack_read3args d) unpack_read3args d
unfolding pack_read3args unpack_read3args
Reads-read3args d c = Reads-bind _ _ _ _ d.file d (Reads-field _ _ _ Reads-nfs_fh3 d.file) (
    Reads-bind _ _ _ _ d.offset d (Reads-field_if _ _ _ IsUint64 Reads-uhyper d.offset c)
      (Reads-last _ _ _ d.count d (Reads-field _ _ _ Reads-uint d.count) refl))

abbrev pub IsRead3ResOk : Read3ResOk → Type 0
IsRead3ResOk d = OnSome IsPostOpAttr d.file_attributes × OnSome IsBit d.eof

pub Reads-read3resok :
    (d : Read3ResOk) → IsRead3ResOk d → Reads (pack_read3resok d) unpack_read3resok d
unfolding pack_read3resok unpack_read3resok
Reads-read3resok d c =
    Reads-bind _ _ _ _ d.file_attributes d
      (Reads-field_if _ _ _ IsPostOpAttr Reads-post_op_attr d.file_attributes c.0)
      (Reads-bind _ _ _ _ d.count d (Reads-field _ _ _ Reads-uint d.count) (
        Reads-bind _ _ _ _ d.eof d (Reads-field_if _ _ _ IsBit Reads-bool d.eof c.1)
          (Reads-last _ _ _ d.contents d (Reads-field _ _ _ Reads-opaque d.contents) refl)))

abbrev pub IsRead3ResFail : Read3ResFail → Type 0
IsRead3ResFail d = OnSome IsPostOpAttr d.file_attributes

pub Reads-read3resfail :
    (d : Read3ResFail) → IsRead3ResFail d → Reads (pack_read3resfail d) unpack_read3resfail d
unfolding pack_read3resfail unpack_read3resfail
Reads-read3resfail d c =
    Reads-last _ _ _ d.file_attributes d
      (Reads-field_if _ _ _ IsPostOpAttr Reads-post_op_attr d.file_attributes c) refl

abbrev pub IsRead3Res : Read3Res → Type 0
IsRead3Res d =
    OnSome IsRead3ResOk d.resok
    × OnSome IsRead3ResFail d.resfail
    × (if field_is d.status nfs3_ok then (d.resfail ≡ none) else (d.resok ≡ none))

pub Reads-read3res : (d : Read3Res) → IsRead3Res d → Reads (pack_read3res d) unpack_read3res d
unfolding pack_read3res unpack_read3res
Reads-read3res d c = Reads-bind _ _ _ _ d.status d (Reads-field _ _ _ Reads-nfsstat3 d.status) (
    Reads-if (field_is d.status nfs3_ok) _ _ _ _ d
      (λ h0.
        let e = (rw h0 at c.2) in
        Reads-last _ _ _ d.resok d (Reads-field_if _ _ _ IsRead3ResOk Reads-read3resok d.resok c.0)
          (λ i. record { status = d.status; resok = d.resok; resfail = sym e i }))
      (λ h0.
        let e = (rw h0 at c.2) in
        Reads-last _ _ _ d.resfail d
          (Reads-field_if _ _ _ IsRead3ResFail Reads-read3resfail d.resfail c.1)
          (λ i. record { status = d.status; resok = sym e i; resfail = d.resfail })))
