-- ===== src/Rfc1813/Rename/RoundTrip.antt =====
-- Reading back what the packers of Rfc1813/Rename.antt write.
use perennial.Prelude.{◌≡◌, refl, sym, none, if◌then◌else◌}
use perennial.Xdr.{field_is, OnSome}
use perennial.Xdr.Reads.{Reads, Reads-if, Reads-bind, Reads-last}
use perennial.Xdr.RoundTrip.{Reads-field, Reads-field_if}
use perennial.Rfc1813.Const.{nfs3_ok}
use perennial.Rfc1813.Rename.{
  Rename3Args, pack_rename3args, unpack_rename3args, Rename3ResOk, pack_rename3resok,
  unpack_rename3resok, Rename3ResFail, pack_rename3resfail, unpack_rename3resfail, Rename3Res,
  pack_rename3res, unpack_rename3res, Link3Args, pack_link3args, unpack_link3args, Link3ResOk,
  pack_link3resok, unpack_link3resok, Link3ResFail, pack_link3resfail, unpack_link3resfail,
  Link3Res, pack_link3res, unpack_link3res,
}
use perennial.Rfc1813.Basic.RoundTrip.{Reads-nfsstat3}
use perennial.Rfc1813.Structs.RoundTrip.{Reads-nfs_fh3, Reads-diropargs3}
use perennial.Rfc1813.Attributes.RoundTrip.{
  IsPostOpAttr, Reads-post_op_attr, IsWccData, Reads-wcc_data,
}

pub Reads-rename3args : (d : Rename3Args) → Reads (pack_rename3args d) unpack_rename3args d
unfolding pack_rename3args unpack_rename3args
Reads-rename3args d =
    Reads-bind _ _ _ _ d.xfrom d (Reads-field _ _ _ Reads-diropargs3 d.xfrom)
      (Reads-last _ _ _ d.xto d (Reads-field _ _ _ Reads-diropargs3 d.xto) refl)

abbrev pub IsRename3ResOk : Rename3ResOk → Type 0
IsRename3ResOk d = OnSome IsWccData d.fromdir_wcc × OnSome IsWccData d.todir_wcc

pub Reads-rename3resok :
    (d : Rename3ResOk) → IsRename3ResOk d → Reads (pack_rename3resok d) unpack_rename3resok d
unfolding pack_rename3resok unpack_rename3resok
Reads-rename3resok d c =
    Reads-bind _ _ _ _ d.fromdir_wcc d
      (Reads-field_if _ _ _ IsWccData Reads-wcc_data d.fromdir_wcc c.0)
      (Reads-last _ _ _ d.todir_wcc d
        (Reads-field_if _ _ _ IsWccData Reads-wcc_data d.todir_wcc c.1) refl)

abbrev pub IsRename3ResFail : Rename3ResFail → Type 0
IsRename3ResFail d = OnSome IsWccData d.fromdir_wcc × OnSome IsWccData d.todir_wcc

pub Reads-rename3resfail :
    (d : Rename3ResFail)
    → IsRename3ResFail d
    → Reads (pack_rename3resfail d) unpack_rename3resfail d
unfolding pack_rename3resfail unpack_rename3resfail
Reads-rename3resfail d c =
    Reads-bind _ _ _ _ d.fromdir_wcc d
      (Reads-field_if _ _ _ IsWccData Reads-wcc_data d.fromdir_wcc c.0)
      (Reads-last _ _ _ d.todir_wcc d
        (Reads-field_if _ _ _ IsWccData Reads-wcc_data d.todir_wcc c.1) refl)

abbrev pub IsRename3Res : Rename3Res → Type 0
IsRename3Res d =
    OnSome IsRename3ResOk d.resok
    × OnSome IsRename3ResFail d.resfail
    × (if field_is d.status nfs3_ok then (d.resfail ≡ none) else (d.resok ≡ none))

pub Reads-rename3res :
    (d : Rename3Res) → IsRename3Res d → Reads (pack_rename3res d) unpack_rename3res d
unfolding pack_rename3res unpack_rename3res
Reads-rename3res d c = Reads-bind _ _ _ _ d.status d (Reads-field _ _ _ Reads-nfsstat3 d.status) (
    Reads-if (field_is d.status nfs3_ok) _ _ _ _ d
      (λ h0.
        let e = (rw h0 at c.2) in
        Reads-last _ _ _ d.resok d
          (Reads-field_if _ _ _ IsRename3ResOk Reads-rename3resok d.resok c.0)
          (λ i. record { status = d.status; resok = d.resok; resfail = sym e i }))
      (λ h0.
        let e = (rw h0 at c.2) in
        Reads-last _ _ _ d.resfail d
          (Reads-field_if _ _ _ IsRename3ResFail Reads-rename3resfail d.resfail c.1)
          (λ i. record { status = d.status; resok = sym e i; resfail = d.resfail })))

pub Reads-link3args : (d : Link3Args) → Reads (pack_link3args d) unpack_link3args d
unfolding pack_link3args unpack_link3args
Reads-link3args d =
    Reads-bind _ _ _ _ d.file d (Reads-field _ _ _ Reads-nfs_fh3 d.file)
      (Reads-last _ _ _ d.link d (Reads-field _ _ _ Reads-diropargs3 d.link) refl)

abbrev pub IsLink3ResOk : Link3ResOk → Type 0
IsLink3ResOk d = OnSome IsPostOpAttr d.file_attributes × OnSome IsWccData d.linkdir_wcc

pub Reads-link3resok :
    (d : Link3ResOk) → IsLink3ResOk d → Reads (pack_link3resok d) unpack_link3resok d
unfolding pack_link3resok unpack_link3resok
Reads-link3resok d c =
    Reads-bind _ _ _ _ d.file_attributes d
      (Reads-field_if _ _ _ IsPostOpAttr Reads-post_op_attr d.file_attributes c.0)
      (Reads-last _ _ _ d.linkdir_wcc d
        (Reads-field_if _ _ _ IsWccData Reads-wcc_data d.linkdir_wcc c.1) refl)

abbrev pub IsLink3ResFail : Link3ResFail → Type 0
IsLink3ResFail d = OnSome IsPostOpAttr d.file_attributes × OnSome IsWccData d.linkdir_wcc

pub Reads-link3resfail :
    (d : Link3ResFail) → IsLink3ResFail d → Reads (pack_link3resfail d) unpack_link3resfail d
unfolding pack_link3resfail unpack_link3resfail
Reads-link3resfail d c =
    Reads-bind _ _ _ _ d.file_attributes d
      (Reads-field_if _ _ _ IsPostOpAttr Reads-post_op_attr d.file_attributes c.0)
      (Reads-last _ _ _ d.linkdir_wcc d
        (Reads-field_if _ _ _ IsWccData Reads-wcc_data d.linkdir_wcc c.1) refl)

abbrev pub IsLink3Res : Link3Res → Type 0
IsLink3Res d =
    OnSome IsLink3ResOk d.resok
    × OnSome IsLink3ResFail d.resfail
    × (if field_is d.status nfs3_ok then (d.resfail ≡ none) else (d.resok ≡ none))

pub Reads-link3res : (d : Link3Res) → IsLink3Res d → Reads (pack_link3res d) unpack_link3res d
unfolding pack_link3res unpack_link3res
Reads-link3res d c = Reads-bind _ _ _ _ d.status d (Reads-field _ _ _ Reads-nfsstat3 d.status) (
    Reads-if (field_is d.status nfs3_ok) _ _ _ _ d
      (λ h0.
        let e = (rw h0 at c.2) in
        Reads-last _ _ _ d.resok d (Reads-field_if _ _ _ IsLink3ResOk Reads-link3resok d.resok c.0)
          (λ i. record { status = d.status; resok = d.resok; resfail = sym e i }))
      (λ h0.
        let e = (rw h0 at c.2) in
        Reads-last _ _ _ d.resfail d
          (Reads-field_if _ _ _ IsLink3ResFail Reads-link3resfail d.resfail c.1)
          (λ i. record { status = d.status; resok = sym e i; resfail = d.resfail })))
