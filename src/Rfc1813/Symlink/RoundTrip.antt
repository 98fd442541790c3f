-- ===== src/Rfc1813/Symlink/RoundTrip.antt =====
-- Reading back what the packers of Rfc1813/Symlink.antt write.
use perennial.Prelude.{◌≡◌, refl, sym, none, if◌then◌else◌}
use perennial.Xdr.{field_is, OnSome}
use perennial.Xdr.Reads.{Reads, Reads-if, Reads-bind, Reads-last}
use perennial.Xdr.RoundTrip.{Reads-opaque, Reads-field, Reads-field_if}
use perennial.Rfc1813.Const.{nfs3_ok}
use perennial.Rfc1813.Symlink.{
  Symlinkdata3, pack_symlinkdata3, unpack_symlinkdata3, Symlink3Args, pack_symlink3args,
  unpack_symlink3args, Symlink3ResOk, pack_symlink3resok, unpack_symlink3resok, Symlink3ResFail,
  pack_symlink3resfail, unpack_symlink3resfail, Symlink3Res, pack_symlink3res, unpack_symlink3res,
}
use perennial.Rfc1813.Basic.RoundTrip.{Reads-nfsstat3}
use perennial.Rfc1813.Structs.RoundTrip.{Reads-diropargs3}
use perennial.Rfc1813.Attributes.RoundTrip.{
  IsPostOpAttr, Reads-post_op_attr, IsWccData, Reads-wcc_data, IsPostOpFh3, Reads-post_op_fh3,
}
use perennial.Rfc1813.Sattr.RoundTrip.{IsSattr3, Reads-sattr3}

abbrev pub IsSymlinkdata3 : Symlinkdata3 → Type 0
IsSymlinkdata3 d = OnSome IsSattr3 d.symlink_attributes

pub Reads-symlinkdata3 :
    (d : Symlinkdata3) → IsSymlinkdata3 d → Reads (pack_symlinkdata3 d) unpack_symlinkdata3 d
unfolding pack_symlinkdata3 unpack_symlinkdata3
Reads-symlinkdata3 d c =
    Reads-bind _ _ _ _ d.symlink_attributes d
      (Reads-field_if _ _ _ IsSattr3 Reads-sattr3 d.symlink_attributes c)
      (Reads-last _ _ _ d.symlink_data d (Reads-field _ _ _ Reads-opaque d.symlink_data) refl)

abbrev pub IsSymlink3Args : Symlink3Args → Type 0
IsSymlink3Args d = OnSome IsSymlinkdata3 d.symlink

pub Reads-symlink3args :
    (d : Symlink3Args) → IsSymlink3Args d → Reads (pack_symlink3args d) unpack_symlink3args d
unfolding pack_symlink3args unpack_symlink3args
Reads-symlink3args d c = Reads-bind _ _ _ _ d.place d (Reads-field _ _ _ Reads-diropargs3 d.place) (
    Reads-last _ _ _ d.symlink d
      (Reads-field_if _ _ _ IsSymlinkdata3 Reads-symlinkdata3 d.symlink c) refl)

abbrev pub IsSymlink3ResOk : Symlink3ResOk → Type 0
IsSymlink3ResOk d =
    OnSome IsPostOpFh3 d.obj × OnSome IsPostOpAttr d.obj_attributes × OnSome IsWccData d.dir_wcc

pub Reads-symlink3resok :
    (d : Symlink3ResOk) → IsSymlink3ResOk d → Reads (pack_symlink3resok d) unpack_symlink3resok d
unfolding pack_symlink3resok unpack_symlink3resok
Reads-symlink3resok d c =
    Reads-bind _ _ _ _ d.obj d (Reads-field_if _ _ _ IsPostOpFh3 Reads-post_op_fh3 d.obj c.0) (
      Reads-bind _ _ _ _ d.obj_attributes d
        (Reads-field_if _ _ _ IsPostOpAttr Reads-post_op_attr d.obj_attributes c.1)
        (Reads-last _ _ _ d.dir_wcc d (Reads-field_if _ _ _ IsWccData Reads-wcc_data d.dir_wcc c.2)
          refl))

abbrev pub IsSymlink3ResFail : Symlink3ResFail → Type 0
IsSymlink3ResFail d = OnSome IsWccData d.dir_wcc

pub Reads-symlink3resfail :
    (d : Symlink3ResFail)
    → IsSymlink3ResFail d
    → Reads (pack_symlink3resfail d) unpack_symlink3resfail d
unfolding pack_symlink3resfail unpack_symlink3resfail
Reads-symlink3resfail d c =
    Reads-last _ _ _ d.dir_wcc d (Reads-field_if _ _ _ IsWccData Reads-wcc_data d.dir_wcc c) refl

abbrev pub IsSymlink3Res : Symlink3Res → Type 0
IsSymlink3Res d =
    OnSome IsSymlink3ResOk d.resok
    × OnSome IsSymlink3ResFail d.resfail
    × (if field_is d.status nfs3_ok then (d.resfail ≡ none) else (d.resok ≡ none))

pub Reads-symlink3res :
    (d : Symlink3Res) → IsSymlink3Res d → Reads (pack_symlink3res d) unpack_symlink3res d
unfolding pack_symlink3res unpack_symlink3res
Reads-symlink3res d c = Reads-bind _ _ _ _ d.status d (Reads-field _ _ _ Reads-nfsstat3 d.status) (
    Reads-if (field_is d.status nfs3_ok) _ _ _ _ d
      (λ h0.
        let e = (rw h0 at c.2) in
        Reads-last _ _ _ d.resok d
          (Reads-field_if _ _ _ IsSymlink3ResOk Reads-symlink3resok d.resok c.0)
          (λ i. record { status = d.status; resok = d.resok; resfail = sym e i }))
      (λ h0.
        let e = (rw h0 at c.2) in
        Reads-last _ _ _ d.resfail d
          (Reads-field_if _ _ _ IsSymlink3ResFail Reads-symlink3resfail d.resfail c.1)
          (λ i. record { status = d.status; resok = sym e i; resfail = d.resfail })))
