-- ===== src/Rfc1813/Pathconf/RoundTrip.antt =====
-- Reading back what the packers of Rfc1813/Pathconf.antt write.
use perennial.Prelude.{◌≡◌, refl, sym, none, if◌then◌else◌}
use perennial.Xdr.{field_is, OnSome}
use perennial.Xdr.Reads.{Reads, Reads-if, Reads-bind, Reads-last}
use perennial.Xdr.RoundTrip.{
  Reads-uint, IsUint64, Reads-uhyper, IsBit, Reads-bool, Reads-field, Reads-field_if,
}
use perennial.Rfc1813.Const.{nfs3_ok}
use perennial.Rfc1813.Pathconf.{
  Pathconf3Args, pack_pathconf3args, unpack_pathconf3args, Pathconf3ResOk, pack_pathconf3resok,
  unpack_pathconf3resok, Pathconf3ResFail, pack_pathconf3resfail, unpack_pathconf3resfail,
  Pathconf3Res, pack_pathconf3res, unpack_pathconf3res, Commit3Args, pack_commit3args,
  unpack_commit3args, Commit3ResOk, pack_commit3resok, unpack_commit3resok, Commit3ResFail,
  pack_commit3resfail, unpack_commit3resfail, Commit3Res, pack_commit3res, unpack_commit3res,
}
use perennial.Rfc1813.Basic.RoundTrip.{IsWriteverf3, Reads-writeverf3, Reads-nfsstat3}
use perennial.Rfc1813.Structs.RoundTrip.{Reads-nfs_fh3}
use perennial.Rfc1813.Attributes.RoundTrip.{
  IsPostOpAttr, Reads-post_op_attr, IsWccData, Reads-wcc_data,
}

pub Reads-pathconf3args : (d : Pathconf3Args) → Reads (pack_pathconf3args d) unpack_pathconf3args d
unfolding pack_pathconf3args unpack_pathconf3args
Reads-pathconf3args d = Reads-last _ _ _ d.object d (Reads-field _ _ _ Reads-nfs_fh3 d.object) refl

abbrev pub IsPathconf3ResOk : Pathconf3ResOk → Type 0
IsPathconf3ResOk d =
    OnSome IsPostOpAttr d.obj_attributes
    × OnSome IsBit d.no_trunc
    × OnSome IsBit d.chown_restricted
    × OnSome IsBit d.case_insensitive
    × OnSome IsBit d.case_preserving

pub Reads-pathconf3resok :
    (d : Pathconf3ResOk)
    → IsPathconf3ResOk d
    → Reads (pack_pathconf3resok d) unpack_pathconf3resok d
unfolding pack_pathconf3resok unpack_pathconf3resok
Reads-pathconf3resok d c =
    Reads-bind _ _ _ _ d.obj_attributes d
      (Reads-field_if _ _ _ IsPostOpAttr Reads-post_op_attr d.obj_attributes c.0)
      (Reads-bind _ _ _ _ d.linkmax d (Reads-field _ _ _ Reads-uint d.linkmax) (
        Reads-bind _ _ _ _ d.name_max d (Reads-field _ _ _ Reads-uint d.name_max) (
          Reads-bind _ _ _ _ d.no_trunc d (Reads-field_if _ _ _ IsBit Reads-bool d.no_trunc c.1) (
            Reads-bind _ _ _ _ d.chown_restricted d
              (Reads-field_if _ _ _ IsBit Reads-bool d.chown_restricted c.2)
              (Reads-bind _ _ _ _ d.case_insensitive d
                (Reads-field_if _ _ _ IsBit Reads-bool d.case_insensitive c.3)
                (Reads-last _ _ _ d.case_preserving d
                  (Reads-field_if _ _ _ IsBit Reads-bool d.case_preserving c.4) refl))))))

abbrev pub IsPathconf3ResFail : Pathconf3ResFail → Type 0
IsPathconf3ResFail d = OnSome IsPostOpAttr d.obj_attributes

pub Reads-pathconf3resfail :
    (d : Pathconf3ResFail)
    → IsPathconf3ResFail d
    → Reads (pack_pathconf3resfail d) unpack_pathconf3resfail d
unfolding pack_pathconf3resfail unpack_pathconf3resfail
Reads-pathconf3resfail d c =
    Reads-last _ _ _ d.obj_attributes d
      (Reads-field_if _ _ _ IsPostOpAttr Reads-post_op_attr d.obj_attributes c) refl

abbrev pub IsPathconf3Res : Pathconf3Res → Type 0
IsPathconf3Res d =
    OnSome IsPathconf3ResOk d.resok
    × OnSome IsPathconf3ResFail d.resfail
    × (if field_is d.status nfs3_ok then (d.resfail ≡ none) else (d.resok ≡ none))

pub Reads-pathconf3res :
    (d : Pathconf3Res) → IsPathconf3Res d → Reads (pack_pathconf3res d) unpack_pathconf3res d
unfolding pack_pathconf3res unpack_pathconf3res
Reads-pathconf3res d c = Reads-bind _ _ _ _ d.status d (Reads-field _ _ _ Reads-nfsstat3 d.status) (
    Reads-if (field_is d.status nfs3_ok) _ _ _ _ d
      (λ h0.
        let e = (rw h0 at c.2) in
        Reads-last _ _ _ d.resok d
          (Reads-field_if _ _ _ IsPathconf3ResOk Reads-pathconf3resok d.resok c.0)
          (λ i. record { status = d.status; resok = d.resok; resfail = sym e i }))
      (λ h0.
        let e = (rw h0 at c.2) in
        Reads-last _ _ _ d.resfail d
          (Reads-field_if _ _ _ IsPathconf3ResFail Reads-pathconf3resfail d.resfail c.1)
          (λ i. record { status = d.status; resok = sym e i; resfail = d.resfail })))

abbrev pub IsCommit3Args : Commit3Args → Type 0
IsCommit3Args d = OnSome IsUint64 d.offset

pub Reads-commit3args :
    (d : Commit3Args) → IsCommit3Args d → Reads (pack_commit3args d) unpack_commit3args d
unfolding pack_commit3args unpack_commit3args
Reads-commit3args d c = Reads-bind _ _ _ _ d.file d (Reads-field _ _ _ Reads-nfs_fh3 d.file) (
    Reads-bind _ _ _ _ d.offset d (Reads-field_if _ _ _ IsUint64 Reads-uhyper d.offset c)
      (Reads-last _ _ _ d.count d (Reads-field _ _ _ Reads-uint d.count) refl))

abbrev pub IsCommit3ResOk : Commit3ResOk → Type 0
IsCommit3ResOk d = OnSome IsWccData d.file_wcc × OnSome IsWriteverf3 d.verf

pub Reads-commit3resok :
    (d : Commit3ResOk) → IsCommit3ResOk d → Reads (pack_commit3resok d) unpack_commit3resok d
unfolding pack_commit3resok unpack_commit3resok
Reads-commit3resok d c =
    Reads-bind _ _ _ _ d.file_wcc d (Reads-field_if _ _ _ IsWccData Reads-wcc_data d.file_wcc c.0) (
      Reads-last _ _ _ d.verf d (Reads-field_if _ _ _ IsWriteverf3 Reads-writeverf3 d.verf c.1)
        refl)

abbrev pub IsCommit3ResFail : Commit3ResFail → Type 0
IsCommit3ResFail d = OnSome IsWccData d.file_wcc

pub Reads-commit3resfail :
    (d : Commit3ResFail)
    → IsCommit3ResFail d
    → Reads (pack_commit3resfail d) unpack_commit3resfail d
unfolding pack_commit3resfail unpack_commit3resfail
Reads-commit3resfail d c =
    Reads-last _ _ _ d.file_wcc d (Reads-field_if _ _ _ IsWccData Reads-wcc_data d.file_wcc c) refl

abbrev pub IsCommit3Res : Commit3Res → Type 0
IsCommit3Res d =
    OnSome IsCommit3ResOk d.resok
    × OnSome IsCommit3ResFail d.resfail
    × (if field_is d.status nfs3_ok then (d.resfail ≡ none) else (d.resok ≡ none))

pub Reads-commit3res :
    (d : Commit3Res) → IsCommit3Res d → Reads (pack_commit3res d) unpack_commit3res d
unfolding pack_commit3res unpack_commit3res
Reads-commit3res d c = Reads-bind _ _ _ _ d.status d (Reads-field _ _ _ Reads-nfsstat3 d.status) (
    Reads-if (field_is d.status nfs3_ok) _ _ _ _ d
      (λ h0.
        let e = (rw h0 at c.2) in
        Reads-last _ _ _ d.resok d
          (Reads-field_if _ _ _ IsCommit3ResOk Reads-commit3resok d.resok c.0)
          (λ i. record { status = d.status; resok = d.resok; resfail = sym e i }))
      (λ h0.
        let e = (rw h0 at c.2) in
        Reads-last _ _ _ d.resfail d
          (Reads-field_if _ _ _ IsCommit3ResFail Reads-commit3resfail d.resfail c.1)
          (λ i. record { status = d.status; resok = sym e i; resfail = d.resfail })))
