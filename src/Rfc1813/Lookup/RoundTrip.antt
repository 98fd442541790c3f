-- ===== src/Rfc1813/Lookup/RoundTrip.antt =====
-- Reading back what the packers of Rfc1813/Lookup.antt write.
use perennial.Prelude.{◌≡◌, refl, sym, none, if◌then◌else◌}
use perennial.Xdr.{field_is, OnSome}
use perennial.Xdr.Reads.{Reads, Reads-if, Reads-bind, Reads-last}
use perennial.Xdr.RoundTrip.{Reads-uint, Reads-field, Reads-field_if}
use perennial.Rfc1813.Const.{nfs3_ok}
use perennial.Rfc1813.Lookup.{
  Lookup3Args, pack_lookup3args, unpack_lookup3args, Lookup3ResOk, pack_lookup3resok,
  unpack_lookup3resok, Lookup3ResFail, pack_lookup3resfail, unpack_lookup3resfail, Lookup3Res,
  pack_lookup3res, unpack_lookup3res, Access3Args, pack_access3args, unpack_access3args,
  Access3ResOk, pack_access3resok, unpack_access3resok, Access3ResFail, pack_access3resfail,
  unpack_access3resfail, Access3Res, pack_access3res, unpack_access3res,
}
use perennial.Rfc1813.Basic.RoundTrip.{Reads-nfsstat3}
use perennial.Rfc1813.Structs.RoundTrip.{Reads-nfs_fh3, Reads-diropargs3}
use perennial.Rfc1813.Attributes.RoundTrip.{IsPostOpAttr, Reads-post_op_attr}

pub Reads-lookup3args : (d : Lookup3Args) → Reads (pack_lookup3args d) unpack_lookup3args d
unfolding pack_lookup3args unpack_lookup3args
Reads-lookup3args d = Reads-last _ _ _ d.what d (Reads-field _ _ _ Reads-diropargs3 d.what) refl

abbrev pub IsLookup3ResOk : Lookup3ResOk → Type 0
IsLookup3ResOk d = OnSome IsPostOpAttr d.obj_attributes × OnSome IsPostOpAttr d.dir_attributes

pub Reads-lookup3resok :
    (d : Lookup3ResOk) → IsLookup3ResOk d → Reads (pack_lookup3resok d) unpack_lookup3resok d
unfolding pack_lookup3resok unpack_lookup3resok
Reads-lookup3resok d c = Reads-bind _ _ _ _ d.object d (Reads-field _ _ _ Reads-nfs_fh3 d.object) (
    Reads-bind _ _ _ _ d.obj_attributes d
      (Reads-field_if _ _ _ IsPostOpAttr Reads-post_op_attr d.obj_attributes c.0)
      (Reads-last _ _ _ d.dir_attributes d
        (Reads-field_if _ _ _ IsPostOpAttr Reads-post_op_attr d.dir_attributes c.1) refl))

abbrev pub IsLookup3ResFail : Lookup3ResFail → Type 0
IsLookup3ResFail d = OnSome IsPostOpAttr d.dir_attributes

pub Reads-lookup3resfail :
    (d : Lookup3ResFail)
    → IsLookup3ResFail d
    → Reads (pack_lookup3resfail d) unpack_lookup3resfail d
unfolding pack_lookup3resfail unpack_lookup3resfail
Reads-lookup3resfail d c =
    Reads-last _ _ _ d.dir_attributes d
      (Reads-field_if _ _ _ IsPostOpAttr Reads-post_op_attr d.dir_attributes c) refl

abbrev pub IsLookup3Res : Lookup3Res → Type 0
IsLookup3Res d =
    OnSome IsLookup3ResOk d.resok
    × OnSome IsLookup3ResFail d.resfail
    × (if field_is d.status nfs3_ok then (d.resfail ≡ none) else (d.resok ≡ none))

pub Reads-lookup3res :
    (d : Lookup3Res) → IsLookup3Res d → Reads (pack_lookup3res d) unpack_lookup3res d
unfolding pack_lookup3res unpack_lookup3res
Reads-lookup3res d c = Reads-bind _ _ _ _ d.status d (Reads-field _ _ _ Reads-nfsstat3 d.status) (
    Reads-if (field_is d.status nfs3_ok) _ _ _ _ d
      (λ h0.
        let e = (rw h0 at c.2) in
        Reads-last _ _ _ d.resok d
          (Reads-field_if _ _ _ IsLookup3ResOk Reads-lookup3resok d.resok c.0)
          (λ i. record { status = d.status; resok = d.resok; resfail = sym e i }))
      (λ h0.
        let e = (rw h0 at c.2) in
        Reads-last _ _ _ d.resfail d
          (Reads-field_if _ _ _ IsLookup3ResFail Reads-lookup3resfail d.resfail c.1)
          (λ i. record { status = d.status; resok = sym e i; resfail = d.resfail })))

pub Reads-access3args : (d : Access3Args) → Reads (pack_access3args d) unpack_access3args d
unfolding pack_access3args unpack_access3args
Reads-access3args d =
    Reads-bind _ _ _ _ d.object d (Reads-field _ _ _ Reads-nfs_fh3 d.object)
      (Reads-last _ _ _ d.access d (Reads-field _ _ _ Reads-uint d.access) refl)

abbrev pub IsAccess3ResOk : Access3ResOk → Type 0
IsAccess3ResOk d = OnSome IsPostOpAttr d.obj_attributes

pub Reads-access3resok :
    (d : Access3ResOk) → IsAccess3ResOk d → Reads (pack_access3resok d) unpack_access3resok d
unfolding pack_access3resok unpack_access3resok
Reads-access3resok d c =
    Reads-bind _ _ _ _ d.obj_attributes d
      (Reads-field_if _ _ _ IsPostOpAttr Reads-post_op_attr d.obj_attributes c)
      (Reads-last _ _ _ d.access d (Reads-field _ _ _ Reads-uint d.access) refl)

abbrev pub IsAccess3ResFail : Access3ResFail → Type 0
IsAccess3ResFail d = OnSome IsPostOpAttr d.obj_attributes

pub Reads-access3resfail :
    (d : Access3ResFail)
    → IsAccess3ResFail d
    → Reads (pack_access3resfail d) unpack_access3resfail d
unfolding pack_access3resfail unpack_access3resfail
Reads-access3resfail d c =
    Reads-last _ _ _ d.obj_attributes d
      (Reads-field_if _ _ _ IsPostOpAttr Reads-post_op_attr d.obj_attributes c) refl

abbrev pub IsAccess3Res : Access3Res → Type 0
IsAccess3Res d =
    OnSome IsAccess3ResOk d.resok
    × OnSome IsAccess3ResFail d.resfail
    × (if field_is d.status nfs3_ok then (d.resfail ≡ none) else (d.resok ≡ none))

pub Reads-access3res :
    (d : Access3Res) → IsAccess3Res d → Reads (pack_access3res d) unpack_access3res d
unfolding pack_access3res unpack_access3res
Reads-access3res d c = Reads-bind _ _ _ _ d.status d (Reads-field _ _ _ Reads-nfsstat3 d.status) (
    Reads-if (field_is d.status nfs3_ok) _ _ _ _ d
      (λ h0.
        let e = (rw h0 at c.2) in
        Reads-last _ _ _ d.resok d
          (Reads-field_if _ _ _ IsAccess3ResOk Reads-access3resok d.resok c.0)
          (λ i. record { status = d.status; resok = d.resok; resfail = sym e i }))
      (λ h0.
        let e = (rw h0 at c.2) in
        Reads-last _ _ _ d.resfail d
          (Reads-field_if _ _ _ IsAccess3ResFail Reads-access3resfail d.resfail c.1)
          (λ i. record { status = d.status; resok = sym e i; resfail = d.resfail })))
