-- ===== src/Rfc1813/Create/RoundTrip.antt =====
-- Reading back what the packers of Rfc1813/Create.antt write.
use perennial.Prelude.{◌≡◌, refl, sym, ◌||◌, none, if◌then◌else◌}
use perennial.Xdr.{ℤ, field_is, OnSome}
use perennial.Xdr.Reads.{Reads, Reads-raise, Reads-if, Reads-bind, Reads-last}
use perennial.Xdr.RoundTrip.{Reads-field, Reads-field_if, Reads-enum}
use perennial.Rfc1813.Const.{nfs3_ok, unchecked, guarded, exclusive}
use perennial.Rfc1813.Create.{
  createmode3_values, pack_createmode3, unpack_createmode3, Createhow3, pack_createhow3,
  unpack_createhow3, Create3Args, pack_create3args, unpack_create3args, Create3ResOk,
  pack_create3resok, unpack_create3resok, Create3ResFail, pack_create3resfail,
  unpack_create3resfail, Create3Res, pack_create3res, unpack_create3res, Mkdir3Args,
  pack_mkdir3args, unpack_mkdir3args, Mkdir3ResOk, pack_mkdir3resok, unpack_mkdir3resok,
  Mkdir3ResFail, pack_mkdir3resfail, unpack_mkdir3resfail, Mkdir3Res, pack_mkdir3res,
  unpack_mkdir3res,
}
use perennial.Rfc1813.Basic.RoundTrip.{IsCreateverf3, Reads-createverf3, Reads-nfsstat3}
use perennial.Rfc1813.Structs.RoundTrip.{Reads-diropargs3}
use perennial.Rfc1813.Attributes.RoundTrip.{
  IsPostOpAttr, Reads-post_op_attr, IsWccData, Reads-wcc_data, IsPostOpFh3, Reads-post_op_fh3,
}
use perennial.Rfc1813.Sattr.RoundTrip.{IsSattr3, Reads-sattr3}

pub Reads-createmode3 : (z : ℤ) → Reads (pack_createmode3 z) unpack_createmode3 z
unfolding pack_createmode3 unpack_createmode3
Reads-createmode3 = Reads-enum createmode3_values

abbrev pub IsCreatehow3 : Createhow3 → Type 0
IsCreatehow3 d =
    OnSome IsSattr3 d.obj_attributes
    × OnSome IsCreateverf3 d.verf
    × (if field_is d.mode unchecked || field_is d.mode guarded
        then (d.verf ≡ none)
        else if field_is d.mode exclusive
        then (d.obj_attributes ≡ none)
        else Unit {0})

pub Reads-createhow3 :
    (d : Createhow3) → IsCreatehow3 d → Reads (pack_createhow3 d) unpack_createhow3 d
unfolding pack_createhow3 unpack_createhow3
Reads-createhow3 d c = Reads-bind _ _ _ _ d.mode d (Reads-field _ _ _ Reads-createmode3 d.mode) (
    Reads-if (field_is d.mode unchecked || field_is d.mode guarded) _ _ _ _ d
      (λ h0.
        let e = (rw h0 at c.2) in
        Reads-last _ _ _ d.obj_attributes d
          (Reads-field_if _ _ _ IsSattr3 Reads-sattr3 d.obj_attributes c.0)
          (λ i. record { mode = d.mode; obj_attributes = d.obj_attributes; verf = sym e i }))
      (λ h0.
        Reads-if (field_is d.mode exclusive) _ _ _ _ d
          (λ h1.
            let e = (rw h1 at (rw h0 at c.2)) in
            Reads-last _ _ _ d.verf d
              (Reads-field_if _ _ _ IsCreateverf3 Reads-createverf3 d.verf c.1)
              (λ i. record { mode = d.mode; obj_attributes = sym e i; verf = d.verf }))
          (λ h1. Reads-raise _ d)))

abbrev pub IsCreate3Args : Create3Args → Type 0
IsCreate3Args d = OnSome IsCreatehow3 d.how

pub Reads-create3args :
    (d : Create3Args) → IsCreate3Args d → Reads (pack_create3args d) unpack_create3args d
unfolding pack_create3args unpack_create3args
Reads-create3args d c =
    Reads-bind _ _ _ _ d.place d (Reads-field _ _ _ Reads-diropargs3 d.place)
      (Reads-last _ _ _ d.how d (Reads-field_if _ _ _ IsCreatehow3 Reads-createhow3 d.how c) refl)

abbrev pub IsCreate3ResOk : Create3ResOk → Type 0
IsCreate3ResOk d =
    OnSome IsPostOpFh3 d.obj × OnSome IsPostOpAttr d.obj_attributes × OnSome IsWccData d.dir_wcc

pub Reads-create3resok :
    (d : Create3ResOk) → IsCreate3ResOk d → Reads (pack_create3resok d) unpack_create3resok d
unfolding pack_create3resok unpack_create3resok
Reads-create3resok d c =
    Reads-bind _ _ _ _ d.obj d (Reads-field_if _ _ _ IsPostOpFh3 Reads-post_op_fh3 d.obj c.0) (
      Reads-bind _ _ _ _ d.obj_attributes d
        (Reads-field_if _ _ _ IsPostOpAttr Reads-post_op_attr d.obj_attributes c.1)
        (Reads-last _ _ _ d.dir_wcc d (Reads-field_if _ _ _ IsWccData Reads-wcc_data d.dir_wcc c.2)
          refl))

abbrev pub IsCreate3ResFail : Create3ResFail → Type 0
IsCreate3ResFail d = OnSome IsWccData d.dir_wcc

pub Reads-create3resfail :
    (d : Create3ResFail)
    → IsCreate3ResFail d
    → Reads (pack_create3resfail d) unpack_create3resfail d
unfolding pack_create3resfail unpack_create3resfail
Reads-create3resfail d c =
    Reads-last _ _ _ d.dir_wcc d (Reads-field_if _ _ _ IsWccData Reads-wcc_data d.dir_wcc c) refl

abbrev pub IsCreate3Res : Create3Res → Type 0
IsCreate3Res d =
    OnSome IsCreate3ResOk d.resok
    × OnSome IsCreate3ResFail d.resfail
    × (if field_is d.status nfs3_ok then (d.resfail ≡ none) else (d.resok ≡ none))

pub Reads-create3res :
    (d : Create3Res) → IsCreate3Res d → Reads (pack_create3res d) unpack_create3res d
unfolding pack_create3res unpack_create3res
Reads-create3res d c = Reads-bind _ _ _ _ d.status d (Reads-field _ _ _ Reads-nfsstat3 d.status) (
    Reads-if (field_is d.status nfs3_ok) _ _ _ _ d
      (λ h0.
        let e = (rw h0 at c.2) in
        Reads-last _ _ _ d.resok d
          (Reads-field_if _ _ _ IsCreate3ResOk Reads-create3resok d.resok c.0)
          (λ i. record { status = d.status; resok = d.resok; resfail = sym e i }))
      (λ h0.
        let e = (rw h0 at c.2) in
        Reads-last _ _ _ d.resfail d
          (Reads-field_if _ _ _ IsCreate3ResFail Reads-create3resfail d.resfail c.1)
          (λ i. record { status = d.status; resok = sym e i; resfail = d.resfail })))

abbrev pub IsMkdir3Args : Mkdir3Args → Type 0
IsMkdir3Args d = OnSome IsSattr3 d.attributes

pub Reads-mkdir3args :
    (d : Mkdir3Args) → IsMkdir3Args d → Reads (pack_mkdir3args d) unpack_mkdir3args d
unfolding pack_mkdir3args unpack_mkdir3args
Reads-mkdir3args d c = Reads-bind _ _ _ _ d.place d (Reads-field _ _ _ Reads-diropargs3 d.place) (
    Reads-last _ _ _ d.attributes d (Reads-field_if _ _ _ IsSattr3 Reads-sattr3 d.attributes c)
      refl)

abbrev pub IsMkdir3ResOk : Mkdir3ResOk → Type 0
IsMkdir3ResOk d =
    OnSome IsPostOpFh3 d.obj × OnSome IsPostOpAttr d.obj_attributes × OnSome IsWccData d.dir_wcc

pub Reads-mkdir3resok :
    (d : Mkdir3ResOk) → IsMkdir3ResOk d → Reads (pack_mkdir3resok d) unpack_mkdir3resok d
unfolding pack_mkdir3resok unpack_mkdir3resok
Reads-mkdir3resok d c =
    Reads-bind _ _ _ _ d.obj d (Reads-field_if _ _ _ IsPostOpFh3 Reads-post_op_fh3 d.obj c.0) (
      Reads-bind _ _ _ _ d.obj_attributes d
        (Reads-field_if _ _ _ IsPostOpAttr Reads-post_op_attr d.obj_attributes c.1)
        (Reads-last _ _ _ d.dir_wcc d (Reads-field_if _ _ _ IsWccData Reads-wcc_data d.dir_wcc c.2)
          refl))

abbrev pub IsMkdir3ResFail : Mkdir3ResFail → Type 0
IsMkdir3ResFail d = OnSome IsWccData d.dir_wcc

pub Reads-mkdir3resfail :
    (d : Mkdir3ResFail) → IsMkdir3ResFail d → Reads (pack_mkdir3resfail d) unpack_mkdir3resfail d
unfolding pack_mkdir3resfail unpack_mkdir3resfail
Reads-mkdir3resfail d c =
    Reads-last _ _ _ d.dir_wcc d (Reads-field_if _ _ _ IsWccData Reads-wcc_data d.dir_wcc c) refl

abbrev pub IsMkdir3Res : Mkdir3Res → Type 0
IsMkdir3Res d =
    OnSome IsMkdir3ResOk d.resok
    × OnSome IsMkdir3ResFail d.resfail
    × (if field_is d.status nfs3_ok then (d.resfail ≡ none) else (d.resok ≡ none))

pub Reads-mkdir3res : (d : Mkdir3Res) → IsMkdir3Res d → Reads (pack_mkdir3res d) unpack_mkdir3res d
unfolding pack_mkdir3res unpack_mkdir3res
Reads-mkdir3res d c = Reads-bind _ _ _ _ d.status d (Reads-field _ _ _ Reads-nfsstat3 d.status) (
    Reads-if (field_is d.status nfs3_ok) _ _ _ _ d
      (λ h0.
        let e = (rw h0 at c.2) in
        Reads-last _ _ _ d.resok d
          (Reads-field_if _ _ _ IsMkdir3ResOk Reads-mkdir3resok d.resok c.0)
          (λ i. record { status = d.status; resok = d.resok; resfail = sym e i }))
      (λ h0.
        let e = (rw h0 at c.2) in
        Reads-last _ _ _ d.resfail d
          (Reads-field_if _ _ _ IsMkdir3ResFail Reads-mkdir3resfail d.resfail c.1)
          (λ i. record { status = d.status; resok = sym e i; resfail = d.resfail })))
