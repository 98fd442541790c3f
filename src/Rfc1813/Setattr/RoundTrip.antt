-- ===== src/Rfc1813/Setattr/RoundTrip.antt =====
-- Reading back what the packers of Rfc1813/Setattr.antt write.
use perennial.Prelude.{◌≡◌, refl, sym, none, if◌then◌else◌}
use perennial.Xdr.{field_is, OnSome}
use perennial.Xdr.Reads.{Reads, Reads-raise, Reads-if, Reads-bind, Reads-last, Reads-done}
use perennial.Xdr.RoundTrip.{IsBit, Reads-bool, Reads-field, Reads-field_if}
use perennial.Rfc1813.Const.{int_false, int_true, nfs3_ok}
use perennial.Rfc1813.Setattr.{
  Sattrguard3, pack_sattrguard3, unpack_sattrguard3, Setattr3Args, pack_setattr3args,
  unpack_setattr3args, Setattr3ResOk, pack_setattr3resok, unpack_setattr3resok, Setattr3ResFail,
  pack_setattr3resfail, unpack_setattr3resfail, Setattr3Res, pack_setattr3res, unpack_setattr3res,
}
use perennial.Rfc1813.Basic.RoundTrip.{Reads-nfsstat3}
use perennial.Rfc1813.Structs.RoundTrip.{Reads-nfs_fh3, Reads-nfstime3}
use perennial.Rfc1813.Attributes.RoundTrip.{IsWccData, Reads-wcc_data}
use perennial.Rfc1813.Sattr.RoundTrip.{IsSattr3, Reads-sattr3}

abbrev pub IsSattrguard3 : Sattrguard3 → Type 0
IsSattrguard3 d =
    OnSome IsBit d.check
    × (if field_is d.check int_true
        then Unit {0}
        else if field_is d.check int_false
        then (d.obj_ctime ≡ none)
        else Unit {0})

pub Reads-sattrguard3 :
    (d : Sattrguard3) → IsSattrguard3 d → Reads (pack_sattrguard3 d) unpack_sattrguard3 d
unfolding pack_sattrguard3 unpack_sattrguard3
Reads-sattrguard3 d c =
    Reads-bind _ _ _ _ d.check d (Reads-field_if _ _ _ IsBit Reads-bool d.check c.0) (
      Reads-if (field_is d.check int_true) _ _ _ _ d
        (λ h0. Reads-last _ _ _ d.obj_ctime d (Reads-field _ _ _ Reads-nfstime3 d.obj_ctime) refl)
        (λ h0.
          Reads-if (field_is d.check int_false) _ _ _ _ d
            (λ h1.
              let e = (rw h1 at (rw h0 at c.1)) in
              Reads-done _ d (λ i. record { check = d.check; obj_ctime = sym e i }))
            (λ h1. Reads-raise _ d)))

abbrev pub IsSetattr3Args : Setattr3Args → Type 0
IsSetattr3Args d = OnSome IsSattr3 d.new_attributes × OnSome IsSattrguard3 d.guard

pub Reads-setattr3args :
    (d : Setattr3Args) → IsSetattr3Args d → Reads (pack_setattr3args d) unpack_setattr3args d
unfolding pack_setattr3args unpack_setattr3args
Reads-setattr3args d c = Reads-bind _ _ _ _ d.object d (Reads-field _ _ _ Reads-nfs_fh3 d.object) (
    Reads-bind _ _ _ _ d.new_attributes d
      (Reads-field_if _ _ _ IsSattr3 Reads-sattr3 d.new_attributes c.0)
      (Reads-last _ _ _ d.guard d (Reads-field_if _ _ _ IsSattrguard3 Reads-sattrguard3 d.guard c.1)
        refl))

abbrev pub IsSetattr3ResOk : Setattr3ResOk → Type 0
IsSetattr3ResOk d = OnSome IsWccData d.obj_wcc

pub Reads-setattr3resok :
    (d : Setattr3ResOk) → IsSetattr3ResOk d → Reads (pack_setattr3resok d) unpack_setattr3resok d
unfolding pack_setattr3resok unpack_setattr3resok
Reads-setattr3resok d c =
    Reads-last _ _ _ d.obj_wcc d (Reads-field_if _ _ _ IsWccData Reads-wcc_data d.obj_wcc c) refl

abbrev pub IsSetattr3ResFail : Setattr3ResFail → Type 0
IsSetattr3ResFail d = OnSome IsWccData d.obj_wcc

pub Reads-setattr3resfail :
    (d : Setattr3ResFail)
    → IsSetattr3ResFail d
    → Reads (pack_setattr3resfail d) unpack_setattr3resfail d
unfolding pack_setattr3resfail unpack_setattr3resfail
Reads-setattr3resfail d c =
    Reads-last _ _ _ d.obj_wcc d (Reads-field_if _ _ _ IsWccData Reads-wcc_data d.obj_wcc c) refl

abbrev pub IsSetattr3Res : Setattr3Res → Type 0
IsSetattr3Res d =
    OnSome IsSetattr3ResOk d.resok
    × OnSome IsSetattr3ResFail d.resfail
    × (if field_is d.status nfs3_ok then (d.resfail ≡ none) else (d.resok ≡ none))

pub Reads-setattr3res :
    (d : Setattr3Res) → IsSetattr3Res d → Reads (pack_setattr3res d) unpack_setattr3res d
unfolding pack_setattr3res unpack_setattr3res
Reads-setattr3res d c = Reads-bind _ _ _ _ d.status d (Reads-field _ _ _ Reads-nfsstat3 d.status) (
    Reads-if (field_is d.status nfs3_ok) _ _ _ _ d
      (λ h0.
        let e = (rw h0 at c.2) in
        Reads-last _ _ _ d.resok d
          (Reads-field_if _ _ _ IsSetattr3ResOk Reads-setattr3resok d.resok c.0)
          (λ i. record { status = d.status; resok = d.resok; resfail = sym e i }))
      (λ h0.
        let e = (rw h0 at c.2) in
        Reads-last _ _ _ d.resfail d
          (Reads-field_if _ _ _ IsSetattr3ResFail Reads-setattr3resfail d.resfail c.1)
          (λ i. record { status = d.status; resok = sym e i; resfail = d.resfail })))
