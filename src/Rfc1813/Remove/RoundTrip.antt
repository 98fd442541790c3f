-- ===== src/Rfc1813/Remove/RoundTrip.antt =====
-- Reading back what the packers of Rfc1813/Remove.antt write.
use perennial.Prelude.{◌≡◌, refl, sym, none, if◌then◌else◌}
use perennial.Xdr.{field_is, OnSome}
use perennial.Xdr.Reads.{Reads, Reads-if, Reads-bind, Reads-last}
use perennial.Xdr.RoundTrip.{Reads-field, Reads-field_if}
use perennial.Rfc1813.Const.{nfs3_ok}
use perennial.Rfc1813.Remove.{
  Remove3Args, pack_remove3args, unpack_remove3args, Remove3ResOk, pack_remove3resok,
  unpack_remove3resok, Remove3ResFail, pack_remove3resfail, unpack_remove3resfail, Remove3Res,
  pack_remove3res, unpack_remove3res, Rmdir3Args, pack_rmdir3args, unpack_rmdir3args, Rmdir3ResOk,
  pack_rmdir3resok, unpack_rmdir3resok, Rmdir3ResFail, pack_rmdir3resfail, unpack_rmdir3resfail,
  Rmdir3Res, pack_rmdir3res, unpack_rmdir3res,
}
use perennial.Rfc1813.Basic.RoundTrip.{Reads-nfsstat3}
use perennial.Rfc1813.Structs.RoundTrip.{Reads-diropargs3}
use perennial.Rfc1813.Attributes.RoundTrip.{IsWccData, Reads-wcc_data}

pub Reads-remove3args : (d : Remove3Args) → Reads (pack_remove3args d) unpack_remove3args d
unfolding pack_remove3args unpack_remove3args
Reads-remove3args d = Reads-last _ _ _ d.object d (Reads-field _ _ _ Reads-diropargs3 d.object) refl

abbrev pub IsRemove3ResOk : Remove3ResOk → Type 0
IsRemove3ResOk d = OnSome IsWccData d.dir_wcc

pub Reads-remove3resok :
    (d : Remove3ResOk) → IsRemove3ResOk d → Reads (pack_remove3resok d) unpack_remove3resok d
unfolding pack_remove3resok unpack_remove3resok
Reads-remove3resok d c =
    Reads-last _ _ _ d.dir_wcc d (Reads-field_if _ _ _ IsWccData Reads-wcc_data d.dir_wcc c) refl

abbrev pub IsRemove3ResFail : Remove3ResFail → Type 0
IsRemove3ResFail d = OnSome IsWccData d.dir_wcc

pub Reads-remove3resfail :
    (d : Remove3ResFail)
    → IsRemove3ResFail d
    → Reads (pack_remove3resfail d) unpack_remove3resfail d
unfolding pack_remove3resfail unpack_remove3resfail
Reads-remove3resfail d c =
    Reads-last _ _ _ d.dir_wcc d (Reads-field_if _ _ _ IsWccData Reads-wcc_data d.dir_wcc c) refl

abbrev pub IsRemove3Res : Remove3Res → Type 0
IsRemove3Res d =
    OnSome IsRemove3ResOk d.resok
    × OnSome IsRemove3ResFail d.resfail
    × (if field_is d.status nfs3_ok then (d.resfail ≡ none) else (d.resok ≡ none))

pub Reads-remove3res :
    (d : Remove3Res) → IsRemove3Res d → Reads (pack_remove3res d) unpack_remove3res d
unfolding pack_remove3res unpack_remove3res
Reads-remove3res d c = Reads-bind _ _ _ _ d.status d (Reads-field _ _ _ Reads-nfsstat3 d.status) (
    Reads-if (field_is d.status nfs3_ok) _ _ _ _ d
      (λ h0.
        let e = (rw h0 at c.2) in
        Reads-last _ _ _ d.resok d
          (Reads-field_if _ _ _ IsRemove3ResOk Reads-remove3resok d.resok c.0)
          (λ i. record { status = d.status; resok = d.resok; resfail = sym e i }))
      (λ h0.
        let e = (rw h0 at c.2) in
        Reads-last _ _ _ d.resfail d
          (Reads-field_if _ _ _ IsRemove3ResFail Reads-remove3resfail d.resfail c.1)
          (λ i. record { status = d.status; resok = sym e i; resfail = d.resfail })))

pub Reads-rmdir3args : (d : Rmdir3Args) → Reads (pack_rmdir3args d) unpack_rmdir3args d
unfolding pack_rmdir3args unpack_rmdir3args
Reads-rmdir3args d = Reads-last _ _ _ d.object d (Reads-field _ _ _ Reads-diropargs3 d.object) refl

abbrev pub IsRmdir3ResOk : Rmdir3ResOk → Type 0
IsRmdir3ResOk d = OnSome IsWccData d.dir_wcc

pub Reads-rmdir3resok :
    (d : Rmdir3ResOk) → IsRmdir3ResOk d → Reads (pack_rmdir3resok d) unpack_rmdir3resok d
unfolding pack_rmdir3resok unpack_rmdir3resok
Reads-rmdir3resok d c =
    Reads-last _ _ _ d.dir_wcc d (Reads-field_if _ _ _ IsWccData Reads-wcc_data d.dir_wcc c) refl

abbrev pub IsRmdir3ResFail : Rmdir3ResFail → Type 0
IsRmdir3ResFail d = OnSome IsWccData d.dir_wcc

pub Reads-rmdir3resfail :
    (d : Rmdir3ResFail) → IsRmdir3ResFail d → Reads (pack_rmdir3resfail d) unpack_rmdir3resfail d
unfolding pack_rmdir3resfail unpack_rmdir3resfail
Reads-rmdir3resfail d c =
    Reads-last _ _ _ d.dir_wcc d (Reads-field_if _ _ _ IsWccData Reads-wcc_data d.dir_wcc c) refl

abbrev pub IsRmdir3Res : Rmdir3Res → Type 0
IsRmdir3Res d =
    OnSome IsRmdir3ResOk d.resok
    × OnSome IsRmdir3ResFail d.resfail
    × (if field_is d.status nfs3_ok then (d.resfail ≡ none) else (d.resok ≡ none))

pub Reads-rmdir3res : (d : Rmdir3Res) → IsRmdir3Res d → Reads (pack_rmdir3res d) unpack_rmdir3res d
unfolding pack_rmdir3res unpack_rmdir3res
Reads-rmdir3res d c = Reads-bind _ _ _ _ d.status d (Reads-field _ _ _ Reads-nfsstat3 d.status) (
    Reads-if (field_is d.status nfs3_ok) _ _ _ _ d
      (λ h0.
        let e = (rw h0 at c.2) in
        Reads-last _ _ _ d.resok d
          (Reads-field_if _ _ _ IsRmdir3ResOk Reads-rmdir3resok d.resok c.0)
          (λ i. record { status = d.status; resok = d.resok; resfail = sym e i }))
      (λ h0.
        let e = (rw h0 at c.2) in
        Reads-last _ _ _ d.resfail d
          (Reads-field_if _ _ _ IsRmdir3ResFail Reads-rmdir3resfail d.resfail c.1)
          (λ i. record { status = d.status; resok = sym e i; resfail = d.resfail })))
