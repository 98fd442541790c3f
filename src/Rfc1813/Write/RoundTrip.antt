-- ===== src/Rfc1813/Write/RoundTrip.antt =====
-- Reading back what the packers of Rfc1813/Write.antt write.
use perennial.Prelude.{◌≡◌, refl, sym, none, if◌then◌else◌}
use perennial.Xdr.{ℤ, field_is, OnSome}
use perennial.Xdr.Reads.{Reads, Reads-if, Reads-bind, Reads-last}
use perennial.Xdr.RoundTrip.{
  Reads-uint, IsUint64, Reads-uhyper, Reads-opaque, Reads-field, Reads-field_if, Reads-enum,
}
use perennial.Rfc1813.Const.{nfs3_ok}
use perennial.Rfc1813.Write.{
  stable_how_values, pack_stable_how, unpack_stable_how, Write3Args, pack_write3args,
  unpack_write3args, Write3ResOk, pack_write3resok, unpack_write3resok, Write3ResFail,
  pack_write3resfail, unpack_write3resfail, Write3Res, pack_write3res, unpack_write3res,
}
use perennial.Rfc1813.Basic.RoundTrip.{IsWriteverf3, Reads-writeverf3, Reads-nfsstat3}
use perennial.Rfc1813.Structs.RoundTrip.{Reads-nfs_fh3}
use perennial.Rfc1813.Attributes.RoundTrip.{IsWccData, Reads-wcc_data}

pub Reads-stable_how : (z : ℤ) → Reads (pack_stable_how z) unpack_stable_how z
unfolding pack_stable_how unpack_stable_how
Reads-stable_how = Reads-enum stable_how_values

abbrev pub IsWrite3Args : Write3Args → Type 0
IsWrite3Args d = OnSome IsUint64 d.offset

pub Reads-write3args :
    (d : Write3Args) → IsWrite3Args d → Reads (pack_write3args d) unpack_write3args d
unfolding pack_write3args unpack_write3args
Reads-write3args d c = Reads-bind _ _ _ _ d.file d (Reads-field _ _ _ Reads-nfs_fh3 d.file) (
    Reads-bind _ _ _ _ d.offset d (Reads-field_if _ _ _ IsUint64 Reads-uhyper d.offset c) (
      Reads-bind _ _ _ _ d.count d (Reads-field _ _ _ Reads-uint d.count) (
        Reads-bind _ _ _ _ d.stable d (Reads-field _ _ _ Reads-stable_how d.stable)
          (Reads-last _ _ _ d.contents d (Reads-field _ _ _ Reads-opaque d.contents) refl))))

abbrev pub IsWrite3ResOk : Write3ResOk → Type 0
IsWrite3ResOk d = OnSome IsWccData d.file_wcc × OnSome IsWriteverf3 d.verf

pub Reads-write3resok :
    (d : Write3ResOk) → IsWrite3ResOk d → Reads (pack_write3resok d) unpack_write3resok d
unfolding pack_write3resok unpack_write3resok
Reads-write3resok d c =
    Reads-bind _ _ _ _ d.file_wcc d (Reads-field_if _ _ _ IsWccData Reads-wcc_data d.file_wcc c.0) (
      Reads-bind _ _ _ _ d.count d (Reads-field _ _ _ Reads-uint d.count) (
        Reads-bind _ _ _ _ d.committed d (Reads-field _ _ _ Reads-stable_how d.committed) (
          Reads-last _ _ _ d.verf d (Reads-field_if _ _ _ IsWriteverf3 Reads-writeverf3 d.verf c.1)
            refl)))

abbrev pub IsWrite3ResFail : Write3ResFail → Type 0
IsWrite3ResFail d = OnSome IsWccData d.file_wcc

pub Reads-write3resfail :
    (d : Write3ResFail) → IsWrite3ResFail d → Reads (pack_write3resfail d) unpack_write3resfail d
unfolding pack_write3resfail unpack_write3resfail
Reads-write3resfail d c =
    Reads-last _ _ _ d.file_wcc d (Reads-field_if _ _ _ IsWccData Reads-wcc_data d.file_wcc c) refl

abbrev pub IsWrite3Res : Write3Res → Type 0
IsWrite3Res d =
    OnSome IsWrite3ResOk d.resok
    × OnSome IsWrite3ResFail d.resfail
    × (if field_is d.status nfs3_ok then (d.resfail ≡ none) else (d.resok ≡ none))

pub Reads-write3res : (d : Write3Res) → IsWrite3Res d → Reads (pack_write3res d) unpack_write3res d
unfolding pack_write3res unpack_write3res
Reads-write3res d c = Reads-bind _ _ _ _ d.status d (Reads-field _ _ _ Reads-nfsstat3 d.status) (
    Reads-if (field_is d.status nfs3_ok) _ _ _ _ d
      (λ h0.
        let e = (rw h0 at c.2) in
        Reads-last _ _ _ d.resok d
          (Reads-field_if _ _ _ IsWrite3ResOk Reads-write3resok d.resok c.0)
          (λ i. record { status = d.status; resok = d.resok; resfail = sym e i }))
      (λ h0.
        let e = (rw h0 at c.2) in
        Reads-last _ _ _ d.resfail d
          (Reads-field_if _ _ _ IsWrite3ResFail Reads-write3resfail d.resfail c.1)
          (λ i. record { status = d.status; resok = sym e i; resfail = d.resfail })))
