-- ===== src/Rfc1813/Getattr/RoundTrip.antt =====
-- Reading back what the packers of Rfc1813/Getattr.antt write.
use perennial.Prelude.{◌≡◌, refl, sym, none, if◌then◌else◌}
use perennial.Xdr.{field_is, OnSome}
use perennial.Xdr.Reads.{Reads, Reads-if, Reads-bind, Reads-last, Reads-done}
use perennial.Xdr.RoundTrip.{Reads-field, Reads-field_if}
use perennial.Rfc1813.Const.{nfs3_ok}
use perennial.Rfc1813.Getattr.{
  Getattr3Args, pack_getattr3args, unpack_getattr3args, Getattr3ResOk, pack_getattr3resok,
  unpack_getattr3resok, Getattr3Res, pack_getattr3res, unpack_getattr3res,
}
use perennial.Rfc1813.Basic.RoundTrip.{Reads-nfsstat3}
use perennial.Rfc1813.Structs.RoundTrip.{Reads-nfs_fh3}
use perennial.Rfc1813.Attributes.RoundTrip.{IsFattr3, Reads-fattr3}

pub Reads-getattr3args : (d : Getattr3Args) → Reads (pack_getattr3args d) unpack_getattr3args d
unfolding pack_getattr3args unpack_getattr3args
Reads-getattr3args d = Reads-last _ _ _ d.object d (Reads-field _ _ _ Reads-nfs_fh3 d.object) refl

abbrev pub IsGetattr3ResOk : Getattr3ResOk → Type 0
IsGetattr3ResOk d = OnSome IsFattr3 d.obj_attributes

pub Reads-getattr3resok :
    (d : Getattr3ResOk) → IsGetattr3ResOk d → Reads (pack_getattr3resok d) unpack_getattr3resok d
unfolding pack_getattr3resok unpack_getattr3resok
Reads-getattr3resok d c =
    Reads-last _ _ _ d.obj_attributes d
      (Reads-field_if _ _ _ IsFattr3 Reads-fattr3 d.obj_attributes c) refl

abbrev pub IsGetattr3Res : Getattr3Res → Type 0
IsGetattr3Res d =
    OnSome IsGetattr3ResOk d.resok
    × (if field_is d.status nfs3_ok then Unit {0} else (d.resok ≡ none))

pub Reads-getattr3res :
    (d : Getattr3Res) → IsGetattr3Res d → Reads (pack_getattr3res d) unpack_getattr3res d
unfolding pack_getattr3res unpack_getattr3res
Reads-getattr3res d c = Reads-bind _ _ _ _ d.status d (Reads-field _ _ _ Reads-nfsstat3 d.status) (
    Reads-if (field_is d.status nfs3_ok) _ _ _ _ d
      (λ h0.
        Reads-last _ _ _ d.resok d
          (Reads-field_if _ _ _ IsGetattr3ResOk Reads-getattr3resok d.resok c.0) refl)
      (λ h0.
        let e = (rw h0 at c.1) in
        Reads-done _ d (λ i. record { status = d.status; resok = sym e i })))
