-- ===== src/Rfc1813/Fsinfo/RoundTrip.antt =====
-- Reading back what the packers of Rfc1813/Fsinfo.antt write.
use perennial.Prelude.{◌≡◌, refl, sym, none, if◌then◌else◌}
use perennial.Xdr.{field_is, OnSome}
use perennial.Xdr.Reads.{Reads, Reads-if, Reads-bind, Reads-last}
use perennial.Xdr.RoundTrip.{Reads-uint, IsUint64, Reads-uhyper, Reads-field, Reads-field_if}
use perennial.Rfc1813.Const.{nfs3_ok}
use perennial.Rfc1813.Fsinfo.{
  Fsstat3Args, pack_fsstat3args, unpack_fsstat3args, Fsstat3ResOk, pack_fsstat3resok,
  unpack_fsstat3resok, Fsstat3ResFail, pack_fsstat3resfail, unpack_fsstat3resfail, Fsstat3Res,
  pack_fsstat3res, unpack_fsstat3res, Fsinfo3Args, pack_fsinfo3args, unpack_fsinfo3args,
  Fsinfo3ResOk, pack_fsinfo3resok, unpack_fsinfo3resok, Fsinfo3ResFail, pack_fsinfo3resfail,
  unpack_fsinfo3resfail, Fsinfo3Res, pack_fsinfo3res, unpack_fsinfo3res,
}
use perennial.Rfc1813.Basic.RoundTrip.{Reads-nfsstat3}
use perennial.Rfc1813.Structs.RoundTrip.{Reads-nfs_fh3, Reads-nfstime3}
use perennial.Rfc1813.Attributes.RoundTrip.{IsPostOpAttr, Reads-post_op_attr}

pub Reads-fsstat3args : (d : Fsstat3Args) → Reads (pack_fsstat3args d) unpack_fsstat3args d
unfolding pack_fsstat3args unpack_fsstat3args
Reads-fsstat3args d = Reads-last _ _ _ d.fsroot d (Reads-field _ _ _ Reads-nfs_fh3 d.fsroot) refl

abbrev pub IsFsstat3ResOk : Fsstat3ResOk → Type 0
IsFsstat3ResOk d =
    OnSome IsPostOpAttr d.obj_attributes
    × OnSome IsUint64 d.tbytes
    × OnSome IsUint64 d.fbytes
    × OnSome IsUint64 d.abytes
    × OnSome IsUint64 d.tfiles
    × OnSome IsUint64 d.ffiles
    × OnSome IsUint64 d.afiles

pub Reads-fsstat3resok :
    (d : Fsstat3ResOk) → IsFsstat3ResOk d → Reads (pack_fsstat3resok d) unpack_fsstat3resok d
unfolding pack_fsstat3resok unpack_fsstat3resok
Reads-fsstat3resok d c =
    Reads-bind _ _ _ _ d.obj_attributes d
      (Reads-field_if _ _ _ IsPostOpAttr Reads-post_op_attr d.obj_attributes c.0)
      (Reads-bind _ _ _ _ d.tbytes d (Reads-field_if _ _ _ IsUint64 Reads-uhyper d.tbytes c.1) (
        Reads-bind _ _ _ _ d.fbytes d (Reads-field_if _ _ _ IsUint64 Reads-uhyper d.fbytes c.2) (
          Reads-bind _ _ _ _ d.abytes d (Reads-field_if _ _ _ IsUint64 Reads-uhyper d.abytes c.3) (
            Reads-bind _ _ _ _ d.tfiles d (Reads-field_if _ _ _ IsUint64 Reads-uhyper d.tfiles c.4)
              (Reads-bind _ _ _ _ d.ffiles d
                (Reads-field_if _ _ _ IsUint64 Reads-uhyper d.ffiles c.5)
                (Reads-bind _ _ _ _ d.afiles d
                  (Reads-field_if _ _ _ IsUint64 Reads-uhyper d.afiles c.6)
                  (Reads-last _ _ _ d.invarsec d (Reads-field _ _ _ Reads-uint d.invarsec)
                    refl)))))))

abbrev pub IsFsstat3ResFail : Fsstat3ResFail → Type 0
IsFsstat3ResFail d = OnSome IsPostOpAttr d.obj_attributes

pub Reads-fsstat3resfail :
    (d : Fsstat3ResFail)
    → IsFsstat3ResFail d
    → Reads (pack_fsstat3resfail d) unpack_fsstat3resfail d
unfolding pack_fsstat3resfail unpack_fsstat3resfail
Reads-fsstat3resfail d c =
    Reads-last _ _ _ d.obj_attributes d
      (Reads-field_if _ _ _ IsPostOpAttr Reads-post_op_attr d.obj_attributes c) refl

abbrev pub IsFsstat3Res : Fsstat3Res → Type 0
IsFsstat3Res d =
    OnSome IsFsstat3ResOk d.resok
    × OnSome IsFsstat3ResFail d.resfail
    × (if field_is d.status nfs3_ok then (d.resfail ≡ none) else (d.resok ≡ none))

pub Reads-fsstat3res :
    (d : Fsstat3Res) → IsFsstat3Res d → Reads (pack_fsstat3res d) unpack_fsstat3res d
unfolding pack_fsstat3res unpack_fsstat3res
Reads-fsstat3res d c = Reads-bind _ _ _ _ d.status d (Reads-field _ _ _ Reads-nfsstat3 d.status) (
    Reads-if (field_is d.status nfs3_ok) _ _ _ _ d
      (λ h0.
        let e = (rw h0 at c.2) in
        Reads-last _ _ _ d.resok d
          (Reads-field_if _ _ _ IsFsstat3ResOk Reads-fsstat3resok d.resok c.0)
          (λ i. record { status = d.status; resok = d.resok; resfail = sym e i }))
      (λ h0.
        let e = (rw h0 at c.2) in
        Reads-last _ _ _ d.resfail d
          (Reads-field_if _ _ _ IsFsstat3ResFail Reads-fsstat3resfail d.resfail c.1)
          (λ i. record { status = d.status; resok = sym e i; resfail = d.resfail })))

pub Reads-fsinfo3args : (d : Fsinfo3Args) → Reads (pack_fsinfo3args d) unpack_fsinfo3args d
unfolding pack_fsinfo3args unpack_fsinfo3args
Reads-fsinfo3args d = Reads-last _ _ _ d.fsroot d (Reads-field _ _ _ Reads-nfs_fh3 d.fsroot) refl

abbrev pub IsFsinfo3ResOk : Fsinfo3ResOk → Type 0
IsFsinfo3ResOk d = OnSome IsPostOpAttr d.obj_attributes × OnSome IsUint64 d.maxfilesize

pub Reads-fsinfo3resok :
    (d : Fsinfo3ResOk) → IsFsinfo3ResOk d → Reads (pack_fsinfo3resok d) unpack_fsinfo3resok d
unfolding pack_fsinfo3resok unpack_fsinfo3resok
Reads-fsinfo3resok d c =
    Reads-bind _ _ _ _ d.obj_attributes d
      (Reads-field_if _ _ _ IsPostOpAttr Reads-post_op_attr d.obj_attributes c.0)
      (Reads-bind _ _ _ _ d.rtmax d (Reads-field _ _ _ Reads-uint d.rtmax) (
        Reads-bind _ _ _ _ d.rtpref d (Reads-field _ _ _ Reads-uint d.rtpref) (
          Reads-bind _ _ _ _ d.rtmult d (Reads-field _ _ _ Reads-uint d.rtmult) (
            Reads-bind _ _ _ _ d.wtmax d (Reads-field _ _ _ Reads-uint d.wtmax) (
              Reads-bind _ _ _ _ d.wtpref d (Reads-field _ _ _ Reads-uint d.wtpref) (
                Reads-bind _ _ _ _ d.wtmult d (Reads-field _ _ _ Reads-uint d.wtmult) (
                  Reads-bind _ _ _ _ d.dtpref d (Reads-field _ _ _ Reads-uint d.dtpref) (
                    Reads-bind _ _ _ _ d.maxfilesize d
                      (Reads-field_if _ _ _ IsUint64 Reads-uhyper d.maxfilesize c.1)
                      (Reads-bind _ _ _ _ d.time_delta d
                        (Reads-field _ _ _ Reads-nfstime3 d.time_delta)
                        (Reads-last _ _ _ d.properties d (Reads-field _ _ _ Reads-uint d.properties)
                          refl))))))))))

abbrev pub IsFsinfo3ResFail : Fsinfo3ResFail → Type 0
IsFsinfo3ResFail d = OnSome IsPostOpAttr d.obj_attributes

pub Reads-fsinfo3resfail :
    (d : Fsinfo3ResFail)
    → IsFsinfo3ResFail d
    → Reads (pack_fsinfo3resfail d) unpack_fsinfo3resfail d
unfolding pack_fsinfo3resfail unpack_fsinfo3resfail
Reads-fsinfo3resfail d c =
    Reads-last _ _ _ d.obj_attributes d
      (Reads-field_if _ _ _ IsPostOpAttr Reads-post_op_attr d.obj_attributes c) refl

abbrev pub IsFsinfo3Res : Fsinfo3Res → Type 0
IsFsinfo3Res d =
    OnSome IsFsinfo3ResOk d.resok
    × OnSome IsFsinfo3ResFail d.resfail
    × (if field_is d.status nfs3_ok then (d.resfail ≡ none) else (d.resok ≡ none))

pub Reads-fsinfo3res :
    (d : Fsinfo3Res) → IsFsinfo3Res d → Reads (pack_fsinfo3res d) unpack_fsinfo3res d
unfolding pack_fsinfo3res unpack_fsinfo3res
Reads-fsinfo3res d c = Reads-bind _ _ _ _ d.status d (Reads-field _ _ _ Reads-nfsstat3 d.status) (
    Reads-if (field_is d.status nfs3_ok) _ _ _ _ d
      (λ h0.
        let e = (rw h0 at c.2) in
        Reads-last _ _ _ d.resok d
          (Reads-field_if _ _ _ IsFsinfo3ResOk Reads-fsinfo3resok d.resok c.0)
          (λ i. record { status = d.status; resok = d.resok; resfail = sym e i }))
      (λ h0.
        let e = (rw h0 at c.2) in
        Reads-last _ _ _ d.resfail d
          (Reads-field_if _ _ _ IsFsinfo3ResFail Reads-fsinfo3resfail d.resfail c.1)
          (λ i. record { status = d.status; resok = sym e i; resfail = d.resfail })))
