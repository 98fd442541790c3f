-- ===== src/Rfc1813/Mknod/RoundTrip.antt =====
-- Reading back what the packers of Rfc1813/Mknod.antt write.
use perennial.Prelude.{◌≡◌, refl, sym, ◌||◌, none, if◌then◌else◌}
use perennial.Xdr.{field_is, OnSome}
use perennial.Xdr.Reads.{Reads, Reads-if, Reads-bind, Reads-last, Reads-done}
use perennial.Xdr.RoundTrip.{Reads-field, Reads-field_if}
use perennial.Rfc1813.Const.{nfs3_ok, nf3blk, nf3chr, nf3sock, nf3fifo}
use perennial.Rfc1813.Mknod.{
  Devicedata3, pack_devicedata3, unpack_devicedata3, Mknoddata3, pack_mknoddata3, unpack_mknoddata3,
  Mknod3Args, pack_mknod3args, unpack_mknod3args, Mknod3ResOk, pack_mknod3resok, unpack_mknod3resok,
  Mknod3ResFail, pack_mknod3resfail, unpack_mknod3resfail, Mknod3Res, pack_mknod3res,
  unpack_mknod3res,
}
use perennial.Rfc1813.Basic.RoundTrip.{Reads-nfsstat3, Reads-ftype3}
use perennial.Rfc1813.Structs.RoundTrip.{Reads-specdata3, Reads-diropargs3}
use perennial.Rfc1813.Attributes.RoundTrip.{
  IsPostOpAttr, Reads-post_op_attr, IsWccData, Reads-wcc_data, IsPostOpFh3, Reads-post_op_fh3,
}
use perennial.Rfc1813.Sattr.RoundTrip.{IsSattr3, Reads-sattr3}

abbrev pub IsDevicedata3 : Devicedata3 → Type 0
IsDevicedata3 d = OnSome IsSattr3 d.dev_attributes

pub Reads-devicedata3 :
    (d : Devicedata3) → IsDevicedata3 d → Reads (pack_devicedata3 d) unpack_devicedata3 d
unfolding pack_devicedata3 unpack_devicedata3
Reads-devicedata3 d c =
    Reads-bind _ _ _ _ d.dev_attributes d
      (Reads-field_if _ _ _ IsSattr3 Reads-sattr3 d.dev_attributes c)
      (Reads-last _ _ _ d.spec d (Reads-field _ _ _ Reads-specdata3 d.spec) refl)

abbrev pub IsMknoddata3 : Mknoddata3 → Type 0
IsMknoddata3 d =
    OnSome IsDevicedata3 d.device
    × OnSome IsSattr3 d.pipe_attributes
    × (if field_is d.ftype nf3chr || field_is d.ftype nf3blk
        then (d.pipe_attributes ≡ none)
        else if field_is d.ftype nf3sock || field_is d.ftype nf3fifo
        then (d.device ≡ none)
        else (d.device ≡ none) × (d.pipe_attributes ≡ none))

pub Reads-mknoddata3 :
    (d : Mknoddata3) → IsMknoddata3 d → Reads (pack_mknoddata3 d) unpack_mknoddata3 d
unfolding pack_mknoddata3 unpack_mknoddata3
Reads-mknoddata3 d c = Reads-bind _ _ _ _ d.ftype d (Reads-field _ _ _ Reads-ftype3 d.ftype) (
    Reads-if (field_is d.ftype nf3chr || field_is d.ftype nf3blk) _ _ _ _ d
      (λ h0.
        let e = (rw h0 at c.2) in
        Reads-last _ _ _ d.device d
          (Reads-field_if _ _ _ IsDevicedata3 Reads-devicedata3 d.device c.0)
          (λ i. record { ftype = d.ftype; device = d.device; pipe_attributes = sym e i }))
      (λ h0.
        Reads-if (field_is d.ftype nf3sock || field_is d.ftype nf3fifo) _ _ _ _ d
          (λ h1.
            let e = (rw h1 at (rw h0 at c.2)) in
            Reads-last _ _ _ d.pipe_attributes d
              (Reads-field_if _ _ _ IsSattr3 Reads-sattr3 d.pipe_attributes c.1)
              (λ i. record {
                ftype = d.ftype;
                device = sym e i;
                pipe_attributes = d.pipe_attributes;
              }))
          (λ h1.
            let e = (rw h1 at (rw h0 at c.2)) in
            Reads-done _ d
              (λ i. record { ftype = d.ftype; device = sym e.0 i; pipe_attributes = sym e.1 i }))))

abbrev pub IsMknod3Args : Mknod3Args → Type 0
IsMknod3Args d = OnSome IsMknoddata3 d.what

pub Reads-mknod3args :
    (d : Mknod3Args) → IsMknod3Args d → Reads (pack_mknod3args d) unpack_mknod3args d
unfolding pack_mknod3args unpack_mknod3args
Reads-mknod3args d c =
    Reads-bind _ _ _ _ d.place d (Reads-field _ _ _ Reads-diropargs3 d.place)
      (Reads-last _ _ _ d.what d (Reads-field_if _ _ _ IsMknoddata3 Reads-mknoddata3 d.what c) refl)

abbrev pub IsMknod3ResOk : Mknod3ResOk → Type 0
IsMknod3ResOk d =
    OnSome IsPostOpFh3 d.obj × OnSome IsPostOpAttr d.obj_attributes × OnSome IsWccData d.dir_wcc

pub Reads-mknod3resok :
    (d : Mknod3ResOk) → IsMknod3ResOk d → Reads (pack_mknod3resok d) unpack_mknod3resok d
unfolding pack_mknod3resok unpack_mknod3resok
Reads-mknod3resok d c =
    Reads-bind _ _ _ _ d.obj d (Reads-field_if _ _ _ IsPostOpFh3 Reads-post_op_fh3 d.obj c.0) (
      Reads-bind _ _ _ _ d.obj_attributes d
        (Reads-field_if _ _ _ IsPostOpAttr Reads-post_op_attr d.obj_attributes c.1)
        (Reads-last _ _ _ d.dir_wcc d (Reads-field_if _ _ _ IsWccData Reads-wcc_data d.dir_wcc c.2)
          refl))

abbrev pub IsMknod3ResFail : Mknod3ResFail → Type 0
IsMknod3ResFail d = OnSome IsWccData d.dir_wcc

pub Reads-mknod3resfail :
    (d : Mknod3ResFail) → IsMknod3ResFail d → Reads (pack_mknod3resfail d) unpack_mknod3resfail d
unfolding pack_mknod3resfail unpack_mknod3resfail
Reads-mknod3resfail d c =
    Reads-last _ _ _ d.dir_wcc d (Reads-field_if _ _ _ IsWccData Reads-wcc_data d.dir_wcc c) refl

abbrev pub IsMknod3Res : Mknod3Res → Type 0
IsMknod3Res d =
    OnSome IsMknod3ResOk d.resok
    × OnSome IsMknod3ResFail d.resfail
    × (if field_is d.status nfs3_ok then (d.resfail ≡ none) else (d.resok ≡ none))

pub Reads-mknod3res : (d : Mknod3Res) → IsMknod3Res d → Reads (pack_mknod3res d) unpack_mknod3res d
unfolding pack_mknod3res unpack_mknod3res
Reads-mknod3res d c = Reads-bind _ _ _ _ d.status d (Reads-field _ _ _ Reads-nfsstat3 d.status) (
    Reads-if (field_is d.status nfs3_ok) _ _ _ _ d
      (λ h0.
        let e = (rw h0 at c.2) in
        Reads-last _ _ _ d.resok d
          (Reads-field_if _ _ _ IsMknod3ResOk Reads-mknod3resok d.resok c.0)
          (λ i. record { status = d.status; resok = d.resok; resfail = sym e i }))
      (λ h0.
        let e = (rw h0 at c.2) in
        Reads-last _ _ _ d.resfail d
          (Reads-field_if _ _ _ IsMknod3ResFail Reads-mknod3resfail d.resfail c.1)
          (λ i. record { status = d.status; resok = sym e i; resfail = d.resfail })))
