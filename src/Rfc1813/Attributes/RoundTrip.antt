-- ===== src/Rfc1813/Attributes/RoundTrip.antt =====
-- Reading back what the packers of Rfc1813/Attributes.antt write.
use perennial.Prelude.{◌≡◌, refl, sym, none, if◌then◌else◌}
use perennial.Xdr.{field_is, OnSome}
use perennial.Xdr.Reads.{Reads, Reads-raise, Reads-if, Reads-bind, Reads-last, Reads-done}
use perennial.Xdr.RoundTrip.{
  Reads-uint, IsUint64, Reads-uhyper, IsBit, Reads-bool, Reads-field, Reads-field_if,
}
use perennial.Rfc1813.Const.{int_false, int_true}
use perennial.Rfc1813.Attributes.{
  Fattr3, pack_fattr3, unpack_fattr3, PostOpAttr, pack_post_op_attr, unpack_post_op_attr, WccAttr,
  pack_wcc_attr, unpack_wcc_attr, PreOpAttr, pack_pre_op_attr, unpack_pre_op_attr, WccData,
  pack_wcc_data, unpack_wcc_data, PostOpFh3, pack_post_op_fh3, unpack_post_op_fh3,
}
use perennial.Rfc1813.Basic.RoundTrip.{Reads-ftype3}
use perennial.Rfc1813.Structs.RoundTrip.{Reads-specdata3, Reads-nfs_fh3, Reads-nfstime3}

abbrev pub IsFattr3 : Fattr3 → Type 0
IsFattr3 d =
    OnSome IsUint64 d.size
    × OnSome IsUint64 d.used
    × OnSome IsUint64 d.fsid
    × OnSome IsUint64 d.fileid

pub Reads-fattr3 : (d : Fattr3) → IsFattr3 d → Reads (pack_fattr3 d) unpack_fattr3 d
unfolding pack_fattr3 unpack_fattr3
Reads-fattr3 d c = Reads-bind _ _ _ _ d.ftype d (Reads-field _ _ _ Reads-ftype3 d.ftype) (
    Reads-bind _ _ _ _ d.mode d (Reads-field _ _ _ Reads-uint d.mode) (
      Reads-bind _ _ _ _ d.nlink d (Reads-field _ _ _ Reads-uint d.nlink) (
        Reads-bind _ _ _ _ d.uid d (Reads-field _ _ _ Reads-uint d.uid) (
          Reads-bind _ _ _ _ d.gid d (Reads-field _ _ _ Reads-uint d.gid) (
            Reads-bind _ _ _ _ d.size d (Reads-field_if _ _ _ IsUint64 Reads-uhyper d.size c.0) (
              Reads-bind _ _ _ _ d.used d (Reads-field_if _ _ _ IsUint64 Reads-uhyper d.used c.1) (
                Reads-bind _ _ _ _ d.rdev d (Reads-field _ _ _ Reads-specdata3 d.rdev) (
                  Reads-bind _ _ _ _ d.fsid d
                    (Reads-field_if _ _ _ IsUint64 Reads-uhyper d.fsid c.2)
                    (Reads-bind _ _ _ _ d.fileid d
                      (Reads-field_if _ _ _ IsUint64 Reads-uhyper d.fileid c.3)
                      (Reads-bind _ _ _ _ d.atime d (Reads-field _ _ _ Reads-nfstime3 d.atime) (
                        Reads-bind _ _ _ _ d.mtime d (Reads-field _ _ _ Reads-nfstime3 d.mtime) (
                          Reads-last _ _ _ d.ctime d (Reads-field _ _ _ Reads-nfstime3 d.ctime)
                            refl))))))))))))

abbrev pub IsPostOpAttr : PostOpAttr → Type 0
IsPostOpAttr d =
    OnSome IsBit d.attributes_follow
    × OnSome IsFattr3 d.attributes
    × (if field_is d.attributes_follow int_true
        then Unit {0}
        else if field_is d.attributes_follow int_false
        then (d.attributes ≡ none)
        else Unit {0})

pub Reads-post_op_attr :
    (d : PostOpAttr) → IsPostOpAttr d → Reads (pack_post_op_attr d) unpack_post_op_attr d
unfolding pack_post_op_attr unpack_post_op_attr
Reads-post_op_attr d c =
    Reads-bind _ _ _ _ d.attributes_follow d
      (Reads-field_if _ _ _ IsBit Reads-bool d.attributes_follow c.0)
      (Reads-if (field_is d.attributes_follow int_true) _ _ _ _ d
        (λ h0.
          Reads-last _ _ _ d.attributes d
            (Reads-field_if _ _ _ IsFattr3 Reads-fattr3 d.attributes c.1) refl)
        (λ h0.
          Reads-if (field_is d.attributes_follow int_false) _ _ _ _ d
            (λ h1.
              let e = (rw h1 at (rw h0 at c.2)) in
              Reads-done _ d
                (λ i. record { attributes_follow = d.attributes_follow; attributes = sym e i }))
            (λ h1. Reads-raise _ d)))

abbrev pub IsWccAttr : WccAttr → Type 0
IsWccAttr d = OnSome IsUint64 d.size

pub Reads-wcc_attr : (d : WccAttr) → IsWccAttr d → Reads (pack_wcc_attr d) unpack_wcc_attr d
unfolding pack_wcc_attr unpack_wcc_attr
Reads-wcc_attr d c =
    Reads-bind _ _ _ _ d.size d (Reads-field_if _ _ _ IsUint64 Reads-uhyper d.size c) (
      Reads-bind _ _ _ _ d.mtime d (Reads-field _ _ _ Reads-nfstime3 d.mtime)
        (Reads-last _ _ _ d.ctime d (Reads-field _ _ _ Reads-nfstime3 d.ctime) refl))

abbrev pub IsPreOpAttr : PreOpAttr → Type 0
IsPreOpAttr d =
    OnSome IsBit d.attributes_follow
    × OnSome IsWccAttr d.attributes
    × (if field_is d.attributes_follow int_true
        then Unit {0}
        else if field_is d.attributes_follow int_false
        then (d.attributes ≡ none)
        else Unit {0})

pub Reads-pre_op_attr :
    (d : PreOpAttr) → IsPreOpAttr d → Reads (pack_pre_op_attr d) unpack_pre_op_attr d
unfolding pack_pre_op_attr unpack_pre_op_attr
Reads-pre_op_attr d c =
    Reads-bind _ _ _ _ d.attributes_follow d
      (Reads-field_if _ _ _ IsBit Reads-bool d.attributes_follow c.0)
      (Reads-if (field_is d.attributes_follow int_true) _ _ _ _ d
        (λ h0.
          Reads-last _ _ _ d.attributes d
            (Reads-field_if _ _ _ IsWccAttr Reads-wcc_attr d.attributes c.1) refl)
        (λ h0.
          Reads-if (field_is d.attributes_follow int_false) _ _ _ _ d
            (λ h1.
              let e = (rw h1 at (rw h0 at c.2)) in
              Reads-done _ d
                (λ i. record { attributes_follow = d.attributes_follow; attributes = sym e i }))
            (λ h1. Reads-raise _ d)))

abbrev pub IsWccData : WccData → Type 0
IsWccData d = OnSome IsPreOpAttr d.before × OnSome IsPostOpAttr d.after

pub Reads-wcc_data : (d : WccData) → IsWccData d → Reads (pack_wcc_data d) unpack_wcc_data d
unfolding pack_wcc_data unpack_wcc_data
Reads-wcc_data d c =
    Reads-bind _ _ _ _ d.before d (Reads-field_if _ _ _ IsPreOpAttr Reads-pre_op_attr d.before c.0)
      (Reads-last _ _ _ d.after d (Reads-field_if _ _ _ IsPostOpAttr Reads-post_op_attr d.after c.1)
        refl)

abbrev pub IsPostOpFh3 : PostOpFh3 → Type 0
IsPostOpFh3 d =
    OnSome IsBit d.handle_follows
    × (if field_is d.handle_follows int_true
        then Unit {0}
        else if field_is d.handle_follows int_false
        then (d.handle ≡ none)
        else Unit {0})

pub Reads-post_op_fh3 :
    (d : PostOpFh3) → IsPostOpFh3 d → Reads (pack_post_op_fh3 d) unpack_post_op_fh3 d
unfolding pack_post_op_fh3 unpack_post_op_fh3
Reads-post_op_fh3 d c =
    Reads-bind _ _ _ _ d.handle_follows d
      (Reads-field_if _ _ _ IsBit Reads-bool d.handle_follows c.0)
      (Reads-if (field_is d.handle_follows int_true) _ _ _ _ d
        (λ h0. Reads-last _ _ _ d.handle d (Reads-field _ _ _ Reads-nfs_fh3 d.handle) refl)
        (λ h0.
          Reads-if (field_is d.handle_follows int_false) _ _ _ _ d
            (λ h1.
              let e = (rw h1 at (rw h0 at c.1)) in
              Reads-done _ d (λ i. record { handle_follows = d.handle_follows; handle = sym e i }))
            (λ h1. Reads-raise _ d)))
