-- ===== src/Rfc1813/Attributes/Decoding.antt =====
-- The unpackers up to Rfc1813/Attributes.antt end, and leave no more than they are given.
use perennial.Prelude.{ℕ}
use perennial.Xdr.{field_is}
use perennial.Xdr.Decodes.{
  Decodes, Decodes-pure, Decodes-raise, Decodes-if, Decodes-bind, Decodes-uint, Decodes-bool,
  Decodes-uhyper, Decodes-fopaque, Decodes-opaque, Decodes-enum, Decodes-field, Decodes-bounded,
}
use perennial.Rfc1813.Const.{int_false, int_true}
use perennial.Rfc1813.Basic.{unpack_cookieverf3, unpack_nfsstat3, unpack_ftype3}
use perennial.Rfc1813.Structs.{unpack_specdata3, unpack_nfs_fh3, unpack_nfstime3}
use perennial.Rfc1813.Attributes.{unpack_fattr3, unpack_post_op_attr, unpack_post_op_fh3}

pub Decodes-nfsstat3 : {k : ℕ} → Decodes k unpack_nfsstat3
unfolding unpack_nfsstat3
Decodes-nfsstat3 = Decodes-enum _

pub Decodes-ftype3 : {k : ℕ} → Decodes k unpack_ftype3
unfolding unpack_ftype3
Decodes-ftype3 = Decodes-enum _

pub Decodes-specdata3 : {k : ℕ} → Decodes k unpack_specdata3
unfolding unpack_specdata3
Decodes-specdata3 =
    Decodes-bind _ _ (Decodes-field _ Decodes-uint)
      λ _. Decodes-bind _ _ (Decodes-field _ Decodes-uint) λ _. Decodes-pure _

pub Decodes-nfstime3 : {k : ℕ} → Decodes k unpack_nfstime3
unfolding unpack_nfstime3
Decodes-nfstime3 =
    Decodes-bind _ _ (Decodes-field _ Decodes-uint)
      λ _. Decodes-bind _ _ (Decodes-field _ Decodes-uint) λ _. Decodes-pure _

pub Decodes-fattr3 : {k : ℕ} → Decodes k unpack_fattr3
unfolding unpack_fattr3
Decodes-fattr3 = Decodes-bind _ _ (Decodes-field _ Decodes-ftype3) λ _.
    Decodes-bind _ _ (Decodes-field _ Decodes-uint) λ _.
      Decodes-bind _ _ (Decodes-field _ Decodes-uint) λ _.
        Decodes-bind _ _ (Decodes-field _ Decodes-uint) λ _.
          Decodes-bind _ _ (Decodes-field _ Decodes-uint) λ _.
            Decodes-bind _ _ (Decodes-field _ Decodes-uhyper) λ _.
              Decodes-bind _ _ (Decodes-field _ Decodes-uhyper) λ _.
                Decodes-bind _ _ (Decodes-field _ Decodes-specdata3) λ _.
                  Decodes-bind _ _ (Decodes-field _ Decodes-uhyper) λ _.
                    Decodes-bind _ _ (Decodes-field _ Decodes-uhyper) λ _.
                      Decodes-bind _ _ (Decodes-field _ Decodes-nfstime3) λ _.
                        Decodes-bind _ _ (Decodes-field _ Decodes-nfstime3) λ _.
                          Decodes-bind _ _ (Decodes-field _ Decodes-nfstime3) λ _. Decodes-pure _

pub Decodes-post_op_attr : {k : ℕ} → Decodes k unpack_post_op_attr
unfolding unpack_post_op_attr
Decodes-post_op_attr = Decodes-bind _ _ (Decodes-field _ Decodes-bool) λ z.
    (Decodes-if (field_is z int_true) _ _
      (Decodes-bind _ _ (Decodes-field _ Decodes-fattr3) λ _. Decodes-pure _)
      (Decodes-if (field_is z int_false) _ _ (Decodes-pure _) Decodes-raise))

pub Decodes-cookieverf3 : {k : ℕ} → Decodes k unpack_cookieverf3
unfolding unpack_cookieverf3
Decodes-cookieverf3 = Decodes-fopaque _

pub Decodes-nfs_fh3 : {k : ℕ} → Decodes k unpack_nfs_fh3
unfolding unpack_nfs_fh3
Decodes-nfs_fh3 =
    Decodes-bind _ _ (Decodes-field _ (Decodes-bounded _ _ Decodes-opaque)) λ _. Decodes-pure _

pub Decodes-post_op_fh3 : {k : ℕ} → Decodes k unpack_post_op_fh3
unfolding unpack_post_op_fh3
Decodes-post_op_fh3 = Decodes-bind _ _ (Decodes-field _ Decodes-bool) λ z.
    (Decodes-if (field_is z int_true) _ _
      (Decodes-bind _ _ (Decodes-field _ Decodes-nfs_fh3) λ _. Decodes-pure _)
      (Decodes-if (field_is z int_false) _ _ (Decodes-pure _) Decodes-raise))
