-- ===== src/Rfc1813/Listing/Decoding.antt =====
-- The unpackers of Rfc1813/Listing.antt end, and leave no more than they are given.
use perennial.Prelude.{ℕ}
use perennial.Xdr.{field_is}
use perennial.Xdr.Decodes.{
  Decodes, Decodes-pure, Decodes-if, Decodes-bind, Decodes-bool, Decodes-uhyper, Decodes-opaque,
  Decodes-field,
}
use perennial.Xdr.Linked.Fuel.{Decodes-whole_next}
use perennial.Rfc1813.Const.{nfs3_ok}
use perennial.Rfc1813.Readdir.{unpack_readdir3resfail, unpack_readdirplus3resfail}
use perennial.Rfc1813.Listing.{
  unpack_entry3_fields, unpack_entry3_array, unpack_dirlist3, unpack_readdir3resok,
  unpack_readdir3res, unpack_entryplus3_fields, unpack_entryplus3_array, unpack_dirlistplus3,
  unpack_readdirplus3resok, unpack_readdirplus3res,
}
use perennial.Rfc1813.Attributes.Decoding.{
  Decodes-nfsstat3, Decodes-post_op_attr, Decodes-cookieverf3, Decodes-post_op_fh3,
}

pub Decodes-entry3_fields : {k : ℕ} → Decodes k unpack_entry3_fields
unfolding unpack_entry3_fields
Decodes-entry3_fields = Decodes-bind _ _ (Decodes-field _ Decodes-uhyper) λ _.
    Decodes-bind _ _ (Decodes-field _ Decodes-opaque)
      λ _. Decodes-bind _ _ (Decodes-field _ Decodes-uhyper) λ _. Decodes-pure _

pub Decodes-entry3_array : {k : ℕ} → Decodes k unpack_entry3_array
unfolding unpack_entry3_array
Decodes-entry3_array = Decodes-whole_next _ (λ _. Decodes-entry3_fields)

pub Decodes-dirlist3 : {k : ℕ} → Decodes k unpack_dirlist3
unfolding unpack_dirlist3
Decodes-dirlist3 =
    Decodes-bind _ _ (Decodes-field _ Decodes-entry3_array)
      λ _. Decodes-bind _ _ (Decodes-field _ Decodes-bool) λ _. Decodes-pure _

pub Decodes-readdir3resok : {k : ℕ} → Decodes k unpack_readdir3resok
unfolding unpack_readdir3resok
Decodes-readdir3resok = Decodes-bind _ _ (Decodes-field _ Decodes-post_op_attr) λ _.
    Decodes-bind _ _ (Decodes-field _ Decodes-cookieverf3)
      λ _. Decodes-bind _ _ (Decodes-field _ Decodes-dirlist3) λ _. Decodes-pure _

pub Decodes-readdir3resfail : {k : ℕ} → Decodes k unpack_readdir3resfail
unfolding unpack_readdir3resfail
Decodes-readdir3resfail =
    Decodes-bind _ _ (Decodes-field _ Decodes-post_op_attr) λ _. Decodes-pure _

pub Decodes-readdir3res : {k : ℕ} → Decodes k unpack_readdir3res
unfolding unpack_readdir3res
Decodes-readdir3res = Decodes-bind _ _ (Decodes-field _ Decodes-nfsstat3) λ z.
    (Decodes-if (field_is z nfs3_ok) _ _
      (Decodes-bind _ _ (Decodes-field _ Decodes-readdir3resok) λ _. Decodes-pure _)
      (Decodes-bind _ _ (Decodes-field _ Decodes-readdir3resfail) λ _. Decodes-pure _))

pub Decodes-entryplus3_fields : {k : ℕ} → Decodes k unpack_entryplus3_fields
unfolding unpack_entryplus3_fields
Decodes-entryplus3_fields = Decodes-bind _ _ (Decodes-field _ Decodes-uhyper) λ _.
    Decodes-bind _ _ (Decodes-field _ Decodes-opaque) λ _.
      Decodes-bind _ _ (Decodes-field _ Decodes-uhyper) λ _.
        Decodes-bind _ _ (Decodes-field _ Decodes-post_op_attr)
          λ _. Decodes-bind _ _ (Decodes-field _ Decodes-post_op_fh3) λ _. Decodes-pure _

pub Decodes-entryplus3_array : {k : ℕ} → Decodes k unpack_entryplus3_array
unfolding unpack_entryplus3_array
Decodes-entryplus3_array = Decodes-whole_next _ (λ _. Decodes-entryplus3_fields)

pub Decodes-dirlistplus3 : {k : ℕ} → Decodes k unpack_dirlistplus3
unfolding unpack_dirlistplus3
Decodes-dirlistplus3 =
    Decodes-bind _ _ (Decodes-field _ Decodes-entryplus3_array)
      λ _. Decodes-bind _ _ (Decodes-field _ Decodes-bool) λ _. Decodes-pure _

pub Decodes-readdirplus3resok : {k : ℕ} → Decodes k unpack_readdirplus3resok
unfolding unpack_readdirplus3resok
Decodes-readdirplus3resok = Decodes-bind _ _ (Decodes-field _ Decodes-post_op_attr) λ _.
    Decodes-bind _ _ (Decodes-field _ Decodes-cookieverf3)
      λ _. Decodes-bind _ _ (Decodes-field _ Decodes-dirlistplus3) λ _. Decodes-pure _

pub Decodes-readdirplus3resfail : {k : ℕ} → Decodes k unpack_readdirplus3resfail
unfolding unpack_readdirplus3resfail
Decodes-readdirplus3resfail =
    Decodes-bind _ _ (Decodes-field _ Decodes-post_op_attr) λ _. Decodes-pure _

pub Decodes-readdirplus3res : {k : ℕ} → Decodes k unpack_readdirplus3res
unfolding unpack_readdirplus3res
Decodes-readdirplus3res = Decodes-bind _ _ (Decodes-field _ Decodes-nfsstat3) λ z.
    (Decodes-if (field_is z nfs3_ok) _ _
      (Decodes-bind _ _ (Decodes-field _ Decodes-readdirplus3resok) λ _. Decodes-pure _)
      (Decodes-bind _ _ (Decodes-field _ Decodes-readdirplus3resfail) λ _. Decodes-pure _))
