-- ===== src/Rfc1813/Exports/Decoding.antt =====
-- The unpackers of Rfc1813/Exports.antt end, and leave no more than they are given.
use perennial.Prelude.{ℕ}
use perennial.Xdr.Decodes.{
  Decodes, Decodes-pure, Decodes-bind, Decodes-opaque, Decodes-field, Decodes-bounded,
}
use perennial.Xdr.Linked.Fuel.{Decodes-whole_next}
use perennial.Rfc1813.Mount.{unpack_dirpath3, unpack_name3}
use perennial.Rfc1813.Exports.{
  unpack_mount3_fields, unpack_mount3_array, unpack_groups3_fields, unpack_groups3_array,
  unpack_exports3_fields, unpack_exports3_array,
}

pub Decodes-name3 : {k : ℕ} → Decodes k unpack_name3
unfolding unpack_name3
Decodes-name3 = Decodes-bounded _ _ Decodes-opaque

pub Decodes-dirpath3 : {k : ℕ} → Decodes k unpack_dirpath3
unfolding unpack_dirpath3
Decodes-dirpath3 = Decodes-bounded _ _ Decodes-opaque

pub Decodes-mount3_fields : {k : ℕ} → Decodes k unpack_mount3_fields
unfolding unpack_mount3_fields
Decodes-mount3_fields =
    Decodes-bind _ _ (Decodes-field _ Decodes-name3)
      λ _. Decodes-bind _ _ (Decodes-field _ Decodes-dirpath3) λ _. Decodes-pure _

pub Decodes-mount3_array : {k : ℕ} → Decodes k unpack_mount3_array
unfolding unpack_mount3_array
Decodes-mount3_array = Decodes-whole_next _ (λ _. Decodes-mount3_fields)

pub Decodes-groups3_fields : {k : ℕ} → Decodes k unpack_groups3_fields
unfolding unpack_groups3_fields
Decodes-groups3_fields = Decodes-bind _ _ (Decodes-field _ Decodes-name3) λ _. Decodes-pure _

pub Decodes-groups3_array : {k : ℕ} → Decodes k unpack_groups3_array
unfolding unpack_groups3_array
Decodes-groups3_array = Decodes-whole_next _ (λ _. Decodes-groups3_fields)

pub Decodes-exports3_fields : {k : ℕ} → Decodes k unpack_exports3_fields
unfolding unpack_exports3_fields
Decodes-exports3_fields =
    Decodes-bind _ _ (Decodes-field _ Decodes-dirpath3)
      λ _. Decodes-bind _ _ (Decodes-field _ Decodes-groups3_array) λ _. Decodes-pure _

pub Decodes-exports3_array : {k : ℕ} → Decodes k unpack_exports3_array
unfolding unpack_exports3_array
Decodes-exports3_array = Decodes-whole_next _ (λ _. Decodes-exports3_fields)
