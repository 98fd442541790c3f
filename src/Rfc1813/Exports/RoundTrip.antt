-- ===== src/Rfc1813/Exports/RoundTrip.antt =====
-- Reading back what the packers of Rfc1813/Exports.antt write.
use perennial.Prelude.{refl}
use perennial.Xdr.Reads.{Reads, Reads-bind, Reads-last}
use perennial.Xdr.RoundTrip.{Reads-field}
use perennial.Xdr.Linked.{Nodes}
use perennial.Xdr.Linked.RoundTrip.{Reads-whole, Reads-whole_next, all_linked, all_nodes}
use perennial.Rfc1813.Exports.{
  Mount3Fields, pack_mount3_fields, unpack_mount3_fields, Mount3, pack_mount3, unpack_mount3,
  pack_mount3_array, unpack_mount3_array, Groups3Fields, pack_groups3_fields, unpack_groups3_fields,
  Groups3, pack_groups3, unpack_groups3, pack_groups3_array, unpack_groups3_array, Exports3Fields,
  pack_exports3_fields, unpack_exports3_fields, Exports3, pack_exports3, unpack_exports3,
  pack_exports3_array, unpack_exports3_array,
}
use perennial.Rfc1813.Mount.RoundTrip.{Reads-dirpath3, Reads-name3}
use perennial.Rfc1813.Exports.Decoding.{
  Decodes-mount3_fields, Decodes-groups3_fields, Decodes-exports3_fields,
}

pub Reads-mount3_fields : (d : Mount3Fields) → Reads (pack_mount3_fields d) unpack_mount3_fields d
unfolding pack_mount3_fields unpack_mount3_fields
Reads-mount3_fields d =
    Reads-bind _ _ _ _ d.ml_hostname d (Reads-field _ _ _ Reads-name3 d.ml_hostname)
      (Reads-last _ _ _ d.ml_directory d (Reads-field _ _ _ Reads-dirpath3 d.ml_directory) refl)

pub Reads-mount3 : (d : Mount3) → Reads (pack_mount3 d) unpack_mount3 d
unfolding pack_mount3 unpack_mount3
Reads-mount3 d =
    Reads-whole (λ _. Unit {0}) pack_mount3_fields unpack_mount3_fields
      (λ a _. Reads-mount3_fields a) (λ k. Decodes-mount3_fields) d (all_linked d)

pub Reads-mount3_array :
    (d : Nodes Mount3Fields) → Reads (pack_mount3_array d) unpack_mount3_array d
unfolding pack_mount3_array unpack_mount3_array
Reads-mount3_array d =
    Reads-whole_next (λ _. Unit {0}) pack_mount3_fields unpack_mount3_fields
      (λ a _. Reads-mount3_fields a) (λ k. Decodes-mount3_fields) d (all_nodes d)

pub Reads-groups3_fields :
    (d : Groups3Fields) → Reads (pack_groups3_fields d) unpack_groups3_fields d
unfolding pack_groups3_fields unpack_groups3_fields
Reads-groups3_fields d = Reads-last _ _ _ d.gr_name d (Reads-field _ _ _ Reads-name3 d.gr_name) refl

pub Reads-groups3 : (d : Groups3) → Reads (pack_groups3 d) unpack_groups3 d
unfolding pack_groups3 unpack_groups3
Reads-groups3 d =
    Reads-whole (λ _. Unit {0}) pack_groups3_fields unpack_groups3_fields
      (λ a _. Reads-groups3_fields a) (λ k. Decodes-groups3_fields) d (all_linked d)

pub Reads-groups3_array :
    (d : Nodes Groups3Fields) → Reads (pack_groups3_array d) unpack_groups3_array d
unfolding pack_groups3_array unpack_groups3_array
Reads-groups3_array d =
    Reads-whole_next (λ _. Unit {0}) pack_groups3_fields unpack_groups3_fields
      (λ a _. Reads-groups3_fields a) (λ k. Decodes-groups3_fields) d (all_nodes d)

pub Reads-exports3_fields :
    (d : Exports3Fields) → Reads (pack_exports3_fields d) unpack_exports3_fields d
unfolding pack_exports3_fields unpack_exports3_fields
Reads-exports3_fields d =
    Reads-bind _ _ _ _ d.ex_dir d (Reads-field _ _ _ Reads-dirpath3 d.ex_dir)
      (Reads-last _ _ _ d.ex_groups d (Reads-field _ _ _ Reads-groups3_array d.ex_groups) refl)

pub Reads-exports3 : (d : Exports3) → Reads (pack_exports3 d) unpack_exports3 d
unfolding pack_exports3 unpack_exports3
Reads-exports3 d =
    Reads-whole (λ _. Unit {0}) pack_exports3_fields unpack_exports3_fields
      (λ a _. Reads-exports3_fields a) (λ k. Decodes-exports3_fields) d (all_linked d)

pub Reads-exports3_array :
    (d : Nodes Exports3Fields) → Reads (pack_exports3_array d) unpack_exports3_array d
unfolding pack_exports3_array unpack_exports3_array
Reads-exports3_array d =
    Reads-whole_next (λ _. Unit {0}) pack_exports3_fields unpack_exports3_fields
      (λ a _. Reads-exports3_fields a) (λ k. Decodes-exports3_fields) d (all_nodes d)
