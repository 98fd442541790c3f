-- ===== src/Rfc1813/Exports.antt =====
-- rfc1813/types.py and rfc1813/pack.py: mount3, mountopt3, groups3, exports3, exportsopt3.
pub mod Decoding
pub mod RoundTrip
use perennial.Prelude.{Option}
use perennial.Xdr.{Bytes, Packing, ◌⨾◌, Unpacking, pure, ◌>>=◌, pack_field, unpack_field}
use perennial.Xdr.Linked.{
  Linked, Nodes, set, pack_linked, pack_next, unpack_whole, unpack_whole_next,
}
use perennial.Rfc1813.Mount.{pack_dirpath3, unpack_dirpath3, pack_name3, unpack_name3}

-- The fields of mount3 before its next
pub record Mount3Fields : Type 0 where
  pub ml_hostname : Option Bytes
  pub ml_directory : Option Bytes

unfoldable pub pack_mount3_fields : Mount3Fields → Packing
pack_mount3_fields d = pack_field pack_name3 d.ml_hostname ⨾ pack_field pack_dirpath3 d.ml_directory

unfoldable pub unpack_mount3_fields : Unpacking Mount3Fields
unpack_mount3_fields = do
  ml_hostname' ← unpack_field unpack_name3
  ml_directory' ← unpack_field unpack_dirpath3
  pure (record { ml_hostname = ml_hostname'; ml_directory = ml_directory' })

-- struct mount3, which ends in an array of at most one mount3
abbrev pub Mount3 : Type 0
Mount3 = Linked Mount3Fields

unfoldable pub pack_mount3 : Mount3 → Packing
pack_mount3 = pack_linked pack_mount3_fields

unfoldable pub unpack_mount3 : Unpacking Mount3
unpack_mount3 = unpack_whole unpack_mount3_fields

unfoldable pub pack_mount3_array : Nodes Mount3Fields → Packing
pack_mount3_array ns = pack_next pack_mount3_fields (set ns)

unfoldable pub unpack_mount3_array : Unpacking (Nodes Mount3Fields)
unpack_mount3_array = unpack_whole_next unpack_mount3_fields

abbrev pub pack_mountopt3 : Nodes Mount3Fields → Packing
pack_mountopt3 = pack_mount3_array

abbrev pub unpack_mountopt3 : Unpacking (Nodes Mount3Fields)
unpack_mountopt3 = unpack_mount3_array

-- The fields of groups3 before its next
pub record Groups3Fields : Type 0 where
  pub gr_name : Option Bytes

unfoldable pub pack_groups3_fields : Groups3Fields → Packing
pack_groups3_fields d = pack_field pack_name3 d.gr_name

unfoldable pub unpack_groups3_fields : Unpacking Groups3Fields
unpack_groups3_fields = do
  gr_name' ← unpack_field unpack_name3
  pure (record { gr_name = gr_name' })

-- struct groups3, which ends in an array of at most one groups3
abbrev pub Groups3 : Type 0
Groups3 = Linked Groups3Fields

unfoldable pub pack_groups3 : Groups3 → Packing
pack_groups3 = pack_linked pack_groups3_fields

unfoldable pub unpack_groups3 : Unpacking Groups3
unpack_groups3 = unpack_whole unpack_groups3_fields

unfoldable pub pack_groups3_array : Nodes Groups3Fields → Packing
pack_groups3_array ns = pack_next pack_groups3_fields (set ns)

unfoldable pub unpack_groups3_array : Unpacking (Nodes Groups3Fields)
unpack_groups3_array = unpack_whole_next unpack_groups3_fields

-- The fields of exports3 before its next
pub record Exports3Fields : Type 0 where
  pub ex_dir : Option Bytes
  pub ex_groups : Option (Nodes Groups3Fields)

unfoldable pub pack_exports3_fields : Exports3Fields → Packing
pack_exports3_fields d =
    pack_field pack_dirpath3 d.ex_dir ⨾ pack_field pack_groups3_array d.ex_groups

unfoldable pub unpack_exports3_fields : Unpacking Exports3Fields
unpack_exports3_fields = do
  ex_dir' ← unpack_field unpack_dirpath3
  ex_groups' ← unpack_field unpack_groups3_array
  pure (record { ex_dir = ex_dir'; ex_groups = ex_groups' })

-- struct exports3, which ends in an array of at most one exports3
abbrev pub Exports3 : Type 0
Exports3 = Linked Exports3Fields

unfoldable pub pack_exports3 : Exports3 → Packing
pack_exports3 = pack_linked pack_exports3_fields

unfoldable pub unpack_exports3 : Unpacking Exports3
unpack_exports3 = unpack_whole unpack_exports3_fields

unfoldable pub pack_exports3_array : Nodes Exports3Fields → Packing
pack_exports3_array ns = pack_next pack_exports3_fields (set ns)

unfoldable pub unpack_exports3_array : Unpacking (Nodes Exports3Fields)
unpack_exports3_array = unpack_whole_next unpack_exports3_fields

abbrev pub pack_exportsopt3 : Nodes Exports3Fields → Packing
pack_exportsopt3 = pack_exports3_array

abbrev pub unpack_exportsopt3 : Unpacking (Nodes Exports3Fields)
unpack_exportsopt3 = unpack_exports3_array
