-- ===== src/Rfc1057/Pmaplist.antt =====
-- rfc1057/types.py and rfc1057/pack.py: pmaplistelem, pmaplist.
pub mod RoundTrip
use perennial.Prelude.{Option}
use perennial.Xdr.{Packing, Unpacking, pure, ◌>>=◌, pack_field, unpack_field}
use perennial.Xdr.Linked.{
  Linked, Nodes, set, pack_linked, pack_next, unpack_whole, unpack_whole_next,
}
use perennial.Rfc1057.Portmap.{Mapping, pack_mapping, unpack_mapping}

-- The fields of pmaplistelem before its next
pub record PmaplistElemFields : Type 0 where
  pub map : Option Mapping

unfoldable pub pack_pmaplistelem_fields : PmaplistElemFields → Packing
pack_pmaplistelem_fields d = pack_field pack_mapping d.map

unfoldable pub unpack_pmaplistelem_fields : Unpacking PmaplistElemFields
unpack_pmaplistelem_fields = do map' ← unpack_field unpack_mapping; pure (record { map = map' })

-- struct pmaplistelem, which ends in a pmaplist
abbrev pub PmaplistElem : Type 0
PmaplistElem = Linked PmaplistElemFields

unfoldable pub pack_pmaplistelem : PmaplistElem → Packing
pack_pmaplistelem = pack_linked pack_pmaplistelem_fields

unfoldable pub unpack_pmaplistelem : Unpacking PmaplistElem
unpack_pmaplistelem = unpack_whole unpack_pmaplistelem_fields

-- An array of at most one pmaplistelem
abbrev pub Pmaplist : Type 0
Pmaplist = Nodes PmaplistElemFields

unfoldable pub pack_pmaplist : Pmaplist → Packing
pack_pmaplist ns = pack_next pack_pmaplistelem_fields (set ns)

unfoldable pub unpack_pmaplist : Unpacking Pmaplist
unpack_pmaplist = unpack_whole_next unpack_pmaplistelem_fields
