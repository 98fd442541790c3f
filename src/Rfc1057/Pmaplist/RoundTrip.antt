-- ===== src/Rfc1057/Pmaplist/RoundTrip.antt =====
-- Reading back what the packers of Rfc1057/Pmaplist.antt write, and the end of its unpackers.
use perennial.Prelude.{ℕ, refl}
use perennial.Xdr.Reads.{Reads, Reads-last}
use perennial.Xdr.RoundTrip.{Reads-field}
use perennial.Xdr.Decodes.{Decodes, Decodes-pure, Decodes-bind, Decodes-uint, Decodes-field}
use perennial.Xdr.Linked.Fuel.{Decodes-whole_next}
use perennial.Xdr.Linked.RoundTrip.{Reads-whole, Reads-whole_next, all_linked, all_nodes}
use perennial.Rfc1057.Portmap.{unpack_mapping}
use perennial.Rfc1057.Portmap.RoundTrip.{Reads-mapping}
use perennial.Rfc1057.Pmaplist.{
  PmaplistElemFields, pack_pmaplistelem_fields, unpack_pmaplistelem_fields, PmaplistElem,
  pack_pmaplistelem, unpack_pmaplistelem, Pmaplist, pack_pmaplist, unpack_pmaplist,
}

Decodes-mapping : {k : ℕ} → Decodes k unpack_mapping
unfolding unpack_mapping
Decodes-mapping = Decodes-bind _ _ (Decodes-field _ Decodes-uint) λ _.
    Decodes-bind _ _ (Decodes-field _ Decodes-uint) λ _.
      Decodes-bind _ _ (Decodes-field _ Decodes-uint)
        λ _. Decodes-bind _ _ (Decodes-field _ Decodes-uint) λ _. Decodes-pure _

Decodes-pmaplistelem_fields : {k : ℕ} → Decodes k unpack_pmaplistelem_fields
unfolding unpack_pmaplistelem_fields
Decodes-pmaplistelem_fields = Decodes-bind _ _ (Decodes-field _ Decodes-mapping) λ _. Decodes-pure _

pub Decodes-pmaplist : {k : ℕ} → Decodes k unpack_pmaplist
unfolding unpack_pmaplist
Decodes-pmaplist = Decodes-whole_next _ (λ _. Decodes-pmaplistelem_fields)

Reads-pmaplistelem_fields :
    (d : PmaplistElemFields) → Reads (pack_pmaplistelem_fields d) unpack_pmaplistelem_fields d
unfolding pack_pmaplistelem_fields unpack_pmaplistelem_fields
Reads-pmaplistelem_fields d = Reads-last _ _ _ d.map d (Reads-field _ _ _ Reads-mapping d.map) refl

pub Reads-pmaplistelem : (d : PmaplistElem) → Reads (pack_pmaplistelem d) unpack_pmaplistelem d
unfolding pack_pmaplistelem unpack_pmaplistelem
Reads-pmaplistelem d =
    Reads-whole (λ _. Unit {0}) pack_pmaplistelem_fields unpack_pmaplistelem_fields
      (λ a _. Reads-pmaplistelem_fields a) (λ k. Decodes-pmaplistelem_fields) d (all_linked d)

pub Reads-pmaplist : (d : Pmaplist) → Reads (pack_pmaplist d) unpack_pmaplist d
unfolding pack_pmaplist unpack_pmaplist
Reads-pmaplist d =
    Reads-whole_next (λ _. Unit {0}) pack_pmaplistelem_fields unpack_pmaplistelem_fields
      (λ a _. Reads-pmaplistelem_fields a) (λ k. Decodes-pmaplistelem_fields) d (all_nodes d)
