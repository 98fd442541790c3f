-- ===== src/Rfc1813/Mount/RoundTrip.antt =====
-- Reading back what the packers of Rfc1813/Mount.antt write.
use perennial.Prelude.{◌≡◌, refl, sym, none, if◌then◌else◌}
use perennial.Xdr.{ℤ, Bytes, pack_uint, unpack_uint, pack_opaque, field_is}
use perennial.Xdr.Reads.{Reads, Reads-if, Reads-bind, Reads-last, Reads-done}
use perennial.Xdr.RoundTrip.{
  Reads-uint, Reads-opaque, Reads-array, Reads-bounded, Reads-field, Reads-enum,
}
use perennial.Rfc1813.Const.{mnt3_ok}
use perennial.Rfc1813.Mount.{
  pack_fhandle3, unpack_fhandle3, pack_dirpath3, unpack_dirpath3, pack_name3, unpack_name3,
  mountstat3_values, pack_mountstat3, unpack_mountstat3, Mountres3Ok, pack_mountres3_ok,
  unpack_mountres3_ok, Mountres3, pack_mountres3, unpack_mountres3,
}

pub Reads-fhandle3 : (s : Bytes) → Reads (pack_fhandle3 s) unpack_fhandle3 s
unfolding pack_fhandle3 unpack_fhandle3
Reads-fhandle3 s = Reads-bounded _ pack_opaque _ s (Reads-opaque s)

pub Reads-dirpath3 : (s : Bytes) → Reads (pack_dirpath3 s) unpack_dirpath3 s
unfolding pack_dirpath3 unpack_dirpath3
Reads-dirpath3 s = Reads-bounded _ pack_opaque _ s (Reads-opaque s)

pub Reads-name3 : (s : Bytes) → Reads (pack_name3 s) unpack_name3 s
unfolding pack_name3 unpack_name3
Reads-name3 s = Reads-bounded _ pack_opaque _ s (Reads-opaque s)

pub Reads-mountstat3 : (z : ℤ) → Reads (pack_mountstat3 z) unpack_mountstat3 z
unfolding pack_mountstat3 unpack_mountstat3
Reads-mountstat3 = Reads-enum mountstat3_values

pub Reads-mountres3_ok : (d : Mountres3Ok) → Reads (pack_mountres3_ok d) unpack_mountres3_ok d
unfolding pack_mountres3_ok unpack_mountres3_ok
Reads-mountres3_ok d = Reads-bind _ _ _ _ d.fhandle d (Reads-field _ _ _ Reads-fhandle3 d.fhandle) (
    Reads-last _ _ _ d.auth_flavors d
      (Reads-field _ _ _ (Reads-array pack_uint unpack_uint Reads-uint) d.auth_flavors) refl)

abbrev pub IsMountres3 : Mountres3 → Type 0
IsMountres3 d = (if field_is d.fhs_status mnt3_ok then Unit {0} else (d.mountinfo ≡ none))

pub Reads-mountres3 : (d : Mountres3) → IsMountres3 d → Reads (pack_mountres3 d) unpack_mountres3 d
unfolding pack_mountres3 unpack_mountres3
Reads-mountres3 d c =
    Reads-bind _ _ _ _ d.fhs_status d (Reads-field _ _ _ Reads-mountstat3 d.fhs_status) (
      Reads-if (field_is d.fhs_status mnt3_ok) _ _ _ _ d
        (λ h0.
          Reads-last _ _ _ d.mountinfo d (Reads-field _ _ _ Reads-mountres3_ok d.mountinfo) refl)
        (λ h0.
          let e = (rw h0 at c) in
          Reads-done _ d (λ i. record { fhs_status = d.fhs_status; mountinfo = sym e i })))
