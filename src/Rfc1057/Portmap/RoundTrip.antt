-- ===== src/Rfc1057/Portmap/RoundTrip.antt =====
-- Reading back what the packers of Rfc1057/Portmap.antt write.
use perennial.Prelude.{refl}
use perennial.Xdr.{pack_uint, unpack_uint, pack_opaque, pack_array}
use perennial.Xdr.Reads.{Reads, Reads-bind, Reads-last}
use perennial.Xdr.RoundTrip.{Reads-uint, Reads-opaque, Reads-array, Reads-bounded, Reads-field}
use perennial.Rfc1057.Portmap.{
  AuthUnix, pack_auth_unix, unpack_auth_unix, Mapping, pack_mapping, unpack_mapping, CallArgs,
  pack_call_args, unpack_call_args, CallResult, pack_call_result, unpack_call_result,
}

pub Reads-auth_unix : (d : AuthUnix) → Reads (pack_auth_unix d) unpack_auth_unix d
unfolding pack_auth_unix unpack_auth_unix
Reads-auth_unix d = Reads-bind _ _ _ _ d.stamp d (Reads-field _ _ _ Reads-uint d.stamp) (
    Reads-bind _ _ _ _ d.machinename d
      (Reads-field _ _ _ (λ xs. Reads-bounded _ pack_opaque _ xs (Reads-opaque xs)) d.machinename)
      (Reads-bind _ _ _ _ d.uid d (Reads-field _ _ _ Reads-uint d.uid) (
        Reads-bind _ _ _ _ d.gid d (Reads-field _ _ _ Reads-uint d.gid) (
          Reads-last _ _ _ d.gids d
            (Reads-field _ _ _
              (λ xs.
                Reads-bounded _ (pack_array pack_uint) _ xs
                  ((Reads-array pack_uint unpack_uint Reads-uint) xs))
              d.gids)
            refl))))

pub Reads-mapping : (d : Mapping) → Reads (pack_mapping d) unpack_mapping d
unfolding pack_mapping unpack_mapping
Reads-mapping d = Reads-bind _ _ _ _ d.prog d (Reads-field _ _ _ Reads-uint d.prog) (
    Reads-bind _ _ _ _ d.vers d (Reads-field _ _ _ Reads-uint d.vers) (
      Reads-bind _ _ _ _ d.prot d (Reads-field _ _ _ Reads-uint d.prot)
        (Reads-last _ _ _ d.port d (Reads-field _ _ _ Reads-uint d.port) refl)))

pub Reads-call_args : (d : CallArgs) → Reads (pack_call_args d) unpack_call_args d
unfolding pack_call_args unpack_call_args
Reads-call_args d = Reads-bind _ _ _ _ d.prog d (Reads-field _ _ _ Reads-uint d.prog) (
    Reads-bind _ _ _ _ d.vers d (Reads-field _ _ _ Reads-uint d.vers) (
      Reads-bind _ _ _ _ d.proc d (Reads-field _ _ _ Reads-uint d.proc)
        (Reads-last _ _ _ d.args d (Reads-field _ _ _ Reads-opaque d.args) refl)))

pub Reads-call_result : (d : CallResult) → Reads (pack_call_result d) unpack_call_result d
unfolding pack_call_result unpack_call_result
Reads-call_result d =
    Reads-bind _ _ _ _ d.port d (Reads-field _ _ _ Reads-uint d.port)
      (Reads-last _ _ _ d.res d (Reads-field _ _ _ Reads-opaque d.res) refl)
