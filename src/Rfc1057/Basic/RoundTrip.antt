-- ===== src/Rfc1057/Basic/RoundTrip.antt =====
-- Reading back what the packers of Rfc1057/Basic.antt write.
use perennial.Prelude.{refl}
use perennial.Xdr.{ℤ, pack_opaque}
use perennial.Xdr.Reads.{Reads, Reads-bind, Reads-last}
use perennial.Xdr.RoundTrip.{Reads-opaque, Reads-bounded, Reads-field, Reads-enum}
use perennial.Rfc1057.Basic.{
  auth_flavor_values, pack_auth_flavor, unpack_auth_flavor, OpaqueAuth, pack_opaque_auth,
  unpack_opaque_auth, msg_type_values, pack_msg_type, unpack_msg_type, reply_stat_values,
  pack_reply_stat, unpack_reply_stat, accept_stat_values, pack_accept_stat, unpack_accept_stat,
  reject_stat_values, pack_reject_stat, unpack_reject_stat, auth_stat_values, pack_auth_stat,
  unpack_auth_stat,
}

pub Reads-auth_flavor : (z : ℤ) → Reads (pack_auth_flavor z) unpack_auth_flavor z
unfolding pack_auth_flavor unpack_auth_flavor
Reads-auth_flavor = Reads-enum auth_flavor_values

pub Reads-opaque_auth : (d : OpaqueAuth) → Reads (pack_opaque_auth d) unpack_opaque_auth d
unfolding pack_opaque_auth unpack_opaque_auth
Reads-opaque_auth d = Reads-bind _ _ _ _ d.flavor d (Reads-field _ _ _ Reads-auth_flavor d.flavor) (
    Reads-last _ _ _ d.body d
      (Reads-field _ _ _ (λ xs. Reads-bounded _ pack_opaque _ xs (Reads-opaque xs)) d.body) refl)

pub Reads-msg_type : (z : ℤ) → Reads (pack_msg_type z) unpack_msg_type z
unfolding pack_msg_type unpack_msg_type
Reads-msg_type = Reads-enum msg_type_values

pub Reads-reply_stat : (z : ℤ) → Reads (pack_reply_stat z) unpack_reply_stat z
unfolding pack_reply_stat unpack_reply_stat
Reads-reply_stat = Reads-enum reply_stat_values

pub Reads-accept_stat : (z : ℤ) → Reads (pack_accept_stat z) unpack_accept_stat z
unfolding pack_accept_stat unpack_accept_stat
Reads-accept_stat = Reads-enum accept_stat_values

pub Reads-reject_stat : (z : ℤ) → Reads (pack_reject_stat z) unpack_reject_stat z
unfolding pack_reject_stat unpack_reject_stat
Reads-reject_stat = Reads-enum reject_stat_values

pub Reads-auth_stat : (z : ℤ) → Reads (pack_auth_stat z) unpack_auth_stat z
unfolding pack_auth_stat unpack_auth_stat
Reads-auth_stat = Reads-enum auth_stat_values
