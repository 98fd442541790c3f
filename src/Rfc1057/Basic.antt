-- ===== src/Rfc1057/Basic.antt =====
-- rfc1813/types.py and rfc1813/pack.py: auth_flavor, opaque_auth, msg_type, reply_stat,
-- accept_stat, reject_stat, auth_stat.
pub mod RoundTrip
use perennial.Prelude.{ℕ, Option, List, [], ◌∷◌}
use perennial.Xdr.{
  ℤ, Bytes, Packing, ◌⨾◌, Unpacking, pure, ◌>>=◌, pack_opaque, unpack_opaque, pack_field,
  unpack_field, pack_bounded, unpack_bounded, pack_enum, unpack_enum,
}
use perennial.Rfc1057.Const.{
  auth_none, auth_unix, auth_short, auth_des, call, reply, msg_accepted, msg_denied, success,
  prog_unavail, prog_mismatch, proc_unavail, garbage_args, rpc_mismatch, auth_error, auth_badcred,
  auth_rejectedcred, auth_badverf, auth_rejectedverf, auth_tooweak,
}

-- The constants of the enumeration auth_flavor.
abbrev pub auth_flavor_values : List ℕ
auth_flavor_values = auth_none ∷ auth_unix ∷ auth_short ∷ auth_des ∷ []

unfoldable pub pack_auth_flavor : ℤ → Packing
pack_auth_flavor = pack_enum auth_flavor_values

unfoldable pub unpack_auth_flavor : Unpacking ℤ
unpack_auth_flavor = unpack_enum auth_flavor_values

-- struct opaque_auth
pub record OpaqueAuth : Type 0 where
  pub flavor : Option ℤ
  pub body : Option Bytes

unfoldable pub pack_opaque_auth : OpaqueAuth → Packing
pack_opaque_auth d =
    pack_field pack_auth_flavor d.flavor ⨾ pack_field (pack_bounded 400 pack_opaque) d.body

unfoldable pub unpack_opaque_auth : Unpacking OpaqueAuth
unpack_opaque_auth = do
  flavor' ← unpack_field unpack_auth_flavor
  body' ← unpack_field (unpack_bounded 400 unpack_opaque)
  pure (record { flavor = flavor'; body = body' })

-- The constants of the enumeration msg_type.
abbrev pub msg_type_values : List ℕ
msg_type_values = call ∷ reply ∷ []

unfoldable pub pack_msg_type : ℤ → Packing
pack_msg_type = pack_enum msg_type_values

unfoldable pub unpack_msg_type : Unpacking ℤ
unpack_msg_type = unpack_enum msg_type_values

-- The constants of the enumeration reply_stat.
abbrev pub reply_stat_values : List ℕ
reply_stat_values = msg_accepted ∷ msg_denied ∷ []

unfoldable pub pack_reply_stat : ℤ → Packing
pack_reply_stat = pack_enum reply_stat_values

unfoldable pub unpack_reply_stat : Unpacking ℤ
unpack_reply_stat = unpack_enum reply_stat_values

-- The constants of the enumeration accept_stat.
abbrev pub accept_stat_values : List ℕ
accept_stat_values = success ∷ prog_unavail ∷ prog_mismatch ∷ proc_unavail ∷ garbage_args ∷ []

unfoldable pub pack_accept_stat : ℤ → Packing
pack_accept_stat = pack_enum accept_stat_values

unfoldable pub unpack_accept_stat : Unpacking ℤ
unpack_accept_stat = unpack_enum accept_stat_values

-- The constants of the enumeration reject_stat.
abbrev pub reject_stat_values : List ℕ
reject_stat_values = rpc_mismatch ∷ auth_error ∷ []

unfoldable pub pack_reject_stat : ℤ → Packing
pack_reject_stat = pack_enum reject_stat_values

unfoldable pub unpack_reject_stat : Unpacking ℤ
unpack_reject_stat = unpack_enum reject_stat_values

-- The constants of the enumeration auth_stat.
abbrev pub auth_stat_values : List ℕ
auth_stat_values =
    auth_badcred ∷ auth_rejectedcred ∷ auth_badverf ∷ auth_rejectedverf ∷ auth_tooweak ∷ []

unfoldable pub pack_auth_stat : ℤ → Packing
pack_auth_stat = pack_enum auth_stat_values

unfoldable pub unpack_auth_stat : Unpacking ℤ
unpack_auth_stat = unpack_enum auth_stat_values
