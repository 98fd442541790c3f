-- ===== src/NfsTrace/Tests.antt =====
-- Runs of nfs_trace.py on a capture of two packets, and its theorems there.
use perennial.Prelude.{ℕ, ◌+◌, ◌^◌, ◌≡◌, refl, Option, none, some, [], ◌∷◌, ◌++◌, length, arith}
use perennial.Outcome.{ok, err}
use perennial.Xdr.{
  pos, Bytes, Packing, four_bytes, pack_uint, pack_int, pack_fopaque, pack_opaque, pack_enum, ◌⨾◌,
}
use perennial.Rfc1057.Basic.{
  OpaqueAuth, pack_auth_flavor, pack_opaque_auth, pack_msg_type, pack_reply_stat, pack_accept_stat,
}
use perennial.Rfc1057.Message.{
  CallBody, pack_rpc_msg, pack_rpc_msg_body, pack_call_body, pack_reply_body, pack_accepted_reply,
  pack_reply_data, pack_reply_results,
}
use perennial.Rfc1813.Basic.{pack_nfsstat3}
use perennial.Rfc1813.Structs.{pack_nfs_fh3}
use perennial.Rfc1813.Getattr.{Getattr3Args, Getattr3Res, pack_getattr3args, pack_getattr3res}
use perennial.NfsTrace.{Dpkt, getattr, getattr_res, call_reply_pairs}
use perennial.NfsTrace.Pairs.{PendingFit, ExchangesFit, call_reply_pairs-fit}
use perennial.NfsTrace.Wire.{call_msg, success_msg, Carries, getattr_exchange}

abbrev written : Packing → Bytes
written p = elim (p []) [ ok b ↦ b | err e ↦ [] ]

-- A packet: the type of its frame, its protocol and its data.
abbrev plain : Dpkt
plain = record {
  Packet = ℕ × ℕ × Bytes;
  eth_type = λ p. p.0;
  ip_p = λ p. p.1;
  tcp_data = λ p. p.2;
  eth_type_ip = 2048;
  ip_proto_tcp = 6;
}

abbrev no_auth : Option OpaqueAuth
no_auth = some (record { flavor = some (pos 0); body = some [] })

abbrev getattr_call : CallBody
getattr_call = record {
  rpcvers = some 2;
  prog = some 100_003;
  vers = some 3;
  proc = some 1;
  cred = no_auth;
  verf = no_auth;
}

abbrev args : Getattr3Args
args = record { object = some (record { contents = some (1 ∷ 0 ∷ 7 ∷ []) }) }

abbrev stale : Getattr3Res
stale = record { status = some (pos 70); resok = none }

abbrev call_packed : Packing
call_packed = pack_rpc_msg (call_msg 77 getattr_call) ⨾ pack_getattr3args args

abbrev reply_packed : Packing
reply_packed = pack_rpc_msg (success_msg 77 no_auth) ⨾ pack_getattr3res stale

call_packs : call_packed [] ≡ ok (written call_packed)
unfolding pack_rpc_msg pack_rpc_msg_body pack_call_body pack_opaque_auth pack_auth_flavor
    pack_msg_type pack_enum pack_int pack_uint pack_opaque pack_fopaque pack_getattr3args
    pack_nfs_fh3
call_packs = refl

reply_packs : reply_packed [] ≡ ok (written reply_packed)
unfolding pack_rpc_msg pack_rpc_msg_body pack_reply_body pack_accepted_reply pack_reply_data
    pack_reply_results pack_opaque_auth pack_auth_flavor pack_msg_type pack_reply_stat
    pack_accept_stat pack_enum pack_int pack_uint pack_opaque pack_fopaque pack_getattr3res
    pack_nfsstat3
reply_packs = refl

-- The packet that carries `d`.
abbrev packet : Bytes → ℕ × ℕ × Bytes
packet d = (2048, 6, four_bytes (2 ^ 31 + length d) ++ d)

call_carried : Carries plain (packet (written call_packed)) (written call_packed)
unfolding pack_rpc_msg pack_rpc_msg_body pack_call_body pack_opaque_auth pack_auth_flavor
    pack_msg_type pack_enum pack_int pack_uint pack_opaque pack_fopaque pack_getattr3args
    pack_nfs_fh3
call_carried = record { over_ip = refl; over_tcp = refl; fits = omega arith; marked = refl }

reply_carried : Carries plain (packet (written reply_packed)) (written reply_packed)
unfolding pack_rpc_msg pack_rpc_msg_body pack_reply_body pack_accepted_reply pack_reply_data
    pack_reply_results pack_opaque_auth pack_auth_flavor pack_msg_type pack_reply_stat
    pack_accept_stat pack_enum pack_int pack_uint pack_opaque pack_fopaque pack_getattr3res
    pack_nfsstat3
reply_carried = record { over_ip = refl; over_tcp = refl; fits = omega arith; marked = refl }

getattr_exchange_example :
    call_reply_pairs plain (packet (written call_packed) ∷ packet (written reply_packed) ∷ []) []
    ≡ ok (
      record { proc = 1; args = getattr args; reply = getattr_res stale } ∷ [],
      (77, (getattr_call, getattr args)) ∷ [],
    )
getattr_exchange_example =
    getattr_exchange plain (packet (written call_packed)) (packet (written reply_packed)) 77
      getattr_call no_auth args stale (written call_packed) (written reply_packed) [] refl
      (tt, refl) call_packs reply_packs call_carried reply_carried

call_reply_pairs-fit_example :
    ExchangesFit (record { proc = 1; args = getattr args; reply = getattr_res stale } ∷ [])
    × PendingFit ((77, (getattr_call, getattr args)) ∷ [])
call_reply_pairs-fit_example =
    call_reply_pairs-fit plain (packet (written call_packed) ∷ packet (written reply_packed) ∷ [])
      [] ((77, (getattr_call, getattr args)) ∷ [])
      (record { proc = 1; args = getattr args; reply = getattr_res stale } ∷ []) tt
      getattr_exchange_example
