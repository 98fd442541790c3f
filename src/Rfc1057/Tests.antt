-- ===== src/Rfc1057/Tests.antt =====
-- The codec of RPC messages at a reply that was denied.
use perennial.Prelude.{[], ◌∷◌, ◌++◌, ◌≡◌, refl, none, some}
use perennial.Outcome.{ok, err}
use perennial.Xdr.{pos, Bytes, Packing, pack_uint, pack_int, pack_enum}
use perennial.Rfc1057.Basic.{pack_msg_type, pack_reply_stat, pack_reject_stat}
use perennial.Rfc1057.Message.{
  RpcMsg, pack_rpc_msg, pack_rpc_msg_body, pack_reply_body, pack_rejected_reply, pack_mismatch_info,
  unpack_rpc_msg,
}
use perennial.Rfc1057.Messages.{unpack_rpc_msg-pack_rpc_msg}

abbrev packed : Packing → Bytes
packed p = elim (p []) [ ok b ↦ b | err e ↦ [] ]

-- RPC_MISMATCH: only the version 2 is served.
abbrev denied : RpcMsg
denied = record {
  xid = some 305419896;
  body = some (record {
    mtype = some (pos 1);
    cbody = none;
    rbody = some (record {
      stat = some (pos 1);
      areply = none;
      rreply = some (record {
        stat = some (pos 0);
        mismatch_info = some (record { low = some 2; high = some 2 });
        astat = none;
      });
    });
  });
}

denied_packs : pack_rpc_msg denied [] ≡ ok (packed (pack_rpc_msg denied))
unfolding pack_rpc_msg pack_rpc_msg_body pack_reply_body pack_rejected_reply pack_mismatch_info
    pack_msg_type pack_reply_stat pack_reject_stat pack_enum pack_int pack_uint
denied_packs = refl

unpack_rpc_msg-pack_rpc_msg_example :
    unpack_rpc_msg (packed (pack_rpc_msg denied) ++ (255 ∷ [])) ≡ ok (denied, 255 ∷ [])
unpack_rpc_msg-pack_rpc_msg_example =
    unpack_rpc_msg-pack_rpc_msg denied (packed (pack_rpc_msg denied)) (255 ∷ [])
      ((tt, refl, refl), refl) denied_packs
