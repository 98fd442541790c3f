-- ===== src/Rfc1057/Messages.antt =====
-- The round trip of rpc_msg of rfc1057/pack.py, from an empty buffer.
use perennial.Prelude.{[], ◌++◌, ◌≡◌}
use perennial.Outcome.{ok}
use perennial.Xdr.{Bytes}
use perennial.Xdr.Reads.{Reads-message}
use perennial.Rfc1057.Message.{RpcMsg, pack_rpc_msg, unpack_rpc_msg}
use perennial.Rfc1057.Message.RoundTrip.{IsRpcMsg, Reads-rpc_msg}

-- If an RPC message is packed whose arms that its discriminants do not select are None, and whose
-- results, if they are set, are the zero bytes of their size, then unpacking gives it back and
-- leaves what follows.
pub unpack_rpc_msg-pack_rpc_msg :
    (m : RpcMsg) (w rest : Bytes)
    → IsRpcMsg m
    → pack_rpc_msg m [] ≡ ok w
    → unpack_rpc_msg (w ++ rest) ≡ ok (m, rest)
unpack_rpc_msg-pack_rpc_msg m w rest c = Reads-message w rest (Reads-rpc_msg m c)
