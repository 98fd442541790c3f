-- ===== src/Rfc1057/Message.antt =====
-- rfc1813/types.py and rfc1813/pack.py: mismatch_info, reply_results, reply_data, call_body,
-- accepted_reply, rejected_reply, reply_body, rpc_msg_body, rpc_msg.
pub mod RoundTrip
use perennial.Prelude.{ℕ, Option, none, if◌then◌else◌}
use perennial.Xdr.{
  ℤ, Bytes, Packing, skip, ◌⨾◌, raise, Unpacking, pure, ◌>>=◌, pack_uint, unpack_uint, pack_fopaque,
  unpack_fopaque, pack_field, unpack_field, field_is,
}
use perennial.Rfc1057.Const.{
  call, reply, msg_accepted, msg_denied, success, prog_mismatch, rpc_mismatch, auth_error,
}
use perennial.Rfc1057.Basic.{
  OpaqueAuth, pack_opaque_auth, unpack_opaque_auth, pack_msg_type, unpack_msg_type, pack_reply_stat,
  unpack_reply_stat, pack_accept_stat, unpack_accept_stat, pack_reject_stat, unpack_reject_stat,
  pack_auth_stat, unpack_auth_stat,
}

-- struct mismatch_info
pub record MismatchInfo : Type 0 where
  pub low : Option ℕ
  pub high : Option ℕ

unfoldable pub pack_mismatch_info : MismatchInfo → Packing
pack_mismatch_info d = pack_field pack_uint d.low ⨾ pack_field pack_uint d.high

unfoldable pub unpack_mismatch_info : Unpacking MismatchInfo
unpack_mismatch_info = do
  low' ← unpack_field unpack_uint
  high' ← unpack_field unpack_uint
  pure (record { low = low'; high = high' })

unfoldable pub pack_reply_results : Bytes → Packing
pack_reply_results = pack_fopaque 0

unfoldable pub unpack_reply_results : Unpacking Bytes
unpack_reply_results = unpack_fopaque 0

-- union reply_data
pub record ReplyData : Type 0 where
  pub stat : Option ℤ
  pub results : Option Bytes
  pub mismatch_info : Option MismatchInfo

unfoldable pub pack_reply_data : ReplyData → Packing
pack_reply_data d =
    pack_field pack_accept_stat d.stat
    ⨾ (if field_is d.stat success
        then pack_field pack_reply_results d.results
        else if field_is d.stat prog_mismatch
        then pack_field pack_mismatch_info d.mismatch_info
        else skip)

unfoldable pub unpack_reply_data : Unpacking ReplyData
unpack_reply_data = do
  stat' ← unpack_field unpack_accept_stat
  (if field_is stat' success
      then (unpack_field unpack_reply_results >>= λ arm.
          pure (record { stat = stat'; results = arm; mismatch_info = none }))
      else if field_is stat' prog_mismatch
      then (unpack_field unpack_mismatch_info >>= λ arm.
          pure (record { stat = stat'; results = none; mismatch_info = arm }))
      else pure (record { stat = stat'; results = none; mismatch_info = none }))

-- struct call_body
pub record CallBody : Type 0 where
  pub rpcvers : Option ℕ
  pub prog : Option ℕ
  pub vers : Option ℕ
  pub proc : Option ℕ
  pub cred : Option OpaqueAuth
  pub verf : Option OpaqueAuth

unfoldable pub pack_call_body : CallBody → Packing
pack_call_body d =
    pack_field pack_uint d.rpcvers
    ⨾ pack_field pack_uint d.prog
    ⨾ pack_field pack_uint d.vers
    ⨾ pack_field pack_uint d.proc
    ⨾ pack_field pack_opaque_auth d.cred
    ⨾ pack_field pack_opaque_auth d.verf

unfoldable pub unpack_call_body : Unpacking CallBody
unpack_call_body = do
  rpcvers' ← unpack_field unpack_uint
  prog' ← unpack_field unpack_uint
  vers' ← unpack_field unpack_uint
  proc' ← unpack_field unpack_uint
  cred' ← unpack_field unpack_opaque_auth
  verf' ← unpack_field unpack_opaque_auth
  pure (record {
    rpcvers = rpcvers';
    prog = prog';
    vers = vers';
    proc = proc';
    cred = cred';
    verf = verf';
  })

-- struct accepted_reply
pub record AcceptedReply : Type 0 where
  pub verf : Option OpaqueAuth
  pub reply_data : Option ReplyData

unfoldable pub pack_accepted_reply : AcceptedReply → Packing
pack_accepted_reply d = pack_field pack_opaque_auth d.verf ⨾ pack_field pack_reply_data d.reply_data

unfoldable pub unpack_accepted_reply : Unpacking AcceptedReply
unpack_accepted_reply = do
  verf' ← unpack_field unpack_opaque_auth
  reply_data' ← unpack_field unpack_reply_data
  pure (record { verf = verf'; reply_data = reply_data' })

-- union rejected_reply
pub record RejectedReply : Type 0 where
  pub stat : Option ℤ
  pub mismatch_info : Option MismatchInfo
  pub astat : Option ℤ

unfoldable pub pack_rejected_reply : RejectedReply → Packing
pack_rejected_reply d =
    pack_field pack_reject_stat d.stat
    ⨾ (if field_is d.stat rpc_mismatch
        then pack_field pack_mismatch_info d.mismatch_info
        else if field_is d.stat auth_error
        then pack_field pack_auth_stat d.astat
        else raise)

unfoldable pub unpack_rejected_reply : Unpacking RejectedReply
unpack_rejected_reply = do
  stat' ← unpack_field unpack_reject_stat
  (if field_is stat' rpc_mismatch
      then (unpack_field unpack_mismatch_info >>= λ arm.
          pure (record { stat = stat'; mismatch_info = arm; astat = none }))
      else if field_is stat' auth_error
      then (unpack_field unpack_auth_stat >>= λ arm.
          pure (record { stat = stat'; mismatch_info = none; astat = arm }))
      else raise)

-- union reply_body
pub record ReplyBody : Type 0 where
  pub stat : Option ℤ
  pub areply : Option AcceptedReply
  pub rreply : Option RejectedReply

unfoldable pub pack_reply_body : ReplyBody → Packing
pack_reply_body d =
    pack_field pack_reply_stat d.stat
    ⨾ (if field_is d.stat msg_accepted
        then pack_field pack_accepted_reply d.areply
        else if field_is d.stat msg_denied
        then pack_field pack_rejected_reply d.rreply
        else raise)

unfoldable pub unpack_reply_body : Unpacking ReplyBody
unpack_reply_body = do
  stat' ← unpack_field unpack_reply_stat
  (if field_is stat' msg_accepted
      then (unpack_field unpack_accepted_reply >>= λ arm.
          pure (record { stat = stat'; areply = arm; rreply = none }))
      else if field_is stat' msg_denied
      then (unpack_field unpack_rejected_reply >>= λ arm.
          pure (record { stat = stat'; areply = none; rreply = arm }))
      else raise)

-- union rpc_msg_body
pub record RpcMsgBody : Type 0 where
  pub mtype : Option ℤ
  pub cbody : Option CallBody
  pub rbody : Option ReplyBody

unfoldable pub pack_rpc_msg_body : RpcMsgBody → Packing
pack_rpc_msg_body d =
    pack_field pack_msg_type d.mtype
    ⨾ (if field_is d.mtype call
        then pack_field pack_call_body d.cbody
        else if field_is d.mtype reply
        then pack_field pack_reply_body d.rbody
        else raise)

unfoldable pub unpack_rpc_msg_body : Unpacking RpcMsgBody
unpack_rpc_msg_body = do
  mtype' ← unpack_field unpack_msg_type
  (if field_is mtype' call
      then (unpack_field unpack_call_body >>= λ arm.
          pure (record { mtype = mtype'; cbody = arm; rbody = none }))
      else if field_is mtype' reply
      then (unpack_field unpack_reply_body >>= λ arm.
          pure (record { mtype = mtype'; cbody = none; rbody = arm }))
      else raise)

-- struct rpc_msg
pub record RpcMsg : Type 0 where
  pub xid : Option ℕ
  pub body : Option RpcMsgBody

unfoldable pub pack_rpc_msg : RpcMsg → Packing
pack_rpc_msg d = pack_field pack_uint d.xid ⨾ pack_field pack_rpc_msg_body d.body

unfoldable pub unpack_rpc_msg : Unpacking RpcMsg
unpack_rpc_msg = do
  xid' ← unpack_field unpack_uint
  body' ← unpack_field unpack_rpc_msg_body
  pure (record { xid = xid'; body = body' })
