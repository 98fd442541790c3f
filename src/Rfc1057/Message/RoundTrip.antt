-- ===== src/Rfc1057/Message/RoundTrip.antt =====
-- Reading back what the packers of Rfc1057/Message.antt write.
use perennial.Prelude.{◌≡◌, refl, sym, none, length, if◌then◌else◌}
use perennial.Xdr.{Bytes, field_is, OnSome}
use perennial.Xdr.Reads.{Reads, Reads-raise, Reads-if, Reads-bind, Reads-last, Reads-done}
use perennial.Xdr.RoundTrip.{Reads-uint, Reads-fopaque, Reads-field, Reads-field_if}
use perennial.Rfc1057.Const.{
  call, reply, msg_accepted, msg_denied, success, prog_mismatch, rpc_mismatch, auth_error,
}
use perennial.Rfc1057.Message.{
  MismatchInfo, pack_mismatch_info, unpack_mismatch_info, pack_reply_results, unpack_reply_results,
  ReplyData, pack_reply_data, unpack_reply_data, CallBody, pack_call_body, unpack_call_body,
  AcceptedReply, pack_accepted_reply, unpack_accepted_reply, RejectedReply, pack_rejected_reply,
  unpack_rejected_reply, ReplyBody, pack_reply_body, unpack_reply_body, RpcMsgBody,
  pack_rpc_msg_body, unpack_rpc_msg_body, RpcMsg, pack_rpc_msg, unpack_rpc_msg,
}
use perennial.Rfc1057.Basic.RoundTrip.{
  Reads-opaque_auth, Reads-msg_type, Reads-reply_stat, Reads-accept_stat, Reads-reject_stat,
  Reads-auth_stat,
}

pub Reads-mismatch_info : (d : MismatchInfo) → Reads (pack_mismatch_info d) unpack_mismatch_info d
unfolding pack_mismatch_info unpack_mismatch_info
Reads-mismatch_info d =
    Reads-bind _ _ _ _ d.low d (Reads-field _ _ _ Reads-uint d.low)
      (Reads-last _ _ _ d.high d (Reads-field _ _ _ Reads-uint d.high) refl)

abbrev pub IsReplyResults : Bytes → Type 0
IsReplyResults s = length s ≡ 0

pub Reads-reply_results :
    (s : Bytes) → IsReplyResults s → Reads (pack_reply_results s) unpack_reply_results s
unfolding pack_reply_results unpack_reply_results
Reads-reply_results = Reads-fopaque 0

abbrev pub IsReplyData : ReplyData → Type 0
IsReplyData d =
    OnSome IsReplyResults d.results
    × (if field_is d.stat success
        then (d.mismatch_info ≡ none)
        else if field_is d.stat prog_mismatch
        then (d.results ≡ none)
        else (d.results ≡ none) × (d.mismatch_info ≡ none))

pub Reads-reply_data :
    (d : ReplyData) → IsReplyData d → Reads (pack_reply_data d) unpack_reply_data d
unfolding pack_reply_data unpack_reply_data
Reads-reply_data d c = Reads-bind _ _ _ _ d.stat d (Reads-field _ _ _ Reads-accept_stat d.stat) (
    Reads-if (field_is d.stat success) _ _ _ _ d
      (λ h0.
        let e = (rw h0 at c.1) in
        Reads-last _ _ _ d.results d
          (Reads-field_if _ _ _ IsReplyResults Reads-reply_results d.results c.0)
          (λ i. record { stat = d.stat; results = d.results; mismatch_info = sym e i }))
      (λ h0.
        Reads-if (field_is d.stat prog_mismatch) _ _ _ _ d
          (λ h1.
            let e = (rw h1 at (rw h0 at c.1)) in
            Reads-last _ _ _ d.mismatch_info d
              (Reads-field _ _ _ Reads-mismatch_info d.mismatch_info)
              (λ i. record { stat = d.stat; results = sym e i; mismatch_info = d.mismatch_info }))
          (λ h1.
            let e = (rw h1 at (rw h0 at c.1)) in
            Reads-done _ d
              (λ i. record { stat = d.stat; results = sym e.0 i; mismatch_info = sym e.1 i }))))

pub Reads-call_body : (d : CallBody) → Reads (pack_call_body d) unpack_call_body d
unfolding pack_call_body unpack_call_body
Reads-call_body d = Reads-bind _ _ _ _ d.rpcvers d (Reads-field _ _ _ Reads-uint d.rpcvers) (
    Reads-bind _ _ _ _ d.prog d (Reads-field _ _ _ Reads-uint d.prog) (
      Reads-bind _ _ _ _ d.vers d (Reads-field _ _ _ Reads-uint d.vers) (
        Reads-bind _ _ _ _ d.proc d (Reads-field _ _ _ Reads-uint d.proc) (
          Reads-bind _ _ _ _ d.cred d (Reads-field _ _ _ Reads-opaque_auth d.cred)
            (Reads-last _ _ _ d.verf d (Reads-field _ _ _ Reads-opaque_auth d.verf) refl)))))

abbrev pub IsAcceptedReply : AcceptedReply → Type 0
IsAcceptedReply d = OnSome IsReplyData d.reply_data

pub Reads-accepted_reply :
    (d : AcceptedReply) → IsAcceptedReply d → Reads (pack_accepted_reply d) unpack_accepted_reply d
unfolding pack_accepted_reply unpack_accepted_reply
Reads-accepted_reply d c =
    Reads-bind _ _ _ _ d.verf d (Reads-field _ _ _ Reads-opaque_auth d.verf) (
      Reads-last _ _ _ d.reply_data d
        (Reads-field_if _ _ _ IsReplyData Reads-reply_data d.reply_data c) refl)

abbrev pub IsRejectedReply : RejectedReply → Type 0
IsRejectedReply d =
    (if field_is d.stat rpc_mismatch
      then (d.astat ≡ none)
      else if field_is d.stat auth_error
      then (d.mismatch_info ≡ none)
      else Unit {0})

pub Reads-rejected_reply :
    (d : RejectedReply) → IsRejectedReply d → Reads (pack_rejected_reply d) unpack_rejected_reply d
unfolding pack_rejected_reply unpack_rejected_reply
Reads-rejected_reply d c =
    Reads-bind _ _ _ _ d.stat d (Reads-field _ _ _ Reads-reject_stat d.stat) (
      Reads-if (field_is d.stat rpc_mismatch) _ _ _ _ d
        (λ h0.
          let e = (rw h0 at c) in
          Reads-last _ _ _ d.mismatch_info d (Reads-field _ _ _ Reads-mismatch_info d.mismatch_info)
            (λ i. record { stat = d.stat; mismatch_info = d.mismatch_info; astat = sym e i }))
        (λ h0.
          Reads-if (field_is d.stat auth_error) _ _ _ _ d
            (λ h1.
              let e = (rw h1 at (rw h0 at c)) in
              Reads-last _ _ _ d.astat d (Reads-field _ _ _ Reads-auth_stat d.astat)
                (λ i. record { stat = d.stat; mismatch_info = sym e i; astat = d.astat }))
            (λ h1. Reads-raise _ d)))

abbrev pub IsReplyBody : ReplyBody → Type 0
IsReplyBody d =
    OnSome IsAcceptedReply d.areply
    × OnSome IsRejectedReply d.rreply
    × (if field_is d.stat msg_accepted
        then (d.rreply ≡ none)
        else if field_is d.stat msg_denied
        then (d.areply ≡ none)
        else Unit {0})

pub Reads-reply_body :
    (d : ReplyBody) → IsReplyBody d → Reads (pack_reply_body d) unpack_reply_body d
unfolding pack_reply_body unpack_reply_body
Reads-reply_body d c = Reads-bind _ _ _ _ d.stat d (Reads-field _ _ _ Reads-reply_stat d.stat) (
    Reads-if (field_is d.stat msg_accepted) _ _ _ _ d
      (λ h0.
        let e = (rw h0 at c.2) in
        Reads-last _ _ _ d.areply d
          (Reads-field_if _ _ _ IsAcceptedReply Reads-accepted_reply d.areply c.0)
          (λ i. record { stat = d.stat; areply = d.areply; rreply = sym e i }))
      (λ h0.
        Reads-if (field_is d.stat msg_denied) _ _ _ _ d
          (λ h1.
            let e = (rw h1 at (rw h0 at c.2)) in
            Reads-last _ _ _ d.rreply d
              (Reads-field_if _ _ _ IsRejectedReply Reads-rejected_reply d.rreply c.1)
              (λ i. record { stat = d.stat; areply = sym e i; rreply = d.rreply }))
          (λ h1. Reads-raise _ d)))

abbrev pub IsRpcMsgBody : RpcMsgBody → Type 0
IsRpcMsgBody d =
    OnSome IsReplyBody d.rbody
    × (if field_is d.mtype call
        then (d.rbody ≡ none)
        else if field_is d.mtype reply
        then (d.cbody ≡ none)
        else Unit {0})

pub Reads-rpc_msg_body :
    (d : RpcMsgBody) → IsRpcMsgBody d → Reads (pack_rpc_msg_body d) unpack_rpc_msg_body d
unfolding pack_rpc_msg_body unpack_rpc_msg_body
Reads-rpc_msg_body d c = Reads-bind _ _ _ _ d.mtype d (Reads-field _ _ _ Reads-msg_type d.mtype) (
    Reads-if (field_is d.mtype call) _ _ _ _ d
      (λ h0.
        let e = (rw h0 at c.1) in
        Reads-last _ _ _ d.cbody d (Reads-field _ _ _ Reads-call_body d.cbody)
          (λ i. record { mtype = d.mtype; cbody = d.cbody; rbody = sym e i }))
      (λ h0.
        Reads-if (field_is d.mtype reply) _ _ _ _ d
          (λ h1.
            let e = (rw h1 at (rw h0 at c.1)) in
            Reads-last _ _ _ d.rbody d
              (Reads-field_if _ _ _ IsReplyBody Reads-reply_body d.rbody c.0)
              (λ i. record { mtype = d.mtype; cbody = sym e i; rbody = d.rbody }))
          (λ h1. Reads-raise _ d)))

abbrev pub IsRpcMsg : RpcMsg → Type 0
IsRpcMsg d = OnSome IsRpcMsgBody d.body

pub Reads-rpc_msg : (d : RpcMsg) → IsRpcMsg d → Reads (pack_rpc_msg d) unpack_rpc_msg d
unfolding pack_rpc_msg unpack_rpc_msg
Reads-rpc_msg d c =
    Reads-bind _ _ _ _ d.xid d (Reads-field _ _ _ Reads-uint d.xid) (
      Reads-last _ _ _ d.body d (Reads-field_if _ _ _ IsRpcMsgBody Reads-rpc_msg_body d.body c)
        refl)
