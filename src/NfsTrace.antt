-- ===== src/NfsTrace.antt =====
-- src/goose_lang/examples/nfs_spec/symtest/nfs_trace.py: the calls and replies of a packet capture,
-- paired by their transaction number. dpkt, which decodes the capture, is a parameter.
pub mod Pairs
pub mod Wire
mod Tests
use perennial.Prelude.{
  ℕ, ◌%◌, ◌^◌, not, Option, none, some, List, [], ◌∷◌, ◌++◌, length, ltb, ◌==◌, if◌then◌else◌,
}
use perennial.Outcome.{Result, ok, err, key_error, attribute_error, exception, ◌>>=◌}
use perennial.Xdr.{Bytes, unpack_uint, field_is}
use perennial.Rfc1057.Const.{call, msg_accepted, success}
use perennial.Rfc1057.Message.{CallBody, unpack_rpc_msg}
use perennial.Rfc1813.Getattr.{Getattr3Args, Getattr3Res, unpack_getattr3args, unpack_getattr3res}
use perennial.Rfc1813.Lookup.{
  Lookup3Args, Lookup3Res, unpack_lookup3args, unpack_lookup3res, Access3Args, Access3Res,
  unpack_access3args, unpack_access3res,
}

-- What the code reads of dpkt: a packet's fields, and two constants.
pub record Dpkt : Type 1 where
  pub Packet : Type 0
  pub eth_type : Packet → ℕ
  pub ip_p : Packet → ℕ
  pub tcp_data : Packet → Bytes
  pub eth_type_ip : ℕ
  pub ip_proto_tcp : ℕ

pub data ProcArgs : Type 0 where
  getattr : Getattr3Args → ProcArgs
  lookup : Lookup3Args → ProcArgs
  access : Access3Args → ProcArgs

pub data ProcReply : Type 0 where
  getattr_res : Getattr3Res → ProcReply
  lookup_res : Lookup3Res → ProcReply
  access_res : Access3Res → ProcReply

-- The value that an unpacker read; what it left behind is not looked at.
abbrev value {ℓ κ} : {A : Type ℓ} {B : Type κ} → (A → B) → Result (A × Bytes) → Result B
value f r = r >>= λ p. ok (f p.0)

unfoldable pub unpack_call : ℕ → Bytes → Result ProcArgs
unpack_call proc nextdata =
    if proc == 1
    then value getattr (unpack_getattr3args nextdata)
    else if proc == 3
    then value lookup (unpack_lookup3args nextdata)
    else if proc == 4
    then value access (unpack_access3args nextdata)
    else err exception

unfoldable pub unpack_reply : ℕ → Bytes → Result ProcReply
unpack_reply proc nextdata =
    if proc == 1
    then value getattr_res (unpack_getattr3res nextdata)
    else if proc == 3
    then value lookup_res (unpack_lookup3res nextdata)
    else if proc == 4
    then value access_res (unpack_access3res nextdata)
    else err exception

-- An entry of the result list.
pub record Exchange : Type 0 where
  pub proc : ℕ
  pub args : ProcArgs
  pub reply : ProcReply

-- The global `pending_calls`, and the result so far.
pub record Trace : Type 0 where
  pub pending : List (ℕ × (CallBody × ProcArgs))
  pub result : List Exchange

abbrev pub set_pending :
    ℕ → CallBody × ProcArgs → List (ℕ × (CallBody × ProcArgs)) → List (ℕ × (CallBody × ProcArgs))
set_pending xid v [] = (xid, v) ∷ []
set_pending xid v ((x, w) ∷ rest) =
    if x == xid then (x, v) ∷ rest else (x, w) ∷ set_pending xid v rest

-- `pending_calls[xid]`
abbrev pub get_pending : ℕ → List (ℕ × (CallBody × ProcArgs)) → Result (CallBody × ProcArgs)
get_pending xid [] = err key_error
get_pending xid ((x, w) ∷ rest) = if x == xid then ok w else get_pending xid rest

-- A read of an attribute of `None`, or of one that was never set.
abbrev pub attribute {ℓ} : {A : Type ℓ} → Option A → Result A
attribute none = err attribute_error
attribute (some a) = ok a

-- A call is remembered under its xid; an older one of that xid is replaced.
unfoldable pub handle_call : ℕ → Option CallBody → Bytes → Trace → Result Trace
handle_call xid cbody nextdata tr = do
  cb ← attribute cbody
  proc ← attribute cb.proc
  proc_args ← unpack_call proc nextdata
  ok (record tr { pending = set_pending xid (cb, proc_args) tr.pending })

-- An accepted and successful reply is paired with the call of its xid.
unfoldable pub handle_success : ℕ → Bytes → Trace → Result Trace
handle_success xid nextdata tr = do
  (cb, proc_args) ← get_pending xid tr.pending
  proc ← attribute cb.proc
  proc_reply ← unpack_reply proc nextdata
  ok (record tr {
    result = tr.result ++ (record { proc = proc; args = proc_args; reply = proc_reply } ∷ []);
  })

-- The message of one record: `xdrdata` of the loop's body.
unfoldable pub handle_message : Bytes → Trace → Result Trace
handle_message xdrdata tr = do
  (rpc_msg, nextdata) ← unpack_rpc_msg xdrdata
  xid ← attribute rpc_msg.xid
  body ← attribute rpc_msg.body
  let reply = do
    rbody ← attribute body.rbody
    let accepted = do
      areply ← attribute rbody.areply
      reply_data ← attribute areply.reply_data
      if field_is reply_data.stat success then handle_success xid nextdata tr else ok tr
    if field_is rbody.stat msg_accepted then accepted else ok tr
  if field_is body.mtype call then handle_call xid body.cbody nextdata tr else reply

-- The record mark, four bytes: the top bit says that the fragment is the last one, the rest is
-- its length. Fewer than four bytes are skipped.
unfoldable pub handle_data : Bytes → Trace → Result Trace
handle_data d tr = if ltb (length d) 4 then ok tr else (unpack_uint d >>= λ p. framed p.0 p.1)
  where
    framed : ℕ → Bytes → Result Trace
    framed hdr xdrdata =
        if ltb hdr (2 ^ 31)
        then err exception
        else if length xdrdata == hdr % 2 ^ 31
        then handle_message xdrdata tr
        else err exception

module _ (dpkt : Dpkt) where
  open dpkt use {Packet, eth_type, ip_p, tcp_data, eth_type_ip, ip_proto_tcp}

  -- The body of the loop: only TCP over IP is looked at.
  unfoldable pub handle_packet : Packet → Trace → Result Trace
  handle_packet pkt tr =
      if not (eth_type pkt == eth_type_ip)
      then ok tr
      else if not (ip_p pkt == ip_proto_tcp)
      then ok tr
      else handle_data (tcp_data pkt) tr

  unfoldable pub run_packets : List Packet → Trace → Result Trace
  run_packets [] tr = ok tr
  run_packets (p ∷ ps) tr = do tr' ← handle_packet p tr; run_packets ps tr'

  -- call_reply_pairs, from the calls that are pending: the pairs, and the calls then pending.
  unfoldable pub call_reply_pairs :
      List Packet
      → List (ℕ × (CallBody × ProcArgs))
      → Result (List Exchange × List (ℕ × (CallBody × ProcArgs)))
  call_reply_pairs pkts pending = do
    tr ← run_packets pkts (record { pending = pending; result = [] })
    ok (tr.result, tr.pending)
