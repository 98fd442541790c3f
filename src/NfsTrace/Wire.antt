-- ===== src/NfsTrace/Wire.antt =====
-- What nfs_trace.py makes of the packets of an exchange on the wire: a call and its accepted reply,
-- as rpc_msg and the procedure's packers write them, each behind its record mark.
use perennial.Prelude.{
  ℕ, ◌+◌, ◌%◌, ◌^◌, ◌<◌, ◌≡◌, refl, sym, ap, ◌∙◌, inl, inr, true, false, Option, none, some, List,
  [], ◌∷◌, ◌++◌, length, ltb, ◌==◌, Bool-cases, ==_iff, arith, append-nil,
}
use perennial.Outcome.{ok, >>=-eq-ok}
use perennial.Xdr.{pos, Bytes, Packing, Unpacking, ◌⨾◌, four_bytes}
use perennial.Xdr.Reads.{Reads}
use perennial.Xdr.RoundTrip.{unpack_uint-four_bytes}
use perennial.Rfc1057.Basic.{OpaqueAuth}
use perennial.Rfc1057.Const.{call, reply, msg_accepted, success}
use perennial.Rfc1057.Message.{CallBody, RpcMsg, pack_rpc_msg, unpack_rpc_msg}
use perennial.Rfc1057.Message.RoundTrip.{Reads-rpc_msg}
use perennial.Rfc1813.Getattr.{Getattr3Args, Getattr3Res, pack_getattr3args, pack_getattr3res}
use perennial.Rfc1813.Getattr.RoundTrip.{IsGetattr3Res, Reads-getattr3args, Reads-getattr3res}
use perennial.NfsTrace.{
  Dpkt, ProcArgs, getattr, ProcReply, getattr_res, unpack_call, unpack_reply, Trace, set_pending,
  get_pending, handle_call, handle_success, handle_message, handle_data, handle_packet, run_packets,
  call_reply_pairs,
}

-- Two values packed one behind the other are read one behind the other.
read_both {ℓ κ} :
    {A : Type ℓ} {B : Type κ} {p q : Packing} {u : Unpacking A} {v : Unpacking B} {a : A} {b : B}
    → Reads p u a
    → Reads q v b
    → (d : Bytes) → (p ⨾ q) [] ≡ ok d
    → (w : Bytes) × (u d ≡ ok (a, w)) × (v w ≡ ok (b, []))
read_both {p = p} {q} {u} {v} {a} {b} r s d e =
    let (d₁, e₁, e₂) = >>=-eq-ok (p []) q e in
    let (w₁, f₁, g₁) = r.reads [] d₁ e₁ in
    let (w₂, f₂, g₂) = s.reads d₁ d e₂ in
    let same : d ≡ w₁ ++ w₂ = f₂ ∙ ap (λ x. x ++ w₂) f₁ in
    (w₂, rw same (g₁ w₂), ap v (sym (append-nil w₂)) ∙ g₂ [])

-- The message of a call of the procedure `proc`.
abbrev pub call_msg : ℕ → CallBody → RpcMsg
call_msg x cb = record {
  xid = some x;
  body = some (record { mtype = some (pos call); cbody = some cb; rbody = none });
}

-- An accepted and successful reply.
abbrev pub success_msg : ℕ → Option OpaqueAuth → RpcMsg
success_msg x verf = record {
  xid = some x;
  body = some (record {
    mtype = some (pos reply);
    cbody = none;
    rbody = some (record {
      stat = some (pos msg_accepted);
      areply = some (record {
        verf = verf;
        reply_data =
            some (record { stat = some (pos success); results = some []; mismatch_info = none });
      });
      rreply = none;
    });
  });
}

get-set_pending :
    (x : ℕ) (v : CallBody × ProcArgs) (calls : List (ℕ × (CallBody × ProcArgs)))
    → get_pending x (set_pending x v calls) ≡ ok v
get-set_pending x v [] = grind arith
get-set_pending x v ((y, w) ∷ rest) = elim (Bool-cases (y == x)) [
  | inl same ↦ rw same (rw same refl)
  | inr other ↦ rw other (rw other (get-set_pending x v rest))
]

handle_message-call :
    (x p : ℕ) (cb : CallBody) (args : ProcArgs) (d w : Bytes) (tr : Trace)
    → unpack_rpc_msg d ≡ ok (call_msg x cb, w)
    → cb.proc ≡ some p
    → unpack_call p w ≡ ok args
    → handle_message d tr ≡ ok (record tr { pending = set_pending x (cb, args) tr.pending })
unfolding handle_message handle_call
handle_message-call x p cb args d w tr e f g = rw (e, f, g) refl

handle_message-success :
    (x p : ℕ) (cb : CallBody) (args : ProcArgs) (verf : Option OpaqueAuth) (rep : ProcReply)
    (d w : Bytes) (tr : Trace)
    → unpack_rpc_msg d ≡ ok (success_msg x verf, w)
    → get_pending x tr.pending ≡ ok (cb, args)
    → cb.proc ≡ some p
    → unpack_reply p w ≡ ok rep
    → handle_message d tr
      ≡ ok
          (record tr { result = tr.result ++ (record { proc = p; args = args; reply = rep } ∷ []) })
unfolding handle_message handle_success
handle_message-success x p cb args verf rep d w tr e h i j = rw (e, h, i, j) refl

module _ (dpkt : Dpkt) where
  open dpkt use {Packet, eth_type, ip_p, tcp_data, eth_type_ip, ip_proto_tcp}

  -- A packet of TCP over IP whose data is `d` behind its record mark.
  pub record Carries (p : Packet) (d : Bytes) : Type 0 where
    pub over_ip : eth_type p ≡ eth_type_ip
    pub over_tcp : ip_p p ≡ ip_proto_tcp
    pub fits : length d < 2 ^ 31
    pub marked : tcp_data p ≡ four_bytes (2 ^ 31 + length d) ++ d

  handle_data-marked :
      (d : Bytes) (tr : Trace)
      → length d < 2 ^ 31
      → handle_data (four_bytes (2 ^ 31 + length d) ++ d) tr ≡ handle_message d tr
  unfolding handle_data
  handle_data-marked d tr h =
      let long : ltb (length (four_bytes (2 ^ 31 + length d) ++ d)) 4 ≡ false = ground arith in
      let top : ltb (2 ^ 31 + length d) (2 ^ 31) ≡ false = ground arith in
      let rest : (length d == (2 ^ 31 + length d) % 2 ^ 31) ≡ true = (==_iff _ _).1 (omega arith) in
      rw (unpack_uint-four_bytes (2 ^ 31 + length d) d (omega arith), long, top, rest) refl

  handle_packet-Carries :
      (p : Packet) (d : Bytes) (tr : Trace)
      → Carries p d
      → handle_packet dpkt p tr ≡ handle_message d tr
  unfolding handle_packet
  handle_packet-Carries p d tr c =
      let ip : (eth_type p == eth_type_ip) ≡ true = (==_iff _ _).1 c.over_ip in
      let tcp : (ip_p p == ip_proto_tcp) ≡ true = (==_iff _ _).1 c.over_tcp in
      rw (ip, tcp, c.marked) (handle_data-marked d tr c.fits)

-- A packet with a packed call of GETATTR and then one with a packed success reply of the same xid:
-- call_reply_pairs pairs the arguments of the one with the canonical result of the other, and the
-- call stays pending.
pub getattr_exchange :
    (dpkt : Dpkt) (p₁ p₂ : dpkt.Packet) (x : ℕ) (cb : CallBody) (verf : Option OpaqueAuth)
    (args : Getattr3Args) (res : Getattr3Res) (d₁ d₂ : Bytes)
    (calls : List (ℕ × (CallBody × ProcArgs)))
    → cb.proc ≡ some 1
    → IsGetattr3Res res
    → (pack_rpc_msg (call_msg x cb) ⨾ pack_getattr3args args) [] ≡ ok d₁
    → (pack_rpc_msg (success_msg x verf) ⨾ pack_getattr3res res) [] ≡ ok d₂
    → Carries dpkt p₁ d₁
    → Carries dpkt p₂ d₂
    → call_reply_pairs dpkt (p₁ ∷ p₂ ∷ []) calls
      ≡ ok (
        record { proc = 1; args = getattr args; reply = getattr_res res } ∷ [],
        set_pending x (cb, getattr args) calls,
      )
unfolding call_reply_pairs run_packets unpack_call unpack_reply
getattr_exchange dpkt p₁ p₂ x cb verf args res d₁ d₂ calls one canonical e₁ e₂ c₁ c₂ =
    let (w₁, f₁, g₁) =
      read_both (Reads-rpc_msg (call_msg x cb) (tt, refl)) (Reads-getattr3args args) d₁ e₁ in
    let (w₂, f₂, g₂) =
      read_both (Reads-rpc_msg (success_msg x verf) (((refl, refl), tt, refl), refl))
        (Reads-getattr3res res canonical) d₂ e₂ in
    let called =
      handle_message-call x 1 cb (getattr args) d₁ w₁ (record { pending = calls; result = [] }) f₁
        one (rw g₁ refl) in
    let paired =
      handle_message-success x 1 cb (getattr args) verf (getattr_res res) d₂ w₂
        (record { pending = set_pending x (cb, getattr args) calls; result = [] }) f₂
        (get-set_pending x (cb, getattr args) calls) one (rw g₂ refl) in
    rw
      (handle_packet-Carries dpkt p₁ d₁ _ c₁, called, handle_packet-Carries dpkt p₂ d₂ _ c₂, paired)
      refl
