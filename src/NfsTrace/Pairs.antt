-- ===== src/NfsTrace/Pairs.antt =====
-- What nfs_trace.py pairs belongs together: a call's arguments and its reply are those of its
-- procedure.
use mathlib.Core.Path.{subst}
use perennial.Prelude.{
  ℕ, ◌%◌, ◌^◌, not, length, ltb, ◌≡◌, refl, inl, inr, Bool, true, false, Option, none, some, List,
  [], ◌∷◌, ◌++◌, ◌==◌, if◌then◌else◌, Bool-cases, ==_iff,
}
use perennial.Outcome.{Error, Result, ok, err, ◌>>=◌}
use perennial.Xdr.{Bytes, unpack_uint, field_is}
use perennial.Rfc1057.Const.{call, msg_accepted, success}
use perennial.Rfc1057.Message.{
  CallBody, RpcMsg, ReplyBody, RpcMsgBody, AcceptedReply, ReplyData, unpack_rpc_msg,
}
use perennial.Rfc1813.Getattr.{unpack_getattr3args, unpack_getattr3res}
use perennial.Rfc1813.Lookup.{
  unpack_lookup3args, unpack_lookup3res, unpack_access3args, unpack_access3res,
}
use perennial.NfsTrace.{
  Dpkt, ProcArgs, getattr, lookup, access, ProcReply, getattr_res, lookup_res, access_res, value,
  unpack_call, unpack_reply, Exchange, Trace, set_pending, get_pending, attribute, handle_call,
  handle_success, handle_message, handle_data, handle_packet, run_packets, call_reply_pairs,
}

-- The arguments are those of the procedure.
abbrev pub ArgsFit : ℕ → ProcArgs → Type 0
ArgsFit p (getattr _) = p ≡ 1
ArgsFit p (lookup _) = p ≡ 3
ArgsFit p (access _) = p ≡ 4

abbrev pub ReplyFits : ℕ → ProcReply → Type 0
ReplyFits p (getattr_res _) = p ≡ 1
ReplyFits p (lookup_res _) = p ≡ 3
ReplyFits p (access_res _) = p ≡ 4

abbrev pub PendingFit : List (ℕ × (CallBody × ProcArgs)) → Type 0
PendingFit [] = Unit
PendingFit ((x, (cb, a)) ∷ rest) = ((p : ℕ) × (cb.proc ≡ some p) × ArgsFit p a) × PendingFit rest

abbrev pub ExchangesFit : List Exchange → Type 0
ExchangesFit [] = Unit
ExchangesFit (x ∷ xs) = (ArgsFit x.proc x.args × ReplyFits x.proc x.reply) × ExchangesFit xs

pub record IsPaired (tr : Trace) : Type 0 where
  pub calls : PendingFit tr.pending
  pub pairs : ExchangesFit tr.result

-- A property of the answer, if there is one.
pub data Ensures {ℓ κ} {A : Type ℓ} (P : A → Type κ) : Result A → Type (ℓ ⊔ κ) where
  holds : {a : A} → P a → Ensures P (ok a)
  raised : (e : Error) → Ensures P (err e)

Ensures-bind {ℓ κ ℓ' κ'} :
    {A : Type ℓ} {B : Type ℓ'} {Q : A → Type κ} {P : B → Type κ'} {m : Result A} (f : A → Result B)
    → Ensures Q m
    → ((a : A) → Q a → Ensures P (f a))
    → Ensures P (m >>= f)
Ensures-bind f (holds {a} h) k = k a h
Ensures-bind f (raised e) k = raised e

Ensures-if {ℓ κ} :
    {A : Type ℓ} (P : A → Type κ) (t : Bool) (m n : Result A)
    → (t ≡ true → Ensures P m)
    → (t ≡ false → Ensures P n)
    → Ensures P (if t then m else n)
Ensures-if P true m n h k = h refl
Ensures-if P false m n h k = k refl

Ensures-value {ℓ} :
    {A : Type ℓ} {B : Type 0} (P : B → Type 0) (f : A → B) (r : Result (A × Bytes))
    → ((a : A) → P (f a))
    → Ensures P (value f r)
Ensures-value P f (ok p) h = holds (h p.0)
Ensures-value P f (err e) h = raised e

unpack_call-fits : (p : ℕ) (d : Bytes) → Ensures (ArgsFit p) (unpack_call p d)
unfolding unpack_call
unpack_call-fits p d =
    Ensures-if _ (p == 1) _ _
      (λ e. Ensures-value (ArgsFit p) getattr (unpack_getattr3args d) λ a. (==_iff p 1).0 e)
      λ _.
        Ensures-if _ (p == 3) _ _
          (λ e. Ensures-value (ArgsFit p) lookup (unpack_lookup3args d) λ a. (==_iff p 3).0 e)
          λ _.
            Ensures-if _ (p == 4) _ _
              (λ e. Ensures-value (ArgsFit p) access (unpack_access3args d) λ a. (==_iff p 4).0 e)
              λ _. raised _

unpack_reply-fits : (p : ℕ) (d : Bytes) → Ensures (ReplyFits p) (unpack_reply p d)
unfolding unpack_reply
unpack_reply-fits p d =
    Ensures-if _ (p == 1) _ _
      (λ e. Ensures-value (ReplyFits p) getattr_res (unpack_getattr3res d) λ a. (==_iff p 1).0 e)
      λ _.
        Ensures-if _ (p == 3) _ _
          (λ e. Ensures-value (ReplyFits p) lookup_res (unpack_lookup3res d) λ a. (==_iff p 3).0 e)
          λ _.
            Ensures-if _ (p == 4) _ _
              (λ e.
                Ensures-value (ReplyFits p) access_res (unpack_access3res d) λ a. (==_iff p 4).0 e)
              λ _. raised _

set_pending-fits :
    (x p : ℕ) (cb : CallBody) (a : ProcArgs) (calls : List (ℕ × (CallBody × ProcArgs)))
    → cb.proc ≡ some p
    → ArgsFit p a
    → PendingFit calls
    → PendingFit (set_pending x (cb, a) calls)
set_pending-fits x p cb a [] e f h = ((p, e, f), tt)
set_pending-fits x p cb a ((y, w) ∷ rest) e f h = elim (Bool-cases (y == x)) [
  | inl same ↦ rw same ((p, e, f), h.1)
  | inr other ↦ rw other (h.0, set_pending-fits x p cb a rest e f h.1)
]

get_pending-fits :
    (x : ℕ) (calls : List (ℕ × (CallBody × ProcArgs)))
    → PendingFit calls
    → Ensures (λ v. (p : ℕ) × (v.0.proc ≡ some p) × ArgsFit p v.1) (get_pending x calls)
get_pending-fits x [] h = raised _
get_pending-fits x ((y, w) ∷ rest) h =
    Ensures-if _ (y == x) _ _ (λ _. holds h.0) λ _. get_pending-fits x rest h.1

exchanges_append :
    (xs : List Exchange) (x : Exchange)
    → ExchangesFit xs
    → ArgsFit x.proc x.args
    → ReplyFits x.proc x.reply
    → ExchangesFit (xs ++ (x ∷ []))
exchanges_append [] x h a r = ((a, r), tt)
exchanges_append (y ∷ ys) x h a r = (h.0, exchanges_append ys x h.1 a r)

attribute-eq {ℓ} : {A : Type ℓ} (o : Option A) → Ensures (λ a. o ≡ some a) (attribute o)
attribute-eq none = raised _
attribute-eq (some a) = holds refl

handle_call-IsPaired :
    (x : ℕ) (cbody : Option CallBody) (d : Bytes) (tr : Trace)
    → IsPaired tr
    → Ensures IsPaired (handle_call x cbody d tr)
unfolding handle_call
handle_call-IsPaired x cbody d tr h = Ensures-bind _ (attribute-eq cbody) λ cb _.
    Ensures-bind _ (attribute-eq cb.proc) λ p e. Ensures-bind _ (unpack_call-fits p d) λ a f.
      holds (record { calls = set_pending-fits x p cb a tr.pending e f h.calls; pairs = h.pairs })

handle_success-IsPaired :
    (x : ℕ) (d : Bytes) (tr : Trace) → IsPaired tr → Ensures IsPaired (handle_success x d tr)
unfolding handle_success
handle_success-IsPaired x d tr h = Ensures-bind _ (get_pending-fits x tr.pending h.calls) λ v f.
    Ensures-bind _ (attribute-eq v.0.proc) λ p e. Ensures-bind _ (unpack_reply-fits p d) λ r g.
      let same : f.0 ≡ p = cc (f.1, e) in
      holds (record {
        calls = h.calls;
        pairs = exchanges_append tr.result _ h.pairs (rw same at f.2) g;
      })

anything {ℓ} : {A : Type ℓ} (r : Result A) → Ensures (λ _. Unit {0}) r
anything (ok a) = holds tt
anything (err e) = raised e

handle_message-IsPaired :
    (x : Bytes) (tr : Trace) → IsPaired tr → Ensures IsPaired (handle_message x tr)
unfolding handle_message
handle_message-IsPaired x tr h =
    Ensures-bind _ (anything (unpack_rpc_msg x)) λ (m : RpcMsg × Bytes) _.
      Ensures-bind _ (anything (attribute m.0.xid)) λ xid _.
        Ensures-bind _ (anything (attribute m.0.body)) λ (body : RpcMsgBody) _.
          Ensures-if _ (field_is body.mtype call) _ _
            (λ _. handle_call-IsPaired xid body.cbody m.1 tr h)
            λ _. Ensures-bind _ (anything (attribute body.rbody)) λ (rbody : ReplyBody) _.
              Ensures-if _ (field_is rbody.stat msg_accepted) _ _
                (λ _.
                  Ensures-bind _ (anything (attribute rbody.areply)) λ (areply : AcceptedReply) _.
                    Ensures-bind _ (anything (attribute areply.reply_data))
                      λ (reply_data : ReplyData) _.
                        Ensures-if _ (field_is reply_data.stat success) _ _
                          (λ _. handle_success-IsPaired xid m.1 tr h) λ _. holds h)
                λ _. holds h

handle_data-IsPaired : (d : Bytes) (tr : Trace) → IsPaired tr → Ensures IsPaired (handle_data d tr)
unfolding handle_data
handle_data-IsPaired d tr h =
    Ensures-if _ (ltb (length d) 4) _ _ (λ _. holds h)
      λ _. Ensures-bind _ (anything (unpack_uint d)) λ (p : ℕ × Bytes) _.
        Ensures-if _ (ltb p.0 (2 ^ 31)) _ _ (λ _. raised _)
          λ _.
            Ensures-if _ (length p.1 == p.0 % 2 ^ 31) _ _ (λ _. handle_message-IsPaired p.1 tr h)
              λ _. raised _

module _ (dpkt : Dpkt) where
  open dpkt use {Packet, eth_type, ip_p, tcp_data, eth_type_ip, ip_proto_tcp}

  pub handle_packet-IsPaired :
      (p : Packet) (tr : Trace) → IsPaired tr → Ensures IsPaired (handle_packet dpkt p tr)
  unfolding handle_packet
  handle_packet-IsPaired p tr h =
      Ensures-if _ (not (eth_type p == eth_type_ip)) _ _ (λ _. holds h)
        λ _.
          Ensures-if _ (not (ip_p p == ip_proto_tcp)) _ _ (λ _. holds h)
            λ _. handle_data-IsPaired (tcp_data p) tr h

  run_packets-IsPaired :
      (ps : List Packet) (tr : Trace) → IsPaired tr → Ensures IsPaired (run_packets dpkt ps tr)
  unfolding run_packets
  run_packets-IsPaired [] tr h = holds h
  run_packets-IsPaired (p ∷ ps) tr h =
      Ensures-bind _ (handle_packet-IsPaired p tr h) λ tr' h'. run_packets-IsPaired ps tr' h'

Ensures-ok {ℓ κ} :
    {A : Type ℓ} {P : A → Type κ} {r : Result A} {a : A} → Ensures P r → r ≡ ok a → P a
Ensures-ok {P = P} {a = b} (holds {a} h) e = let same : a ≡ b = cc e in subst P same h
Ensures-ok (raised x) e = cc

-- Of a capture that call_reply_pairs reads to its end, each pair holds the arguments and the reply
-- of its procedure (GETATTR, LOOKUP or ACCESS), and each call left pending holds those of its own,
-- if the calls that were pending before did.
pub call_reply_pairs-fit :
    (dpkt : Dpkt) (ps : List dpkt.Packet) (calls calls' : List (ℕ × (CallBody × ProcArgs)))
    (xs : List Exchange)
    → PendingFit calls
    → call_reply_pairs dpkt ps calls ≡ ok (xs, calls')
    → ExchangesFit xs × PendingFit calls'
unfolding call_reply_pairs
call_reply_pairs-fit dpkt ps calls calls' xs h e =
    Ensures-ok {P = λ r. ExchangesFit r.0 × PendingFit r.1}
      (Ensures-bind _ (run_packets-IsPaired dpkt ps _ (record { calls = h; pairs = tt }))
        λ tr h'. holds (h'.pairs, h'.calls))
      e
