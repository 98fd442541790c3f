-- ===== src/Programs/Pmap/Remote.antt =====
-- A call of a procedure of PMAP_PROG is a call of the server's method.
use perennial.Prelude.{ℕ, ◌≡◌, String, false, List, []}
use perennial.Outcome.{ok, ◌>>=◌}
use perennial.Xdr.{Bytes}
use perennial.Rfc1057.Portmap.RoundTrip.{Reads-call_args, Reads-call_result, Reads-mapping}
use perennial.Rfc1057.Pmaplist.RoundTrip.{Reads-pmaplist}
use perennial.Xdr.RoundTrip.{Reads-uint, Reads-bool, IsBit}
use perennial.Stub.{
  Transport, Travels, Travels-packed, Travels-void, call_remote_local, answered, has_key,
}
use perennial.Programs.Pmap.{
  Procedure, pmapproc_null, pmapproc_set, pmapproc_unset, pmapproc_getport, pmapproc_dump,
  pmapproc_callit, procedure_id, Args, Res, args_wire, res_wire, program, version, call_procedure,
  Methods, handle, new_client,
}

-- The argument is canonical.
abbrev pub IsArgs : (p : Procedure) → Args p → Type 0
IsArgs pmapproc_null a = Unit {0}
IsArgs pmapproc_set a = Unit {0}
IsArgs pmapproc_unset a = Unit {0}
IsArgs pmapproc_getport a = Unit {0}
IsArgs pmapproc_dump a = Unit {0}
IsArgs pmapproc_callit a = Unit {0}

-- The result is canonical.
abbrev pub IsRes : (p : Procedure) → Res p → Type 0
IsRes pmapproc_null a = Unit {0}
IsRes pmapproc_set a = IsBit a
IsRes pmapproc_unset a = IsBit a
IsRes pmapproc_getport a = Unit {0}
IsRes pmapproc_dump a = Unit {0}
IsRes pmapproc_callit a = Unit {0}

Travels-args_wire : (p : Procedure) (a : Args p) → IsArgs p a → Travels (args_wire p) a
unfolding args_wire
Travels-args_wire pmapproc_null a c = Travels-void a
Travels-args_wire pmapproc_set a c = Travels-packed _ _ a (Reads-mapping a)
Travels-args_wire pmapproc_unset a c = Travels-packed _ _ a (Reads-mapping a)
Travels-args_wire pmapproc_getport a c = Travels-packed _ _ a (Reads-mapping a)
Travels-args_wire pmapproc_dump a c = Travels-void a
Travels-args_wire pmapproc_callit a c = Travels-packed _ _ a (Reads-call_args a)

Travels-res_wire : (p : Procedure) (a : Res p) → IsRes p a → Travels (res_wire p) a
unfolding res_wire
Travels-res_wire pmapproc_null a c = Travels-void a
Travels-res_wire pmapproc_set a c = Travels-packed _ _ a (Reads-bool a c)
Travels-res_wire pmapproc_unset a c = Travels-packed _ _ a (Reads-bool a c)
Travels-res_wire pmapproc_getport a c = Travels-packed _ _ a (Reads-uint a)
Travels-res_wire pmapproc_dump a c = Travels-packed _ _ a (Reads-pmaplist a)
Travels-res_wire pmapproc_callit a c = Travels-packed _ _ a (Reads-call_result a)

-- Over a transport that hands each request of PMAP_PROG to handle_N of a server class and its answer
-- back, the method of a client class returns what the server's method returns for the same
-- argument, and leaves the server in the same state. The argument and the result are canonical and
-- can be packed, and neither the program nor the version is among the keywords given.
pub pmap_call_local :
    {S : Type 0} (base : ℕ → ℕ → Transport S) (methods : Methods S) (kwargs : List String)
    (p : Procedure) (p0 : Args p) (r : Res p) (s s' : S) (d d' : Bytes)
    → ((q : Procedure) (b : Bytes) (t : S)
        → base program version (procedure_id q) b t ≡ answered (handle methods q b t))
    → has_key "program" kwargs ≡ false
    → has_key "version" kwargs ≡ false
    → IsArgs p p0
    → IsRes p r
    → (args_wire p).pack p0 [] ≡ ok d
    → (res_wire p).pack r [] ≡ ok d'
    → methods p p0 s ≡ ok (r, s')
    → (new_client base kwargs >>= λ c. c.call p p0 s) ≡ ok (r, s')
unfolding new_client call_procedure handle
pmap_call_local base methods kwargs p p0 r s s' d d' c k l a b e f g =
    rw (k, l)
      (call_remote_local (args_wire p) (res_wire p) (procedure_id p) (base program version)
        (methods p) p0 r s s' d d' (λ x. c p x s) (Travels-args_wire p p0 a)
        (Travels-res_wire p r b) e f g)
