-- ===== src/Programs/Mount/Remote.antt =====
-- A call of a procedure of MOUNT_PROGRAM is a call of the server's method.
use perennial.Prelude.{ℕ, ◌≡◌, String, false, List, []}
use perennial.Outcome.{ok, ◌>>=◌}
use perennial.Xdr.{Bytes}
use perennial.Rfc1813.Mount.RoundTrip.{Reads-dirpath3, Reads-mountres3, IsMountres3}
use perennial.Rfc1813.Exports.RoundTrip.{Reads-exports3_array, Reads-mount3_array}
use perennial.Stub.{
  Transport, Travels, Travels-packed, Travels-void, call_remote_local, answered, has_key,
}
use perennial.Programs.Mount.{
  Procedure, mountproc3_null, mountproc3_mnt, mountproc3_dump, mountproc3_umnt, mountproc3_umntall,
  mountproc3_export, procedure_id, Args, Res, args_wire, res_wire, program, version, call_procedure,
  Methods, handle, new_client,
}

-- The argument is canonical.
abbrev pub IsArgs : (p : Procedure) → Args p → Type 0
IsArgs mountproc3_null a = Unit {0}
IsArgs mountproc3_mnt a = Unit {0}
IsArgs mountproc3_dump a = Unit {0}
IsArgs mountproc3_umnt a = Unit {0}
IsArgs mountproc3_umntall a = Unit {0}
IsArgs mountproc3_export a = Unit {0}

-- The result is canonical.
abbrev pub IsRes : (p : Procedure) → Res p → Type 0
IsRes mountproc3_null a = Unit {0}
IsRes mountproc3_mnt a = IsMountres3 a
IsRes mountproc3_dump a = Unit {0}
IsRes mountproc3_umnt a = Unit {0}
IsRes mountproc3_umntall a = Unit {0}
IsRes mountproc3_export a = Unit {0}

Travels-args_wire : (p : Procedure) (a : Args p) → IsArgs p a → Travels (args_wire p) a
unfolding args_wire
Travels-args_wire mountproc3_null a c = Travels-void a
Travels-args_wire mountproc3_mnt a c = Travels-packed _ _ a (Reads-dirpath3 a)
Travels-args_wire mountproc3_dump a c = Travels-void a
Travels-args_wire mountproc3_umnt a c = Travels-packed _ _ a (Reads-dirpath3 a)
Travels-args_wire mountproc3_umntall a c = Travels-void a
Travels-args_wire mountproc3_export a c = Travels-void a

Travels-res_wire : (p : Procedure) (a : Res p) → IsRes p a → Travels (res_wire p) a
unfolding res_wire
Travels-res_wire mountproc3_null a c = Travels-void a
Travels-res_wire mountproc3_mnt a c = Travels-packed _ _ a (Reads-mountres3 a c)
Travels-res_wire mountproc3_dump a c = Travels-packed _ _ a (Reads-mount3_array a)
Travels-res_wire mountproc3_umnt a c = Travels-void a
Travels-res_wire mountproc3_umntall a c = Travels-void a
Travels-res_wire mountproc3_export a c = Travels-packed _ _ a (Reads-exports3_array a)

-- Over a transport that hands each request of MOUNT_PROGRAM to handle_N of a server class and its answer
-- back, the method of a client class returns what the server's method returns for the same
-- argument, and leaves the server in the same state. The argument and the result are canonical and
-- can be packed, and neither the program nor the version is among the keywords given.
pub mount_call_local :
    {S : Type 0} (base : ℕ → ℕ → Transport S) (methods : Methods S) (kwargs : List String)
    (p : Procedure) (p0 : Args p) (r : Res p) (s s' : S) (d d' : Bytes)
    → ((q : Procedure) (b : Bytes) (t : S)
        → base program version (procedure_id q) b t ≡ answered (handle methods q b t))
    → has_key "program" kwargs ≡ false
    → has_key "version" kwargs ≡ false
    → IsArgs p p0
    → IsRes p r
    → (args_wire p).pack p0 [] ≡ ok d
    → (res_wire p).pack r [] ≡ ok d'
    → methods p p0 s ≡ ok (r, s')
    → (new_client base kwargs >>= λ c. c.call p p0 s) ≡ ok (r, s')
unfolding new_client call_procedure handle
mount_call_local base methods kwargs p p0 r s s' d d' c k l a b e f g =
    rw (k, l)
      (call_remote_local (args_wire p) (res_wire p) (procedure_id p) (base program version)
        (methods p) p0 r s s' d d' (λ x. c p x s) (Travels-args_wire p p0 a)
        (Travels-res_wire p r b) e f g)
