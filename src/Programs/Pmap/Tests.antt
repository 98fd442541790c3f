-- ===== src/Programs/Pmap/Tests.antt =====
-- Calls of Pmap over a transport in the same process.
use perennial.Prelude.{ℕ, ◌+◌, ◌≡◌, refl, some, [], ◌∷◌, ◌==◌, if◌then◌else◌}
use perennial.Outcome.{ok, err, exception, ◌>>=◌}
use perennial.Xdr.{Bytes, pack_uint}
use perennial.Rfc1057.Portmap.{Mapping, pack_mapping}
use perennial.Stub.{Transport, answered}
use perennial.Programs.Pmap.{
  Procedure, pmapproc_null, pmapproc_set, pmapproc_unset, pmapproc_getport, pmapproc_dump,
  pmapproc_callit, procedure_id, args_wire, res_wire, program, version, Methods, handle, new_client,
}
use perennial.Programs.Pmap.Remote.{pmap_call_local}

-- The server counts its calls.
abbrev methods : Methods ℕ
methods pmapproc_getport a s = ok (2049, s + 1)
methods p a s = err exception

abbrev procedure_of : ℕ → Procedure
procedure_of n =
    if n == 0
    then pmapproc_null
    else if n == 1
    then pmapproc_set
    else if n == 2
    then pmapproc_unset
    else if n == 3
    then pmapproc_getport
    else if n == 4
    then pmapproc_dump
    else pmapproc_callit

abbrev direct : ℕ → ℕ → Transport ℕ
unfolding handle
direct prog vers n b s = answered (handle methods (procedure_of n) b s)

delivers :
    (q : Procedure) (b : Bytes) (s : ℕ)
    → direct program version (procedure_id q) b s ≡ answered (handle methods q b s)
unfolding direct
delivers pmapproc_null b s = refl
delivers pmapproc_set b s = refl
delivers pmapproc_unset b s = refl
delivers pmapproc_getport b s = refl
delivers pmapproc_dump b s = refl
delivers pmapproc_callit b s = refl

abbrev nfs_tcp : Mapping
nfs_tcp = record { prog = some 100003; vers = some 3; prot = some 6; port = some 0 }

pmap_call_local_example :
    (new_client direct ("ipaddr" ∷ []) >>= λ c. c.call pmapproc_getport nfs_tcp 6) ≡ ok (2049, 7)
unfolding args_wire res_wire pack_mapping pack_uint
pmap_call_local_example =
    pmap_call_local direct methods ("ipaddr" ∷ []) pmapproc_getport nfs_tcp (2049) 6 7
      (0 ∷ 1 ∷ 134 ∷ 163 ∷ 0 ∷ 0 ∷ 0 ∷ 3 ∷ 0 ∷ 0 ∷ 0 ∷ 6 ∷ 0 ∷ 0 ∷ 0 ∷ 0 ∷ []) (0 ∷ 0 ∷ 8 ∷ 1 ∷ [])
      delivers refl refl tt tt refl refl refl
