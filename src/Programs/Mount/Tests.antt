-- ===== src/Programs/Mount/Tests.antt =====
-- Calls of Mount over a transport in the same process.
use perennial.Prelude.{ℕ, ◌+◌, ◌≡◌, refl, some, [], ◌∷◌, ◌==◌, if◌then◌else◌}
use perennial.Outcome.{ok, err, exception, ◌>>=◌}
use perennial.Xdr.{Bytes, pack_uint, pack_opaque, pack_fopaque}
use perennial.Xdr.Linked.{Nodes, last, more, node, set, pack_linked}
use perennial.Rfc1813.Mount.{pack_dirpath3, pack_name3}
use perennial.Rfc1813.Exports.{
  Exports3Fields, pack_groups3_fields, pack_groups3_array, pack_exports3_fields,
  pack_exports3_array,
}
use perennial.Stub.{Transport, answered}
use perennial.Programs.Mount.{
  Procedure, mountproc3_null, mountproc3_mnt, mountproc3_dump, mountproc3_umnt, mountproc3_umntall,
  mountproc3_export, procedure_id, args_wire, res_wire, program, version, Methods, handle,
  new_client,
}
use perennial.Programs.Mount.Remote.{mount_call_local}

-- The directory /a, for the group c.
abbrev exports : Nodes Exports3Fields
exports =
    more
      (node
        (record {
          ex_dir = some (47 ∷ 97 ∷ []);
          ex_groups = some (more (node (record { gr_name = some (99 ∷ []) }) (set last)) last);
        })
        (set last))
      last

-- The server counts its calls.
abbrev methods : Methods ℕ
methods mountproc3_export a s = ok (exports, s + 1)
methods p a s = err exception

abbrev procedure_of : ℕ → Procedure
procedure_of n =
    if n == 0
    then mountproc3_null
    else if n == 1
    then mountproc3_mnt
    else if n == 2
    then mountproc3_dump
    else if n == 3
    then mountproc3_umnt
    else if n == 4
    then mountproc3_umntall
    else mountproc3_export

abbrev direct : ℕ → ℕ → Transport ℕ
unfolding handle
direct prog vers n b s = answered (handle methods (procedure_of n) b s)

delivers :
    (q : Procedure) (b : Bytes) (s : ℕ)
    → direct program version (procedure_id q) b s ≡ answered (handle methods q b s)
unfolding direct
delivers mountproc3_null b s = refl
delivers mountproc3_mnt b s = refl
delivers mountproc3_dump b s = refl
delivers mountproc3_umnt b s = refl
delivers mountproc3_umntall b s = refl
delivers mountproc3_export b s = refl

mount_call_local_example :
    (new_client direct ("ipaddr" ∷ []) >>= λ c. c.call mountproc3_export tt 6) ≡ ok (exports, 7)
unfolding args_wire res_wire pack_exports3_array pack_exports3_fields pack_groups3_array
    pack_groups3_fields pack_linked pack_dirpath3 pack_name3 pack_opaque pack_uint pack_fopaque
mount_call_local_example =
    mount_call_local direct methods ("ipaddr" ∷ []) mountproc3_export tt (exports) 6 7 []
      (0 ∷ 0 ∷ 0 ∷ 1 ∷ 0 ∷ 0 ∷ 0 ∷ 2 ∷ 47 ∷ 97 ∷ 0 ∷ 0 ∷ 0 ∷ 0 ∷ 0 ∷ 1 ∷ 0 ∷ 0 ∷ 0 ∷ 1 ∷ 99 ∷ 0 ∷ 0
        ∷ 0 ∷ 0 ∷ 0 ∷ 0 ∷ 0 ∷ 0 ∷ 0 ∷ 0 ∷ 0 ∷ [])
      delivers refl refl tt tt refl refl refl
