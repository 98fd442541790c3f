-- ===== src/Programs/Nfs/Tests.antt =====
-- Calls of Nfs over a transport in the same process.
use perennial.Prelude.{ℕ, ◌+◌, ◌≡◌, refl, none, some, [], ◌∷◌, ◌==◌, if◌then◌else◌}
use perennial.Outcome.{ok, err, exception, ◌>>=◌}
use perennial.Xdr.{pos, Bytes, pack_enum, pack_int, pack_uint, pack_opaque, pack_fopaque}
use perennial.Rfc1813.Basic.{pack_nfsstat3}
use perennial.Rfc1813.Structs.{pack_nfs_fh3}
use perennial.Rfc1813.Getattr.{Getattr3Args, pack_getattr3args, pack_getattr3res}
use perennial.Stub.{Transport, answered}
use perennial.Programs.Nfs.{
  Procedure, nfsproc3_null, nfsproc3_getattr, nfsproc3_setattr, nfsproc3_lookup, nfsproc3_access,
  nfsproc3_readlink, nfsproc3_read, nfsproc3_write, nfsproc3_create, nfsproc3_mkdir,
  nfsproc3_symlink, nfsproc3_mknod, nfsproc3_remove, nfsproc3_rmdir, nfsproc3_rename, nfsproc3_link,
  nfsproc3_readdir, nfsproc3_readdirplus, nfsproc3_fsstat, nfsproc3_fsinfo, nfsproc3_pathconf,
  nfsproc3_commit, procedure_id, args_wire, res_wire, program, version, Methods, handle, new_client,
}
use perennial.Programs.Nfs.Remote.{nfs_call_local}

-- The server counts its calls.
abbrev methods : Methods ℕ
methods nfsproc3_getattr a s = ok (record { status = some (pos 70); resok = none }, s + 1)
methods p a s = err exception

abbrev procedure_of : ℕ → Procedure
procedure_of n =
    if n == 0
    then nfsproc3_null
    else if n == 1
    then nfsproc3_getattr
    else if n == 2
    then nfsproc3_setattr
    else if n == 3
    then nfsproc3_lookup
    else if n == 4
    then nfsproc3_access
    else if n == 5
    then nfsproc3_readlink
    else if n == 6
    then nfsproc3_read
    else if n == 7
    then nfsproc3_write
    else if n == 8
    then nfsproc3_create
    else if n == 9
    then nfsproc3_mkdir
    else if n == 10
    then nfsproc3_symlink
    else if n == 11
    then nfsproc3_mknod
    else if n == 12
    then nfsproc3_remove
    else if n == 13
    then nfsproc3_rmdir
    else if n == 14
    then nfsproc3_rename
    else if n == 15
    then nfsproc3_link
    else if n == 16
    then nfsproc3_readdir
    else if n == 17
    then nfsproc3_readdirplus
    else if n == 18
    then nfsproc3_fsstat
    else if n == 19
    then nfsproc3_fsinfo
    else if n == 20
    then nfsproc3_pathconf
    else nfsproc3_commit

abbrev direct : ℕ → ℕ → Transport ℕ
unfolding handle
direct prog vers n b s = answered (handle methods (procedure_of n) b s)

delivers :
    (q : Procedure) (b : Bytes) (s : ℕ)
    → direct program version (procedure_id q) b s ≡ answered (handle methods q b s)
unfolding direct
delivers nfsproc3_null b s = refl
delivers nfsproc3_getattr b s = refl
delivers nfsproc3_setattr b s = refl
delivers nfsproc3_lookup b s = refl
delivers nfsproc3_access b s = refl
delivers nfsproc3_readlink b s = refl
delivers nfsproc3_read b s = refl
delivers nfsproc3_write b s = refl
delivers nfsproc3_create b s = refl
delivers nfsproc3_mkdir b s = refl
delivers nfsproc3_symlink b s = refl
delivers nfsproc3_mknod b s = refl
delivers nfsproc3_remove b s = refl
delivers nfsproc3_rmdir b s = refl
delivers nfsproc3_rename b s = refl
delivers nfsproc3_link b s = refl
delivers nfsproc3_readdir b s = refl
delivers nfsproc3_readdirplus b s = refl
delivers nfsproc3_fsstat b s = refl
delivers nfsproc3_fsinfo b s = refl
delivers nfsproc3_pathconf b s = refl
delivers nfsproc3_commit b s = refl

abbrev root : Getattr3Args
root = record { object = some (record { contents = some (7 ∷ 9 ∷ []) }) }

nfs_call_local_example :
    (new_client direct ("ipaddr" ∷ []) >>= λ c. c.call nfsproc3_getattr root 6)
    ≡ ok (record { status = some (pos 70); resok = none }, 7)
unfolding args_wire res_wire pack_getattr3args pack_nfs_fh3 pack_opaque pack_uint pack_fopaque
    pack_getattr3res pack_nfsstat3 pack_enum pack_int
nfs_call_local_example =
    nfs_call_local direct methods ("ipaddr" ∷ []) nfsproc3_getattr root
      (record { status = some (pos 70); resok = none }) 6 7 (0 ∷ 0 ∷ 0 ∷ 2 ∷ 7 ∷ 9 ∷ 0 ∷ 0 ∷ [])
      (0 ∷ 0 ∷ 0 ∷ 70 ∷ []) delivers refl refl tt (tt, refl) refl refl refl
