-- ===== src/Programs/Nfs/Remote.antt =====
-- A call of a procedure of NFS_PROGRAM is a call of the server's method.
use perennial.Prelude.{ℕ, ◌≡◌, String, false, List, []}
use perennial.Outcome.{ok, ◌>>=◌}
use perennial.Xdr.{Bytes}
use perennial.Rfc1813.Lookup.RoundTrip.{
  Reads-access3args, Reads-access3res, IsAccess3Res, Reads-lookup3args, Reads-lookup3res,
  IsLookup3Res,
}
use perennial.Rfc1813.Pathconf.RoundTrip.{
  Reads-commit3args, IsCommit3Args, Reads-commit3res, IsCommit3Res, Reads-pathconf3args,
  Reads-pathconf3res, IsPathconf3Res,
}
use perennial.Rfc1813.Create.RoundTrip.{
  Reads-create3args, IsCreate3Args, Reads-create3res, IsCreate3Res, Reads-mkdir3args, IsMkdir3Args,
  Reads-mkdir3res, IsMkdir3Res,
}
use perennial.Rfc1813.Fsinfo.RoundTrip.{
  Reads-fsinfo3args, Reads-fsinfo3res, IsFsinfo3Res, Reads-fsstat3args, Reads-fsstat3res,
  IsFsstat3Res,
}
use perennial.Rfc1813.Getattr.RoundTrip.{Reads-getattr3args, Reads-getattr3res, IsGetattr3Res}
use perennial.Rfc1813.Rename.RoundTrip.{
  Reads-link3args, Reads-link3res, IsLink3Res, Reads-rename3args, Reads-rename3res, IsRename3Res,
}
use perennial.Rfc1813.Mknod.RoundTrip.{Reads-mknod3args, IsMknod3Args, Reads-mknod3res, IsMknod3Res}
use perennial.Rfc1813.Read.RoundTrip.{
  Reads-read3args, IsRead3Args, Reads-read3res, IsRead3Res, Reads-readlink3args, Reads-readlink3res,
  IsReadlink3Res,
}
use perennial.Rfc1813.Readdir.RoundTrip.{
  Reads-readdir3args, IsReaddir3Args, Reads-readdirplus3args, IsReaddirplus3Args,
}
use perennial.Rfc1813.Listing.RoundTrip.{
  Reads-readdir3res, IsReaddir3Res, Reads-readdirplus3res, IsReaddirplus3Res,
}
use perennial.Rfc1813.Remove.RoundTrip.{
  Reads-remove3args, Reads-remove3res, IsRemove3Res, Reads-rmdir3args, Reads-rmdir3res, IsRmdir3Res,
}
use perennial.Rfc1813.Setattr.RoundTrip.{
  Reads-setattr3args, IsSetattr3Args, Reads-setattr3res, IsSetattr3Res,
}
use perennial.Rfc1813.Symlink.RoundTrip.{
  Reads-symlink3args, IsSymlink3Args, Reads-symlink3res, IsSymlink3Res,
}
use perennial.Rfc1813.Write.RoundTrip.{Reads-write3args, IsWrite3Args, Reads-write3res, IsWrite3Res}
use perennial.Stub.{
  Transport, Travels, Travels-packed, Travels-void, call_remote_local, answered, has_key,
}
use perennial.Programs.Nfs.{
  Procedure, nfsproc3_null, nfsproc3_getattr, nfsproc3_setattr, nfsproc3_lookup, nfsproc3_access,
  nfsproc3_readlink, nfsproc3_read, nfsproc3_write, nfsproc3_create, nfsproc3_mkdir,
  nfsproc3_symlink, nfsproc3_mknod, nfsproc3_remove, nfsproc3_rmdir, nfsproc3_rename, nfsproc3_link,
  nfsproc3_readdir, nfsproc3_readdirplus, nfsproc3_fsstat, nfsproc3_fsinfo, nfsproc3_pathconf,
  nfsproc3_commit, procedure_id, Args, Res, args_wire, res_wire, program, version, call_procedure,
  Methods, handle, new_client,
}

-- The argument is canonical.
abbrev pub IsArgs : (p : Procedure) → Args p → Type 0
IsArgs nfsproc3_null a = Unit {0}
IsArgs nfsproc3_getattr a = Unit {0}
IsArgs nfsproc3_setattr a = IsSetattr3Args a
IsArgs nfsproc3_lookup a = Unit {0}
IsArgs nfsproc3_access a = Unit {0}
IsArgs nfsproc3_readlink a = Unit {0}
IsArgs nfsproc3_read a = IsRead3Args a
IsArgs nfsproc3_write a = IsWrite3Args a
IsArgs nfsproc3_create a = IsCreate3Args a
IsArgs nfsproc3_mkdir a = IsMkdir3Args a
IsArgs nfsproc3_symlink a = IsSymlink3Args a
IsArgs nfsproc3_mknod a = IsMknod3Args a
IsArgs nfsproc3_remove a = Unit {0}
IsArgs nfsproc3_rmdir a = Unit {0}
IsArgs nfsproc3_rename a = Unit {0}
IsArgs nfsproc3_link a = Unit {0}
IsArgs nfsproc3_readdir a = IsReaddir3Args a
IsArgs nfsproc3_readdirplus a = IsReaddirplus3Args a
IsArgs nfsproc3_fsstat a = Unit {0}
IsArgs nfsproc3_fsinfo a = Unit {0}
IsArgs nfsproc3_pathconf a = Unit {0}
IsArgs nfsproc3_commit a = IsCommit3Args a

-- The result is canonical.
abbrev pub IsRes : (p : Procedure) → Res p → Type 0
IsRes nfsproc3_null a = Unit {0}
IsRes nfsproc3_getattr a = IsGetattr3Res a
IsRes nfsproc3_setattr a = IsSetattr3Res a
IsRes nfsproc3_lookup a = IsLookup3Res a
IsRes nfsproc3_access a = IsAccess3Res a
IsRes nfsproc3_readlink a = IsReadlink3Res a
IsRes nfsproc3_read a = IsRead3Res a
IsRes nfsproc3_write a = IsWrite3Res a
IsRes nfsproc3_create a = IsCreate3Res a
IsRes nfsproc3_mkdir a = IsMkdir3Res a
IsRes nfsproc3_symlink a = IsSymlink3Res a
IsRes nfsproc3_mknod a = IsMknod3Res a
IsRes nfsproc3_remove a = IsRemove3Res a
IsRes nfsproc3_rmdir a = IsRmdir3Res a
IsRes nfsproc3_rename a = IsRename3Res a
IsRes nfsproc3_link a = IsLink3Res a
IsRes nfsproc3_readdir a = IsReaddir3Res a
IsRes nfsproc3_readdirplus a = IsReaddirplus3Res a
IsRes nfsproc3_fsstat a = IsFsstat3Res a
IsRes nfsproc3_fsinfo a = IsFsinfo3Res a
IsRes nfsproc3_pathconf a = IsPathconf3Res a
IsRes nfsproc3_commit a = IsCommit3Res a

Travels-args_wire : (p : Procedure) (a : Args p) → IsArgs p a → Travels (args_wire p) a
unfolding args_wire
Travels-args_wire nfsproc3_null a c = Travels-void a
Travels-args_wire nfsproc3_getattr a c = Travels-packed _ _ a (Reads-getattr3args a)
Travels-args_wire nfsproc3_setattr a c = Travels-packed _ _ a (Reads-setattr3args a c)
Travels-args_wire nfsproc3_lookup a c = Travels-packed _ _ a (Reads-lookup3args a)
Travels-args_wire nfsproc3_access a c = Travels-packed _ _ a (Reads-access3args a)
Travels-args_wire nfsproc3_readlink a c = Travels-packed _ _ a (Reads-readlink3args a)
Travels-args_wire nfsproc3_read a c = Travels-packed _ _ a (Reads-read3args a c)
Travels-args_wire nfsproc3_write a c = Travels-packed _ _ a (Reads-write3args a c)
Travels-args_wire nfsproc3_create a c = Travels-packed _ _ a (Reads-create3args a c)
Travels-args_wire nfsproc3_mkdir a c = Travels-packed _ _ a (Reads-mkdir3args a c)
Travels-args_wire nfsproc3_symlink a c = Travels-packed _ _ a (Reads-symlink3args a c)
Travels-args_wire nfsproc3_mknod a c = Travels-packed _ _ a (Reads-mknod3args a c)
Travels-args_wire nfsproc3_remove a c = Travels-packed _ _ a (Reads-remove3args a)
Travels-args_wire nfsproc3_rmdir a c = Travels-packed _ _ a (Reads-rmdir3args a)
Travels-args_wire nfsproc3_rename a c = Travels-packed _ _ a (Reads-rename3args a)
Travels-args_wire nfsproc3_link a c = Travels-packed _ _ a (Reads-link3args a)
Travels-args_wire nfsproc3_readdir a c = Travels-packed _ _ a (Reads-readdir3args a c)
Travels-args_wire nfsproc3_readdirplus a c = Travels-packed _ _ a (Reads-readdirplus3args a c)
Travels-args_wire nfsproc3_fsstat a c = Travels-packed _ _ a (Reads-fsstat3args a)
Travels-args_wire nfsproc3_fsinfo a c = Travels-packed _ _ a (Reads-fsinfo3args a)
Travels-args_wire nfsproc3_pathconf a c = Travels-packed _ _ a (Reads-pathconf3args a)
Travels-args_wire nfsproc3_commit a c = Travels-packed _ _ a (Reads-commit3args a c)

Travels-res_wire : (p : Procedure) (a : Res p) → IsRes p a → Travels (res_wire p) a
unfolding res_wire
Travels-res_wire nfsproc3_null a c = Travels-void a
Travels-res_wire nfsproc3_getattr a c = Travels-packed _ _ a (Reads-getattr3res a c)
Travels-res_wire nfsproc3_setattr a c = Travels-packed _ _ a (Reads-setattr3res a c)
Travels-res_wire nfsproc3_lookup a c = Travels-packed _ _ a (Reads-lookup3res a c)
Travels-res_wire nfsproc3_access a c = Travels-packed _ _ a (Reads-access3res a c)
Travels-res_wire nfsproc3_readlink a c = Travels-packed _ _ a (Reads-readlink3res a c)
Travels-res_wire nfsproc3_read a c = Travels-packed _ _ a (Reads-read3res a c)
Travels-res_wire nfsproc3_write a c = Travels-packed _ _ a (Reads-write3res a c)
Travels-res_wire nfsproc3_create a c = Travels-packed _ _ a (Reads-create3res a c)
Travels-res_wire nfsproc3_mkdir a c = Travels-packed _ _ a (Reads-mkdir3res a c)
Travels-res_wire nfsproc3_symlink a c = Travels-packed _ _ a (Reads-symlink3res a c)
Travels-res_wire nfsproc3_mknod a c = Travels-packed _ _ a (Reads-mknod3res a c)
Travels-res_wire nfsproc3_remove a c = Travels-packed _ _ a (Reads-remove3res a c)
Travels-res_wire nfsproc3_rmdir a c = Travels-packed _ _ a (Reads-rmdir3res a c)
Travels-res_wire nfsproc3_rename a c = Travels-packed _ _ a (Reads-rename3res a c)
Travels-res_wire nfsproc3_link a c = Travels-packed _ _ a (Reads-link3res a c)
Travels-res_wire nfsproc3_readdir a c = Travels-packed _ _ a (Reads-readdir3res a c)
Travels-res_wire nfsproc3_readdirplus a c = Travels-packed _ _ a (Reads-readdirplus3res a c)
Travels-res_wire nfsproc3_fsstat a c = Travels-packed _ _ a (Reads-fsstat3res a c)
Travels-res_wire nfsproc3_fsinfo a c = Travels-packed _ _ a (Reads-fsinfo3res a c)
Travels-res_wire nfsproc3_pathconf a c = Travels-packed _ _ a (Reads-pathconf3res a c)
Travels-res_wire nfsproc3_commit a c = Travels-packed _ _ a (Reads-commit3res a c)

-- Over a transport that hands each request of NFS_PROGRAM to handle_N of a server class and its answer
-- back, the method of a client class returns what the server's method returns for the same
-- argument, and leaves the server in the same state. The argument and the result are canonical and
-- can be packed, and neither the program nor the version is among the keywords given.
pub nfs_call_local :
    {S : Type 0} (base : ℕ → ℕ → Transport S) (methods : Methods S) (kwargs : List String)
    (p : Procedure) (p0 : Args p) (r : Res p) (s s' : S) (d d' : Bytes)
    → ((q : Procedure) (b : Bytes) (t : S)
        → base program version (procedure_id q) b t ≡ answered (handle methods q b t))
    → has_key "program" kwargs ≡ false
    → has_key "version" kwargs ≡ false
    → IsArgs p p0
    → IsRes p r
    → (args_wire p).pack p0 [] ≡ ok d
    → (res_wire p).pack r [] ≡ ok d'
    → methods p p0 s ≡ ok (r, s')
    → (new_client base kwargs >>= λ c. c.call p p0 s) ≡ ok (r, s')
unfolding new_client call_procedure handle
nfs_call_local base methods kwargs p p0 r s s' d d' c k l a b e f g =
    rw (k, l)
      (call_remote_local (args_wire p) (res_wire p) (procedure_id p) (base program version)
        (methods p) p0 r s s' d d' (λ x. c p x s) (Travels-args_wire p p0 a)
        (Travels-res_wire p r b) e f g)
