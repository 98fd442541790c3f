-- ===== src/Programs/Nfs.antt =====
-- rfc1813/client.py and rfc1813/server.py: the program NFS_PROGRAM. The classes of a file differ in their base class of
-- the library rpc, which is a parameter (`base`).
pub mod Remote
mod Tests
use perennial.Prelude.{ℕ, String, ◌||◌, List, if◌then◌else◌}
use perennial.Outcome.{Result, ok, err, type_error}
use perennial.Xdr.{Bytes}
use perennial.Rfc1813.Lookup.{
  pack_access3args, unpack_access3args, Access3Args, pack_access3res, unpack_access3res, Access3Res,
  pack_lookup3args, unpack_lookup3args, Lookup3Args, pack_lookup3res, unpack_lookup3res, Lookup3Res,
}
use perennial.Rfc1813.Pathconf.{
  pack_commit3args, unpack_commit3args, Commit3Args, pack_commit3res, unpack_commit3res, Commit3Res,
  pack_pathconf3args, unpack_pathconf3args, Pathconf3Args, pack_pathconf3res, unpack_pathconf3res,
  Pathconf3Res,
}
use perennial.Rfc1813.Create.{
  pack_create3args, unpack_create3args, Create3Args, pack_create3res, unpack_create3res, Create3Res,
  pack_mkdir3args, unpack_mkdir3args, Mkdir3Args, pack_mkdir3res, unpack_mkdir3res, Mkdir3Res,
}
use perennial.Rfc1813.Fsinfo.{
  pack_fsinfo3args, unpack_fsinfo3args, Fsinfo3Args, pack_fsinfo3res, unpack_fsinfo3res, Fsinfo3Res,
  pack_fsstat3args, unpack_fsstat3args, Fsstat3Args, pack_fsstat3res, unpack_fsstat3res, Fsstat3Res,
}
use perennial.Rfc1813.Getattr.{
  pack_getattr3args, unpack_getattr3args, Getattr3Args, pack_getattr3res, unpack_getattr3res,
  Getattr3Res,
}
use perennial.Rfc1813.Rename.{
  pack_link3args, unpack_link3args, Link3Args, pack_link3res, unpack_link3res, Link3Res,
  pack_rename3args, unpack_rename3args, Rename3Args, pack_rename3res, unpack_rename3res, Rename3Res,
}
use perennial.Rfc1813.Mknod.{
  pack_mknod3args, unpack_mknod3args, Mknod3Args, pack_mknod3res, unpack_mknod3res, Mknod3Res,
}
use perennial.Rfc1813.Read.{
  pack_read3args, unpack_read3args, Read3Args, pack_read3res, unpack_read3res, Read3Res,
  pack_readlink3args, unpack_readlink3args, Readlink3Args, pack_readlink3res, unpack_readlink3res,
  Readlink3Res,
}
use perennial.Rfc1813.Readdir.{
  pack_readdir3args, unpack_readdir3args, Readdir3Args, pack_readdirplus3args,
  unpack_readdirplus3args, Readdirplus3Args,
}
use perennial.Rfc1813.Listing.{
  pack_readdir3res, unpack_readdir3res, Readdir3Res, pack_readdirplus3res, unpack_readdirplus3res,
  Readdirplus3Res,
}
use perennial.Rfc1813.Remove.{
  pack_remove3args, unpack_remove3args, Remove3Args, pack_remove3res, unpack_remove3res, Remove3Res,
  pack_rmdir3args, unpack_rmdir3args, Rmdir3Args, pack_rmdir3res, unpack_rmdir3res, Rmdir3Res,
}
use perennial.Rfc1813.Setattr.{
  pack_setattr3args, unpack_setattr3args, Setattr3Args, pack_setattr3res, unpack_setattr3res,
  Setattr3Res,
}
use perennial.Rfc1813.Symlink.{
  pack_symlink3args, unpack_symlink3args, Symlink3Args, pack_symlink3res, unpack_symlink3res,
  Symlink3Res,
}
use perennial.Rfc1813.Write.{
  pack_write3args, unpack_write3args, Write3Args, pack_write3res, unpack_write3res, Write3Res,
}
use perennial.Stub.{Wire, packed, void, Transport, call_remote, handle_request, has_key}

pub data Procedure : Type 0 where
  nfsproc3_null nfsproc3_getattr nfsproc3_setattr nfsproc3_lookup nfsproc3_access nfsproc3_readlink
        nfsproc3_read nfsproc3_write nfsproc3_create nfsproc3_mkdir nfsproc3_symlink nfsproc3_mknod
        nfsproc3_remove nfsproc3_rmdir nfsproc3_rename nfsproc3_link nfsproc3_readdir
        nfsproc3_readdirplus nfsproc3_fsstat nfsproc3_fsinfo nfsproc3_pathconf nfsproc3_commit :
      Procedure

-- `procedure_id`, and the N of handle_N.
abbrev pub procedure_id : Procedure → ℕ
procedure_id nfsproc3_null = 0
procedure_id nfsproc3_getattr = 1
procedure_id nfsproc3_setattr = 2
procedure_id nfsproc3_lookup = 3
procedure_id nfsproc3_access = 4
procedure_id nfsproc3_readlink = 5
procedure_id nfsproc3_read = 6
procedure_id nfsproc3_write = 7
procedure_id nfsproc3_create = 8
procedure_id nfsproc3_mkdir = 9
procedure_id nfsproc3_symlink = 10
procedure_id nfsproc3_mknod = 11
procedure_id nfsproc3_remove = 12
procedure_id nfsproc3_rmdir = 13
procedure_id nfsproc3_rename = 14
procedure_id nfsproc3_link = 15
procedure_id nfsproc3_readdir = 16
procedure_id nfsproc3_readdirplus = 17
procedure_id nfsproc3_fsstat = 18
procedure_id nfsproc3_fsinfo = 19
procedure_id nfsproc3_pathconf = 20
procedure_id nfsproc3_commit = 21

-- The type of the argument and of the result, `void` for none.
abbrev pub Args : Procedure → Type 0
Args nfsproc3_null = Unit {0}
Args nfsproc3_getattr = Getattr3Args
Args nfsproc3_setattr = Setattr3Args
Args nfsproc3_lookup = Lookup3Args
Args nfsproc3_access = Access3Args
Args nfsproc3_readlink = Readlink3Args
Args nfsproc3_read = Read3Args
Args nfsproc3_write = Write3Args
Args nfsproc3_create = Create3Args
Args nfsproc3_mkdir = Mkdir3Args
Args nfsproc3_symlink = Symlink3Args
Args nfsproc3_mknod = Mknod3Args
Args nfsproc3_remove = Remove3Args
Args nfsproc3_rmdir = Rmdir3Args
Args nfsproc3_rename = Rename3Args
Args nfsproc3_link = Link3Args
Args nfsproc3_readdir = Readdir3Args
Args nfsproc3_readdirplus = Readdirplus3Args
Args nfsproc3_fsstat = Fsstat3Args
Args nfsproc3_fsinfo = Fsinfo3Args
Args nfsproc3_pathconf = Pathconf3Args
Args nfsproc3_commit = Commit3Args

abbrev pub Res : Procedure → Type 0
Res nfsproc3_null = Unit {0}
Res nfsproc3_getattr = Getattr3Res
Res nfsproc3_setattr = Setattr3Res
Res nfsproc3_lookup = Lookup3Res
Res nfsproc3_access = Access3Res
Res nfsproc3_readlink = Readlink3Res
Res nfsproc3_read = Read3Res
Res nfsproc3_write = Write3Res
Res nfsproc3_create = Create3Res
Res nfsproc3_mkdir = Mkdir3Res
Res nfsproc3_symlink = Symlink3Res
Res nfsproc3_mknod = Mknod3Res
Res nfsproc3_remove = Remove3Res
Res nfsproc3_rmdir = Rmdir3Res
Res nfsproc3_rename = Rename3Res
Res nfsproc3_link = Link3Res
Res nfsproc3_readdir = Readdir3Res
Res nfsproc3_readdirplus = Readdirplus3Res
Res nfsproc3_fsstat = Fsstat3Res
Res nfsproc3_fsinfo = Fsinfo3Res
Res nfsproc3_pathconf = Pathconf3Res
Res nfsproc3_commit = Commit3Res

unfoldable pub args_wire : (p : Procedure) → Wire (Args p)
args_wire nfsproc3_null = void
args_wire nfsproc3_getattr = packed pack_getattr3args unpack_getattr3args
args_wire nfsproc3_setattr = packed pack_setattr3args unpack_setattr3args
args_wire nfsproc3_lookup = packed pack_lookup3args unpack_lookup3args
args_wire nfsproc3_access = packed pack_access3args unpack_access3args
args_wire nfsproc3_readlink = packed pack_readlink3args unpack_readlink3args
args_wire nfsproc3_read = packed pack_read3args unpack_read3args
args_wire nfsproc3_write = packed pack_write3args unpack_write3args
args_wire nfsproc3_create = packed pack_create3args unpack_create3args
args_wire nfsproc3_mkdir = packed pack_mkdir3args unpack_mkdir3args
args_wire nfsproc3_symlink = packed pack_symlink3args unpack_symlink3args
args_wire nfsproc3_mknod = packed pack_mknod3args unpack_mknod3args
args_wire nfsproc3_remove = packed pack_remove3args unpack_remove3args
args_wire nfsproc3_rmdir = packed pack_rmdir3args unpack_rmdir3args
args_wire nfsproc3_rename = packed pack_rename3args unpack_rename3args
args_wire nfsproc3_link = packed pack_link3args unpack_link3args
args_wire nfsproc3_readdir = packed pack_readdir3args unpack_readdir3args
args_wire nfsproc3_readdirplus = packed pack_readdirplus3args unpack_readdirplus3args
args_wire nfsproc3_fsstat = packed pack_fsstat3args unpack_fsstat3args
args_wire nfsproc3_fsinfo = packed pack_fsinfo3args unpack_fsinfo3args
args_wire nfsproc3_pathconf = packed pack_pathconf3args unpack_pathconf3args
args_wire nfsproc3_commit = packed pack_commit3args unpack_commit3args

unfoldable pub res_wire : (p : Procedure) → Wire (Res p)
res_wire nfsproc3_null = void
res_wire nfsproc3_getattr = packed pack_getattr3res unpack_getattr3res
res_wire nfsproc3_setattr = packed pack_setattr3res unpack_setattr3res
res_wire nfsproc3_lookup = packed pack_lookup3res unpack_lookup3res
res_wire nfsproc3_access = packed pack_access3res unpack_access3res
res_wire nfsproc3_readlink = packed pack_readlink3res unpack_readlink3res
res_wire nfsproc3_read = packed pack_read3res unpack_read3res
res_wire nfsproc3_write = packed pack_write3res unpack_write3res
res_wire nfsproc3_create = packed pack_create3res unpack_create3res
res_wire nfsproc3_mkdir = packed pack_mkdir3res unpack_mkdir3res
res_wire nfsproc3_symlink = packed pack_symlink3res unpack_symlink3res
res_wire nfsproc3_mknod = packed pack_mknod3res unpack_mknod3res
res_wire nfsproc3_remove = packed pack_remove3res unpack_remove3res
res_wire nfsproc3_rmdir = packed pack_rmdir3res unpack_rmdir3res
res_wire nfsproc3_rename = packed pack_rename3res unpack_rename3res
res_wire nfsproc3_link = packed pack_link3res unpack_link3res
res_wire nfsproc3_readdir = packed pack_readdir3res unpack_readdir3res
res_wire nfsproc3_readdirplus = packed pack_readdirplus3res unpack_readdirplus3res
res_wire nfsproc3_fsstat = packed pack_fsstat3res unpack_fsstat3res
res_wire nfsproc3_fsinfo = packed pack_fsinfo3res unpack_fsinfo3res
res_wire nfsproc3_pathconf = packed pack_pathconf3res unpack_pathconf3res
res_wire nfsproc3_commit = packed pack_commit3res unpack_commit3res

-- const.NFS_PROGRAM and const.NFS_V3
abbrev pub program : ℕ
program = 100003

abbrev pub version : ℕ
version = 3

-- The methods that a subclass of a server class defines.
abbrev pub Methods : Type 0 → Type 0
Methods S = (p : Procedure) → Args p → S → Result (Res p × S)

-- An object of a client class.
pub record Client (S : Type 0) : Type 0 where
  pub call : (p : Procedure) → Args p → S → Result (Res p × S)

-- An object of a server class, of the program and the version that its base class registers.
pub record Server (S : Type 0) : Type 0 where
  pub prog : ℕ
  pub vers : ℕ
  pub handle_n : (p : Procedure) → Bytes → S → Result ((ℕ × Bytes) × S)

module _ {S : Type 0} where
  -- The method of a client class for a procedure.
  unfoldable pub call_procedure : Transport S → (p : Procedure) → Args p → S → Result (Res p × S)
  call_procedure call p = call_remote (args_wire p) (res_wire p) (procedure_id p) call

  -- handle_N of a server class.
  unfoldable pub handle : Methods S → (p : Procedure) → Bytes → S → Result ((ℕ × Bytes) × S)
  handle methods p = handle_request (args_wire p) (res_wire p) (methods p)

  -- The constructor of a client: the program and the version are not for the caller to give.
  unfoldable pub new_client : (ℕ → ℕ → Transport S) → List String → Result (Client S)
  new_client base kwargs =
      if has_key "program" kwargs || has_key "version" kwargs
      then err type_error
      else ok (record { call = call_procedure (base program version) })

  -- RawTCPNFS_V3
  abbrev pub raw_tcp_client : (ℕ → ℕ → Transport S) → List String → Result (Client S)
  raw_tcp_client = new_client

  -- TCPNFS_V3
  abbrev pub tcp_client : (ℕ → ℕ → Transport S) → List String → Result (Client S)
  tcp_client = new_client

  -- RawUDPNFS_V3
  abbrev pub raw_udp_client : (ℕ → ℕ → Transport S) → List String → Result (Client S)
  raw_udp_client = new_client

  -- UDPNFS_V3
  abbrev pub udp_client : (ℕ → ℕ → Transport S) → List String → Result (Client S)
  udp_client = new_client

  unfoldable pub new_server : Methods S → List String → Result (Server S)
  new_server methods kwargs =
      if has_key "prog" kwargs || has_key "vers" kwargs
      then err type_error
      else ok (record { prog = program; vers = version; handle_n = handle methods })

  -- TCPNFS_V3
  abbrev pub tcp_server : Methods S → List String → Result (Server S)
  tcp_server = new_server

  -- UDPNFS_V3
  abbrev pub udp_server : Methods S → List String → Result (Server S)
  udp_server = new_server
