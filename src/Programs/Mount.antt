-- ===== src/Programs/Mount.antt =====
-- rfc1813/client.py and rfc1813/server.py: the program MOUNT_PROGRAM. The classes of a file differ in their base class of
-- the library rpc, which is a parameter (`base`).
pub mod Remote
mod Tests
use perennial.Prelude.{ℕ, String, ◌||◌, List, if◌then◌else◌}
use perennial.Outcome.{Result, ok, err, type_error}
use perennial.Xdr.{Bytes}
use perennial.Rfc1813.Mount.{
  pack_dirpath3, unpack_dirpath3, pack_mountres3, unpack_mountres3, Mountres3,
}
use perennial.Rfc1813.Exports.{
  pack_exportsopt3, unpack_exportsopt3, Exports3Fields, pack_mountopt3, unpack_mountopt3,
  Mount3Fields,
}
use perennial.Xdr.Linked.{Nodes}
use perennial.Stub.{Wire, packed, void, Transport, call_remote, handle_request, has_key}

pub data Procedure : Type 0 where
  mountproc3_null mountproc3_mnt mountproc3_dump mountproc3_umnt mountproc3_umntall
        mountproc3_export :
      Procedure

-- `procedure_id`, and the N of handle_N.
abbrev pub procedure_id : Procedure → ℕ
procedure_id mountproc3_null = 0
procedure_id mountproc3_mnt = 1
procedure_id mountproc3_dump = 2
procedure_id mountproc3_umnt = 3
procedure_id mountproc3_umntall = 4
procedure_id mountproc3_export = 5

-- The type of the argument and of the result, `void` for none.
abbrev pub Args : Procedure → Type 0
Args mountproc3_null = Unit {0}
Args mountproc3_mnt = Bytes
Args mountproc3_dump = Unit {0}
Args mountproc3_umnt = Bytes
Args mountproc3_umntall = Unit {0}
Args mountproc3_export = Unit {0}

abbrev pub Res : Procedure → Type 0
Res mountproc3_null = Unit {0}
Res mountproc3_mnt = Mountres3
Res mountproc3_dump = (Nodes Mount3Fields)
Res mountproc3_umnt = Unit {0}
Res mountproc3_umntall = Unit {0}
Res mountproc3_export = (Nodes Exports3Fields)

unfoldable pub args_wire : (p : Procedure) → Wire (Args p)
args_wire mountproc3_null = void
args_wire mountproc3_mnt = packed pack_dirpath3 unpack_dirpath3
args_wire mountproc3_dump = void
args_wire mountproc3_umnt = packed pack_dirpath3 unpack_dirpath3
args_wire mountproc3_umntall = void
args_wire mountproc3_export = void

unfoldable pub res_wire : (p : Procedure) → Wire (Res p)
res_wire mountproc3_null = void
res_wire mountproc3_mnt = packed pack_mountres3 unpack_mountres3
res_wire mountproc3_dump = packed pack_mountopt3 unpack_mountopt3
res_wire mountproc3_umnt = void
res_wire mountproc3_umntall = void
res_wire mountproc3_export = packed pack_exportsopt3 unpack_exportsopt3

-- const.MOUNT_PROGRAM and const.MOUNT_V3
abbrev pub program : ℕ
program = 100005

abbrev pub version : ℕ
version = 3

-- The methods that a subclass of a server class defines.
abbrev pub Methods : Type 0 → Type 0
Methods S = (p : Procedure) → Args p → S → Result (Res p × S)

-- An object of a client class.
pub record Client (S : Type 0) : Type 0 where
  pub call : (p : Procedure) → Args p → S → Result (Res p × S)

-- An object of a server class, of the program and the version that its base class registers.
pub record Server (S : Type 0) : Type 0 where
  pub prog : ℕ
  pub vers : ℕ
  pub handle_n : (p : Procedure) → Bytes → S → Result ((ℕ × Bytes) × S)

module _ {S : Type 0} where
  -- The method of a client class for a procedure.
  unfoldable pub call_procedure : Transport S → (p : Procedure) → Args p → S → Result (Res p × S)
  call_procedure call p = call_remote (args_wire p) (res_wire p) (procedure_id p) call

  -- handle_N of a server class.
  unfoldable pub handle : Methods S → (p : Procedure) → Bytes → S → Result ((ℕ × Bytes) × S)
  handle methods p = handle_request (args_wire p) (res_wire p) (methods p)

  -- The constructor of a client: the program and the version are not for the caller to give.
  unfoldable pub new_client : (ℕ → ℕ → Transport S) → List String → Result (Client S)
  new_client base kwargs =
      if has_key "program" kwargs || has_key "version" kwargs
      then err type_error
      else ok (record { call = call_procedure (base program version) })

  -- RawTCPMOUNT_V3
  abbrev pub raw_tcp_client : (ℕ → ℕ → Transport S) → List String → Result (Client S)
  raw_tcp_client = new_client

  -- TCPMOUNT_V3
  abbrev pub tcp_client : (ℕ → ℕ → Transport S) → List String → Result (Client S)
  tcp_client = new_client

  -- RawUDPMOUNT_V3
  abbrev pub raw_udp_client : (ℕ → ℕ → Transport S) → List String → Result (Client S)
  raw_udp_client = new_client

  -- UDPMOUNT_V3
  abbrev pub udp_client : (ℕ → ℕ → Transport S) → List String → Result (Client S)
  udp_client = new_client

  unfoldable pub new_server : Methods S → List String → Result (Server S)
  new_server methods kwargs =
      if has_key "prog" kwargs || has_key "vers" kwargs
      then err type_error
      else ok (record { prog = program; vers = version; handle_n = handle methods })

  -- TCPMOUNT_V3
  abbrev pub tcp_server : Methods S → List String → Result (Server S)
  tcp_server = new_server

  -- UDPMOUNT_V3
  abbrev pub udp_server : Methods S → List String → Result (Server S)
  udp_server = new_server
