-- ===== src/Programs/Pmap.antt =====
-- rfc1057/client.py and rfc1057/server.py: the program PMAP_PROG, the port mapper. The classes of a file differ in their base class of
-- the library rpc, which is a parameter (`base`).
pub mod Remote
mod Tests
use perennial.Prelude.{ℕ, String, ◌||◌, List, if◌then◌else◌}
use perennial.Outcome.{Result, ok, err, type_error}
use perennial.Xdr.{ℤ, Bytes}
use perennial.Rfc1057.Portmap.{
  pack_call_args, unpack_call_args, CallArgs, pack_call_result, unpack_call_result, CallResult,
  pack_mapping, unpack_mapping, Mapping,
}
use perennial.Rfc1057.Pmaplist.{pack_pmaplist, unpack_pmaplist, Pmaplist}
use perennial.Xdr.{pack_uint, unpack_uint, pack_bool, unpack_bool}
use perennial.Stub.{Wire, packed, void, Transport, call_remote, handle_request, has_key}

pub data Procedure : Type 0 where
  pmapproc_null pmapproc_set pmapproc_unset pmapproc_getport pmapproc_dump pmapproc_callit :
      Procedure

-- `procedure_id`, and the N of handle_N.
abbrev pub procedure_id : Procedure → ℕ
procedure_id pmapproc_null = 0
procedure_id pmapproc_set = 1
procedure_id pmapproc_unset = 2
procedure_id pmapproc_getport = 3
procedure_id pmapproc_dump = 4
procedure_id pmapproc_callit = 5

-- The type of the argument and of the result, `void` for none.
abbrev pub Args : Procedure → Type 0
Args pmapproc_null = Unit {0}
Args pmapproc_set = Mapping
Args pmapproc_unset = Mapping
Args pmapproc_getport = Mapping
Args pmapproc_dump = Unit {0}
Args pmapproc_callit = CallArgs

abbrev pub Res : Procedure → Type 0
Res pmapproc_null = Unit {0}
Res pmapproc_set = ℤ
Res pmapproc_unset = ℤ
Res pmapproc_getport = ℕ
Res pmapproc_dump = Pmaplist
Res pmapproc_callit = CallResult

unfoldable pub args_wire : (p : Procedure) → Wire (Args p)
args_wire pmapproc_null = void
args_wire pmapproc_set = packed pack_mapping unpack_mapping
args_wire pmapproc_unset = packed pack_mapping unpack_mapping
args_wire pmapproc_getport = packed pack_mapping unpack_mapping
args_wire pmapproc_dump = void
args_wire pmapproc_callit = packed pack_call_args unpack_call_args

unfoldable pub res_wire : (p : Procedure) → Wire (Res p)
res_wire pmapproc_null = void
res_wire pmapproc_set = packed pack_bool unpack_bool
res_wire pmapproc_unset = packed pack_bool unpack_bool
res_wire pmapproc_getport = packed pack_uint unpack_uint
res_wire pmapproc_dump = packed pack_pmaplist unpack_pmaplist
res_wire pmapproc_callit = packed pack_call_result unpack_call_result

-- const.PMAP_PROG and const.PMAP_VERS
abbrev pub program : ℕ
program = 100000

abbrev pub version : ℕ
version = 2

-- The methods that a subclass of a server class defines.
abbrev pub Methods : Type 0 → Type 0
Methods S = (p : Procedure) → Args p → S → Result (Res p × S)

-- An object of a client class.
pub record Client (S : Type 0) : Type 0 where
  pub call : (p : Procedure) → Args p → S → Result (Res p × S)

-- An object of a server class, of the program and the version that its base class registers.
pub record Server (S : Type 0) : Type 0 where
  pub prog : ℕ
  pub vers : ℕ
  pub handle_n : (p : Procedure) → Bytes → S → Result ((ℕ × Bytes) × S)

module _ {S : Type 0} where
  -- The method of a client class for a procedure.
  unfoldable pub call_procedure : Transport S → (p : Procedure) → Args p → S → Result (Res p × S)
  call_procedure call p = call_remote (args_wire p) (res_wire p) (procedure_id p) call

  -- handle_N of a server class.
  unfoldable pub handle : Methods S → (p : Procedure) → Bytes → S → Result ((ℕ × Bytes) × S)
  handle methods p = handle_request (args_wire p) (res_wire p) (methods p)

  -- The constructor of a client: the program and the version are not for the caller to give.
  unfoldable pub new_client : (ℕ → ℕ → Transport S) → List String → Result (Client S)
  new_client base kwargs =
      if has_key "program" kwargs || has_key "version" kwargs
      then err type_error
      else ok (record { call = call_procedure (base program version) })

  -- RawTCPPMAP_VERS
  abbrev pub raw_tcp_client : (ℕ → ℕ → Transport S) → List String → Result (Client S)
  raw_tcp_client = new_client

  -- TCPPMAP_VERS
  abbrev pub tcp_client : (ℕ → ℕ → Transport S) → List String → Result (Client S)
  tcp_client = new_client

  -- RawUDPPMAP_VERS
  abbrev pub raw_udp_client : (ℕ → ℕ → Transport S) → List String → Result (Client S)
  raw_udp_client = new_client

  -- UDPPMAP_VERS
  abbrev pub udp_client : (ℕ → ℕ → Transport S) → List String → Result (Client S)
  udp_client = new_client

  unfoldable pub new_server : Methods S → List String → Result (Server S)
  new_server methods kwargs =
      if has_key "prog" kwargs || has_key "vers" kwargs
      then err type_error
      else ok (record { prog = program; vers = version; handle_n = handle methods })

  -- TCPPMAP_VERS
  abbrev pub tcp_server : Methods S → List String → Result (Server S)
  tcp_server = new_server

  -- UDPPMAP_VERS
  abbrev pub udp_server : Methods S → List String → Result (Server S)
  udp_server = new_server
