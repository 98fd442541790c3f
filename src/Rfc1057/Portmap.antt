-- ===== src/Rfc1057/Portmap.antt =====
-- rfc1813/types.py and rfc1813/pack.py: auth_unix, mapping, call_args, call_result.
pub mod RoundTrip
use perennial.Prelude.{ℕ, Option, List}
use perennial.Xdr.{
  Bytes, Packing, ◌⨾◌, Unpacking, pure, ◌>>=◌, pack_uint, unpack_uint, pack_opaque, unpack_opaque,
  pack_array, unpack_array, pack_field, unpack_field, pack_bounded, unpack_bounded,
}

-- struct auth_unix
pub record AuthUnix : Type 0 where
  pub stamp : Option ℕ
  pub machinename : Option Bytes
  pub uid : Option ℕ
  pub gid : Option ℕ
  pub gids : Option (List ℕ)

unfoldable pub pack_auth_unix : AuthUnix → Packing
pack_auth_unix d =
    pack_field pack_uint d.stamp
    ⨾ pack_field (pack_bounded 255 pack_opaque) d.machinename
    ⨾ pack_field pack_uint d.uid
    ⨾ pack_field pack_uint d.gid
    ⨾ pack_field (pack_bounded 16 (pack_array pack_uint)) d.gids

unfoldable pub unpack_auth_unix : Unpacking AuthUnix
unpack_auth_unix = do
  stamp' ← unpack_field unpack_uint
  machinename' ← unpack_field (unpack_bounded 255 unpack_opaque)
  uid' ← unpack_field unpack_uint
  gid' ← unpack_field unpack_uint
  gids' ← unpack_field (unpack_bounded 16 (unpack_array unpack_uint))
  pure (record { stamp = stamp'; machinename = machinename'; uid = uid'; gid = gid'; gids = gids' })

-- struct mapping
pub record Mapping : Type 0 where
  pub prog : Option ℕ
  pub vers : Option ℕ
  pub prot : Option ℕ
  pub port : Option ℕ

unfoldable pub pack_mapping : Mapping → Packing
pack_mapping d =
    pack_field pack_uint d.prog
    ⨾ pack_field pack_uint d.vers
    ⨾ pack_field pack_uint d.prot
    ⨾ pack_field pack_uint d.port

unfoldable pub unpack_mapping : Unpacking Mapping
unpack_mapping = do
  prog' ← unpack_field unpack_uint
  vers' ← unpack_field unpack_uint
  prot' ← unpack_field unpack_uint
  port' ← unpack_field unpack_uint
  pure (record { prog = prog'; vers = vers'; prot = prot'; port = port' })

-- struct call_args
pub record CallArgs : Type 0 where
  pub prog : Option ℕ
  pub vers : Option ℕ
  pub proc : Option ℕ
  pub args : Option Bytes

unfoldable pub pack_call_args : CallArgs → Packing
pack_call_args d =
    pack_field pack_uint d.prog
    ⨾ pack_field pack_uint d.vers
    ⨾ pack_field pack_uint d.proc
    ⨾ pack_field pack_opaque d.args

unfoldable pub unpack_call_args : Unpacking CallArgs
unpack_call_args = do
  prog' ← unpack_field unpack_uint
  vers' ← unpack_field unpack_uint
  proc' ← unpack_field unpack_uint
  args' ← unpack_field unpack_opaque
  pure (record { prog = prog'; vers = vers'; proc = proc'; args = args' })

-- struct call_result
pub record CallResult : Type 0 where
  pub port : Option ℕ
  pub res : Option Bytes

unfoldable pub pack_call_result : CallResult → Packing
pack_call_result d = pack_field pack_uint d.port ⨾ pack_field pack_opaque d.res

unfoldable pub unpack_call_result : Unpacking CallResult
unpack_call_result = do
  port' ← unpack_field unpack_uint
  res' ← unpack_field unpack_opaque
  pure (record { port = port'; res = res' })
