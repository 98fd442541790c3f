-- ===== src/Rfc1813/Basic.antt =====
-- rfc1813/types.py and rfc1813/pack.py: uint64, uint32, filename3, nfspath3, fileid3, cookie3,
-- cookieverf3, createverf3, writeverf3, uid3, gid3, size3, offset3, mode3, count3, nfsstat3,
-- ftype3.
pub mod RoundTrip
use perennial.Prelude.{ℕ, List, [], ◌∷◌}
use perennial.Xdr.{
  ℤ, Bytes, Packing, Unpacking, pack_uint, unpack_uint, pack_uhyper, unpack_uhyper, pack_fopaque,
  unpack_fopaque, pack_opaque, unpack_opaque, pack_enum, unpack_enum,
}
use perennial.Rfc1813.Const.{
  nfs3_cookieverfsize, nfs3_createverfsize, nfs3_writeverfsize, nfs3_ok, nfs3err_perm,
  nfs3err_noent, nfs3err_io, nfs3err_nxio, nfs3err_acces, nfs3err_exist, nfs3err_xdev,
  nfs3err_nodev, nfs3err_notdir, nfs3err_isdir, nfs3err_inval, nfs3err_fbig, nfs3err_nospc,
  nfs3err_rofs, nfs3err_mlink, nfs3err_nametoolong, nfs3err_notempty, nfs3err_dquot, nfs3err_stale,
  nfs3err_remote, nfs3err_badhandle, nfs3err_not_sync, nfs3err_bad_cookie, nfs3err_notsupp,
  nfs3err_toosmall, nfs3err_serverfault, nfs3err_badtype, nfs3err_jukebox, nf3reg, nf3dir, nf3blk,
  nf3chr, nf3lnk, nf3sock, nf3fifo,
}

abbrev pub pack_uint64 : ℕ → Packing
pack_uint64 = pack_uhyper

abbrev pub unpack_uint64 : Unpacking ℕ
unpack_uint64 = unpack_uhyper

abbrev pub pack_uint32 : ℕ → Packing
pack_uint32 = pack_uint

abbrev pub unpack_uint32 : Unpacking ℕ
unpack_uint32 = unpack_uint

abbrev pub pack_filename3 : Bytes → Packing
pack_filename3 = pack_opaque

abbrev pub unpack_filename3 : Unpacking Bytes
unpack_filename3 = unpack_opaque

abbrev pub pack_nfspath3 : Bytes → Packing
pack_nfspath3 = pack_opaque

abbrev pub unpack_nfspath3 : Unpacking Bytes
unpack_nfspath3 = unpack_opaque

abbrev pub pack_fileid3 : ℕ → Packing
pack_fileid3 = pack_uint64

abbrev pub unpack_fileid3 : Unpacking ℕ
unpack_fileid3 = unpack_uint64

abbrev pub pack_cookie3 : ℕ → Packing
pack_cookie3 = pack_uint64

abbrev pub unpack_cookie3 : Unpacking ℕ
unpack_cookie3 = unpack_uint64

unfoldable pub pack_cookieverf3 : Bytes → Packing
pack_cookieverf3 = pack_fopaque nfs3_cookieverfsize

unfoldable pub unpack_cookieverf3 : Unpacking Bytes
unpack_cookieverf3 = unpack_fopaque nfs3_cookieverfsize

unfoldable pub pack_createverf3 : Bytes → Packing
pack_createverf3 = pack_fopaque nfs3_createverfsize

unfoldable pub unpack_createverf3 : Unpacking Bytes
unpack_createverf3 = unpack_fopaque nfs3_createverfsize

unfoldable pub pack_writeverf3 : Bytes → Packing
pack_writeverf3 = pack_fopaque nfs3_writeverfsize

unfoldable pub unpack_writeverf3 : Unpacking Bytes
unpack_writeverf3 = unpack_fopaque nfs3_writeverfsize

abbrev pub pack_uid3 : ℕ → Packing
pack_uid3 = pack_uint32

abbrev pub unpack_uid3 : Unpacking ℕ
unpack_uid3 = unpack_uint32

abbrev pub pack_gid3 : ℕ → Packing
pack_gid3 = pack_uint32

abbrev pub unpack_gid3 : Unpacking ℕ
unpack_gid3 = unpack_uint32

abbrev pub pack_size3 : ℕ → Packing
pack_size3 = pack_uint64

abbrev pub unpack_size3 : Unpacking ℕ
unpack_size3 = unpack_uint64

abbrev pub pack_offset3 : ℕ → Packing
pack_offset3 = pack_uint64

abbrev pub unpack_offset3 : Unpacking ℕ
unpack_offset3 = unpack_uint64

abbrev pub pack_mode3 : ℕ → Packing
pack_mode3 = pack_uint32

abbrev pub unpack_mode3 : Unpacking ℕ
unpack_mode3 = unpack_uint32

abbrev pub pack_count3 : ℕ → Packing
pack_count3 = pack_uint32

abbrev pub unpack_count3 : Unpacking ℕ
unpack_count3 = unpack_uint32

-- The constants of the enumeration nfsstat3.
abbrev pub nfsstat3_values : List ℕ
nfsstat3_values =
    nfs3_ok ∷ nfs3err_perm ∷ nfs3err_noent ∷ nfs3err_io ∷ nfs3err_nxio ∷ nfs3err_acces
    ∷ nfs3err_exist ∷ nfs3err_xdev ∷ nfs3err_nodev ∷ nfs3err_notdir ∷ nfs3err_isdir ∷ nfs3err_inval
    ∷ nfs3err_fbig ∷ nfs3err_nospc ∷ nfs3err_rofs ∷ nfs3err_mlink ∷ nfs3err_nametoolong
    ∷ nfs3err_notempty ∷ nfs3err_dquot ∷ nfs3err_stale ∷ nfs3err_remote ∷ nfs3err_badhandle
    ∷ nfs3err_not_sync ∷ nfs3err_bad_cookie ∷ nfs3err_notsupp ∷ nfs3err_toosmall
    ∷ nfs3err_serverfault ∷ nfs3err_badtype ∷ nfs3err_jukebox ∷ []

unfoldable pub pack_nfsstat3 : ℤ → Packing
pack_nfsstat3 = pack_enum nfsstat3_values

unfoldable pub unpack_nfsstat3 : Unpacking ℤ
unpack_nfsstat3 = unpack_enum nfsstat3_values

-- The constants of the enumeration ftype3.
abbrev pub ftype3_values : List ℕ
ftype3_values = nf3reg ∷ nf3dir ∷ nf3blk ∷ nf3chr ∷ nf3lnk ∷ nf3sock ∷ nf3fifo ∷ []

unfoldable pub pack_ftype3 : ℤ → Packing
pack_ftype3 = pack_enum ftype3_values

unfoldable pub unpack_ftype3 : Unpacking ℤ
unpack_ftype3 = unpack_enum ftype3_values
