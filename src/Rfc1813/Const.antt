-- ===== src/Rfc1813/Const.antt =====
-- src/goose_lang/examples/nfs_spec/symtest/rfc1813/const.py: the constants that the codec names.
use perennial.Prelude.{ℕ}

abbrev pub int_false : ℕ
int_false = 0

abbrev pub int_true : ℕ
int_true = 1

abbrev pub nfs3_fhsize : ℕ
nfs3_fhsize = 64

abbrev pub nfs3_cookieverfsize : ℕ
nfs3_cookieverfsize = 8

abbrev pub nfs3_createverfsize : ℕ
nfs3_createverfsize = 8

abbrev pub nfs3_writeverfsize : ℕ
nfs3_writeverfsize = 8

abbrev pub nfs3_ok : ℕ
nfs3_ok = 0

abbrev pub nfs3err_perm : ℕ
nfs3err_perm = 1

abbrev pub nfs3err_noent : ℕ
nfs3err_noent = 2

abbrev pub nfs3err_io : ℕ
nfs3err_io = 5

abbrev pub nfs3err_nxio : ℕ
nfs3err_nxio = 6

abbrev pub nfs3err_acces : ℕ
nfs3err_acces = 13

abbrev pub nfs3err_exist : ℕ
nfs3err_exist = 17

abbrev pub nfs3err_xdev : ℕ
nfs3err_xdev = 18

abbrev pub nfs3err_nodev : ℕ
nfs3err_nodev = 19

abbrev pub nfs3err_notdir : ℕ
nfs3err_notdir = 20

abbrev pub nfs3err_isdir : ℕ
nfs3err_isdir = 21

abbrev pub nfs3err_inval : ℕ
nfs3err_inval = 22

abbrev pub nfs3err_fbig : ℕ
nfs3err_fbig = 27

abbrev pub nfs3err_nospc : ℕ
nfs3err_nospc = 28

abbrev pub nfs3err_rofs : ℕ
nfs3err_rofs = 30

abbrev pub nfs3err_mlink : ℕ
nfs3err_mlink = 31

abbrev pub nfs3err_nametoolong : ℕ
nfs3err_nametoolong = 63

abbrev pub nfs3err_notempty : ℕ
nfs3err_notempty = 66

abbrev pub nfs3err_dquot : ℕ
nfs3err_dquot = 69

abbrev pub nfs3err_stale : ℕ
nfs3err_stale = 70

abbrev pub nfs3err_remote : ℕ
nfs3err_remote = 71

abbrev pub nfs3err_badhandle : ℕ
nfs3err_badhandle = 10001

abbrev pub nfs3err_not_sync : ℕ
nfs3err_not_sync = 10002

abbrev pub nfs3err_bad_cookie : ℕ
nfs3err_bad_cookie = 10003

abbrev pub nfs3err_notsupp : ℕ
nfs3err_notsupp = 10004

abbrev pub nfs3err_toosmall : ℕ
nfs3err_toosmall = 10005

abbrev pub nfs3err_serverfault : ℕ
nfs3err_serverfault = 10006

abbrev pub nfs3err_badtype : ℕ
nfs3err_badtype = 10007

abbrev pub nfs3err_jukebox : ℕ
nfs3err_jukebox = 10008

abbrev pub nf3reg : ℕ
nf3reg = 1

abbrev pub nf3dir : ℕ
nf3dir = 2

abbrev pub nf3blk : ℕ
nf3blk = 3

abbrev pub nf3chr : ℕ
nf3chr = 4

abbrev pub nf3lnk : ℕ
nf3lnk = 5

abbrev pub nf3sock : ℕ
nf3sock = 6

abbrev pub nf3fifo : ℕ
nf3fifo = 7

abbrev pub dont_change : ℕ
dont_change = 0

abbrev pub set_to_server_time : ℕ
set_to_server_time = 1

abbrev pub set_to_client_time : ℕ
set_to_client_time = 2

abbrev pub unstable : ℕ
unstable = 0

abbrev pub data_sync : ℕ
data_sync = 1

abbrev pub file_sync : ℕ
file_sync = 2

abbrev pub unchecked : ℕ
unchecked = 0

abbrev pub guarded : ℕ
guarded = 1

abbrev pub exclusive : ℕ
exclusive = 2

abbrev pub mntpathlen3 : ℕ
mntpathlen3 = 1024

abbrev pub mntnamlen3 : ℕ
mntnamlen3 = 255

abbrev pub fhsize3 : ℕ
fhsize3 = 64

abbrev pub mnt3_ok : ℕ
mnt3_ok = 0

abbrev pub mnt3err_perm : ℕ
mnt3err_perm = 1

abbrev pub mnt3err_noent : ℕ
mnt3err_noent = 2

abbrev pub mnt3err_io : ℕ
mnt3err_io = 5

abbrev pub mnt3err_acces : ℕ
mnt3err_acces = 13

abbrev pub mnt3err_notdir : ℕ
mnt3err_notdir = 20

abbrev pub mnt3err_inval : ℕ
mnt3err_inval = 22

abbrev pub mnt3err_nametoolong : ℕ
mnt3err_nametoolong = 63

abbrev pub mnt3err_notsupp : ℕ
mnt3err_notsupp = 10004

abbrev pub mnt3err_serverfault : ℕ
mnt3err_serverfault = 10006
