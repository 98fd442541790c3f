-- ===== src/Rfc1057/Const.antt =====
-- src/goose_lang/examples/nfs_spec/symtest/rfc1813/const.py: the constants that the codec names.
use perennial.Prelude.{ℕ}

abbrev pub auth_none : ℕ
auth_none = 0

abbrev pub auth_unix : ℕ
auth_unix = 1

abbrev pub auth_short : ℕ
auth_short = 2

abbrev pub auth_des : ℕ
auth_des = 3

abbrev pub call : ℕ
call = 0

abbrev pub reply : ℕ
reply = 1

abbrev pub msg_accepted : ℕ
msg_accepted = 0

abbrev pub msg_denied : ℕ
msg_denied = 1

abbrev pub success : ℕ
success = 0

abbrev pub prog_unavail : ℕ
prog_unavail = 1

abbrev pub prog_mismatch : ℕ
prog_mismatch = 2

abbrev pub proc_unavail : ℕ
proc_unavail = 3

abbrev pub garbage_args : ℕ
garbage_args = 4

abbrev pub rpc_mismatch : ℕ
rpc_mismatch = 0

abbrev pub auth_error : ℕ
auth_error = 1

abbrev pub auth_badcred : ℕ
auth_badcred = 1

abbrev pub auth_rejectedcred : ℕ
auth_rejectedcred = 2

abbrev pub auth_badverf : ℕ
auth_badverf = 3

abbrev pub auth_rejectedverf : ℕ
auth_rejectedverf = 4

abbrev pub auth_tooweak : ℕ
auth_tooweak = 5
