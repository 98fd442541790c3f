-- ===== src/CiCheck/Grackle.antt =====
-- etc/ci-grackle-check.py: its project and the script.
use perennial.Prelude.{none, List, [], ◌∷◌}
use perennial.CiCheck.{Proj, path, Shell, Block, ◌>>=◌, sp_run, checkout_all}

abbrev gokv_proj : Proj
gokv_proj = record { name = "gokv"; repo = "https://github.com/mit-pdos/gokv"; commit = "main" }

abbrev pub projs : List Proj
projs = gokv_proj ∷ []

unfoldable pub main : (shell : Shell) → shell.Disk → Block shell.Disk
main shell d = checkout_all shell projs d >>= λ out d'.
    sp_run shell ("etc/update-grackle.sh" ∷ "--gokv" ∷ path gokv_proj ∷ []) none d'
