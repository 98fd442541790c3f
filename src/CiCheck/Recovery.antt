-- ===== src/CiCheck/Recovery.antt =====
-- checkout of the two checks, from a directory that its user may enter, and what its except clause makes of it.
use perennial.Prelude.{◌≡◌, ◌≢◌, none, some, String, List, [], ◌∷◌}
use perennial.CiCheck.{Proj, path, exits_with, uncaught, Shell, Block, returns, raises}
use perennial.CiCheck.Origin.{Git}

-- What holds of the directory of a project on a disk. It is accessible if its user may enter it and all that is in
-- it, or there is none; then no command there ends with an exception that the script does not catch, and it
-- stays accessible. If it is accessible, rmtree removes it. Git clones into a directory that is not there,
-- and checks the commit out of a clone of the repository.
pub record Access (shell : Shell) (git : Git shell) (p : Proj) : Type 1 where
  pub IsAccessible : shell.Disk → Type 0
  pub IsAbsent : shell.Disk → Type 0
  pub caught :
      (args : List String) (d : shell.Disk)
      → IsAccessible d
      → (shell.run args (some (path p)) d).0 ≢ uncaught
  pub stays :
      (args : List String) (d : shell.Disk)
      → IsAccessible d
      → IsAccessible (shell.run args (some (path p)) d).1
  pub removed : (d : shell.Disk) → IsAccessible d → IsAbsent (shell.rmtree (path p) d)
  pub clones :
      (d : shell.Disk)
      → IsAbsent d
      → (out : String) × (d' : shell.Disk) × (shell.run
            ("git" ∷ "clone" ∷ p.repo ∷ path p ∷ [])
            none
            d
          ≡ (exits_with out, d'))
  pub switches :
      (d : shell.Disk)
      → git.origin (path p) d ≡ some p.repo
      → (out : String) × (d' : shell.Disk) × (shell.run
            ("git" ∷ "checkout" ∷ p.commit ∷ [])
            (some (path p))
            d
          ≡ (exits_with out, d'))

module _ (shell : Shell) where
  open shell use {Disk}

  -- A block that returns or raises what is caught, on a disk with P.
  data Catches (P : Disk → Type 0) : Block Disk → Type 0 where
    returned : {out : String} {d : Disk} → P d → Catches P (returns out d)
    raised : {d : Disk} → P d → Catches P (raises d)
