-- ===== src/CiCheck.antt =====
-- etc/ci-goose-check.py and etc/ci-grackle-check.py: the checks that the translated files are in step with the
-- Go repositories. The commands and the disk are parameters.
pub mod Origin
pub mod Recovery
pub mod Goose
pub mod Grackle
mod Tests
use Prim.Native.String.{◌++◌ as text_append}
use perennial.Prelude.{Option, none, some, String, str_eq, List, [], ◌∷◌, if◌then◌else◌}

pub record Proj : Type 0 where
  pub name : String
  pub repo : String
  pub commit : String

-- Proj.path
abbrev pub path : Proj → String
path p = text_append "/tmp/" p.name

-- How a command ends: with status 0 and its output, with another status, or not at all: as the program or
-- the directory is not found, or with an exception that the script does not catch, such as PermissionError
-- and NotADirectoryError.
pub data Exit : Type 0 where
  exits_with : String → Exit
  fails : Exit
  not_found : Exit
  uncaught : Exit

pub record Shell : Type 1 where
  pub Disk : Type 0
  pub run : List String → Option String → Disk → Exit × Disk
  pub rmtree : String → Disk → Disk
  pub strip : String → String

-- A block returns; raises FileNotFoundError, CalledProcessError or AssertionError; or ends the script with
-- an exception of another class.
pub data Block (D : Type 0) : Type 0 where
  returns : String → D → Block D
  raises : D → Block D
  aborts : D → Block D

infixl 5 ◌>>=◌
abbrev pub ◌>>=◌ : {D : Type 0} → Block D → (String → D → Block D) → Block D
returns out d >>= k = k out d
raises d >>= k = raises d
aborts d >>= k = aborts d

module _ (shell : Shell) where
  open shell use {Disk, run, rmtree, strip}

  abbrev pub check_exit : Exit × Disk → Block Disk
  check_exit (exits_with out, d) = returns out d
  check_exit (fails, d) = raises d
  check_exit (not_found, d) = raises d
  check_exit (uncaught, d) = aborts d

  -- sp.run with check=True
  unfoldable pub sp_run : List String → Option String → Disk → Block Disk
  sp_run args cwd d = check_exit (run args cwd d)

  -- The try block of checkout.
  unfoldable pub refresh : Proj → Disk → Block Disk
  refresh p d =
      sp_run ("git" ∷ "remote" ∷ "get-url" ∷ "origin" ∷ []) (some (path p)) d >>= λ out d₁.
      if str_eq (strip out) p.repo
      then (sp_run ("git" ∷ "reset" ∷ "--hard" ∷ []) (some (path p)) d₁ >>= λ o d₂.
          sp_run ("git" ∷ "pull" ∷ []) (some (path p)) d₂)
      else raises d₁

  -- Its except clause for the three classes: the directory is removed and cloned again.
  abbrev pub reclone : Proj → Block Disk → Block Disk
  reclone p (returns out d) = returns out d
  reclone p (raises d) = sp_run ("git" ∷ "clone" ∷ p.repo ∷ path p ∷ []) none (rmtree (path p) d)
  reclone p (aborts d) = aborts d

  unfoldable pub checkout : Proj → Disk → Block Disk
  checkout p d = reclone p (refresh p d) >>= λ out d'.
      sp_run ("git" ∷ "checkout" ∷ p.commit ∷ []) (some (path p)) d'

  unfoldable pub checkout_all : List Proj → Disk → Block Disk
  checkout_all [] d = returns "" d
  checkout_all (p ∷ ps) d = checkout p d >>= λ out d'. checkout_all ps d'
