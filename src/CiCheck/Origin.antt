-- ===== src/CiCheck/Origin.antt =====
-- checkout of the two checks, and the origin of the directory that it leaves.
use perennial.Prelude.{
  ◌≡◌, refl, sym, ap, ◌∙◌, inl, inr, Option, none, some, String, str_eq, eq_iff, List, [], ◌∷◌,
  Bool-cases,
}
use perennial.CiCheck.{
  Proj, path, Exit, exits_with, fails, not_found, uncaught, Shell, Block, returns, raises, aborts,
  ◌>>=◌, check_exit, sp_run, refresh, reclone, checkout,
}

-- What git does to the url of a directory's origin, the part of the disk that the property is about.
pub record Git (shell : Shell) : Type 0 where
  pub origin : String → shell.Disk → Option String
  pub get_url :
      (dir out : String) (d d' : shell.Disk)
      → shell.run ("git" ∷ "remote" ∷ "get-url" ∷ "origin" ∷ []) (some dir) d ≡ (exits_with out, d')
      → origin dir d' ≡ some (shell.strip out)
  pub reset :
      (dir out : String) (d d' : shell.Disk)
      → shell.run ("git" ∷ "reset" ∷ "--hard" ∷ []) (some dir) d ≡ (exits_with out, d')
      → origin dir d' ≡ origin dir d
  pub pull :
      (dir out : String) (d d' : shell.Disk)
      → shell.run ("git" ∷ "pull" ∷ []) (some dir) d ≡ (exits_with out, d')
      → origin dir d' ≡ origin dir d
  pub clone :
      (repo dir out : String) (d d' : shell.Disk)
      → shell.run ("git" ∷ "clone" ∷ repo ∷ dir ∷ []) none d ≡ (exits_with out, d')
      → origin dir d' ≡ some repo
  pub switch :
      (commit dir out : String) (d d' : shell.Disk)
      → shell.run ("git" ∷ "checkout" ∷ commit ∷ []) (some dir) d ≡ (exits_with out, d')
      → origin dir d' ≡ origin dir d

module _ (shell : Shell) where
  open shell use {Disk, run}

  -- A block that, if it returns, leaves a disk with P.
  pub data Leaves (P : String → Disk → Type 0) : Block Disk → Type 0 where
    left : {out : String} {d : Disk} → P out d → Leaves P (returns out d)
    stopped : (d : Disk) → Leaves P (raises d)
    aborted : (d : Disk) → Leaves P (aborts d)

  Leaves-bind :
      {P Q : String → Disk → Type 0} {b : Block Disk} (k : String → Disk → Block Disk)
      → Leaves P b
      → ((out : String) (d : Disk) → P out d → Leaves Q (k out d))
      → Leaves Q (b >>= k)
  Leaves-bind k (left h) f = f _ _ h
  Leaves-bind k (stopped d) f = stopped d
  Leaves-bind k (aborted d) f = aborted d

  Leaves-sp_run :
      {P : String → Disk → Type 0} (args : List String) (cwd : Option String) (d : Disk)
      → ((out : String) (d' : Disk) → run args cwd d ≡ (exits_with out, d') → P out d')
      → Leaves P (sp_run shell args cwd d)
  unfolding sp_run
  Leaves-sp_run args cwd d h = go (run args cwd d) h
    where
      go :
          {P : String → Disk → Type 0} (r : Exit × Disk)
          → ((out : String) (d' : Disk) → r ≡ (exits_with out, d') → P out d')
          → Leaves P (check_exit shell r)
      go (exits_with out, d') k = left (k out d' refl)
      go (fails, d') k = stopped d'
      go (not_found, d') k = stopped d'
      go (uncaught, d') k = aborted d'

  Leaves-returns :
      {P : String → Disk → Type 0} {b : Block Disk} {out : String} {d : Disk}
      → Leaves P b
      → b ≡ returns out d
      → P out d
  Leaves-returns {P} {b} {out} {d} (left {out = out'} {d = d'} h) e =
      let e₁ : out' ≡ out = cc in let e₂ : d' ≡ d = cc in rw (sym e₁, sym e₂) h
  Leaves-returns (stopped d) e = cc
  Leaves-returns (aborted d) e = cc

module _ (shell : Shell) (git : Git shell) where
  open shell use {Disk}
  open git use {origin}

  -- A command that does not change the origin.
  Leaves-kept :
      (p : Proj) (args : List String) (d : Disk)
      → ((out : String) (d' : Disk)
          → shell.run args (some (path p)) d ≡ (exits_with out, d')
          → origin (path p) d' ≡ origin (path p) d)
      → origin (path p) d ≡ some p.repo
      → Leaves shell
          (λ out d'. origin (path p) d' ≡ some p.repo)
          (sp_run shell args (some (path p)) d)
  Leaves-kept p args d keeps h = Leaves-sp_run shell args _ d (λ out d' e. keeps out d' e ∙ h)

  pub Leaves-refresh :
      (p : Proj) (d : Disk)
      → Leaves shell (λ out d'. origin (path p) d' ≡ some p.repo) (refresh shell p d)
  unfolding refresh
  Leaves-refresh p d =
      Leaves-bind shell _
        (Leaves-sp_run shell {P = λ out d'. origin (path p) d' ≡ some (shell.strip out)} _ _ d
          (λ out d' e. git.get_url (path p) out d d' e))
        λ out d₁ h. elim (Bool-cases (str_eq (shell.strip out) p.repo)) [
          | inl same ↦ rw same (
              Leaves-bind shell _
                (Leaves-kept p _ d₁ (λ o d₂ e. git.reset (path p) o d₁ d₂ e)
                  (h ∙ ap some ((eq_iff _ _).0 same)))
                (λ o d₂ h'. Leaves-kept p _ d₂ (λ o' d₃ e. git.pull (path p) o' d₂ d₃ e) h'))
          | inr other ↦ rw other (stopped d₁)
        ]

  Leaves-reclone :
      (p : Proj) {b : Block Disk}
      → Leaves shell (λ out d'. origin (path p) d' ≡ some p.repo) b
      → Leaves shell (λ out d'. origin (path p) d' ≡ some p.repo) (reclone shell p b)
  Leaves-reclone p (left h) = left h
  Leaves-reclone p (stopped d) =
      Leaves-sp_run shell _ _ _ (λ out d' e. git.clone p.repo (path p) out _ d' e)
  Leaves-reclone p (aborted d) = aborted d

  Leaves-checkout :
      (p : Proj) (d : Disk)
      → Leaves shell (λ out d'. origin (path p) d' ≡ some p.repo) (checkout shell p d)
  unfolding checkout
  Leaves-checkout p d =
      Leaves-bind shell _ (Leaves-reclone p (Leaves-refresh p d))
        λ out d' h. Leaves-kept p _ d' (λ o d₂ e. git.switch p.commit (path p) o d' d₂ e) h

  -- Where git keeps the url of a directory's origin, if checkout returns, the origin of the project's directory is
  -- the project's repository, whatever the directory held before.
  pub checkout-origin :
      (p : Proj) (d d' : Disk) (out : String)
      → checkout shell p d ≡ returns out d'
      → origin (path p) d' ≡ some p.repo
  checkout-origin p d d' out e = Leaves-returns shell (Leaves-checkout p d) e
