-- ===== src/UpdateGooseNew.antt =====
-- new/etc/update-goose-new.py: the script that has the new goose translate the projects again. The file
-- system, the environment and the processes are parameters.
pub mod Manager
pub mod Projects
pub mod Waiting
pub mod Statuses
pub mod DryRun
mod Tests
use Prim.Native.String.{◌++◌ as text_append}
use perennial.Prelude.{
  ℕ, ◌*◌, String, Bool, not, Option, none, some, str_eq, List, [], ◌∷◌, ◌++◌, if◌then◌else◌, ltb,
}
use perennial.UpdateGooseNew.Manager.{
  Popen, ProcessManager, Run, running, ◌>>=◌, new_manager, run_command, wait_all,
}
use perennial.UpdateGooseNew.Projects.{Proj, projs, testdata_pkgs, std_lib_pkgs, dest}

-- What the script reads of its surroundings: os.path, the directory of its own file, GOPATH, the home
-- directory and os.cpu_count.
pub record Host : Type 0 where
  pub isdir : String → Bool
  pub join : String → String → String
  pub script_dir : String
  pub gopath : Option String
  pub home : String
  pub cpu_count : Option ℕ

-- The parsed options; a project's path is the attribute of its name.
pub record Args : Type 0 where
  pub compile : Bool
  pub dry_run : Bool
  pub verbose : Bool
  pub goose : String
  pub goose_examples : Bool
  pub channel : Bool
  pub std_lib : Bool
  pub getattr : String → Option String

-- parser.error ends the script before the manager is made.
pub data Script : Type 0 where
  usage_error : String → Script
  managed : Run → Script

-- The manager's limit, in halves: one process where there is one, else half of them.
abbrev pub max_procs : Option ℕ → Option ℕ
max_procs none = none
max_procs (some n) = if ltb 1 n then some n else some (2 * n)

abbrev pub when : Bool → (ProcessManager → Run) → ProcessManager → Run
when b k m = if b then k m else running m

-- `if not pkgs: pkgs = ["."]`
abbrev pub some_pkgs : List String → List String
some_pkgs [] = "." ∷ []
some_pkgs (p ∷ ps) = p ∷ ps

module _ (host : Host) (popen : Popen) where
  open host use {isdir, join, script_dir, gopath, home, cpu_count}

  -- GOPATH, or go in the home directory where it is unset or empty.
  abbrev pub go_path : String
  go_path = elim gopath [
    | none ↦ join home "go"
    | some p ↦ if str_eq p "" then join home "go" else p
  ]

  abbrev pub perennial_dir : String
  perennial_dir = join script_dir "../.."

  unfoldable pub run_goose : Option String → List String → ProcessManager → Run
  run_goose none pkgs m = running m
  run_goose (some src_path) pkgs m =
      run_command popen
        ((join (join go_path "bin") "goose" ∷ [])
          ++ ("-out" ∷ join perennial_dir "new/code/" ∷ [])
          ++ ("-dir" ∷ src_path ∷ [])
          ++ some_pkgs pkgs)
        m
      >>= run_command popen (
          (join (join go_path "bin") "proofgen" ∷ [])
          ++ ("-out" ∷ join perennial_dir "new/generatedproof" ∷ [])
          ++ ("-configdir" ∷ join perennial_dir "new/code" ∷ [])
          ++ ("-dir" ∷ src_path ∷ [])
          ++ some_pkgs pkgs)

  module _ (args : Args) where
    abbrev pub proj_dir : String → Option String
    proj_dir name = args.getattr (dest name)

    -- The message for the first directory that is missing.
    unfoldable pub missing_project : List Proj → Option String
    missing_project [] =
        if not (isdir args.goose) then some "goose directory does not exist" else none
    missing_project (p ∷ ps) =
        let rest = missing_project ps in
        elim (proj_dir p.name) [
          | none ↦ rest
          | some d ↦
              if not (isdir d) then some (text_append p.name " directory does not exist") else rest
        ]

    unfoldable pub compile_goose : ProcessManager → Run
    compile_goose m =
        run_command popen ("go" ∷ "install" ∷ "./cmd/goose" ∷ "./cmd/proofgen" ∷ [])
          (record m { cwd = args.goose })
        >>= (λ m'. wait_all popen (record m' { cwd = m.cwd }))

    unfoldable pub run_projects : List Proj → ProcessManager → Run
    run_projects [] m = running m
    run_projects (p ∷ ps) m = run_goose (proj_dir p.name) p.pkgs m >>= run_projects ps

    unfoldable pub run_all : ProcessManager → Run
    run_all m =
        when args.compile compile_goose m
        >>= when args.goose_examples
            (run_goose (some (join args.goose "testdata/examples")) testdata_pkgs)
        >>= when args.channel (run_goose (some args.goose) ("./model/channel" ∷ []))
        >>= when args.std_lib (run_goose (some args.goose) std_lib_pkgs)
        >>= run_projects projs
        >>= wait_all popen

    -- What follows the checks, with the message of the one that failed.
    abbrev pub checked : Option String → String → Script
    checked (some msg) c = usage_error msg
    checked none c =
        managed (run_all (new_manager args.dry_run args.verbose (max_procs cpu_count) c))

    unfoldable pub main : String → Script
    main = checked (missing_project projs)
