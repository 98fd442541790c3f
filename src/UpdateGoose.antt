-- ===== src/UpdateGoose.antt =====
-- etc/update-goose.py: the script that has goose translate the Go repositories again. The file system, the
-- environment and the outcome of a command are parameters.
pub mod Packages
pub mod DryRun
pub mod Ends
mod Tests
use perennial.Prelude.{
  String, ◌||◌, Bool, not, Option, none, some, str_eq, List, [], ◌∷◌, ◌++◌, if◌then◌else◌,
}
use perennial.UpdateGoose.Packages.{
  example_pkgs, journal_pkgs, nfsd_pkgs, perennial_example_pkgs, distributed_pkgs, gokv_pkgs,
  pav_pkgs, mvcc_pkgs, rsm_pkgs, tulip_pkgs,
}

-- What a script reads of its surroundings: os.path, the directory of the script's own file, GOPATH and
-- the home directory, whether it may change to a directory, and whether a command in a directory can be started
-- and exits with 0.
pub record Env : Type 0 where
  pub isdir : String → Bool
  pub join : String → String → String
  pub script_dir : String
  pub gopath : Option String
  pub home : String
  pub can_enter : String → Bool
  pub starts : String → List String → Bool
  pub succeeds : String → List String → Bool

-- The parsed options; a path that was not given is None.
pub record Args : Type 0 where
  pub compile : Bool
  pub dry_run : Bool
  pub verbose : Bool
  pub goose : String
  pub goose_examples : Bool
  pub channel : Bool
  pub nfsd : Option String
  pub journal : Option String
  pub examples : Option String
  pub distributed_examples : Option String
  pub marshal : Option String
  pub std : Option String
  pub gokv : Option String
  pub mvcc : Option String
  pub rsm : Option String
  pub tulip : Option String
  pub pav : Option String

-- What the script does: the current directory, the commands printed, and those run, each with the
-- directory it ran in.
pub record Log : Type 0 where
  pub cwd : String
  pub printed : List (List String)
  pub ran : List (String × List String)

abbrev pub start : String → Log
start c = record { cwd = c; printed = []; ran = [] }

-- parser.error ends the script; a command that fails raises CalledProcessError, one that cannot be started and
-- a directory that cannot be entered raise FileNotFoundError or another OSError.
pub data Run : Type 0 where
  running : Log → Run
  usage_error : String → Log → Run
  command_failed : List String → Log → Run
  not_started : List String → Log → Run
  not_entered : String → Log → Run

infixl 5 ◌>>=◌
abbrev pub ◌>>=◌ : Run → (Log → Run) → Run
running l >>= k = k l
usage_error s l >>= k = usage_error s l
command_failed c l >>= k = command_failed c l
not_started c l >>= k = not_started c l
not_entered d l >>= k = not_entered d l

abbrev pub printing : Bool → List String → Log → Log
printing b cmd l = if b then record l { printed = l.printed ++ (cmd ∷ []) } else l

abbrev pub when : Bool → (Log → Run) → Log → Run
when b k l = if b then k l else running l

-- `if not pkgs: pkgs = ["."]`
abbrev pub some_pkgs : List String → List String
some_pkgs [] = "." ∷ []
some_pkgs (p ∷ ps) = p ∷ ps

module _ (env : Env) where
  open env use {isdir, join, script_dir, gopath, home, can_enter, starts, succeeds}

  abbrev pub running_command : List String → Log → Run
  running_command cmd l =
      let l' : Log = record l { ran = l.ran ++ ((l.cwd, cmd) ∷ []) } in
      if not (starts l.cwd cmd)
      then not_started cmd l
      else if succeeds l.cwd cmd
      then running l'
      else command_failed cmd l'

  -- os.chdir
  abbrev pub chdir : String → Log → Run
  chdir d l = if can_enter d then running (record l { cwd = d }) else not_entered d l

  unfoldable pub run_command : Bool → Bool → List String → Log → Run
  run_command dry_run verbose cmd l =
      let l' = printing (dry_run || verbose) cmd l in
      if not dry_run then running_command cmd l' else running l'

  -- `if d is not None and not os.path.isdir(d): parser.error(…)`
  abbrev pub check_dir : Option String → String → Log → Run
  check_dir none msg l = running l
  check_dir (some d) msg l = if not (isdir d) then usage_error msg l else running l

  -- GOPATH, or go in the home directory where it is unset or empty.
  abbrev pub go_path : String
  go_path = elim gopath [
    | none ↦ join home "go"
    | some p ↦ if str_eq p "" then join home "go" else p
  ]

  module _ (args : Args) where
    unfoldable pub check_dirs : Log → Run
    check_dirs l =
        check_dir (some args.goose) "goose directory does not exist" l
        >>= check_dir args.nfsd "go-nfsd directory does not exist"
        >>= check_dir args.journal "go-journal directory does not exist"
        >>= check_dir args.examples "perennial-examples directory does not exist"
        >>= check_dir args.distributed_examples
            "lockservice (distributed examples) directory does not exist"
        >>= check_dir args.gokv "gokv directory does not exist"
        >>= check_dir args.mvcc "mvcc directory does not exist"
        >>= check_dir args.rsm "rsm directory does not exist"
        >>= check_dir args.marshal "marshal directory does not exist"
        >>= check_dir args.std "std directory does not exist"
        >>= check_dir args.pav "pav directory does not exist"

    unfoldable pub do_run : List String → Log → Run
    do_run = run_command args.dry_run args.verbose

    unfoldable pub compile_goose : Log → Run
    compile_goose l =
        chdir args.goose l >>= do_run ("go" ∷ "install" ∷ "./cmd/goose" ∷ []) >>= chdir l.cwd

    -- The directory of the repository that the script is in.
    abbrev pub perennial_dir : String
    perennial_dir = join script_dir ".."

    unfoldable pub run_goose : Option String → List String → List String → Log → Run
    run_goose none pkgs extra_args l = running l
    run_goose (some src_path) pkgs extra_args l =
        do_run
          ((join (join go_path "bin") "goose" ∷ [])
            ++ ("-out" ∷ join perennial_dir "external/Goose" ∷ [])
            ++ ("-dir" ∷ src_path ∷ [])
            ++ extra_args
            ++ some_pkgs pkgs)
          l

    -- The tests in goose: the generated semantics tests, and the examples.
    unfoldable pub goose_examples : Log → Run
    goose_examples l =
        do_run
          ("go"
            ∷ "run"
            ∷ join args.goose "cmd/test_gen/main.go"
            ∷ "-coq"
            ∷ "-out"
            ∷ join perennial_dir "src/goose_lang/interpreter/generated_test.v"
            ∷ join args.goose "internal/examples/semantics"
            ∷ [])
          l
        >>= run_goose (some (join args.goose "internal/examples")) example_pkgs []

    unfoldable pub main : Log → Run
    main l =
        check_dirs l
        >>= when args.compile compile_goose
        >>= when args.channel (run_goose (some args.goose) ("./channel" ∷ []) [])
        >>= when args.goose_examples goose_examples
        >>= run_goose args.journal journal_pkgs []
        >>= run_goose args.nfsd nfsd_pkgs []
        >>= run_goose args.examples perennial_example_pkgs []
        >>= run_goose args.distributed_examples distributed_pkgs []
        >>= run_goose args.gokv gokv_pkgs []
        >>= run_goose args.pav pav_pkgs []
        >>= run_goose args.mvcc mvcc_pkgs []
        >>= run_goose args.rsm rsm_pkgs []
        >>= run_goose args.tulip tulip_pkgs []
        >>= run_goose args.marshal ("." ∷ []) ("-skip-interfaces" ∷ [])
        >>= run_goose args.std ("./..." ∷ []) []
