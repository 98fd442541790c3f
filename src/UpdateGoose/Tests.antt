-- ===== src/UpdateGoose/Tests.antt =====
-- Runs of update-goose.py with small surroundings.
use Prim.Native.String.{◌++◌ as text_append}
use perennial.Prelude.{◌≡◌, refl, String, true, false, not, none, some, List, [], ◌∷◌, str_eq}
use perennial.UpdateGoose.{
  Env, Args, Log, running, usage_error, command_failed, start, check_dirs, run_command, do_run,
  compile_goose, run_goose, main,
}
use perennial.UpdateGoose.DryRun.{dry, real, main-dry_run}
use perennial.UpdateGoose.Ends.{EndsWell, main-EndsWell}

-- The directory away is missing, and commands in the directory broken fail.
abbrev env : Env
env = record {
  isdir = λ d. not (str_eq d "away");
  join = λ a b. text_append a (text_append "/" b);
  script_dir = "etc";
  gopath = some "";
  home = "home";
  can_enter = λ d. not (str_eq d "away");
  starts = λ d cmd. true;
  succeeds = λ d cmd. not (str_eq d "broken");
}

abbrev args : Args
args = record {
  compile = true;
  dry_run = false;
  verbose = false;
  goose = "goose";
  goose_examples = false;
  channel = false;
  nfsd = none;
  journal = none;
  examples = none;
  distributed_examples = none;
  marshal = some "marshal";
  std = none;
  gokv = none;
  mvcc = none;
  rsm = none;
  tulip = none;
  pav = none;
}

abbrev commands : List (String × List String)
commands =
    ("goose", "go" ∷ "install" ∷ "./cmd/goose" ∷ [])
    ∷ (
      "perennial",
      "home/go/bin/goose" ∷ "-out" ∷ "etc/../external/Goose" ∷ "-dir" ∷ "marshal"
          ∷ "-skip-interfaces" ∷ "." ∷ [],
    )
    ∷ []

abbrev after : Log
after = record { cwd = "perennial"; printed = []; ran = commands }

test_real : main env (real args) (start "perennial") ≡ running after
unfolding main check_dirs compile_goose do_run run_command run_goose
test_real = refl

test_missing :
    main env (record args { pav = some "away" }) (start "perennial")
    ≡ usage_error "pav directory does not exist" (start "perennial")
unfolding main check_dirs compile_goose do_run run_command run_goose
test_missing = refl

test_failed :
    main env (record args { goose = "broken" }) (start "perennial")
    ≡ command_failed ("go" ∷ "install" ∷ "./cmd/goose" ∷ []) (record {
      cwd = "broken";
      printed = [];
      ran = ("broken", "go" ∷ "install" ∷ "./cmd/goose" ∷ []) ∷ [];
    })
unfolding main check_dirs compile_goose do_run run_command run_goose
test_failed = refl

main-dry_run_example :
    (l : Log) × (main env (dry args) (start "perennial") ≡ running l)
    × (l.printed
        ≡ ("go" ∷ "install" ∷ "./cmd/goose" ∷ [])
          ∷ ("home/go/bin/goose" ∷ "-out" ∷ "etc/../external/Goose" ∷ "-dir" ∷ "marshal"
              ∷ "-skip-interfaces" ∷ "." ∷ [])
          ∷ [])
    × (l.ran ≡ [])
main-dry_run_example = main-dry_run env args "perennial" after test_real

main-EndsWell_example : EndsWell env "perennial" (main env args (start "perennial"))
main-EndsWell_example = main-EndsWell env args "perennial"
