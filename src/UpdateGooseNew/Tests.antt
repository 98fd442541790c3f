-- ===== src/UpdateGooseNew/Tests.antt =====
-- Runs of update-goose-new.py with small surroundings, in which every process fails.
use Prim.Native.String.{◌++◌ as text_append}
use perennial.Prelude.{◌≡◌, refl, true, false, not, none, some, [], ◌∷◌, str_eq, if◌then◌else◌}
use perennial.Xdr.{pos}
use perennial.UpdateGooseNew.Manager.{
  Process, Popen, ProcessManager, running, new_manager, run_command, wait_listed, wait_all, check,
}
use perennial.UpdateGooseNew.Waiting.{wait_all-none, CutsTo, check-CutsTo}
use perennial.UpdateGooseNew.Statuses.{EndsClean, main-EndsClean}
use perennial.UpdateGooseNew.DryRun.{StartsNone, main-StartsNone}
use perennial.UpdateGooseNew.Projects.{dest, after_slash}
use perennial.UpdateGooseNew.{
  Host, Args, managed, run_goose, missing_project, run_projects, run_all, main,
}

abbrev host : Host
host = record {
  isdir = λ d. not (str_eq d "away");
  join = λ a b. text_append a (text_append "/" b);
  script_dir = "new/etc";
  gopath = some "go";
  home = "home";
  cpu_count = some 4;
}

-- Each process exits with 1.
abbrev popen : Popen
popen = record { starts = λ p. true; returncode = λ p. pos 1 }

abbrev args : Args
args = record {
  compile = false;
  dry_run = false;
  verbose = false;
  goose = "goose";
  goose_examples = false;
  channel = false;
  std_lib = false;
  getattr = λ name. if str_eq name "go_journal" then some "journal" else none;
}

abbrev goose_process : Process
goose_process = record {
  dir = "c";
  args = "go/bin/goose" ∷ "-out" ∷ "new/etc/../../new/code/" ∷ "-dir" ∷ "journal" ∷ "./..." ∷ [];
}

abbrev proofgen_process : Process
proofgen_process = record {
  dir = "c";
  args =
      "go/bin/proofgen" ∷ "-out" ∷ "new/etc/../../new/generatedproof" ∷ "-configdir"
      ∷ "new/etc/../../new/code" ∷ "-dir" ∷ "journal" ∷ "./..." ∷ [];
}

-- Both commands fail, and the script ends as if they had not.
test_main :
    main host popen args "c"
    ≡ managed (
        running (record (new_manager false false (some 4) "c") {
          started = goose_process ∷ proofgen_process ∷ [];
          waited = proofgen_process ∷ goose_process ∷ [];
        }))
unfolding main missing_project run_all run_projects run_goose run_command wait_all wait_listed dest
    after_slash
test_main = refl

main-EndsClean_example : EndsClean (main host popen args "c")
main-EndsClean_example = main-EndsClean host popen args "c"

-- Two processes that may run at most as one.
abbrev two : ProcessManager
two = record (new_manager false false (some 2) "c") {
  processes = proofgen_process ∷ goose_process ∷ [];
  started = goose_process ∷ proofgen_process ∷ [];
}

wait_all-none_example :
    wait_all popen two
    ≡ running (record two { processes = []; waited = proofgen_process ∷ goose_process ∷ [] })
wait_all-none_example = wait_all-none popen two refl

check-CutsTo_example : CutsTo 2 (proofgen_process ∷ goose_process ∷ []) two (check popen two)
check-CutsTo_example = check-CutsTo popen 2 two refl refl

main-StartsNone_example : StartsNone (main host popen (record args { dry_run = true }) "c")
main-StartsNone_example = main-StartsNone host popen (record args { dry_run = true }) "c" refl
