-- ===== src/Coqc/Runs.antt =====
-- Runs of coqc.py's script, in the small language of the tests of its filter: the contents of every file are
-- a lemma, a tactic and a Qed.
use perennial.Prelude.{
  ◌≡◌, ◌≢◌, refl, true, false, Option, none, some, String, str_eq, List, [], ◌∷◌,
}
use perennial.Decimal.{decimal}
use perennial.Outcome.{ok}
use perennial.Xdr.{pos}
use perennial.Coqc.{
  Python, Connection, null_db, get_def, get_time, read_vfile, load_contents, chars, time_qed,
  update_timing, line, run_lines, done,
}
use perennial.Coqc.Script.{
  Printer, Options, Process, Finished, is_vfile, find_vfile, has_vos, from_coqargs, filter_output,
  run_coqc, main,
}
use perennial.Coqc.Streams.{end, message, timing}
use perennial.Coqc.Exit.{main-returncode}
use perennial.Coqc.Obligations.{obligation, get_def-fresh}
use perennial.Coqc.Tests.{python, zero_counts}

abbrev reader : Python
reader = record python {
  read_file = λ name. ok (68 ∷ 84 ∷ 81 ∷ []);
  obligation_re = λ s. str_eq s "Next Obligation.";
}

abbrev printer : Printer reader
printer = record {
  basename = λ fname. fname;
  is_slow = λ time. false;
  format_qed = λ base ident time. ident;
  format_file = λ fname time. "";
}

abbrev conn : Connection reader
conn = record {
  Tables = Unit {0};
  connect = λ name. ok tt;
  execute = λ statement t. ok t;
  insert_qed = λ fname ident time t. ok t;
  insert_file = λ fname is_vos time t. ok t;
  close = λ t. t;
}

abbrev popen : List String → Process reader
popen args = record {
  output = (1 ∷ []) ∷ (9 ∷ []) ∷ (3 ∷ []) ∷ [];
  is_interrupted = false;
  seconds = 5;
  returncode = pos 0;
}

abbrev options : Options
options = record { no_timing = true; timing_db = none }

abbrev finished_run : Finished reader
finished_run = record {
  db = null_db reader;
  returncode = pos 0;
  filter = record {
    vfile = some "a.v";
    is_vos = true;
    contents = some (68 ∷ 84 ∷ 81 ∷ []);
    curr_def = some "reads_all";
    tables = tt;
    counts = zero_counts;
    stdout = "No more goals." ∷ [];
    stderr = [];
  };
}

test_main : main reader popen printer conn options ("-vos" ∷ "a.v" ∷ []) ≡ ok finished_run
unfolding main run_coqc filter_output from_coqargs find_vfile is_vfile has_vos run_lines done line
    update_timing get_def get_time chars load_contents read_vfile time_qed
test_main = refl

main-returncode_example :
    (finished_run.returncode ≡ pos 0) × (finished_run.filter.stdout ≡ "No more goals." ∷ [])
unfolding get_time
main-returncode_example =
    main-returncode reader popen printer conn options ("-vos" ∷ "a.v" ∷ []) ("No more goals." ∷ [])
      finished_run
      (timing "Chars 0 - 1 [Lemma] 0.002 secs" (0, (1, 2)) refl refl
        (message "No more goals." refl refl
          (timing "Chars 2 - 3 [Qed.] 0.250 secs" (2, (3, 250)) refl refl end)))
      test_main

get_def-fresh_example : ◌≢◌ {A = Option String} (some "<obligation 1>") (some "<obligation 2>")
unfolding get_def decimal
get_def-fresh_example =
    get_def-fresh reader "Next Obligation." "Next Obligation." ("auto." ∷ []) zero_counts
      (obligation refl refl) (obligation refl refl)
