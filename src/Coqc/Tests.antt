-- ===== src/Coqc/Tests.antt =====
-- Runs of coqc.py's filter, over a small language: the byte 68 is the sentence of a lemma, 84 a
-- tactic and 81 a Qed; a line of coqc is one byte too.
use perennial.Prelude.{
  ℕ, ◌≡◌, refl, false, Option, none, some, String, str_eq, List, [], ◌∷◌, ◌==◌, if◌then◌else◌,
}
use perennial.Outcome.{Result, ok, err, value_error, exception}
use perennial.Coqc.{
  Bytes, Python, Db, Connection, timing_db, Counts, get_def, get_time, Filter, run_lines,
}
use perennial.Coqc.Attribution.{message, tactic, no_more, run_lines-proof}

abbrev text_of : Bytes → Result String
text_of (n ∷ []) =
    if n == 68
    then ok "Lemma reads_all : True."
    else if n == 84
    then ok "trivial."
    else if n == 81
    then ok "Qed."
    else if n == 1
    then ok "Chars 0 - 1 [Lemma] 0.002 secs"
    else if n == 2
    then ok "Chars 1 - 2 [trivial.] 0.003 secs"
    else if n == 3
    then ok "Chars 2 - 3 [Qed.] 0.250 secs"
    else ok "No more goals."
text_of _ = err value_error

abbrev number : String → Result ℕ
number s =
    if str_eq s "0"
    then ok 0
    else if str_eq s "1"
    then ok 1
    else if str_eq s "2"
    then ok 2
    else if str_eq s "3"
    then ok 3
    else err value_error

abbrev groups : String → Option (String × (String × String))
groups s =
    if str_eq s "Chars 0 - 1 [Lemma] 0.002 secs"
    then some ("0", ("1", "2"))
    else if str_eq s "Chars 1 - 2 [trivial.] 0.003 secs"
    then some ("1", ("2", "3"))
    else if str_eq s "Chars 2 - 3 [Qed.] 0.250 secs"
    then some ("2", ("3", "250"))
    else none

abbrev pub python : Python
python = record {
  Float = ℕ;
  decode = text_of;
  int_of = number;
  float_of = λ s. if str_eq s "250" then ok 250 else number s;
  read_file = λ name. err exception;
  def_re = λ s. if str_eq s "Lemma reads_all : True." then some "reads_all" else none;
  obligation_re = λ s. false;
  goal_re = λ s. false;
  qed_re = λ s. str_eq s "Qed.";
  time_re = groups;
}

abbrev insert_row :
    Option String
    → String
    → ℕ
    → List (String × (String × ℕ))
    → Result (List (String × (String × ℕ)))
insert_row none ident time rows = err exception
insert_row (some fname) ident time rows = ok ((fname, (ident, time)) ∷ rows)

abbrev pub connection : Connection python
connection = record {
  Tables = List (String × (String × ℕ));
  connect = λ name. ok [];
  execute = λ statement rows. ok rows;
  insert_qed = insert_row;
  insert_file = λ fname is_vos time rows. ok rows;
  close = λ rows. rows;
}

abbrev db : Db python
db = timing_db python connection

abbrev pub zero_counts : Counts
zero_counts = record { obligation_count = 0; goal_count = 0 }

abbrev begun : Filter python db
begun = record {
  vfile = some "a.v";
  is_vos = false;
  contents = some (68 ∷ 84 ∷ 81 ∷ []);
  curr_def = none;
  tables = [];
  counts = zero_counts;
  stdout = [];
  stderr = [];
}

run_lines-proof_example :
    run_lines python db ((1 ∷ []) ∷ (2 ∷ []) ∷ (9 ∷ []) ∷ (3 ∷ []) ∷ []) begun
    ≡ ok (record begun {
      tables = ("a.v", ("reads_all", 250)) ∷ [];
      curr_def = some "reads_all";
      stdout = "No more goals." ∷ [];
    })
unfolding get_def get_time
run_lines-proof_example =
    run_lines-proof python db 68 (84 ∷ 81 ∷ []) begun (1 ∷ []) ((2 ∷ []) ∷ (9 ∷ []) ∷ [])
      ("No more goals." ∷ []) (3 ∷ []) "reads_all" zero_counts 250 refl
      (record {
        code = "Lemma reads_all : True.";
        start = 0;
        end' = 1;
        time = 2;
        timed = record {
          text = "Chars 0 - 1 [Lemma] 0.002 secs";
          reads = refl;
          info = refl;
          cut = refl;
        };
        starts = refl;
        not_empty = refl;
      })
      (tactic "trivial." 1 2 3
        (record {
          text = "Chars 1 - 2 [trivial.] 0.003 secs";
          reads = refl;
          info = refl;
          cut = refl;
        })
        refl refl (message "No more goals." refl refl no_more))
      (record {
        code = "Qed.";
        start = 2;
        end' = 3;
        timed = record {
          text = "Chars 2 - 3 [Qed.] 0.250 secs";
          reads = refl;
          info = refl;
          cut = refl;
        };
        goes_on = refl;
        qed = refl;
      })
