-- ===== src/Coqc/Script.antt =====
-- etc/coqc.py: the database that prints, the constructors of CoqcFilter, and the script. The process of coqc is
-- a parameter: its output, whether Ctrl-C interrupts the reading after it, and its exit status.
use perennial.Prelude.{
  Bool, false, ◌||◌, Option, none, some, String, str_eq, List, [], ◌∷◌, ◌++◌, if◌then◌else◌,
}
use perennial.Outcome.{Result, ok, err, type_error, ◌>>=◌}
use perennial.Xdr.{ℤ}
use perennial.Coqc.{Bytes, Python, Db, null_db, Connection, timing_db, Filter, run_lines, done}

-- `arg.endswith(".v")`
unfoldable pub is_vfile : String → Bool
is_vfile String.[] = false
is_vfile (String.◌∷◌ c s) = str_eq (String.◌∷◌ c s) ".v" || is_vfile s

-- The first argument that ends in .v.
unfoldable pub find_vfile : List String → Option String
find_vfile [] = none
find_vfile (arg ∷ args) = let rest = find_vfile args in if is_vfile arg then some arg else rest

-- `"-vos" in args`
unfoldable pub has_vos : List String → Bool
has_vos [] = false
has_vos (arg ∷ args) = str_eq arg "-vos" || has_vos args

pub record Options : Type 0 where
  pub no_timing : Bool
  pub timing_db : Option String

-- The command that is run with the arguments that the parser did not know.
abbrev pub coqc_command : List String → List String
coqc_command coq_args =
    ("coqc" ∷ []) ++ ("-time" ∷ []) ++ ("-set" ∷ "Printing Width=1000000" ∷ []) ++ coq_args

module _ (python : Python) where
  open python use {Float}

  -- What StdoutDb takes of Python: the base name of a path, the test `time > 0.1`, and the two formats.
  pub record Printer : Type 0 where
    pub basename : String → String
    pub is_slow : Float → Bool
    pub format_qed : String → String → Float → String
    pub format_file : Option String → Float → String

  -- StdoutDb, with the lines that it has printed; path.basename(None) is a TypeError.
  abbrev pub print_qed :
      Printer → Option String → String → Float → List String → Result (List String)
  print_qed printer none ident time lines = err type_error
  print_qed printer (some fname) ident time lines =
      if printer.is_slow time
      then ok (lines ++ (printer.format_qed (printer.basename fname) ident time ∷ []))
      else ok lines

  abbrev pub print_file : Printer → Option String → Float → List String → List String
  print_file printer fname time lines =
      if printer.is_slow time then lines ++ (printer.format_file fname time ∷ []) else lines

  abbrev pub stdout_db : Printer → Db python
  stdout_db printer = record {
    State = List String;
    add_qed = print_qed printer;
    add_file = λ fname is_vos time lines. ok (print_file printer fname time lines);
    close = λ lines. lines;
  }

  -- TimingDb.from_file
  unfoldable pub from_file : (conn : Connection python) → String → Result conn.Tables
  from_file conn fname = do
    c₀ ← conn.connect fname
    c₁ ← conn.execute "PRAGMA synchronous=off" c₀
    c₂ ←
        conn.execute
          "CREATE TABLE IF NOT EXISTS qed_timings (fname text NOT NULL, ident text NOT NULL, time real NOT NULL, PRIMARY KEY (fname, ident) )"
          c₁
    conn.execute
        "CREATE TABLE IF NOT EXISTS file_timings (fname text NOT NULL PRIMARY KEY, is_vos integer NOT NULL, time real)"
        c₂

  -- A run of coqc, with the seconds that it took.
  pub record Process : Type 0 where
    pub output : List Bytes
    pub is_interrupted : Bool
    pub seconds : Float
    pub returncode : ℤ

  module _ (db : Db python) where
    -- __init__, before the first sentence of the run.
    abbrev pub new_filter : Option String → Bool → Option Bytes → db.State → Filter python db
    new_filter vfile is_vos contents tables = record {
      vfile = vfile;
      is_vos = is_vos;
      contents = contents;
      curr_def = none;
      tables = tables;
      counts = record { obligation_count = 0; goal_count = 0 };
      stdout = [];
      stderr = [];
    }

    -- CoqcFilter.from_coqargs
    unfoldable pub from_coqargs : List String → db.State → Option Bytes → Filter python db
    from_coqargs args tables contents = new_filter (find_vfile args) (has_vos args) contents tables

    -- CoqcFilter.from_contents
    unfoldable pub from_contents : Bytes → db.State → Filter python db
    from_contents contents tables = new_filter (some "<in-memory>.v") false (some contents) tables

    -- The reading of the output: what the run leaves, and its exit status.
    unfoldable pub filter_output : Process → Filter python db → Result (ℤ × Filter python db)
    filter_output p f₀ = do
      f ← run_lines python db p.output f₀
      f' ←
          if p.is_interrupted
          then ok (record f { tables = db.close f.tables })
          else done python db p.seconds f
      ok (p.returncode, f')

  -- A run that ended, with its database.
  pub record Finished : Type 1 where
    pub db : Db python
    pub returncode : ℤ
    pub filter : Filter python db

  abbrev pub finished : (db : Db python) → ℤ × Filter python db → Finished
  finished db r = record { db = db; returncode = r.0; filter = r.1 }

  unfoldable pub run_coqc :
      (List String → Process) → List String → (db : Db python) → db.State → Result Finished
  run_coqc popen coq_args db tables = do
    r ← filter_output db (popen (coqc_command coq_args)) (from_coqargs db coq_args tables none)
    ok (finished db r)

  -- `elif args.timing_db:`, where an empty name counts as none.
  abbrev pub timed_run :
      (List String → Process)
      → List String
      → Printer
      → Connection python
      → Option String
      → Result Finished
  timed_run popen coq_args printer conn none = run_coqc popen coq_args (stdout_db printer) []
  timed_run popen coq_args printer conn (some fname) =
      if str_eq fname ""
      then run_coqc popen coq_args (stdout_db printer) []
      else (from_file conn fname >>= run_coqc popen coq_args (timing_db python conn))

  unfoldable pub main :
      (List String → Process)
      → Printer
      → Connection python
      → Options
      → List String
      → Result Finished
  main popen printer conn args coq_args =
      if args.no_timing
      then run_coqc popen coq_args (null_db python) tt
      else timed_run popen coq_args printer conn args.timing_db
