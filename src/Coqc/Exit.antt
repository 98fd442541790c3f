-- ===== src/Coqc/Exit.antt =====
-- The exit status of coqc.py, and what it has written by then.
use perennial.Prelude.{
  ◌≡◌, refl, sym, ap, ◌∙◌, Bool, true, false, Option, none, some, String, str_eq, List, [],
  if◌then◌else◌,
}
use perennial.Outcome.{Result, ok, err, Error, ◌>>=◌, >>=-assoc}
use perennial.Xdr.{ℤ}
use perennial.Coqc.Script.{
  coqc_command, Printer, Options, Process, Finished, finished, from_coqargs, filter_output,
  from_file, run_coqc, timed_run, main,
}
use perennial.Coqc.{Connection, timing_db, Python, Db, Filter, run_lines, done}
use perennial.Coqc.Streams.{
  Messages, Writes, returned, raised, Writes-if, Writes-seq, run_lines-Writes, done-Writes,
}

module _ (python : Python) where
  module _ (db : Db python) where
    abbrev Run : Type 0
    Run = Filter python db

    -- The last step of filter_output.
    abbrev closed : Process python → Run → Result Run
    closed p f =
        if p.is_interrupted
        then ok (record f { tables = db.close f.tables })
        else done python db p.seconds f

    closed-Writes :
        (p : Process python) {o : List String} (f : Run)
        → f.stdout ≡ o
        → Writes python db o (closed p f)
    closed-Writes p f e =
        rw (sym e)
          (Writes-if python db p.is_interrupted (returned refl) (done-Writes python db p.seconds f))

    abbrev with_status : ℤ → Run → Result (ℤ × Run)
    with_status c f = ok (c, f)

  -- A script that ends with the exit status c and has written o to stdout, if it ends by itself.
  data Passes (c : ℤ) (o : List String) : Result (Finished python) → Type 1 where
    passed : {r : Finished python} → r.returncode ≡ c → r.filter.stdout ≡ o → Passes c o (ok r)
    failed : (e : Error) → Passes c o (err e)

  Passes-finished :
      {o : List String} {db : Db python} {m : Result (Filter python db)} (c : ℤ)
      → Writes python db o m
      → Passes c o ((m >>= with_status db c) >>= λ r. ok (finished python db r))
  Passes-finished c (returned e) = passed refl e
  Passes-finished c (raised x) = failed x

  Passes-bind :
      {A : Type 0} (c : ℤ) (o : List String) (m : Result A) (k : A → Result (Finished python))
      → ((a : A) → Passes c o (k a))
      → Passes c o (m >>= k)
  Passes-bind c o (ok a) k h = h a
  Passes-bind c o (err e) k h = failed e

  Passes-if :
      {c : ℤ} {o : List String} (b : Bool) {r r' : Result (Finished python)}
      → Passes c o r
      → Passes c o r'
      → Passes c o (if b then r else r')
  Passes-if true h h' = h
  Passes-if false h h' = h'

  run_coqc-Passes :
      (popen : List String → Process python) (coq_args texts : List String) (db : Db python)
      (s : db.State)
      → Messages python (popen (coqc_command coq_args)).output texts
      → Passes
          (popen (coqc_command coq_args)).returncode
          texts
          (run_coqc python popen coq_args db s)
  unfolding run_coqc filter_output from_coqargs
  run_coqc-Passes popen coq_args texts db s ms =
      let p : Process python = popen (coqc_command coq_args) in
      let f₀ : Filter python db = from_coqargs python db coq_args s none in
      rw
        (sym
          (>>=-assoc (run_lines python db p.output f₀) (closed db p) (with_status db p.returncode)))
        (Passes-finished p.returncode (
          Writes-seq python db (closed db p) (run_lines-Writes python db [] f₀ refl ms)
            (closed-Writes db p)))

  timed_run-Passes :
      (popen : List String → Process python) (printer : Printer python) (conn : Connection python)
      (fname : Option String) (coq_args texts : List String)
      → Messages python (popen (coqc_command coq_args)).output texts
      → Passes
          (popen (coqc_command coq_args)).returncode
          texts
          (timed_run python popen coq_args printer conn fname)
  timed_run-Passes popen printer conn none coq_args texts ms =
      run_coqc-Passes popen coq_args texts _ [] ms
  timed_run-Passes popen printer conn (some fname) coq_args texts ms =
      Passes-if (str_eq fname "") (run_coqc-Passes popen coq_args texts _ [] ms) (
        Passes-bind _ texts (from_file python conn fname) _
          λ s. run_coqc-Passes popen coq_args texts (timing_db python conn) s ms)

  main-Passes :
      (popen : List String → Process python) (printer : Printer python) (conn : Connection python)
      (args : Options) (coq_args texts : List String)
      → Messages python (popen (coqc_command coq_args)).output texts
      → Passes
          (popen (coqc_command coq_args)).returncode
          texts
          (main python popen printer conn args coq_args)
  unfolding main
  main-Passes popen printer conn args coq_args texts ms =
      Passes-if args.no_timing (run_coqc-Passes popen coq_args texts _ tt ms)
        (timed_run-Passes popen printer conn args.timing_db coq_args texts ms)

  Passes-ok :
      {c : ℤ} {o : List String} {m : Result (Finished python)} (r : Finished python)
      → Passes c o m
      → m ≡ ok r
      → (r.returncode ≡ c) × (r.filter.stdout ≡ o)
  Passes-ok r (passed {r = r'} e e') h =
      let q : r ≡ r' = cc in (ap (λ x. x.returncode) q ∙ e, ap (λ x. x.filter.stdout) q ∙ e')
  Passes-ok r (failed x) h = cc

  -- If the script ends by itself, with any database, it ends with the exit status of coqc, and the texts that it
  -- has passed on to stdout are those of coqc's lines that are no times, in their order, where each line of
  -- coqc decodes and its numbers, if it is a time, parse.
  pub main-returncode :
      (popen : List String → Process python) (printer : Printer python) (conn : Connection python)
      (args : Options) (coq_args texts : List String) (r : Finished python)
      → Messages python (popen (coqc_command coq_args)).output texts
      → main python popen printer conn args coq_args ≡ ok r
      → (r.returncode ≡ (popen (coqc_command coq_args)).returncode) × (r.filter.stdout ≡ texts)
  main-returncode popen printer conn args coq_args texts r ms =
      Passes-ok r (main-Passes popen printer conn args coq_args texts ms)
