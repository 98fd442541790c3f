-- ===== src/UpdateGoose/Ends.antt =====
-- How update-goose.py ends, and the commands that it has run by then.
use perennial.Prelude.{
  ◌≡◌, refl, sym, inl, inr, String, Bool, true, false, Option, none, some, List, [], ◌∷◌, ◌++◌,
  Bool-cases,
}
use perennial.UpdateGoose.Packages.{example_pkgs}
use perennial.UpdateGoose.{
  Env, Args, Log, Run, running, usage_error, command_failed, not_started, not_entered, ◌>>=◌,
  running_command, chdir, start, when, run_command, check_dir, check_dirs, do_run, compile_goose,
  run_goose, goose_examples, main,
}

module _ (env : Env) where
  -- The commands all exited with 0, each in its directory.
  pub data HaveSucceeded : List (String × List String) → Type 0 where
    none_ran : HaveSucceeded []
    one_more :
        {xs : List (String × List String)} {d : String} {cmd : List String}
        → HaveSucceeded xs
        → env.succeeds d cmd ≡ true
        → HaveSucceeded (xs ++ ((d, cmd) ∷ []))

  -- How commands end after which the script is in the directory c: they all succeeded, or the last failed, or
  -- after those a command could not be started or a directory not be entered.
  pub data Ends (c : String) : Run → Type 0 where
    all_ran : {l : Log} → l.cwd ≡ c → HaveSucceeded l.ran → Ends c (running l)
    stopped :
        {l : Log} {xs : List (String × List String)} (d : String) (cmd : List String)
        → HaveSucceeded xs
        → env.succeeds d cmd ≡ false
        → l.ran ≡ xs ++ ((d, cmd) ∷ [])
        → Ends c (command_failed cmd l)
    absent :
        {l : Log} (cmd : List String)
        → HaveSucceeded l.ran
        → env.starts l.cwd cmd ≡ false
        → Ends c (not_started cmd l)
    shut :
        {l : Log} (d : String)
        → HaveSucceeded l.ran
        → env.can_enter d ≡ false
        → Ends c (not_entered d l)

  -- How a script ends that was started in the directory c: before its first command, or after its last.
  pub data EndsWell (c : String) : Run → Type 0 where
    missing : (s : String) → EndsWell c (usage_error s (start c))
    checked : {m : Run} → Ends c m → EndsWell c m

  Ends-bind :
      (c : String) {m : Run} (f : Log → Run)
      → Ends c m
      → ((l : Log) → l.cwd ≡ c → HaveSucceeded l.ran → Ends c (f l))
      → Ends c (m >>= f)
  Ends-bind c f (all_ran e h) k = k _ e h
  Ends-bind c f (stopped d cmd h e r) k = stopped d cmd h e r
  Ends-bind c f (absent cmd h e) k = absent cmd h e
  Ends-bind c f (shut d h e) k = shut d h e

  -- From the directory c to c'.
  Ends-into :
      (c c' : String) {m : Run} (f : Log → Run)
      → Ends c m
      → ((l : Log) → HaveSucceeded l.ran → Ends c' (f l))
      → Ends c' (m >>= f)
  Ends-into c c' f (all_ran e h) k = k _ h
  Ends-into c c' f (stopped d cmd h e r) k = stopped d cmd h e r
  Ends-into c c' f (absent cmd h e) k = absent cmd h e
  Ends-into c c' f (shut d h e) k = shut d h e

  chdir-Ends : (c : String) (l : Log) → HaveSucceeded l.ran → Ends c (chdir env c l)
  chdir-Ends c l h = elim (Bool-cases (env.can_enter c)) [
    | inl open_to ↦ rw open_to (all_ran refl h)
    | inr closed ↦ rw closed (shut c h closed)
  ]

  -- A step that may run commands.
  IsStep : String → (Log → Run) → Type 0
  IsStep c f = (l : Log) → l.cwd ≡ c → HaveSucceeded l.ran → Ends c (f l)

  IsStep-bind : (c : String) (f g : Log → Run) → IsStep c f → IsStep c g → IsStep c (λ l. f l >>= g)
  unfolding IsStep
  IsStep-bind c f g h k l e s = Ends-bind c g (h l e s) k

  EndsWell-bind :
      (c : String) {m : Run} (f : Log → Run) → EndsWell c m → IsStep c f → EndsWell c (m >>= f)
  unfolding IsStep
  EndsWell-bind c f (missing s) k = missing s
  EndsWell-bind c f (checked h) k = checked (Ends-bind c f h k)

  IsStep-when : (c : String) (b : Bool) (f : Log → Run) → IsStep c f → IsStep c (when b f)
  unfolding IsStep
  IsStep-when c true f h l e s = h l e s
  IsStep-when c false f h l e s = all_ran e s

  running_command-Ends :
      (c : String) (cmd : List String) (l : Log)
      → l.cwd ≡ c
      → HaveSucceeded l.ran
      → Ends c (running_command env cmd l)
  running_command-Ends c cmd l e s = elim (Bool-cases (env.starts l.cwd cmd)) [
    | inl starts ↦ elim (Bool-cases (env.succeeds l.cwd cmd)) [
      | inl good ↦ rw (starts, good) (all_ran e (one_more s good))
      | inr bad ↦ rw (starts, bad) (stopped l.cwd cmd s bad refl)
    ]
    | inr away ↦ rw away (absent cmd s away)
  ]

  run_command-IsStep :
      (c : String) (dry_run v : Bool) (cmd : List String) → IsStep c (run_command env dry_run v cmd)
  unfolding IsStep run_command
  run_command-IsStep c true true cmd l e s = all_ran e s
  run_command-IsStep c true false cmd l e s = all_ran e s
  run_command-IsStep c false true cmd l e s = running_command-Ends c cmd _ e s
  run_command-IsStep c false false cmd l e s = running_command-Ends c cmd l e s

  -- A check passes without a trace or ends the script where it is.
  data Checks (l : Log) : Run → Type 0 where
    passes : Checks l (running l)
    refuses : (s : String) → Checks l (usage_error s l)

  IsCheck : (Log → Run) → Type 0
  IsCheck f = (l : Log) → Checks l (f l)

  Checks-bind : {l : Log} {m : Run} (f : Log → Run) → Checks l m → IsCheck f → Checks l (m >>= f)
  unfolding IsCheck
  Checks-bind {l} f passes k = k l
  Checks-bind f (refuses s) k = refuses s

  IsCheck-bind : (f g : Log → Run) → IsCheck f → IsCheck g → IsCheck (λ l. f l >>= g)
  unfolding IsCheck
  IsCheck-bind f g h k l = Checks-bind g (h l) k

  check_dir-IsCheck : (d : Option String) (msg : String) → IsCheck (check_dir env d msg)
  unfolding IsCheck
  check_dir-IsCheck none msg l = passes
  check_dir-IsCheck (some d) msg l = elim (Bool-cases (env.isdir d)) [
    | inl there ↦ rw there passes
    | inr away ↦ rw away (refuses msg)
  ]

  module _ (args : Args) where
    check_dirs-IsCheck : IsCheck (check_dirs env args)
    unfolding check_dirs IsCheck
    check_dirs-IsCheck = search (IsCheck-bind, check_dir-IsCheck) depth 14

    check_dirs-EndsWell : (c : String) {m : Run} → Checks (start c) m → EndsWell c m
    check_dirs-EndsWell c passes = checked (all_ran refl none_ran)
    check_dirs-EndsWell c (refuses s) = missing s

    checked_dirs : (l : Log) → Checks l (check_dirs env args l)
    unfolding IsCheck
    checked_dirs = check_dirs-IsCheck

    do_run-IsStep : (c : String) (cmd : List String) → IsStep c (do_run env args cmd)
    unfolding do_run
    do_run-IsStep c cmd = run_command-IsStep c args.dry_run args.verbose cmd

    compile_goose-IsStep : (c : String) → IsStep c (compile_goose env args)
    unfolding compile_goose IsStep
    compile_goose-IsStep c l e s = rw (sym e) (
        Ends-into args.goose l.cwd _
          (Ends-bind args.goose _ (chdir-Ends args.goose l s)
            (unfold IsStep in do_run-IsStep args.goose _))
          (chdir-Ends l.cwd))

    run_goose-IsStep :
        (c : String) (d : Option String) (pkgs extra_args : List String)
        → IsStep c (run_goose env args d pkgs extra_args)
    unfolding run_goose
    run_goose-IsStep c none pkgs extra_args = unfold IsStep in λ l e s. all_ran e s
    run_goose-IsStep c (some d) pkgs extra_args = do_run-IsStep c _

    goose_examples-IsStep : (c : String) → IsStep c (goose_examples env args)
    unfolding goose_examples
    goose_examples-IsStep c =
        IsStep-bind c _ _ (do_run-IsStep c _) (run_goose-IsStep c _ example_pkgs [])

    -- Started in the directory c, the script ends in one of five ways: with a usage error, before it has
    -- printed or run anything; back in the directory c, every command that it ran having exited with 0;
    -- with the failure of the last command that it ran, those before having exited with 0; or, every command
    -- that it ran having exited with 0, with a command that cannot be started or a directory that cannot
    -- be entered.
    pub main-EndsWell : (c : String) → EndsWell c (main env args (start c))
    unfolding main
    main-EndsWell c =
        search
          (
            EndsWell-bind, IsStep-when, check_dirs-EndsWell, checked_dirs, compile_goose-IsStep,
            goose_examples-IsStep, run_goose-IsStep,
          )
          depth 20
