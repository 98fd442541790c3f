-- ===== src/UpdateGoose/DryRun.antt =====
-- update-goose.py with --dry-run and without, step by step.
use mathlib.Core.List.{map-append}
use perennial.Prelude.{
  ap, sym, ◌∙◌, ◌≡◌, refl, inl, inr, String, Bool, true, false, Option, none, some, List, [], ◌∷◌,
  ◌++◌, map, Bool-cases,
}
use perennial.UpdateGoose.Packages.{example_pkgs}
use perennial.UpdateGoose.{
  Env, Args, Log, Run, running, usage_error, command_failed, not_started, not_entered, ◌>>=◌,
  running_command, chdir, run_command, check_dir, check_dirs, start, do_run, compile_goose,
  run_goose, when, goose_examples, main,
}

-- The dry run printed what the run ran, and ran nothing.
pub record IsMirror (l l' : Log) : Type 0 where
  pub same_dir : l.cwd ≡ l'.cwd
  pub same_commands : l.printed ≡ map (λ x. x.1) l'.ran
  pub nothing_ran : l.ran ≡ []

-- The dry run goes on while the run does, and stops at the same directory.
data Mirrors : Run → Run → Type 0 where
  both_run : {l l' : Log} → IsMirror l l' → Mirrors (running l) (running l')
  both_stop : {l l' : Log} (s : String) → Mirrors (usage_error s l) (usage_error s l')
  both_blocked : {l l' : Log} (d : String) → Mirrors (not_entered d l) (not_entered d l')
  run_not_started : {m : Run} (c : List String) (l' : Log) → Mirrors m (not_started c l')
  run_fails : {m : Run} (c : List String) (l' : Log) → Mirrors m (command_failed c l')

Mirrors-bind :
    {m n : Run} (f g : Log → Run)
    → Mirrors m n
    → ((l l' : Log) → IsMirror l l' → Mirrors (f l) (g l'))
    → Mirrors (m >>= f) (n >>= g)
Mirrors-bind f g (both_run h) k = k _ _ h
Mirrors-bind f g (both_stop s) k = both_stop s
Mirrors-bind f g (both_blocked d) k = both_blocked d
Mirrors-bind f g (run_not_started c l') k = run_not_started c l'
Mirrors-bind f g (run_fails c l') k = run_fails c l'

Mirrors-running :
    {m n : Run} (l' : Log)
    → Mirrors m n
    → n ≡ running l'
    → (l : Log) × (m ≡ running l) × (l.printed ≡ map (λ x. x.1) l'.ran) × (l.ran ≡ [])
Mirrors-running k (both_run {l} {l'} h) e =
    let e' : l' ≡ k = cc in
    (l, refl, h.same_commands ∙ ap (λ x. map (λ y. y.1) x.ran) e', h.nothing_ran)
Mirrors-running k (both_stop s) e = cc
Mirrors-running k (both_blocked d) e = cc
Mirrors-running k (run_not_started c l') e = cc
Mirrors-running k (run_fails c l') e = cc

-- A step of both runs.
Keeps : (Log → Run) → (Log → Run) → Type 0
Keeps f g = (l l' : Log) → IsMirror l l' → Mirrors (f l) (g l')

Keeps-bind :
    (f g f' g' : Log → Run) → Keeps f g → Keeps f' g' → Keeps (λ l. f l >>= f') (λ l. g l >>= g')
unfolding Keeps
Keeps-bind f g f' g' h k l l' m = Mirrors-bind f' g' (h l l' m) k

Keeps-when : (b : Bool) (f g : Log → Run) → Keeps f g → Keeps (when b f) (when b g)
unfolding Keeps
Keeps-when true f g h l l' m = h l l' m
Keeps-when false f g h l l' m = both_run m

-- One more command on both sides.
both_more :
    (l l' : Log) (cmd : List String)
    → IsMirror l l'
    → l.printed ++ (cmd ∷ []) ≡ map (λ x. x.1) (l'.ran ++ ((l'.cwd, cmd) ∷ []))
both_more l l' cmd m =
    ap (λ x. x ++ (cmd ∷ [])) m.same_commands
    ∙ sym (map-append (λ x. x.1) l'.ran ((l'.cwd, cmd) ∷ []))

abbrev pub dry : Args → Args
dry args = record args { dry_run = true }

abbrev pub real : Args → Args
real args = record args { dry_run = false }

module _ (env : Env) where
  -- The dry run goes on, whatever the command does.
  Mirrors-running_command :
      (cmd : List String) (l l' : Log)
      → IsMirror l l'
      → Mirrors
          (running (record l { printed = l.printed ++ (cmd ∷ []) }))
          (running_command env cmd l')
  Mirrors-running_command cmd l l' m = elim (Bool-cases (env.starts l'.cwd cmd)) [
    | inl starts ↦ elim (Bool-cases (env.succeeds l'.cwd cmd)) [
      | inl good ↦
          rw (starts, good)
            (both_run (record {
              same_dir = m.same_dir;
              same_commands = both_more l l' cmd m;
              nothing_ran = m.nothing_ran;
            }))
      | inr bad ↦ rw (starts, bad) (run_fails cmd _)
    ]
    | inr away ↦ rw away (run_not_started cmd _)
  ]

  run_command-Keeps :
      (v : Bool) (cmd : List String)
      → Keeps (run_command env true v cmd) (run_command env false v cmd)
  unfolding Keeps run_command
  run_command-Keeps true cmd l l' m =
      Mirrors-running_command cmd l (record l' { printed = l'.printed ++ (cmd ∷ []) })
        (record {
          same_dir = m.same_dir;
          same_commands = m.same_commands;
          nothing_ran = m.nothing_ran;
        })
  run_command-Keeps false cmd l l' m = Mirrors-running_command cmd l l' m

  chdir-Keeps : (d : String) → Keeps (chdir env d) (chdir env d)
  unfolding Keeps
  chdir-Keeps d l l' m = elim (Bool-cases (env.can_enter d)) [
    | inl open_to ↦ rw open_to (
        both_run (record {
          same_dir = refl;
          same_commands = m.same_commands;
          nothing_ran = m.nothing_ran;
        }))
    | inr shut ↦ rw shut (both_blocked d)
  ]

  check_dir-Keeps :
      (d : Option String) (msg : String) → Keeps (check_dir env d msg) (check_dir env d msg)
  unfolding Keeps
  check_dir-Keeps none msg l l' m = both_run m
  check_dir-Keeps (some d) msg l l' m = elim (Bool-cases (env.isdir d)) [
    | inl there ↦ rw there (both_run m)
    | inr missing ↦ rw missing (both_stop msg)
  ]

  module _ (args : Args) where
    do_run-Keeps :
        (cmd : List String) → Keeps (do_run env (dry args) cmd) (do_run env (real args) cmd)
    unfolding do_run
    do_run-Keeps cmd = run_command-Keeps args.verbose cmd

    check_dirs-Keeps : Keeps (check_dirs env (dry args)) (check_dirs env (real args))
    unfolding check_dirs Keeps
    check_dirs-Keeps = search (Keeps-bind, check_dir-Keeps) depth 14

    compile_goose-Keeps : Keeps (compile_goose env (dry args)) (compile_goose env (real args))
    unfolding compile_goose Keeps
    compile_goose-Keeps l l' m =
        Mirrors-bind _ _
          (Mirrors-bind _ _ (unfold Keeps in chdir-Keeps args.goose l l' m)
            (unfold Keeps in do_run-Keeps _))
          λ k k' n. rw m.same_dir (unfold Keeps in chdir-Keeps l'.cwd k k' n)

    run_goose-Keeps :
        (d : Option String) (pkgs extra_args : List String)
        → Keeps
            (run_goose env (dry args) d pkgs extra_args)
            (run_goose env (real args) d pkgs extra_args)
    unfolding run_goose
    run_goose-Keeps none pkgs extra_args = unfold Keeps in λ l l' m. both_run m
    run_goose-Keeps (some d) pkgs extra_args = do_run-Keeps _

    goose_examples-Keeps : Keeps (goose_examples env (dry args)) (goose_examples env (real args))
    unfolding goose_examples
    goose_examples-Keeps = Keeps-bind _ _ _ _ (do_run-Keeps _) (run_goose-Keeps _ example_pkgs [])

    main-Keeps : Keeps (main env (dry args)) (main env (real args))
    unfolding main
    main-Keeps =
        search
          (
            Keeps-bind, Keeps-when, check_dirs-Keeps, compile_goose-Keeps, run_goose-Keeps,
            goose_examples-Keeps,
          )
          depth 20

    main-Mirrors :
        (c : String) → Mirrors (main env (dry args) (start c)) (main env (real args) (start c))
    main-Mirrors c =
        unfold Keeps in
        main-Keeps (start c) (start c)
          (record { same_dir = refl; same_commands = refl; nothing_ran = refl })

    -- Where the script, started in the directory c, runs to its end, the script with --dry-run runs to its
    -- end too; it runs nothing, and the commands it prints are those that the other runs, in that order.
    pub main-dry_run :
        (c : String) (l' : Log)
        → main env (real args) (start c) ≡ running l'
        → (l : Log) × (main env (dry args) (start c) ≡ running l)
          × (l.printed ≡ map (λ x. x.1) l'.ran)
          × (l.ran ≡ [])
    main-dry_run c l' e = Mirrors-running l' (main-Mirrors c) e
