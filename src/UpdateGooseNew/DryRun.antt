-- ===== src/UpdateGooseNew/DryRun.antt =====
-- update-goose-new.py with --dry-run: the processes that its steps start.
use perennial.Prelude.{
  ◌≡◌, refl, inl, inr, String, Bool, true, false, not, ◌||◌, Option, none, some, List, [], ◌∷◌,
  if◌then◌else◌, Bool-cases,
}
use perennial.UpdateGooseNew.Manager.{
  Process, Popen, ProcessManager, Run, running, ◌>>=◌, new_manager, run_command, printing,
  wait_listed, wait_all,
}
use perennial.UpdateGooseNew.Projects.{Proj, projs, testdata_pkgs, std_lib_pkgs}
use perennial.UpdateGooseNew.{
  Host, Args, Script, usage_error, managed, max_procs, when, run_goose, missing_project,
  compile_goose, run_projects, run_all, checked, main,
}

-- A manager with --dry-run that has started nothing.
record IsDry (m : ProcessManager) : Type 0 where
  dry : m.dry_run ≡ true
  none_left : m.processes ≡ []
  none_started : m.started ≡ []

data StaysDry : Run → Type 0 where
  stays : {m : ProcessManager} → IsDry m → StaysDry (running m)

-- The script ends with a usage error, or by itself without a process.
pub data StartsNone : Script → Type 0 where
  refused : (msg : String) → StartsNone (usage_error msg)
  started_none : {m : ProcessManager} → m.started ≡ [] → StartsNone (managed (running m))

StaysDry-bind :
    {r : Run} (f : ProcessManager → Run)
    → StaysDry r
    → ((m : ProcessManager) → IsDry m → StaysDry (f m))
    → StaysDry (r >>= f)
StaysDry-bind f (stays h) k = k _ h

StaysDry-when :
    (b : Bool) {r : Run} (f : ProcessManager → Run)
    → StaysDry r
    → ((m : ProcessManager) → IsDry m → StaysDry (f m))
    → StaysDry (r >>= when b f)
StaysDry-when true f (stays h) k = k _ h
StaysDry-when false f (stays h) k = stays h

-- The branch of a dry run.
StaysDry-not :
    (b : Bool) (r : Run) {r' : Run} → b ≡ true → StaysDry r' → StaysDry (if not b then r else r')
StaysDry-not true r e h = h
StaysDry-not false r e h = cc

printing-IsDry : (args : List String) (m : ProcessManager) → IsDry m → IsDry (printing args m)
printing-IsDry args m h = elim (Bool-cases (m.dry_run || m.verbose)) [
  | inl prints ↦
      rw prints (record { dry = h.dry; none_left = h.none_left; none_started = h.none_started })
  | inr silent ↦ rw silent h
]

module _ (host : Host) (popen : Popen) where
  StaysDry-run_command :
      (args : List String) (m : ProcessManager) → IsDry m → StaysDry (run_command popen args m)
  unfolding run_command
  StaysDry-run_command args m h = StaysDry-not m.dry_run _ h.dry (stays (printing-IsDry args m h))

  wait_listed-nil :
      (ps : List Process) (m : ProcessManager) → ps ≡ [] → wait_listed popen ps m ≡ running m
  unfolding wait_listed
  wait_listed-nil [] m e = refl
  wait_listed-nil (p ∷ ps) m e = cc

  StaysDry-wait_all : (m : ProcessManager) → IsDry m → StaysDry (wait_all popen m)
  unfolding wait_all
  StaysDry-wait_all m h = rw (wait_listed-nil m.processes m h.none_left) (stays h)

  StaysDry-run_goose :
      (d : Option String) (pkgs : List String) (m : ProcessManager)
      → IsDry m
      → StaysDry (run_goose host popen d pkgs m)
  unfolding run_goose
  StaysDry-run_goose none pkgs m h = stays h
  StaysDry-run_goose (some d) pkgs m h =
      StaysDry-bind _ (StaysDry-run_command _ m h) (StaysDry-run_command _)

  module _ (args : Args) where
    StaysDry-compile_goose :
        (m : ProcessManager) → IsDry m → StaysDry (compile_goose host popen args m)
    unfolding compile_goose
    StaysDry-compile_goose m h =
        StaysDry-bind _
          (StaysDry-run_command _ (record m { cwd = args.goose })
            (record { dry = h.dry; none_left = h.none_left; none_started = h.none_started }))
          λ m' h'.
            StaysDry-wait_all (record m' { cwd = m.cwd })
              (record { dry = h'.dry; none_left = h'.none_left; none_started = h'.none_started })

    StaysDry-run_projects :
        (ps : List Proj) (m : ProcessManager)
        → IsDry m
        → StaysDry (run_projects host popen args ps m)
    unfolding run_projects
    StaysDry-run_projects [] m h = stays h
    StaysDry-run_projects (p ∷ ps) m h =
        StaysDry-bind _ (StaysDry-run_goose _ p.pkgs m h) (StaysDry-run_projects ps)

    StaysDry-run_all : (m : ProcessManager) → IsDry m → StaysDry (run_all host popen args m)
    unfolding run_all
    StaysDry-run_all m h =
        StaysDry-bind _
          (StaysDry-bind _
            (StaysDry-when args.std_lib _
              (StaysDry-when args.channel _
                (StaysDry-when args.goose_examples _
                  (StaysDry-when args.compile {r = running m} _ (stays h) StaysDry-compile_goose)
                  (StaysDry-run_goose _ testdata_pkgs))
                (StaysDry-run_goose _ _))
              (StaysDry-run_goose _ std_lib_pkgs))
            (StaysDry-run_projects projs))
          StaysDry-wait_all

    StartsNone-managed : {r : Run} → StaysDry r → StartsNone (managed r)
    StartsNone-managed (stays h) = started_none h.none_started

    StartsNone-checked :
        (msg : Option String) (c : String)
        → args.dry_run ≡ true
        → StartsNone (checked host popen args msg c)
    StartsNone-checked (some msg) c e = refused msg
    StartsNone-checked none c e = StartsNone-managed (
        StaysDry-run_all (new_manager args.dry_run args.verbose (max_procs host.cpu_count) c)
          (record { dry = e; none_left = refl; none_started = refl }))

    -- With --dry-run, the script ends with a usage error or by itself, having started no process.
    pub main-StartsNone : (c : String) → args.dry_run ≡ true → StartsNone (main host popen args c)
    unfolding main
    main-StartsNone c e = StartsNone-checked (missing_project host popen args projs) c e
