-- ===== src/UpdateGooseNew/Statuses.antt =====
-- How update-goose-new.py ends, with the processes that it started and the failed status.
use mathlib.Core.List.{Perm, perm_middle, perm_append_singleton}
use mathlib.Core.List.Perm
use perennial.Prelude.{
  ◌≡◌, refl, inl, inr, String, Bool, true, false, not, ◌||◌, Option, none, some, List, [], ◌∷◌,
  ◌++◌, append-nil, if◌then◌else◌, Bool-cases,
}
use perennial.UpdateGooseNew.Manager.{
  Process, Popen, ProcessManager, Run, running, not_started, ◌>>=◌, new_manager, run_command,
  append_process, printing, wait_all,
}
use perennial.UpdateGooseNew.Waiting.{wait_all-none}
use perennial.UpdateGooseNew.Projects.{Proj, projs, testdata_pkgs, std_lib_pkgs}
use perennial.UpdateGooseNew.{
  Host, Args, Script, usage_error, managed, max_procs, when, run_goose, missing_project,
  compile_goose, run_projects, run_all, checked, main,
}

-- The processes that were started are those waited for and those that may still run, and no failure has
-- been noted.
pub record IsManaged (m : ProcessManager) : Type 0 where
  pub accounted : Perm m.started (m.waited ++ m.processes)
  pub no_failure : m.failed_status ≡ none

-- A call that keeps this, unless a program is not found.
data Manages : Run → Type 0 where
  returns : {m : ProcessManager} → IsManaged m → Manages (running m)
  raises : (p : Process) (m : ProcessManager) → Manages (not_started p m)

Manages-bind :
    {r : Run} (f : ProcessManager → Run)
    → Manages r
    → ((m : ProcessManager) → IsManaged m → Manages (f m))
    → Manages (r >>= f)
Manages-bind f (returns h) k = k _ h
Manages-bind f (raises p m) k = raises p m

Manages-if : (b : Bool) {r r' : Run} → Manages r → Manages r' → Manages (if b then r else r')
Manages-if true h h' = h
Manages-if false h h' = h'

-- The script ends with a usage error, with a program that is not found, or by itself, when each process that it
-- started has been waited for once and none is left; it has noted no failure.
pub data EndsClean : Script → Type 0 where
  refused : (msg : String) → EndsClean (usage_error msg)
  not_found : (p : Process) (m : ProcessManager) → EndsClean (managed (not_started p m))
  all_waited :
      {m : ProcessManager}
      → m.processes ≡ []
      → m.failed_status ≡ none
      → Perm m.started m.waited
      → EndsClean (managed (running m))

Keeps : (ProcessManager → Run) → Type 0
Keeps f = (m : ProcessManager) → IsManaged m → Manages (f m)

Manages-step :
    (b : Bool) {r : Run} (f : ProcessManager → Run) → Manages r → Keeps f → Manages (r >>= when b f)
unfolding Keeps
Manages-step b f h k = Manages-bind _ h (λ m h'. Manages-if b (k m h') (returns h'))

printing-IsManaged :
    (args : List String) (m : ProcessManager) → IsManaged m → IsManaged (printing args m)
printing-IsManaged args m h = elim (Bool-cases (m.dry_run || m.verbose)) [
  | inl prints ↦ rw prints (record { accounted = h.accounted; no_failure = h.no_failure })
  | inr silent ↦ rw silent h
]

one_more :
    (p : Process) (m : ProcessManager)
    → Perm m.started (m.waited ++ m.processes)
    → Perm (m.started ++ (p ∷ [])) (m.waited ++ (p ∷ m.processes))
one_more p m h = Perm.trans (Perm.append_right (p ∷ []) h) (
    Perm.trans (perm_append_singleton p (m.waited ++ m.processes))
      (Perm.symm (perm_middle m.waited m.processes)))

module _ (popen : Popen) where
  append_process-Manages :
      (p : Process) (m : ProcessManager) → IsManaged m → Manages (append_process popen p m)
  append_process-Manages p m h =
      Manages-if (popen.starts p)
        (returns (record { accounted = one_more p m h.accounted; no_failure = h.no_failure }))
        (raises p m)

  run_command-Keeps : (args : List String) → Keeps (run_command popen args)
  unfolding run_command Keeps
  run_command-Keeps args m h =
      let h' : IsManaged (printing args m) = printing-IsManaged args m h in
      Manages-if (not m.dry_run) (append_process-Manages _ _ h') (returns h')

  wait_all-Keeps : Keeps (wait_all popen)
  unfolding Keeps
  wait_all-Keeps m h =
      rw (wait_all-none popen m h.no_failure)
        (returns (record { accounted = rw append-nil h.accounted; no_failure = h.no_failure }))

  EndsClean-wait_all : {r : Run} → Manages r → EndsClean (managed (r >>= wait_all popen))
  EndsClean-wait_all (returns {m} h) =
      rw (wait_all-none popen m h.no_failure) (all_waited refl h.no_failure h.accounted)
  EndsClean-wait_all (raises p m) = not_found p m

module _ (host : Host) (popen : Popen) where
  run_goose-Keeps : (d : Option String) (pkgs : List String) → Keeps (run_goose host popen d pkgs)
  unfolding run_goose Keeps
  run_goose-Keeps none pkgs m h = returns h
  run_goose-Keeps (some d) pkgs m h =
      Manages-bind _ (unfold Keeps in run_command-Keeps popen _ m h)
        (unfold Keeps in run_command-Keeps popen _)

  module _ (args : Args) where
    compile_goose-Keeps : Keeps (compile_goose host popen args)
    unfolding compile_goose Keeps
    compile_goose-Keeps m h =
        Manages-bind _
          (run_command-Keeps popen _ (record m { cwd = args.goose })
            (record { accounted = h.accounted; no_failure = h.no_failure }))
          λ m' h'.
            wait_all-Keeps popen (record m' { cwd = m.cwd })
              (record { accounted = h'.accounted; no_failure = h'.no_failure })

    run_projects-Keeps : (ps : List Proj) → Keeps (run_projects host popen args ps)
    unfolding run_projects Keeps
    run_projects-Keeps [] m h = returns h
    run_projects-Keeps (p ∷ ps) m h =
        Manages-bind _ (run_goose-Keeps _ p.pkgs m h) (run_projects-Keeps ps)

    started-IsManaged :
        (c : String)
        → IsManaged (new_manager args.dry_run args.verbose (max_procs host.cpu_count) c)
    started-IsManaged c = record { accounted = Perm.rfl; no_failure = refl }

    run_all-EndsClean :
        (m : ProcessManager) → IsManaged m → EndsClean (managed (run_all host popen args m))
    unfolding run_all
    run_all-EndsClean m h = EndsClean-wait_all popen (
        Manages-bind _
          (Manages-step args.std_lib _
            (Manages-step args.channel _
              (Manages-step args.goose_examples _
                (Manages-if args.compile (unfold Keeps in compile_goose-Keeps m h) (returns h))
                (run_goose-Keeps _ testdata_pkgs))
              (run_goose-Keeps _ _))
            (run_goose-Keeps _ std_lib_pkgs))
          (unfold Keeps in run_projects-Keeps projs))

    checked-EndsClean :
        (msg : Option String) (c : String) → EndsClean (checked host popen args msg c)
    checked-EndsClean (some msg) c = refused msg
    checked-EndsClean none c = run_all-EndsClean _ (started-IsManaged c)

    -- However the processes exit, the script ends in one of three ways: with a usage error, with a program that
    -- is not found, or by itself; then each process that it started has been waited for once, none is left,
    -- and no failed status is set.
    pub main-EndsClean : (c : String) → EndsClean (main host popen args c)
    unfolding main
    main-EndsClean c = checked-EndsClean (missing_project host popen args projs) c
