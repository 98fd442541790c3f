-- ===== src/UpdateGooseNew/Manager.antt =====
-- new/etc/update-goose-new.py: ProcessManager, which starts commands and waits for them. Starting a process
-- and its exit status are parameters.
use perennial.Prelude.{
  ℕ, ◌*◌, suc, String, Bool, true, false, not, ◌&&◌, ◌||◌, Option, none, some, List, [], ◌∷◌, ◌++◌,
  if◌then◌else◌, ltb, ◌==◌,
}
use perennial.Xdr.{ℤ, pos, negsuc}

-- A process that Popen started: its directory and its command.
pub record Process : Type 0 where
  pub dir : String
  pub args : List String

-- What Popen does of a command in a directory: whether it finds the program, and the exit status that the
-- process will have, negative after a signal.
pub record Popen : Type 0 where
  pub starts : Process → Bool
  pub returncode : Process → ℤ

-- The fields of the manager, its processes the last one first and max_procs in halves; then what the
-- script has done: its directory, the commands printed, and the processes started and waited for.
pub record ProcessManager : Type 0 where
  pub processes : List Process
  pub dry_run : Bool
  pub verbose : Bool
  pub max_procs : Option ℕ
  pub failed_status : Option ℤ
  pub cwd : String
  pub printed : List (List String)
  pub started : List Process
  pub waited : List Process

-- A call returns, ends the script by sys.exit, or raises an exception: TypeError of a comparison with None,
-- or the one of Popen.
pub data Run : Type 0 where
  running : ProcessManager → Run
  exited : Option ℤ → ProcessManager → Run
  compared_none : ProcessManager → Run
  not_started : Process → ProcessManager → Run

infixl 5 ◌>>=◌
abbrev pub ◌>>=◌ : Run → (ProcessManager → Run) → Run
running m >>= k = k m
exited s m >>= k = exited s m
compared_none m >>= k = compared_none m
not_started p m >>= k = not_started p m

-- __init__
abbrev pub new_manager : Bool → Bool → Option ℕ → String → ProcessManager
new_manager dry_run verbose max_procs c = record {
  processes = [];
  dry_run = dry_run;
  verbose = verbose;
  max_procs = max_procs;
  failed_status = none;
  cwd = c;
  printed = [];
  started = [];
  waited = [];
}

abbrev pub is_nonzero : ℤ → Bool
is_nonzero (pos n) = not (n == 0)
is_nonzero (negsuc n) = true

abbrev pub is_set : Option ℤ → Bool
is_set none = false
is_set (some s) = true

abbrev pub count_processes : List Process → ℕ
count_processes [] = 0
count_processes (p ∷ ps) = suc (count_processes ps)

-- `print(" ".join(args))` under dry_run or verbose.
abbrev pub printing : List String → ProcessManager → ProcessManager
printing args m =
    if m.dry_run || m.verbose then record m { printed = m.printed ++ (args ∷ []) } else m

-- The process p is taken off the processes ps before it, and its errors are passed on.
abbrev pub communicate : Process → List Process → ProcessManager → ProcessManager
communicate p ps m = record m { processes = ps; waited = m.waited ++ (p ∷ []) }

module _ (popen : Popen) where
  open popen use {starts, returncode}

  abbrev pub append_process : Process → ProcessManager → Run
  append_process p m =
      if starts p
      then running (record m { processes = p ∷ m.processes; started = m.started ++ (p ∷ []) })
      else not_started p m

  unfoldable pub run_command : List String → ProcessManager → Run
  run_command args m =
      let m' = printing args m in
      if not m.dry_run then append_process (record { dir = m.cwd; args = args }) m' else running m'

  -- The body of _wait1, with p the last process, ps those before it, and finish_all the call of wait_all.
  abbrev pub wait_last : (ProcessManager → Run) → Process → List Process → ProcessManager → Run
  wait_last finish_all p ps m =
      if is_nonzero (returncode p) && is_set m.failed_status
      then finish_all (record (communicate p ps m) { failed_status = some (returncode p) })
        >>= (λ m'. exited m'.failed_status m')
      else running (communicate p ps m)

  -- The loop of wait_all, and its calls in _wait1.
  unfoldable pub wait_listed : List Process → ProcessManager → Run
  wait_listed [] m = running m
  wait_listed (p ∷ ps) m = wait_last (wait_listed ps) p ps m >>= wait_listed ps

  unfoldable pub wait_all : ProcessManager → Run
  wait_all m = wait_listed m.processes m

  -- _wait1
  abbrev pub wait_first : List Process → ProcessManager → Run
  wait_first [] m = running m
  wait_first (p ∷ ps) m = wait_last (wait_listed ps) p ps m

  unfoldable pub wait1 : ProcessManager → Run
  wait1 m = wait_first m.processes m

  -- The loop of check: `len(self._processes) > self._max_procs`, where n is twice max_procs.
  unfoldable pub check_listed : ℕ → List Process → ProcessManager → Run
  check_listed n [] m = running m
  check_listed n (p ∷ ps) m =
      let rest = check_listed n ps in
      if ltb n (2 * count_processes (p ∷ ps))
      then wait_last (wait_listed ps) p ps m >>= rest
      else running m

  -- check, with the value of max_procs.
  abbrev pub check_against : Option ℕ → ProcessManager → Run
  check_against none m = compared_none m
  check_against (some n) m = check_listed n m.processes m

  unfoldable pub check : ProcessManager → Run
  check m = check_against m.max_procs m
