-- ===== src/UpdateGooseNew/Waiting.antt =====
-- wait_all and check of ProcessManager: the processes waited for, and those left.
use perennial.Prelude.{
  ℕ, suc, ◌*◌, ◌≤◌, ◌<◌, ◌⊎◌, ltb→lt, ◌≡◌, refl, ap, ◌∙◌, inl, inr, false, Option, none, some, List,
  [], ◌∷◌, ◌++◌, if◌then◌else◌, append-nil, append_assoc, ltb, Bool-cases, arith,
}
use perennial.Xdr.{ℤ}
use perennial.UpdateGooseNew.Manager.{
  Process, Popen, ProcessManager, Run, running, exited, ◌>>=◌, is_nonzero, count_processes,
  communicate, wait_last, wait_listed, wait_all, check_listed, check_against, check,
}

-- The manager when ps have been waited for and none is left.
abbrev pub waited_for : List Process → ProcessManager → ProcessManager
waited_for ps m = record m { processes = []; waited = m.waited ++ ps }

unwaited :
    {ps : List Process} (m : ProcessManager)
    → m.processes ≡ ps
    → m ≡ record m { processes = ps; waited = m.waited ++ [] }
unwaited m e = rw (append-nil m.waited) (ap (λ x. record m { processes = x }) e)

not-ltb : {a b : ℕ} → ltb a b ≡ false → b ≤ a
not-ltb h = ground arith

-- How wait_all ends with the last status noted.
abbrev pub ended : Option ℤ → ProcessManager → Run
ended none m = running m
ended (some t) m = exited (some t) (record m { failed_status = some t })

abbrev or_else : Option ℤ → ℤ → ℤ
or_else none t = t
or_else (some u) t = u

-- The last of the processes ps were waited for, the last first, and n halves at most are left; before the
-- last wait there were more.
pub CutsTo : ℕ → List Process → ProcessManager → Run → Type 0
CutsTo n ps m r =
    (xs : List Process) × (ys : List Process) × (ps ≡ xs ++ ys)
    × (2 * count_processes ys ≤ n)
    × ((xs ≡ []) ⊎ (n < 2 * suc (count_processes ys)))
    × (r ≡ running (record m { processes = ys; waited = m.waited ++ xs }))

-- The wait before these was needed, and so was the last of these.
before_last :
    (n : ℕ) (ps xs ys : List Process)
    → ps ≡ xs ++ ys
    → n < 2 * suc (count_processes ps)
    → (xs ≡ []) ⊎ (n < 2 * suc (count_processes ys))
    → n < 2 * suc (count_processes ys)
before_last n ps xs ys e lt (inl none_more) =
    let e' : count_processes ps ≡ count_processes ys =
      ap count_processes (e ∙ ap (λ zs. zs ++ ys) none_more) in
    omega (arith, lt, e')
before_last n ps xs ys e lt (inr lt') = lt'

module _ (popen : Popen) where
  open popen use {returncode}

  abbrev later : Option ℤ → Process → Option ℤ
  later (some t) p = some t
  later none p = if is_nonzero (returncode p) then some (returncode p) else none

  -- The exit status of the last of the processes that fails, if one does.
  abbrev pub last_failure : List Process → Option ℤ
  last_failure [] = none
  last_failure (p ∷ ps) = later (last_failure ps) p

  -- Where no failed status is set, an exit status is only passed over.
  wait_last-none :
      (f : ProcessManager → Run) (p : Process) (ps : List Process) (m : ProcessManager)
      → m.failed_status ≡ none
      → wait_last popen f p ps m ≡ running (communicate p ps m)
  wait_last-none f p ps m e = elim (Bool-cases (is_nonzero (returncode p))) [
    | inl fails ↦ rw (fails, e) refl
    | inr succeeds ↦ rw succeeds refl
  ]

  wait_listed-none :
      (ps : List Process) (m : ProcessManager)
      → m.processes ≡ ps
      → m.failed_status ≡ none
      → wait_listed popen ps m ≡ running (waited_for ps m)
  unfolding wait_listed
  wait_listed-none [] m e f = ap running (unwaited m e)
  wait_listed-none (p ∷ ps) m e f =
      ap (λ r. r >>= wait_listed popen ps) (wait_last-none (wait_listed popen ps) p ps m f)
      ∙ wait_listed-none ps (communicate p ps m) refl f
      ∙ ap (λ ws. running (record m { processes = []; waited = ws }))
          (append_assoc m.waited (p ∷ []) ps)

  -- Where no failed status is set, wait_all returns, whatever the processes exit with: it has waited for each
  -- of them once, the last first, none is left, and still no failed status is set.
  pub wait_all-none :
      (m : ProcessManager)
      → m.failed_status ≡ none
      → wait_all popen m ≡ running (waited_for m.processes m)
  unfolding wait_all
  wait_all-none m f = wait_listed-none m.processes m refl f

  check_listed-CutsTo :
      (n : ℕ) (ps : List Process) (m : ProcessManager)
      → m.processes ≡ ps
      → m.failed_status ≡ none
      → CutsTo n ps m (check_listed popen n ps m)
  unfolding check_listed CutsTo
  check_listed-CutsTo n [] m e f = ([], [], refl, omega arith, inl refl, ap running (unwaited m e))
  check_listed-CutsTo n (p ∷ ps) m e f = elim (Bool-cases (ltb n (2 * count_processes (p ∷ ps)))) [
    | inl many ↦
        let (xs, ys, e', h, w, r) = check_listed-CutsTo n ps (communicate p ps m) refl f in
        rw many (
          p ∷ xs,
          ys,
          ap (λ x. p ∷ x) e',
          h,
          inr (before_last n ps xs ys e' (ltb→lt _ _ many) w),
          ap (λ r. r >>= check_listed popen n ps) (wait_last-none (wait_listed popen ps) p ps m f)
              ∙ r
              ∙ ap (λ ws. running (record m { processes = ys; waited = ws }))
                  (append_assoc m.waited (p ∷ []) xs),
        )
    | inr few ↦ rw few ([], p ∷ ps, refl, not-ltb few, inl refl, ap running (unwaited m e))
  ]

  -- With twice max_procs n, and no failed status set, check returns: it has waited for the last processes, one
  -- by one, as long as there were more than max_procs, and those left are at most max_procs.
  pub check-CutsTo :
      (n : ℕ) (m : ProcessManager)
      → m.max_procs ≡ some n
      → m.failed_status ≡ none
      → CutsTo n m.processes m (check popen m)
  unfolding check
  check-CutsTo n m e f =
      rw (ap (λ o. check_against popen o m) e) (check_listed-CutsTo n m.processes m refl f)
