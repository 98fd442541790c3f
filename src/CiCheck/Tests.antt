-- ===== src/CiCheck/Tests.antt =====
-- Checkouts on a disk that keeps one origin.
use perennial.Prelude.{
  ◌≡◌, ◌≢◌, refl, sym, ap, Bool, true, false, [], String, Option, none, some, List, ◌∷◌, str_eq,
  if◌then◌else◌,
}
use perennial.CiCheck.{
  Proj, Exit, exits_with, fails, not_found, uncaught, Shell, returns, raises, sp_run, refresh,
  checkout,
}
use perennial.CiCheck.Origin.{Git, checkout-origin}
use perennial.CiCheck.Recovery.{Access}

-- The disk is the url of the origin of the one directory, if it is there. A pull always fails, and a clone
-- fails where the directory is there.
abbrev answer : Option String → Exit × Option String
answer none = (not_found, none)
answer (some url) = (exits_with url, some url)

abbrev clone_into : String → Option String → Exit × Option String
clone_into repo none = (exits_with "", some repo)
clone_into repo (some url) = (fails, some url)

abbrev run : List String → Option String → Option String → Exit × Option String
run (git ∷ verb ∷ x ∷ args) cwd d =
    if str_eq verb "clone"
    then clone_into x d
    else if str_eq verb "remote"
    then answer d
    else (exits_with "", d)
run _ cwd d = (fails, d)

abbrev shell : Shell
shell = record { Disk = Option String; run = run; rmtree = λ dir d. none; strip = λ s. s }

answer_lem :
    (d : Option String) (out : String) (d' : Option String)
    → answer d ≡ (exits_with out, d')
    → d' ≡ some out
answer_lem none out d' e = cc
answer_lem (some url) out d' e = cc

clone_into_lem :
    (repo : String) (d : Option String) (out : String) (d' : Option String)
    → clone_into repo d ≡ (exits_with out, d')
    → d' ≡ some repo
clone_into_lem repo none out d' e = cc
clone_into_lem repo (some url) out d' e = cc

if-caught :
    (t : Bool) (r r' : Exit × Option String)
    → r.0 ≢ uncaught
    → r'.0 ≢ uncaught
    → (if t then r else r').0 ≢ uncaught
if-caught true r r' h h' = h
if-caught false r r' h h' = h'

clone_into-caught : (repo : String) (d : Option String) → (clone_into repo d).0 ≢ uncaught
clone_into-caught repo none e = cc
clone_into-caught repo (some url) e = cc

answer-caught : (d : Option String) → (answer d).0 ≢ uncaught
answer-caught none e = cc
answer-caught (some url) e = cc

run-caught : (args : List String) (cwd d : Option String) → (run args cwd d).0 ≢ uncaught
run-caught [] cwd d = λ e. cc
run-caught (_ ∷ []) cwd d = λ e. cc
run-caught (_ ∷ _ ∷ []) cwd d = λ e. cc
run-caught (git ∷ verb ∷ x ∷ args) cwd d =
    if-caught (str_eq verb "clone") _ _ (clone_into-caught x d)
      (if-caught (str_eq verb "remote") _ _ (answer-caught d) (λ e. cc))

abbrev git : Git shell
git = record {
  origin = λ dir d. d;
  get_url = λ dir out d d' e. answer_lem d out d' e;
  reset = λ dir out d d' e. sym (ap (λ r. r.1) e);
  pull = λ dir out d d' e. sym (ap (λ r. r.1) e);
  clone = λ repo dir out d d' e. clone_into_lem repo d out d' e;
  switch = λ commit dir out d d' e. sym (ap (λ r. r.1) e);
}

abbrev std : Proj
std = record { name = "std"; repo = "https://github.com/goose-lang/std"; commit = "master" }

-- The directory holds another repository, or the pull of its own fails.
test_other :
    checkout shell std (some "https://github.com/tchajed/marshal") ≡ returns "" (some std.repo)
unfolding checkout refresh sp_run
test_other = refl

test_pull : refresh shell std (some std.repo) ≡ raises (some std.repo)
unfolding refresh sp_run
test_pull = refl

checkout-origin_example :
    git.origin "/tmp/std" (some std.repo) ≡ some "https://github.com/goose-lang/std"
checkout-origin_example =
    checkout-origin shell git std (some "https://github.com/tchajed/marshal") (some std.repo) ""
      test_other

abbrev access : Access shell git std
access = record {
  IsAccessible = λ d. Unit {0};
  IsAbsent = λ d. d ≡ none;
  caught = λ args d h. run-caught args (some "/tmp/std") d;
  stays = λ args d h. tt;
  removed = λ d h. refl;
  clones = λ d e. ("", some std.repo, rw e refl);
  switches = λ d e. ("", d, refl);
}
