-- ===== src/Coqc/Streams.antt =====
-- What the filter of coqc.py writes to stdout.
use perennial.Prelude.{
  ℕ, ◌-◌, take, drop, ◌≡◌, refl, sym, ap, ◌∙◌, Bool, true, false, Option, none, some, String, List,
  [], ◌∷◌, ◌++◌, append_assoc, append-nil, if◌then◌else◌,
}
use perennial.Outcome.{Result, ok, err, Error, ◌>>=◌, >>=-assoc}
use perennial.Coqc.{
  Bytes, Python, Db, Counts, get_def, get_time, Filter, chars, load_contents, named, time_qed,
  update_timing, line, run_lines, done,
}

module _ (python : Python) where
  open python use {Float, decode, qed_re}

  -- Lines that decode and whose numbers parse, with the texts of those that are no times.
  pub data Messages : List Bytes → List String → Type 0 where
    end : Messages [] []
    message :
        {ln : Bytes} {lns : List Bytes} {texts : List String} (text : String)
        → decode ln ≡ ok text
        → get_time python text ≡ ok none
        → Messages lns texts
        → Messages (ln ∷ lns) (text ∷ texts)
    timing :
        {ln : Bytes} {lns : List Bytes} {texts : List String} (text : String) (t : ℕ × (ℕ × Float))
        → decode ln ≡ ok text
        → get_time python text ≡ ok (some t)
        → Messages lns texts
        → Messages (ln ∷ lns) texts

  module _ (db : Db python) where
    abbrev Run : Type 0
    Run = Filter python db

    -- A call that has written o to stdout in the end, if it returns.
    pub data Writes (o : List String) : Result Run → Type 0 where
      returned : {f : Run} → f.stdout ≡ o → Writes o (ok f)
      raised : (e : Error) → Writes o (err e)

    pub Writes-bind :
        {A : Type 0} (o : List String) (m : Result A) (k : A → Result Run)
        → ((a : A) → Writes o (k a))
        → Writes o (m >>= k)
    Writes-bind o (ok a) k h = h a
    Writes-bind o (err e) k h = raised e

    pub Writes-seq :
        {o o' : List String} {r : Result Run} (k : Run → Result Run)
        → Writes o r
        → ((f : Run) → f.stdout ≡ o → Writes o' (k f))
        → Writes o' (r >>= k)
    Writes-seq k (returned e) h = h _ e
    Writes-seq k (raised x) h = raised x

    pub Writes-if :
        {o : List String} (b : Bool) {r r' : Result Run}
        → Writes o r
        → Writes o r'
        → Writes o (if b then r else r')
    Writes-if true h h' = h
    Writes-if false h h' = h'

    Writes-chars :
        {o : List String} (start end' : ℕ) (f : Run) (k : String × Run → Result Run)
        → ((code : String) (bs : Bytes) → Writes o (k (code, record f { contents = some bs })))
        → Writes o (chars python db start end' f >>= k)
    unfolding chars
    Writes-chars {o} start end' f k h = rw (>>=-assoc (load_contents python db f)) (
        Writes-bind o (load_contents python db f) _ λ bs.
          rw (>>=-assoc (decode (take (end' - start) (drop start bs))))
            (Writes-bind o (decode (take (end' - start) (drop start bs))) _ λ code. h code bs))

    time_qed-Writes :
        (start end' : ℕ) (time : Float) (f : Run)
        → Writes f.stdout (time_qed python db start end' time f)
    unfolding time_qed
    time_qed-Writes start end' time f =
        elim f.curr_def
          as (λ d. Writes f.stdout (elim d [
            | none ↦ ok (record f { stderr = f.stderr ++ ((start, end') ∷ []) })
            | some ident ↦
                (db.add_qed f.vfile ident time f.tables >>= λ tables.
                ok (record f { tables = tables }))
          ])) [
            | none ↦ returned refl
            | some ident ↦
                Writes-bind f.stdout (db.add_qed f.vfile ident time f.tables) _
                  λ tables. returned refl
          ]

    update_timing-Writes :
        (start end' : ℕ) (time : Float) (f : Run)
        → Writes f.stdout (update_timing python db start end' time f)
    unfolding update_timing
    update_timing-Writes start end' time f = Writes-chars start end' f _ λ code bs.
        let p : Option String × Counts = get_def python code f.counts in
        Writes-if (named python db p.0) (returned refl) (
          Writes-if (qed_re code)
            (time_qed-Writes start end' time (record f { contents = some bs; counts = p.1 }))
            (returned refl))

    line-shown :
        (f : Run) (ln : Bytes) (text : String)
        → decode ln ≡ ok text
        → get_time python text ≡ ok none
        → line python db ln f ≡ ok (record f { stdout = f.stdout ++ (text ∷ []) })
    unfolding line
    line-shown f ln text reads info = rw (reads, info) refl

    line-Writes :
        (f : Run) (ln : Bytes) (text : String) (t : ℕ × (ℕ × Float))
        → decode ln ≡ ok text
        → get_time python text ≡ ok (some t)
        → Writes f.stdout (line python db ln f)
    unfolding line
    line-Writes f ln text t reads info = rw (reads, info) (update_timing-Writes t.0 t.1.0 t.1.1 f)

    pub run_lines-Writes :
        (o : List String) (f : Run) {lns : List Bytes} {texts : List String}
        → f.stdout ≡ o
        → Messages lns texts
        → Writes (o ++ texts) (run_lines python db lns f)
    unfolding run_lines
    run_lines-Writes o f e end = returned (e ∙ sym (append-nil o))
    run_lines-Writes o f e (message {ln} {lns} {texts} text reads info ms) =
        rw (line-shown f ln text reads info, sym (append_assoc o (text ∷ []) texts))
          (run_lines-Writes (o ++ (text ∷ [])) _ (ap (λ x. x ++ (text ∷ [])) e) ms)
    run_lines-Writes o f e (timing {ln} {lns} {texts} text t reads info ms) =
        Writes-seq (run_lines python db lns) (line-Writes f ln text t reads info)
          λ f' e'. run_lines-Writes o f' (e' ∙ e) ms

    pub done-Writes : (delta : Float) (f : Run) → Writes f.stdout (done python db delta f)
    unfolding done
    done-Writes delta f =
        Writes-bind f.stdout (db.add_file f.vfile f.is_vos delta f.tables) _ λ tables. returned refl
