-- ===== src/Coqc/Attribution.antt =====
-- Where coqc.py puts the time of a proof: from the line of its first sentence to that of its Qed.
use perennial.Prelude.{
  ℕ, ◌-◌, ◌≡◌, refl, sym, ap, ◌∙◌, true, false, none, some, String, str_eq, List, [], ◌∷◌, ◌++◌,
  append_assoc, append-nil, take, drop,
}
use perennial.Outcome.{ok, ◌>>=◌, >>=-assoc}
use perennial.Coqc.{
  Bytes, Python, Db, Counts, get_def, get_time, Filter, load_contents, chars, time_qed,
  update_timing, line, run_lines,
}

module _ (python : Python) (contents : Bytes) where
  open python use {Float, decode, qed_re}

  -- The line is coqc's time for the sentence `code` of the file.
  pub record IsTimed (ln : Bytes) (code : String) (start end' : ℕ) (time : Float) : Type 0 where
    pub text : String
    pub reads : decode ln ≡ ok text
    pub info : get_time python text ≡ ok (some (start, (end', time)))
    pub cut : decode (take (end' - start) (drop start contents)) ≡ ok code

  -- The line times a sentence that starts the definition, obligation or goal `ident`.
  pub record Starts (ln : Bytes) (c : Counts) (ident : String) (c' : Counts) : Type 0 where
    pub code : String
    pub start : ℕ
    pub end' : ℕ
    pub time : Float
    pub timed : IsTimed ln code start end' time
    pub starts : get_def python code c ≡ (some ident, c')
    pub not_empty : str_eq ident "" ≡ false

  -- The line times a Qed.
  pub record IsQed (ln : Bytes) (c : Counts) (time : Float) : Type 0 where
    pub code : String
    pub start : ℕ
    pub end' : ℕ
    pub timed : IsTimed ln code start end' time
    pub goes_on : get_def python code c ≡ (none, c)
    pub qed : qed_re code ≡ true

  -- The lines inside a proof, and the texts among them that are no times: a message of coqc, or the
  -- time of a sentence that neither starts nor ends a proof.
  pub data Inside (c : Counts) : List Bytes → List String → Type 0 where
    no_more : Inside c [] []
    message :
        {ln : Bytes} {lns : List Bytes} {texts : List String} (text : String)
        → decode ln ≡ ok text
        → get_time python text ≡ ok none
        → Inside c lns texts
        → Inside c (ln ∷ lns) (text ∷ texts)
    tactic :
        {ln : Bytes} {lns : List Bytes} {texts : List String} (code : String) (start end' : ℕ)
        (time : Float)
        → IsTimed ln code start end' time
        → get_def python code c ≡ (none, c)
        → qed_re code ≡ false
        → Inside c lns texts
        → Inside c (ln ∷ lns) texts

module _ (python : Python) (db : Db python) (b : ℕ) (bs : Bytes) where
  open python use {Float}

  abbrev Run : Type 0
  Run = Filter python db

  chars-loaded :
      (f : Run) (start end' : ℕ) (code : String)
      → f.contents ≡ some (b ∷ bs)
      → python.decode (take (end' - start) (drop start (b ∷ bs))) ≡ ok code
      → chars python db start end' f ≡ ok (code, f)
  unfolding chars load_contents
  chars-loaded f start end' code e cut = rw (e, cut) refl

  line-Starts :
      (f : Run) (ln : Bytes) (ident : String) (c' : Counts)
      → f.contents ≡ some (b ∷ bs)
      → Starts python (b ∷ bs) ln f.counts ident c'
      → line python db ln f ≡ ok (record f { curr_def = some ident; counts = c' })
  unfolding line update_timing
  line-Starts f ln ident c' e s =
      rw
        (
          s.timed.reads,
          s.timed.info,
          chars-loaded f s.start s.end' s.code e s.timed.cut,
          s.starts,
          s.not_empty,
        )
        refl

  line-message :
      (f : Run) (ln : Bytes) (text : String)
      → python.decode ln ≡ ok text
      → get_time python text ≡ ok none
      → line python db ln f ≡ ok (record f { stdout = f.stdout ++ (text ∷ []) })
  unfolding line
  line-message f ln text reads info = rw (reads, info) refl

  line-tactic :
      (c : Counts) (f : Run) (ln : Bytes) (code : String) (start end' : ℕ) (time : Float)
      → f.counts ≡ c
      → f.contents ≡ some (b ∷ bs)
      → IsTimed python (b ∷ bs) ln code start end' time
      → get_def python code c ≡ (none, c)
      → python.qed_re code ≡ false
      → line python db ln f ≡ ok f
  unfolding line update_timing
  line-tactic c f ln code start end' time n e t g q =
      rw (t.reads, t.info, chars-loaded f start end' code e t.cut, n, g, q) refl

  time_qed-named :
      (f : Run) (start end' : ℕ) (ident : String) (time : Float)
      → f.curr_def ≡ some ident
      → time_qed python db start end' time f
        ≡ (db.add_qed f.vfile ident time f.tables >>= λ tables. ok (record f { tables = tables }))
  unfolding time_qed
  time_qed-named f start end' ident time d =
      ap
        (λ o. elim o [
          | none ↦ ok (record f { stderr = f.stderr ++ ((start, end') ∷ []) })
          | some ident' ↦ db.add_qed f.vfile ident' time f.tables >>= λ tables.
              ok (record f { tables = tables })
        ])
        d

  line-IsQed :
      (f : Run) (ln : Bytes) (ident : String) (time : Float)
      → f.contents ≡ some (b ∷ bs)
      → f.curr_def ≡ some ident
      → IsQed python (b ∷ bs) ln f.counts time
      → line python db ln f
        ≡ (db.add_qed f.vfile ident time f.tables >>= λ tables. ok (record f { tables = tables }))
  unfolding line update_timing
  line-IsQed f ln ident time e d q =
      rw
        (
          q.timed.reads,
          q.timed.info,
          chars-loaded f q.start q.end' q.code e q.timed.cut,
          q.goes_on,
          q.qed,
        )
        (time_qed-named f q.start q.end' ident time d)

  run_lines-append :
      (xs ys : List Bytes) (f : Run)
      → run_lines python db (xs ++ ys) f ≡ (run_lines python db xs f >>= run_lines python db ys)
  unfolding run_lines
  run_lines-append [] ys f = refl
  run_lines-append (x ∷ xs) ys f =
      (λ i. line python db x f >>= λ f'. run_lines-append xs ys f' i)
      ∙ sym (>>=-assoc (line python db x f) (run_lines python db xs) (run_lines python db ys))

  run_lines-Inside :
      (c : Counts) (f : Run) (mid : List Bytes) (texts : List String)
      → f.counts ≡ c
      → f.contents ≡ some (b ∷ bs)
      → Inside python (b ∷ bs) c mid texts
      → run_lines python db mid f ≡ ok (record f { stdout = f.stdout ++ texts })
  unfolding run_lines
  run_lines-Inside c f _ _ n e no_more =
      ap (λ o. ok (record f { stdout = o })) (sym (append-nil f.stdout))
  run_lines-Inside c f _ _ n e (message {ln} {lns} {texts} text reads info rest) =
      let f' : Run = record f { stdout = f.stdout ++ (text ∷ []) } in
      rw (line-message f ln text reads info) (
        run_lines-Inside c f' _ _ n e rest
        ∙ ap (λ o. ok (record f { stdout = o })) (append_assoc f.stdout (text ∷ []) texts))
  run_lines-Inside c f _ _ n e (tactic {ln} code start end' time t g q rest) =
      rw (line-tactic c f ln code start end' time n e t g q) (run_lines-Inside c f _ _ n e rest)

-- Of the output of coqc for one proof, the line of a sentence that starts `ident`, lines inside the
-- proof and the line of its Qed, all times of sentences of the file's contents: the run adds the
-- Qed's time under `ident` to the database, once, writes the messages among the lines to stdout in
-- their order, and leaves `ident` as the current definition; it fails only where the database does.
pub run_lines-proof :
    (python : Python) (db : Db python) (b : ℕ) (bs : Bytes) (f : Filter python db) (start : Bytes)
    (mid : List Bytes) (texts : List String) (qed : Bytes) (ident : String) (c' : Counts)
    (time : python.Float)
    → f.contents ≡ some (b ∷ bs)
    → Starts python (b ∷ bs) start f.counts ident c'
    → Inside python (b ∷ bs) c' mid texts
    → IsQed python (b ∷ bs) qed c' time
    → run_lines python db (start ∷ (mid ++ (qed ∷ []))) f ≡ (
        db.add_qed f.vfile ident time f.tables >>= λ tables. ok (record f {
          tables = tables;
          curr_def = some ident;
          counts = c';
          stdout = f.stdout ++ texts;
        }))
unfolding run_lines
run_lines-proof python db b bs f start mid texts qed ident c' time e s m q =
    let started : Filter python db = record f { curr_def = some ident; counts = c' } in
    rw
      (
        line-Starts python db b bs f start ident c' e s,
        run_lines-append python db b bs mid (qed ∷ []) started,
        run_lines-Inside python db b bs c' started mid texts refl e m,
        line-IsQed python db b bs (record started { stdout = f.stdout ++ texts }) qed ident time e
            refl q,
      )
      (>>=-assoc (db.add_qed f.vfile ident time f.tables) _ _)
