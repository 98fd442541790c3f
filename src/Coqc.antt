-- ===== src/Coqc.antt =====
-- etc/coqc.py: the wrapper of coqc that times proofs. Classify, CoqcFilter and two of the databases; Script has
-- the third. Python's re, the decoding of bytes, the file system and sqlite are parameters.
mod Attribution
pub mod Script
mod Streams
mod Exit
mod Obligations
mod Tests
mod Runs
use Prim.Native.String.{◌++◌ as text_append}
use perennial.Decimal.{decimal}
use perennial.Prelude.{
  ℕ, ◌+◌, ◌-◌, Bool, false, not, Option, none, some, String, str_eq, List, [], ◌∷◌, ◌++◌, take,
  drop, if◌then◌else◌,
}
use perennial.Outcome.{Result, ok, err, type_error, ◌>>=◌}

abbrev pub Bytes : Type 0
Bytes = List ℕ

-- What the code takes from Python's library: a float, the parsers of numbers and of UTF-8, the
-- contents of a file, and the match of each pattern of Classify at the start of a text.
pub record Python : Type 1 where
  pub Float : Type 0
  pub decode : Bytes → Result String
  pub int_of : String → Result ℕ
  pub float_of : String → Result Float
  pub read_file : String → Result Bytes
  pub def_re : String → Option String
  pub obligation_re : String → Bool
  pub goal_re : String → Bool
  pub qed_re : String → Bool
  pub time_re : String → Option (String × (String × String))

-- The class attributes of Classify.
pub record Counts : Type 0 where
  pub obligation_count : ℕ
  pub goal_count : ℕ

module _ (python : Python) where
  open python use {
    Float, decode, int_of, float_of, read_file, def_re, obligation_re, goal_re, qed_re, time_re,
  }

  -- The methods that the three database classes share.
  pub record Db : Type 1 where
    pub State : Type 0
    pub add_qed : Option String → String → Float → State → Result State
    pub add_file : Option String → Bool → Float → State → Result State
    pub close : State → State

  abbrev pub null_db : Db
  null_db = record {
    State = Unit {0};
    add_qed = λ fname ident time s. ok s;
    add_file = λ fname is_vos time s. ok s;
    close = λ s. s;
  }

  -- A connection of sqlite: the statements INSERT OR REPLACE of the two tables, and others as texts.
  pub record Connection : Type 1 where
    pub Tables : Type 0
    pub connect : String → Result Tables
    pub execute : String → Tables → Result Tables
    pub insert_qed : Option String → String → Float → Tables → Result Tables
    pub insert_file : Option String → Bool → Float → Tables → Result Tables
    pub close : Tables → Tables

  abbrev pub timing_db : Connection → Db
  timing_db conn = record {
    State = conn.Tables;
    add_qed = conn.insert_qed;
    add_file = conn.insert_file;
    close = conn.close;
  }

  -- Classify.get_def, with the match of DEF_RE.
  abbrev pub get_def_by : Option String → String → Counts → Option String × Counts
  get_def_by (some ident) s c = (some ident, c)
  get_def_by none s c =
      if obligation_re s
      then (
        some (text_append "<obligation " (text_append (decimal (c.obligation_count + 1)) ">")),
        record c { obligation_count = c.obligation_count + 1 },
      )
      else if goal_re s
      then (
        some (text_append "<goal " (text_append (decimal (c.goal_count + 1)) ">")),
        record c { goal_count = c.goal_count + 1 },
      )
      else (none, c)

  -- Classify.get_def: the name of the definition that a sentence starts.
  unfoldable pub get_def : String → Counts → Option String × Counts
  get_def s c = get_def_by (def_re s) s c

  -- Classify.get_time
  unfoldable pub get_time : String → Result (Option (ℕ × (ℕ × Float)))
  get_time s = elim (time_re s) [
    | none ↦ ok none
    | some g ↦ do
      start ← int_of g.0
      end' ← int_of g.1.0
      time ← float_of g.1.1
      ok (some (start, (end', time)))
  ]

  module _ (db : Db) where
    -- A CoqcFilter with what it writes to the two streams, and the counts of Classify.
    pub record Filter : Type 0 where
      pub vfile : Option String
      pub is_vos : Bool
      pub contents : Option Bytes
      pub curr_def : Option String
      pub tables : db.State
      pub counts : Counts
      pub stdout : List String
      pub stderr : List (ℕ × ℕ)

    -- CoqcFilter._read_vfile: open(None) is a TypeError.
    unfoldable pub read_vfile : Filter → Result Bytes
    read_vfile f = elim f.vfile [ none ↦ err type_error | some name ↦ read_file name ]

    -- `self.contents`, read from the file if there is nothing in it.
    unfoldable pub load_contents : Filter → Result Bytes
    load_contents f = elim f.contents [
      | none ↦ read_vfile f
      | some [] ↦ read_vfile f
      | some (b ∷ bs) ↦ ok (b ∷ bs)
    ]

    -- CoqcFilter.chars
    unfoldable pub chars : ℕ → ℕ → Filter → Result (String × Filter)
    chars start end' f = do
      contents ← load_contents f
      code ← decode (take (end' - start) (drop start contents))
      ok (code, record f { contents = some contents })

    -- The second half of update_timing: the time of a Qed goes to the current definition.
    unfoldable pub time_qed : ℕ → ℕ → Float → Filter → Result Filter
    time_qed start end' time f = elim f.curr_def [
      | none ↦ ok (record f { stderr = f.stderr ++ ((start, end') ∷ []) })
      | some ident ↦ do
        tables ← db.add_qed f.vfile ident time f.tables
        ok (record f { tables = tables })
    ]

    -- `if ident:`, where an empty name counts as none.
    abbrev pub named : Option String → Bool
    named none = false
    named (some ident) = not (str_eq ident "")

    -- CoqcFilter.update_timing
    unfoldable pub update_timing : ℕ → ℕ → Float → Filter → Result Filter
    update_timing start end' time f₀ = do
      (code, f₁) ← chars start end' f₀
      let p = get_def code f₁.counts
      let f = record f₁ { counts = p.1 }
      if named p.0
          then ok (record f { curr_def = p.0 })
          else if qed_re code
          then time_qed start end' time f
          else ok f

    -- CoqcFilter.line
    unfoldable pub line : Bytes → Filter → Result Filter
    line ln f = do
      text ← decode ln
      info ← get_time text
      elim info [
        | some t ↦ update_timing t.0 t.1.0 t.1.1 f
        | none ↦ ok (record f { stdout = f.stdout ++ (text ∷ []) })
      ]

    -- The loop over the output of coqc.
    unfoldable pub run_lines : List Bytes → Filter → Result Filter
    run_lines [] f = ok f
    run_lines (ln ∷ lns) f = do f' ← line ln f; run_lines lns f'

    -- CoqcFilter.done, after `delta` seconds.
    unfoldable pub done : Float → Filter → Result Filter
    done delta f = do
      tables ← db.add_file f.vfile f.is_vos delta f.tables
      ok (record f { tables = db.close tables })
