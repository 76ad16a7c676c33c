-- ===== src/Tables/Rows/Warnings/Once.antt =====
-- Logging leaves the rows alone, reports every column that fails, and none twice.
use amcache.Base.{
  In, ℕ, ◌≡◌, refl, true, Option, none, List, [], ◌∷◌, map, Result, ok, err, inl, inr, arith,
  Bool-cases, Result-cases, ok-ne-err, sym, ap, ◌∙◌,
}
use mathlib.Core.Path.{subst}
use amcache.Base.Once.{
  IsOnce, once-IsOnce, once_keeps, once_marks, is_listed, is_marked, empty_log, text_key,
}
use amcache.Base.Text.{Text, text_eq, text_eq→eq}
use amcache.Hive.Regf.{Ended}
use amcache.Inventory.{Record, Table}
use amcache.Tables.Columns.{Col, Spec}
use amcache.Tables.Cell.{Setting, cell}
use amcache.Tables.Query.{index_key}
use amcache.Tables.Rows.{RowError, record_at, rows_for}
use amcache.Tables.Rows.Warnings.{
  Line, Log, warn_decode, build_counted, warn_all, selection, logged, rows_for_logged,
}
use amcache.Tables.Rows.Warnings.Counted.{names, rows_for_logged-rows, build_counted-fails}

abbrev pub line_key : Line → Text
line_key l = index_key l.table l.column

-- Each column that has been reported has one line, and each line's column has been reported.
abbrev pub IsColumnOnce : Log → Type 0
IsColumnOnce = IsOnce line_key

warn_decode-IsColumnOnce :
    (tbl col : Text) (n : ℕ) (log : Log)
    → IsColumnOnce log
    → IsColumnOnce (warn_decode tbl col n log)
unfolding warn_decode
warn_decode-IsColumnOnce tbl col n log h =
    once-IsOnce line_key (record { table = tbl; column = col; count = n }) log h

warn_all-IsColumnOnce :
    (tbl : Text) (failed : Table ℕ) (log : Log)
    → IsColumnOnce log
    → IsColumnOnce (warn_all tbl failed log)
unfolding warn_all
warn_all-IsColumnOnce tbl [] log h = h
warn_all-IsColumnOnce tbl ((col, n) ∷ failed) log h =
    warn_all-IsColumnOnce tbl failed (warn_decode tbl col n log)
      (warn_decode-IsColumnOnce tbl col n log h)

logged-IsColumnOnce :
    (tbl : Text) (log : Log) (r : Result RowError (List (Table Text) × Table ℕ))
    → IsColumnOnce log
    → IsColumnOnce (logged tbl log r).1
logged-IsColumnOnce tbl log (err e) h = h
logged-IsColumnOnce tbl log (ok (rows, failed)) h = warn_all-IsColumnOnce tbl failed log h

-- The log over the life of the process: row builds of any tables.
pub data Logged : Log → Type 0 where
  silent : Logged (empty_log)
  built :
      {log : Log} (w : Setting) (ctx : ℕ → Option Ended) (s : Spec) (recs : List Record)
      (sel : Option (List ℕ))
      → Logged log
      → Logged (rows_for_logged w ctx s recs sel log).1

Logged-IsColumnOnce : {log : Log} → Logged log → IsColumnOnce log
unfolding rows_for_logged
Logged-IsColumnOnce silent = (refl, refl)
Logged-IsColumnOnce (built {log = log} w ctx s recs sel l) =
    logged-IsColumnOnce s.table log (build_counted w ctx s recs 0 (selection recs sel) [])
      (Logged-IsColumnOnce l)

module _ (tbl : Text) where
  warn_decode_keeps :
      (col : Text) (n : ℕ) (log : Log) (k : Text)
      → is_marked k log ≡ true
      → is_marked k (warn_decode tbl col n log) ≡ true
  unfolding warn_decode
  warn_decode_keeps col n log k h = once_keeps (index_key tbl col) _ log k h

  warn_decode_warns :
      (col : Text) (n : ℕ) (log : Log)
      → is_marked (index_key tbl col) (warn_decode tbl col n log) ≡ true
  unfolding warn_decode
  warn_decode_warns col n log = once_marks (index_key tbl col) _ log

  warn_all_keeps :
      (failed : Table ℕ) (log : Log) (k : Text)
      → is_listed k log.marked ≡ true
      → is_listed k (warn_all tbl failed log).marked ≡ true
  unfolding warn_all
  warn_all_keeps [] log k h = h
  warn_all_keeps ((col, n) ∷ failed) log k h =
      warn_all_keeps failed (warn_decode tbl col n log) k (warn_decode_keeps col n log k h)

  warn_all_warns :
      (failed : Table ℕ) (log : Log) (col : Text)
      → is_listed col (names failed) ≡ true
      → is_listed (index_key tbl col) (warn_all tbl failed log).marked ≡ true
  unfolding warn_all
  warn_all_warns [] log col h = cc
  warn_all_warns ((name, n) ∷ failed) log col h = elim (Bool-cases (text_eq col name)) [
    | inl e ↦ warn_all_keeps failed (warn_decode tbl name n log) (index_key tbl col) (
        subst (λ c. is_listed (index_key tbl c) (warn_decode tbl name n log).marked ≡ true)
          (sym (text_eq→eq col name e)) (warn_decode_warns name n log))
    | inr e ↦ warn_all_warns failed (warn_decode tbl name n log) col (ground (arith, e, h))
  ]

-- A selected record whose cell in the column could not be decoded.
abbrev pub Fails : Setting → Spec → List Record → Option (List ℕ) → Col → Type 0
Fails w s recs sel c =
    (k : ℕ) × (rec : Record) × In k (selection recs sel)
    × (record_at recs k ≡ ok rec)
    × (cell w c rec ≡ none)

reported :
    (w : Setting) (ctx : ℕ → Option Ended) (s : Spec) (recs : List Record) (sel : Option (List ℕ))
    (log : Log) (rows : List (Table Text)) (c : Col)
    → (rows_for_logged w ctx s recs sel log).0 ≡ ok rows
    → In c s.cols
    → Fails w s recs sel c
    → is_listed (index_key s.table c.name) (rows_for_logged w ctx s recs sel log).1.marked ≡ true
unfolding rows_for_logged
reported w ctx s recs sel log rows c h col (k, rec, m, at, fails) =
    elim (Result-cases (build_counted w ctx s recs 0 (selection recs sel) [])) [
      | inr (e, x) ↦ absurd (ok-ne-err rows e (sym h ∙ ap (λ r. (logged s.table log r).0) x))
      | inl ((l, out), x) ↦ rw x (
          warn_all_warns s.table out log c.name (
            build_counted-fails w ctx s recs 0 (selection recs sel) [] k rec c l out m at col fails
              x))
    ]

-- After any row builds, one more gives the rows that it gives without the log; no column of a table is
-- reported twice, over all of them; and where it succeeds, each column in which a selected record has
-- a value that could not be decoded has been reported.
pub rows_for_logged-IsOnce :
    (w : Setting) (ctx : ℕ → Option Ended) (s : Spec) (recs : List Record) (sel : Option (List ℕ))
    (log : Log)
    → Logged log
    → ((rows_for_logged w ctx s recs sel log).0 ≡ rows_for w ctx s recs sel)
      × IsColumnOnce (rows_for_logged w ctx s recs sel log).1
      × ((rows : List (Table Text)) (c : Col)
          → (rows_for_logged w ctx s recs sel log).0 ≡ ok rows
          → In c s.cols
          → Fails w s recs sel c
          → is_listed
              (index_key s.table c.name)
              (map line_key (rows_for_logged w ctx s recs sel log).1.lines)
            ≡ true)
rows_for_logged-IsOnce w ctx s recs sel log l =
    let once : IsColumnOnce (rows_for_logged w ctx s recs sel log).1 =
      Logged-IsColumnOnce (built w ctx s recs sel l) in
    (
      rows_for_logged-rows w ctx s recs sel log,
      once,
      λ rows c h col fails.
          ap (is_listed (index_key s.table c.name)) (sym once.0)
          ∙ reported w ctx s recs sel log rows c h col fails,
    )
