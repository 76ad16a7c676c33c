-- ===== src/Tables/Rows/Warnings.antt =====
-- `rowsFor` of tables/decode.go with what it logs: the columns whose values could not be decoded are
-- counted, and `warnDecode` reports each column of a table once in the life of the process.
pub mod Counted
pub mod Once
use amcache.Base.{
  ℕ, zero, suc, ◌+◌, Option, none, some, List, [], ◌∷◌, if◌then◌else◌, Result, ok, err, ◌>>=◌,
}
use amcache.Base.Once.{OnceLog, once, text_key}
use amcache.Base.Text.{Text, text_eq}
use amcache.Hive.Regf.{Ended}
use amcache.Inventory.{Record, Table}
use amcache.Tables.Columns.{Col, Spec}
use amcache.Tables.Cell.{Setting, cell, or_empty}
use amcache.Tables.Query.{index_key}
use amcache.Tables.Rows.{row_record, RowError, check, record_at, indices, put}

-- A line of the log: the table, the column, and how many values.
pub record Line : Type 0 where
  pub table : Text
  pub column : Text
  pub count : ℕ

-- `warned`, and what was printed.
abbrev pub Log : Type 0
Log = OnceLog Text Line

-- `warnDecode`.
unfoldable pub warn_decode : Text → Text → ℕ → Log → Log
warn_decode tbl col n = once (index_key tbl col) (record { table = tbl; column = col; count = n })

-- `failed[c.name]++`.
unfoldable pub count_failure : Text → Table ℕ → Table ℕ
count_failure k [] = (k, 1) ∷ []
count_failure k ((j, n) ∷ t) =
    let rest = count_failure k t in if text_eq k j then (j, n + 1) ∷ t else (j, n) ∷ rest

abbrev pub tally : Text → Option Text → Table ℕ → Table ℕ
tally k none t = count_failure k t
tally k (some v) t = t

-- The loop over the columns of one record, with the row and the counts.
unfoldable pub fill_counted :
    Setting → List Col → Record → Table Text → Table ℕ → Table Text × Table ℕ
fill_counted w [] rec row failed = (row, failed)
fill_counted w (c ∷ cols) rec row failed =
    fill_counted w cols rec (put c.name (or_empty (cell w c rec)) row)
      (tally c.name (cell w c rec) failed)

-- The loop over the selected indices, from row `i` on.
unfoldable pub build_counted :
    Setting
    → (ℕ → Option Ended)
    → Spec
    → List Record
    → ℕ
    → List ℕ
    → Table ℕ
    → Result RowError (List (Table Text) × Table ℕ)
build_counted w ctx s recs i [] failed = ok ([], failed)
build_counted w ctx s recs i (k ∷ sel) failed = do
  _ ← check ctx i
  rec ← row_record recs i k
  out ← build_counted w ctx s recs (suc i) sel (fill_counted w s.cols rec [] failed).1
  ok ((fill_counted w s.cols rec [] failed).0 ∷ out.0, out.1)

-- The loop over `failed`.
unfoldable pub warn_all : Text → Table ℕ → Log → Log
warn_all tbl [] log = log
warn_all tbl ((col, n) ∷ failed) log = warn_all tbl failed (warn_decode tbl col n log)

-- No selection is every record.
abbrev pub selection : List Record → Option (List ℕ) → List ℕ
selection recs none = indices 0 recs
selection recs (some sel) = sel

abbrev pub logged :
    Text
    → Log
    → Result RowError (List (Table Text) × Table ℕ)
    → Result RowError (List (Table Text)) × Log
logged tbl log (err e) = (err e, log)
logged tbl log (ok (rows, failed)) = (ok rows, warn_all tbl failed log)

-- `rowsFor`, with the log before and after.
unfoldable pub rows_for_logged :
    Setting
    → (ℕ → Option Ended)
    → Spec
    → List Record
    → Option (List ℕ)
    → Log
    → Result RowError (List (Table Text)) × Log
rows_for_logged w ctx s recs sel log =
    logged s.table log (build_counted w ctx s recs 0 (selection recs sel) [])
