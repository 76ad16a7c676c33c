-- ===== src/Tables/Rows.antt =====
-- `rowsFor` of tables/decode.go: one row for each selected record, with every declared column.
pub mod Counts
pub mod Within
pub mod Picked
pub mod Cells
pub mod Typed
pub mod Warnings
use amcache.Base.{
  ℕ, zero, suc, ◌%◌, Option, none, some, List, [], ◌∷◌, if◌then◌else◌, ◌==◌, Result, ok, err, ◌>>=◌,
  ◌≡◌, >>=-eq-ok,
}
use amcache.Base.Text.{Text, text_eq}
use amcache.Hive.Regf.{Ended}
use amcache.Inventory.{Record, Table}
use amcache.Tables.Columns.{Col, Spec}
use amcache.Tables.Cell.{Setting, cell, or_empty}

-- Why a row build ends early: the context has ended, or an index is out of range, which panics.
pub data RowError : Type 0 where
  context_ended : Ended → RowError
  index_panic : RowError

-- `row[k] = v`.
unfoldable pub put : Text → Text → Table Text → Table Text
put k v [] = (k, v) ∷ []
put k v ((j, u) ∷ row) =
    let rest = put k v row in if text_eq k j then (j, v) ∷ row else (j, u) ∷ rest

-- The loop over the columns.
unfoldable pub fill_row : Setting → List Col → Record → Table Text → Table Text
fill_row w [] rec row = row
fill_row w (c ∷ cols) rec row = fill_row w cols rec (put c.name (or_empty (cell w c rec)) row)

-- The record at an index, which panics out of range.
unfoldable pub record_at : List Record → ℕ → Result RowError Record
record_at [] i = err index_panic
record_at (rec ∷ recs) zero = ok rec
record_at (rec ∷ recs) (suc i) = record_at recs i

-- `rec := recs[i]` and, of a selection, `rec = recs[sel[i]]`: both are evaluated for row `i`, and
-- either panics out of range. Without a selection, `k` is `i`.
unfoldable pub row_record : List Record → ℕ → ℕ → Result RowError Record
row_record recs i k = do _ ← record_at recs i; record_at recs k

pub row_record-at :
    (recs : List Record) (i k : ℕ) {rec : Record}
    → row_record recs i k ≡ ok rec
    → record_at recs k ≡ ok rec
unfolding row_record
row_record-at recs i k h = let (_, _, e) = >>=-eq-ok (record_at recs i) _ h in e

-- The context is asked at every 4096th row; `ctx i` is its answer at row `i`.
unfoldable pub check : (ℕ → Option Ended) → ℕ → Result RowError (Unit {0})
check ctx i =
    if i % 4096 == 0
    then (elim (ctx i) [ none ↦ ok tt | some e ↦ err (context_ended e) ])
    else ok tt

-- The loop over the selected indices, from row `i` on.
unfoldable pub build_rows :
    Setting
    → (ℕ → Option Ended)
    → Spec
    → List Record
    → ℕ
    → List ℕ
    → Result RowError (List (Table Text))
build_rows w ctx s recs i [] = ok []
build_rows w ctx s recs i (k ∷ sel) = do
  _ ← check ctx i
  rec ← row_record recs i k
  rows ← build_rows w ctx s recs (suc i) sel
  ok (fill_row w s.cols rec [] ∷ rows)

-- The indices of all records, from `i` on.
unfoldable pub indices : ℕ → List Record → List ℕ
indices i [] = []
indices i (rec ∷ recs) = i ∷ indices (suc i) recs

-- `rowsFor`: no selection is every record.
unfoldable pub rows_for :
    Setting
    → (ℕ → Option Ended)
    → Spec
    → List Record
    → Option (List ℕ)
    → Result RowError (List (Table Text))
rows_for w ctx s recs none = build_rows w ctx s recs 0 (indices 0 recs)
rows_for w ctx s recs (some sel) = build_rows w ctx s recs 0 sel
