-- ===== src/Tables/Serve.antt =====
-- One table's Generate of tables/tables.go, over the shared cache, and the plugins of `New`.
pub mod Laws
pub mod Refilter
use amcache.Base.{ℕ, Option, none, some, List, [], ◌∷◌, map, Result, ok, err, Bool}
use amcache.Base.Text.{Text}
use amcache.Hive.Regf.{Ended}
use amcache.Inventory.{Snapshot, Table}
use amcache.Tables.Columns.{Spec, ColumnDefinition, column_defs}
use amcache.Tables.Specs.{specs}
use amcache.Tables.Cell.{Setting}
use amcache.Tables.Query.{Query, Index, index, records_of, selected}
use amcache.Tables.Rows.{RowError, rows_for}
use amcache.Tables.Cache.{Cache, Call, get}

-- `snapshot`: one parse and its index.
pub record Shared : Type 0 where
  pub inv : Snapshot
  pub idx : Index

-- The end of `parse`.
abbrev pub share : Setting → Snapshot → Shared
share w inv = record { inv = inv; idx = index w inv }

-- Generate once it has the snapshot: an absent key is no rows.
unfoldable pub serve :
    Setting → (ℕ → Option Ended) → Spec → Query → Shared → Result RowError (List (Table Text))
serve w ctx s query shared = elim (records_of shared.inv s) [
  | [] ↦ ok []
  | rec ∷ recs ↦ rows_for w ctx s (rec ∷ recs) (selected w.fold query shared.idx s.table)
]

-- What Generate returns as an error: the cache's, the row build's (a panic among them, which it
-- recovers), a missing snapshot, whose use panics, or a panic of the parsers inside `get`.
pub data ServeError (E : Type 0) : Type 0 where
  from_cache : E → ServeError E
  from_rows : RowError → ServeError E
  nil_snapshot : ServeError E
  parser_panic : ServeError E

abbrev pub as_rows :
    {E : Type 0} → Result RowError (List (Table Text)) → Result (ServeError E) (List (Table Text))
as_rows (ok rows) = ok rows
as_rows (err e) = err (from_rows e)

-- What Generate returns for what `get` gave.
abbrev pub answered :
    {E : Type 0}
    → Setting
    → (ℕ → Option Ended)
    → Spec
    → Query
    → Result E (Option Shared)
    → Result (ServeError E) (List (Table Text))
answered w ctx s query (err e) = err (from_cache e)
answered w ctx s query (ok none) = err nil_snapshot
answered w ctx s query (ok (some shared)) = as_rows (serve w ctx s query shared)

-- `generator`, where the parsers do not panic: the cache after the call, and the rows or the error.
unfoldable pub generate :
    {E : Type 0}
    → (E → Bool)
    → Setting
    → (ℕ → Option Ended)
    → Spec
    → Query
    → Call Shared E
    → Cache Shared E
    → Cache Shared E × Result (ServeError E) (List (Table Text))
generate is_ended w ctx s query call c =
    let (c', got) = get is_ended call c in (c', answered w ctx s query got)

-- `New`: the name and the columns of each plugin.
unfoldable pub plugins : List (Text × List ColumnDefinition)
plugins = map (λ s. (s.table, column_defs s)) specs
