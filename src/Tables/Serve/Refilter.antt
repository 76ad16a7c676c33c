-- ===== src/Tables/Serve/Refilter.antt =====
-- Pushdown is invisible: SQLite filters again what a query's constraints selected, and finds what it
-- would find in the whole table.
use amcache.Base.{
  In, ℕ, ◌+◌, ◌≤◌, ◌≡◌, refl, Bool, true, ◌&&◌, Option, none, some, List, [], ◌∷◌, map,
  if◌then◌else◌, ok, arith, All, ok_injective, ◌∙◌, sym, ap, Option-cases, inl, inr, Result,
}
use mathlib.Core.Path.{subst}
use amcache.Base.Text.{Text, text_eq}
use amcache.Hive.Regf.{Ended}
use amcache.Inventory.{Record, Snapshot, Table, lookup}
use amcache.Tables.Columns.{Col, Spec}
use amcache.Tables.Specs.{specs}
use amcache.Tables.Cell.{Setting, cell, or_empty}
use amcache.Tables.Rows.{RowError, record_at, indices, rows_for}
use amcache.Tables.Rows.Picked.{
  row_of, refilter, build_rows-picked, picked-indices, refilter-picked,
}
use amcache.Tables.Rows.Cells.{ShowsCells, row-ShowsCells}
use amcache.Tables.Query.{Query, Constraint, index, records_of, selected, select_columns}
use amcache.Tables.Query.Sorted.{contains}
use amcache.Tables.Query.Selection.{chosen, HasAscending, selected_exact}
use amcache.Tables.Query.Superset.{cell_passes, column_passes, row_passes, selected-superset}
use amcache.Tables.Serve.{share, serve}

abbrev shown : Table Text → Text → Text
shown row name = or_empty (lookup name row)

-- What the row shows in every pushed column of that name meets the column's usable constraints in one
-- at least.
abbrev column_meets : Table Text → Text → List Constraint → List Col → Bool
column_meets row name cl [] = true
column_meets row name cl (c ∷ cols) =
    (if c.push && text_eq name c.name then cell_passes (shown row c.name) cl else true)
    && column_meets row name cl cols

-- So for every constrained column.
abbrev pub row_meets : Table Text → List Col → Query → Bool
row_meets row cols [] = true
row_meets row cols ((name, cl) ∷ query) = column_meets row name cl cols && row_meets row cols query

module _ (w : Setting) (rec : Record) (row : Table Text) where
  column_passes-eq-meets :
      (name : Text) (cl : List Constraint) (cols : List Col)
      → ShowsCells w rec cols row
      → column_passes w rec name cl cols ≡ column_meets row name cl cols
  column_passes-eq-meets name cl [] h = refl
  column_passes-eq-meets name cl (c ∷ cols) h =
      let e : shown row c.name ≡ or_empty (cell w c rec) = ap or_empty h.0 in
      rw (e, column_passes-eq-meets name cl cols h.1)

  row_passes-eq-meets :
      (cols : List Col) (query : Query)
      → ShowsCells w rec cols row
      → row_passes w rec cols query ≡ row_meets row cols query
  row_passes-eq-meets cols [] h = refl
  row_passes-eq-meets cols ((name, cl) ∷ query) h =
      rw (column_passes-eq-meets name cl cols h, row_passes-eq-meets cols query h)

module _ (w : Setting) (ctx : ℕ → Option Ended) (s : Spec) (inv : Snapshot)
    (known : In s specs) where
  -- Serve, with the records of the table as a variable.
  abbrev serve_from : Query → List Record → Result RowError (List (Table Text))
  serve_from query recs = elim recs [
    | [] ↦ ok []
    | rec ∷ more ↦ rows_for w ctx s (rec ∷ more) (selected w.fold query (index w inv) s.table)
  ]

  built_all :
      (recs : List Record) (rows : List (Table Text))
      → rows_for w ctx s recs none ≡ ok rows
      → rows ≡ map (row_of w s) recs
  unfolding rows_for
  built_all recs rows h =
      build_rows-picked w ctx s recs 0 (indices 0 recs) rows h ∙ picked-indices (row_of w s) 0 recs

  all_rows :
      (recs : List Record) (rows : List (Table Text))
      → serve_from [] recs ≡ ok rows
      → rows ≡ map (row_of w s) recs
  unfolding selected select_columns
  all_rows [] rows h = sym (ok_injective h)
  all_rows (rec ∷ more) rows h = built_all (rec ∷ more) rows h

  module _ (query : Query) (keep : Table Text → Bool)
      (implied : (row : Table Text) → keep row ≡ true → row_meets row s.cols query ≡ true) where
    kept-passes :
        (rec : Record) → keep (row_of w s rec) ≡ true → row_passes w rec s.cols query ≡ true
    kept-passes rec h =
        row_passes-eq-meets w rec (row_of w s rec) s.cols query (row-ShowsCells w rec s known)
        ∙ implied (row_of w s rec) h

    all_above : (sel : List ℕ) → All (λ j. 0 ≤ j) sel
    all_above [] = tt
    all_above (j ∷ sel) = (omega arith, all_above sel)

    built_some :
        (recs : List Record) (sel : List ℕ) (rows : List (Table Text))
        → records_of inv s ≡ recs
        → selected w.fold query (index w inv) s.table ≡ some sel
        → rows_for w ctx s recs (some sel) ≡ ok rows
        → refilter keep rows ≡ refilter keep (map (row_of w s) recs)
    unfolding rows_for
    built_some recs sel rows e narrowed h =
        let (_, ascending, _) = selected_exact w.fold (index w inv) s.table query in
        ap (refilter keep) (build_rows-picked w ctx s recs 0 sel rows h)
        ∙ refilter-picked (row_of w s) keep 0 recs sel (subst HasAscending narrowed ascending)
            (all_above sel)
            (λ i rec at kept.
              let same : i ≡ 0 + i = omega arith in
              subst (λ n. contains n sel ≡ true) same
                (subst (λ o. chosen o i ≡ true) narrowed
                  (selected-superset w inv s i rec query known (ap (λ l. record_at l i) e ∙ at)
                    (kept-passes rec kept))))

    pub some_rows :
        (recs : List Record) (rows : List (Table Text))
        → records_of inv s ≡ recs
        → serve_from query recs ≡ ok rows
        → refilter keep rows ≡ refilter keep (map (row_of w s) recs)
    some_rows [] rows e h = ap (refilter keep) (sym (ok_injective h))
    some_rows (rec ∷ more) rows e h =
        elim (Option-cases (selected w.fold query (index w inv) s.table)) [
          | inl all ↦ ap (refilter keep) (
              built_all (rec ∷ more) rows
                (subst (λ o. rows_for w ctx s (rec ∷ more) o ≡ ok rows) all h))
          | inr (sel, narrowed) ↦
              built_some (rec ∷ more) sel rows e narrowed
                (subst (λ o. rows_for w ctx s (rec ∷ more) o ≡ ok rows) narrowed h)
        ]

-- A condition that implies a query's constraints keeps the same rows, in the same order, of what one
-- of the seven tables serves for the query and of the whole table.
pub serve-refilter :
    (w : Setting) (ctx : ℕ → Option Ended) (s : Spec) (inv : Snapshot) (query : Query)
    (keep : Table Text → Bool) (rows all : List (Table Text))
    → In s specs
    → ((row : Table Text) → keep row ≡ true → row_meets row s.cols query ≡ true)
    → serve w ctx s query (share w inv) ≡ ok rows
    → serve w ctx s [] (share w inv) ≡ ok all
    → refilter keep rows ≡ refilter keep all
unfolding serve
serve-refilter w ctx s inv query keep rows all known implied h k =
    some_rows w ctx s inv known query keep implied (records_of inv s) rows refl h
    ∙ ap (refilter keep) (sym (all_rows w ctx s inv known (records_of inv s) all k))
