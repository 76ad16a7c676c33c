-- ===== src/Tables/Rows/Cells.antt =====
-- What a row shows under a column's name: the column's own cell, since no table has a name twice.
use amcache.Base.{
  In, All-In, ◌≡◌, refl, Bool, true, ◌&&◌, not, some, List, [], ◌∷◌, if◌then◌else◌, arith, All, ◌∙◌,
  and_left, and_right,
}
use amcache.Base.Text.{Text, text_eq, text_eq_iff, text_eq_refl}
use amcache.Inventory.{Record, Table, lookup}
use amcache.Tables.Columns.{Col, Spec}
use amcache.Tables.Specs.{
  specs, application_files, applications, application_shortcuts, driver_binaries, driver_packages,
  device_pnp, device_containers,
}
use amcache.Tables.Cell.{Setting, cell, or_empty}
use amcache.Tables.Rows.{put, fill_row}

lookup-put :
    (j k v : Text) (row : Table Text)
    → lookup j (put k v row) ≡ (if text_eq j k then some v else lookup j row)
unfolding put lookup
lookup-put j k v [] = ground arith
lookup-put j k v ((i, u) ∷ row) =
    ground (arith, text_eq_iff k i, text_eq_iff j i, text_eq_iff j k, lookup-put j k v row)

abbrev is_new_name : Text → List Col → Bool
is_new_name name [] = true
is_new_name name (c ∷ cols) = not (text_eq name c.name) && is_new_name name cols

abbrev has_distinct_names : List Col → Bool
has_distinct_names [] = true
has_distinct_names (c ∷ cols) = is_new_name c.name cols && has_distinct_names cols

specs-has_distinct_names : All (λ (s : Spec). has_distinct_names s.cols ≡ true) specs
unfolding specs text_eq application_files applications application_shortcuts driver_binaries
    driver_packages device_pnp device_containers
specs-has_distinct_names = (refl, (refl, (refl, (refl, (refl, (refl, (refl, tt)))))))

module _ (w : Setting) (rec : Record) where
  lookup-fill_row_other :
      (name : Text) (cols : List Col) (row : Table Text)
      → is_new_name name cols ≡ true
      → lookup name (fill_row w cols rec row) ≡ lookup name row
  unfolding fill_row
  lookup-fill_row_other name [] row h = refl
  lookup-fill_row_other name (c ∷ cols) row h = ground (
    arith,
    lookup-fill_row_other name cols (put c.name (or_empty (cell w c rec)) row),
    lookup-put name c.name (or_empty (cell w c rec)) row,
  )

  -- Each column of the list shows its own cell.
  abbrev pub ShowsCells : List Col → Table Text → Type 0
  ShowsCells cols row = All (λ (c : Col). lookup c.name row ≡ some (or_empty (cell w c rec))) cols

  fill_row-ShowsCells :
      (cols : List Col) (row : Table Text)
      → has_distinct_names cols ≡ true
      → ShowsCells cols (fill_row w cols rec row)
  unfolding fill_row
  fill_row-ShowsCells [] row h = tt
  fill_row-ShowsCells (c ∷ cols) row h = (
    lookup-fill_row_other c.name cols (put c.name (or_empty (cell w c rec)) row) (and_left _ _ h)
        ∙ ground
            (arith, lookup-put c.name c.name (or_empty (cell w c rec)) row, text_eq_refl c.name),
    fill_row-ShowsCells cols (put c.name (or_empty (cell w c rec)) row)
        (and_right (is_new_name c.name cols) _ h),
  )

  pub row-ShowsCells : (s : Spec) → In s specs → ShowsCells s.cols (fill_row w s.cols rec [])
  row-ShowsCells s known = fill_row-ShowsCells s.cols [] (
      All-In (λ (t : Spec). has_distinct_names t.cols ≡ true) s specs specs-has_distinct_names
        known)
