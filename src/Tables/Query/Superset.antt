-- ===== src/Tables/Query/Superset.antt =====
-- The selection is a superset of what the query asks for: no record whose cells meet the constraints
-- is left out.
use amcache.Base.{
  In, ℕ, ◌≡◌, ◌≢◌, refl, Bool, true, false, ◌&&◌, ◌||◌, List, [], ◌∷◌, arith, inl, inr, Option,
  none, some, if◌then◌else◌, ◌∙◌, Option-cases, ok, and_left, and_right,
}
use mathlib.Core.Path.{subst}
use amcache.Base.Text.{Text, text_eq, text_eq_refl, text_eq→eq, to_lower}
use amcache.Inventory.{Record, Snapshot, lookup}
use amcache.Tables.Columns.{Col, Spec}
use amcache.Tables.Specs.{specs}
use amcache.Tables.Cell.{Setting, cell, or_empty}
use amcache.Tables.Rows.{record_at}
use amcache.Tables.Query.{
  Query, ByValue, Constraint, index_key, is_usable, hits_of, index_records, index, records_of,
  selected,
}
use amcache.Tables.Query.Sorted.{contains}
use amcache.Tables.Query.Selection.{
  any_usable, any_hit, column_admits, admits, chosen, selected_exact,
}
use amcache.Tables.Query.Located.{find_pushed, Indexed, index_specs-Indexed, specs-Separate}
use amcache.Tables.Query.Indexing.{lists, carries, carried_at, index_records_exact}

-- Some usable constraint is an equality with the cell itself.
abbrev pub any_equal : Text → List Constraint → Bool
any_equal v [] = false
any_equal v (cst ∷ cl) = (is_usable cst && text_eq v cst.expression) || any_equal v cl

-- The cell, as the row shows it, meets the column's usable constraints in one at least.
abbrev pub cell_passes : Text → List Constraint → Bool
cell_passes v cl = if any_usable cl then any_equal v cl else true

-- So for every pushed column of that name.
abbrev pub column_passes : Setting → Record → Text → List Constraint → List Col → Bool
column_passes w rec name cl [] = true
column_passes w rec name cl (c ∷ cols) =
    (if c.push && text_eq name c.name then cell_passes (or_empty (cell w c rec)) cl else true)
    && column_passes w rec name cl cols

abbrev pub row_passes : Setting → Record → List Col → Query → Bool
row_passes w rec cols [] = true
row_passes w rec cols ((name, cl) ∷ query) =
    column_passes w rec name cl cols && row_passes w rec cols query

module _ (w : Setting) (rec : Record) (name : Text) (cl : List Constraint) where
  abbrev FoundPasses : Option Col → Type 0
  FoundPasses none = Unit
  FoundPasses (some c) = cell_passes (or_empty (cell w c rec)) cl ≡ true

  found_after :
      (b : Bool) (c : Col) (found : Option Col)
      → FoundPasses found
      → (if b then cell_passes (or_empty (cell w c rec)) cl else true) ≡ true
      → FoundPasses (if b then some c else found)
  found_after true c found h e = e
  found_after false c found h e = h

  find_pushed-passes :
      (cols : List Col) (found : Option Col)
      → FoundPasses found
      → column_passes w rec name cl cols ≡ true
      → FoundPasses (find_pushed name cols found)
  find_pushed-passes [] found h e = h
  find_pushed-passes (c ∷ cols) found h e =
      find_pushed-passes cols (if c.push && text_eq name c.name then some c else found)
        (found_after (c.push && text_eq name c.name) c found h (and_left _ _ e)) (and_right _ _ e)

module _ (w : Setting) (c : Col) (recs : List Record) (i : ℕ) (rec : Record)
    (here : record_at recs i ≡ ok rec) where
  carried : (v : Text) → carried_at w c recs i v ≡ carries w c rec v
  carried v = rw (here, carried_at)

  contains-hits_of :
      (fold : ℕ → ℕ) (by_val : ByValue) (cst : Constraint)
      → contains i (hits_of fold by_val cst) ≡ lists by_val (to_lower fold cst.expression) i
  contains-hits_of fold by_val cst =
      elim (Option-cases (lookup (to_lower fold cst.expression) by_val)) [
        | inl e ↦ ground (arith, e)
        | inr (hits, e) ↦ ground (arith, e)
      ]

  usable-not_empty : (cst : Constraint) → is_usable cst ≡ true → cst.expression ≢ []
  unfolding is_usable
  usable-not_empty cst h = ground arith

  carries-cell :
      (s : Text) → or_empty (cell w c rec) ≡ s → s ≢ [] → carries w c rec (to_lower w.fold s) ≡ true
  carries-cell s e ne = ground (arith, text_eq_refl (to_lower w.fold s))

  equal_hits :
      (cst : Constraint)
      → is_usable cst ≡ true
      → text_eq (or_empty (cell w c rec)) cst.expression ≡ true
      → contains i (hits_of w.fold (index_records w c 0 recs []) cst) ≡ true
  equal_hits cst u e =
      contains-hits_of w.fold (index_records w c 0 recs []) cst
      ∙ index_records_exact w c recs (to_lower w.fold cst.expression) i
      ∙ carried (to_lower w.fold cst.expression)
      ∙ carries-cell cst.expression (text_eq→eq _ _ e) (usable-not_empty cst u)

  any_equal-any_hit :
      (cl : List Constraint)
      → any_equal (or_empty (cell w c rec)) cl ≡ true
      → any_hit w.fold (index_records w c 0 recs []) cl i ≡ true
  any_equal-any_hit [] h = h
  any_equal-any_hit (cst ∷ cl) h = ground (arith, equal_hits cst, any_equal-any_hit cl)

  passes-admits :
      (cl : List Constraint)
      → cell_passes (or_empty (cell w c rec)) cl ≡ true
      → column_admits w.fold (some (index_records w c 0 recs [])) cl i ≡ true
  passes-admits cl h = ground (arith, any_equal-any_hit cl)

module _ (w : Setting) (inv : Snapshot) (s : Spec) (i : ℕ) (rec : Record) where
  column-admits :
      (name : Text) (cl : List Constraint) (found : Option ByValue)
      → record_at (records_of inv s) i ≡ ok rec
      → Indexed w inv s name found
      → column_passes w rec name cl s.cols ≡ true
      → column_admits w.fold found cl i ≡ true
  column-admits name cl found here (inl e) h = rw e
  column-admits name cl found here (inr (c, e, f)) h = rw f (
      passes-admits w c (records_of inv s) i rec here cl
        (subst (FoundPasses w rec name cl) e (find_pushed-passes w rec name cl s.cols none tt h)))

  row-admits :
      (query : Query)
      → In s specs
      → record_at (records_of inv s) i ≡ ok rec
      → row_passes w rec s.cols query ≡ true
      → admits w.fold (index w inv) s.table query i ≡ true
  row-admits [] known here h = refl
  row-admits ((name, cl) ∷ query) known here h =
      let found =
        index_specs-Indexed w inv s name specs [] known specs-Separate (unfold lookup in refl) in
      ground (
        arith,
        column-admits name cl (lookup (index_key s.table name) (index w inv)) here
            (unfold index in found)
            (and_left (column_passes w rec name cl s.cols) (row_passes w rec s.cols query) h),
        row-admits query known here
            (and_right (column_passes w rec name cl s.cols) (row_passes w rec s.cols query) h),
      )

  -- A record of one of the seven tables is never left out of the selection, whatever the hive holds,
  -- if its cell equals the expression of some usable constraint in every pushed column on which the
  -- query has a usable one: SQLite filters a superset of the answer.
  pub selected-superset :
      (query : Query)
      → In s specs
      → record_at (records_of inv s) i ≡ ok rec
      → row_passes w rec s.cols query ≡ true
      → chosen (selected w.fold query (index w inv) s.table) i ≡ true
  selected-superset query known here h =
      (selected_exact w.fold (index w inv) s.table query).2 i ∙ row-admits query known here h
