-- ===== src/Tables/Query/Selection.antt =====
-- What `selected` selects, record by record.
use amcache.Base.{
  ℕ, ◌≡◌, refl, Bool, true, false, ◌&&◌, ◌||◌, List, [], ◌∷◌, ◌++◌, arith, inl, inr, Option, none,
  some, if◌then◌else◌, ◌∙◌, Option-cases,
}
use amcache.Base.Text.{Text}
use amcache.Inventory.{lookup}
use amcache.Tables.Query.{
  Query, Index, ByValue, Constraint, index_key, is_usable, hits_of, column_hits, sort_unique,
  narrow, select_columns, selected,
}
use amcache.Tables.Query.Sorted.{
  contains, IsAscending, contains-sort_unique, sort_unique-IsAscending, contains-intersect,
  intersect-IsAscending,
}

-- Some constraint of the column can be answered from the index.
abbrev pub any_usable : List Constraint → Bool
any_usable [] = false
any_usable (cst ∷ cl) = is_usable cst || any_usable cl

-- Some usable constraint of the column is met by record `i`.
abbrev pub any_hit : (ℕ → ℕ) → ByValue → List Constraint → ℕ → Bool
any_hit fold by_val [] i = false
any_hit fold by_val (cst ∷ cl) i =
    (is_usable cst && contains i (hits_of fold by_val cst)) || any_hit fold by_val cl i

abbrev pub column_admits : (ℕ → ℕ) → Option ByValue → List Constraint → ℕ → Bool
column_admits fold none cl i = true
column_admits fold (some by_val) cl i = if any_usable cl then any_hit fold by_val cl i else true

-- Record `i` meets every indexed column that has a usable constraint, in one of them.
abbrev pub admits : (ℕ → ℕ) → Index → Text → Query → ℕ → Bool
admits fold idx tbl [] i = true
admits fold idx tbl ((name, cl) ∷ query) i =
    column_admits fold (lookup (index_key tbl name) idx) cl i && admits fold idx tbl query i

-- The query has a usable constraint on some indexed column.
abbrev pub narrows : Index → Text → Query → Bool
narrows idx tbl [] = false
narrows idx tbl ((name, cl) ∷ query) =
    (elim (lookup (index_key tbl name) idx) [ none ↦ false | some _ ↦ any_usable cl ])
    || narrows idx tbl query

-- No selection is every record.
abbrev pub chosen : Option (List ℕ) → ℕ → Bool
chosen none i = true
chosen (some l) i = contains i l

abbrev pub is_some : Option (List ℕ) → Bool
is_some none = false
is_some (some l) = true

abbrev pub HasAscending : Option (List ℕ) → Type 0
HasAscending none = Unit
HasAscending (some l) = IsAscending l

abbrev hit : Option (List ℕ) → ℕ → Bool
hit none i = false
hit (some l) i = contains i l

pub contains-append : (i : ℕ) (a b : List ℕ) → contains i (a ++ b) ≡ (contains i a || contains i b)
contains-append i [] b = refl
contains-append i (x ∷ a) b = ground (arith, contains-append i a b)

module _ (fold : ℕ → ℕ) (by_val : ByValue) where
  -- `hits` after one more constraint.
  abbrev more : Constraint → Option (List ℕ) → Option (List ℕ)
  more cst hits =
      if is_usable cst
      then some (elim hits [ none ↦ [] | some l ↦ l ] ++ hits_of fold by_val cst)
      else hits

  hit-more :
      (cst : Constraint) (hits : Option (List ℕ)) (i : ℕ)
      → hit (more cst hits) i
        ≡ (hit hits i || (is_usable cst && contains i (hits_of fold by_val cst)))
  hit-more cst none i = ground arith
  hit-more cst (some l) i = ground (arith, contains-append i l (hits_of fold by_val cst))

  is_some-more :
      (cst : Constraint) (hits : Option (List ℕ))
      → is_some (more cst hits) ≡ (is_some hits || is_usable cst)
  is_some-more cst none = ground arith
  is_some-more cst (some l) = ground arith

  hit-column_hits :
      (cl : List Constraint) (hits : Option (List ℕ)) (i : ℕ)
      → hit (column_hits fold by_val cl hits) i ≡ (hit hits i || any_hit fold by_val cl i)
  unfolding column_hits
  hit-column_hits [] hits i = ground arith
  hit-column_hits (cst ∷ cl) hits i =
      hit-column_hits cl (more cst hits) i ∙ ground (arith, hit-more cst hits i)

  is_some-column_hits :
      (cl : List Constraint) (hits : Option (List ℕ))
      → is_some (column_hits fold by_val cl hits) ≡ (is_some hits || any_usable cl)
  unfolding column_hits
  is_some-column_hits [] hits = ground arith
  is_some-column_hits (cst ∷ cl) hits =
      is_some-column_hits cl (more cst hits) ∙ ground (arith, is_some-more cst hits)

chosen-narrow :
    (out : Option (List ℕ)) (hits : List ℕ) (i : ℕ)
    → HasAscending out
    → chosen (narrow out hits) i ≡ (chosen out i && contains i hits)
unfolding narrow
chosen-narrow none hits i h = contains-sort_unique i hits
chosen-narrow (some out) hits i h = ground (
  arith,
  contains-intersect i out (sort_unique hits) h (sort_unique-IsAscending hits),
  contains-sort_unique i hits,
)

narrow-HasAscending :
    (out : Option (List ℕ)) (hits : List ℕ) → HasAscending out → HasAscending (narrow out hits)
unfolding narrow
narrow-HasAscending none hits h = sort_unique-IsAscending hits
narrow-HasAscending (some out) hits h =
    intersect-IsAscending out (sort_unique hits) h (sort_unique-IsAscending hits)

is_some-narrow : (out : Option (List ℕ)) (hits : List ℕ) → is_some (narrow out hits) ≡ true
unfolding narrow
is_some-narrow none hits = refl
is_some-narrow (some out) hits = refl

module _ (fold : ℕ → ℕ) (cl : List Constraint) (out : Option (List ℕ)) where
  -- `out` after one constrained column.
  abbrev after : Option ByValue → Option (List ℕ)
  after found = elim found [
    | none ↦ out
    | some by_val ↦ elim (column_hits fold by_val cl none) [
      | none ↦ out
      | some hits ↦ narrow out hits
    ]
  ]

  chosen-after :
      (found : Option ByValue) (i : ℕ)
      → HasAscending out
      → chosen (after found) i ≡ (chosen out i && column_admits fold found cl i)
  chosen-after none i h = ground arith
  chosen-after (some by_val) i h = elim (Option-cases (column_hits fold by_val cl none)) [
    | inl e ↦ ground (arith, e, is_some-column_hits fold by_val cl none)
    | inr (hits, e) ↦ ground (
      arith,
      e,
      hit-column_hits fold by_val cl none i,
      is_some-column_hits fold by_val cl none,
      chosen-narrow out hits i h,
    )
  ]

  after-HasAscending : (found : Option ByValue) → HasAscending out → HasAscending (after found)
  after-HasAscending none h = h
  after-HasAscending (some by_val) h = elim (Option-cases (column_hits fold by_val cl none)) [
    | inl e ↦ rw (e, HasAscending) h
    | inr (hits, e) ↦ rw (e, HasAscending) (narrow-HasAscending out hits h)
  ]

  is_some-after :
      (found : Option ByValue)
      → is_some (after found)
        ≡ (is_some out || (elim found [ none ↦ false | some _ ↦ any_usable cl ]))
  is_some-after none = ground arith
  is_some-after (some by_val) = elim (Option-cases (column_hits fold by_val cl none)) [
    | inl e ↦ ground (arith, e, is_some-column_hits fold by_val cl none)
    | inr (hits, e) ↦
        ground (arith, e, is_some-column_hits fold by_val cl none, is_some-narrow out hits)
  ]

module _ (fold : ℕ → ℕ) (idx : Index) (tbl : Text) where
  select_columns-HasAscending :
      (query : Query) (out : Option (List ℕ))
      → HasAscending out
      → HasAscending (select_columns fold query idx tbl out)
  unfolding select_columns
  select_columns-HasAscending [] out h = h
  select_columns-HasAscending ((name, cl) ∷ query) out h =
      select_columns-HasAscending query (after fold cl out (lookup (index_key tbl name) idx))
        (after-HasAscending fold cl out (lookup (index_key tbl name) idx) h)

  chosen-select_columns :
      (query : Query) (out : Option (List ℕ)) (i : ℕ)
      → HasAscending out
      → chosen (select_columns fold query idx tbl out) i
        ≡ (chosen out i && admits fold idx tbl query i)
  unfolding select_columns
  chosen-select_columns [] out i h = ground arith
  chosen-select_columns ((name, cl) ∷ query) out i h =
      let found = lookup (index_key tbl name) idx in
      chosen-select_columns query (after fold cl out found) i
        (after-HasAscending fold cl out found h)
      ∙ ground (arith, chosen-after fold cl out found i h)

  is_some-select_columns :
      (query : Query) (out : Option (List ℕ))
      → is_some (select_columns fold query idx tbl out) ≡ (is_some out || narrows idx tbl query)
  unfolding select_columns
  is_some-select_columns [] out = ground arith
  is_some-select_columns ((name, cl) ∷ query) out =
      let found = lookup (index_key tbl name) idx in
      is_some-select_columns query (after fold cl out found)
      ∙ ground (arith, is_some-after fold cl out found)

  -- `selected` narrows exactly when the query has a usable constraint on an indexed column; what it
  -- then returns is ascending without repeats, and holds a record exactly when each such column has
  -- a usable constraint that the record meets: a union within a column, an intersection across.
  pub selected_exact :
      (query : Query)
      → (is_some (selected fold query idx tbl) ≡ narrows idx tbl query)
        × HasAscending (selected fold query idx tbl)
        × ((i : ℕ) → chosen (selected fold query idx tbl) i ≡ admits fold idx tbl query i)
  unfolding selected
  selected_exact query = (
    is_some-select_columns query none,
    select_columns-HasAscending query none tt,
    λ i. chosen-select_columns query none i tt,
  )
