-- ===== src/Tables/Query/Located.antt =====
-- Where the index holds a column: the keys of different tables never meet, and what is found under a
-- column's key is the index of that column over its table's records.
use amcache.Base.{
  In, All-In, ◌≡◌, refl, Bool, true, false, ◌&&◌, not, List, [], ◌∷◌, ◌==◌, arith, All, inl, inr,
  Option, none, some, if◌then◌else◌, ◌∙◌, sym, ap, ◌⊎◌,
}
use mathlib.Core.Path.{subst}
use amcache.Base.Text.{Text, text_eq}
use amcache.Inventory.{Record, Snapshot, lookup}
use amcache.Tables.Columns.{Col, Spec}
use amcache.Tables.Specs.{specs}
use amcache.Tables.Cell.{Setting}
use amcache.Tables.Query.{
  Index, ByValue, index_key, index_records, index_cols, index_specs, records_of,
}

-- No character of the text is NUL.
abbrev pub has_no_nul : Text → Bool
has_no_nul [] = true
has_no_nul (c ∷ s) = not (c == 0) && has_no_nul s

-- Table names without NUL make the keys of the index unambiguous.
index_key-ne :
    (t u n m : Text)
    → has_no_nul t ≡ true
    → has_no_nul u ≡ true
    → text_eq t u ≡ false
    → text_eq (index_key t n) (index_key u m) ≡ false
unfolding text_eq
index_key-ne [] [] n m h k e = cc
index_key-ne [] (d ∷ u) n m h k e = ground arith
index_key-ne (c ∷ t) [] n m h k e = ground arith
index_key-ne (c ∷ t) (d ∷ u) n m h k e = ground (arith, index_key-ne t u n m)

index_key-text_eq : (t n m : Text) → text_eq (index_key t n) (index_key t m) ≡ text_eq n m
unfolding text_eq
index_key-text_eq [] n m = ground arith
index_key-text_eq (c ∷ t) n m = ground (arith, index_key-text_eq t n m)

-- The last pushed column of that name, or what was found before.
abbrev pub find_pushed : Text → List Col → Option Col → Option Col
find_pushed name [] found = found
find_pushed name (c ∷ cols) found =
    find_pushed name cols (if c.push && text_eq name c.name then some c else found)

module _ (w : Setting) (recs : List Record) where
  abbrev column_index : Option Col → Option ByValue → Option ByValue
  column_index none before = before
  column_index (some c) before = some (index_records w c 0 recs [])

  lookup-index_cols :
      (tbl name : Text) (cols : List Col) (idx : Index) (found : Option Col)
      (before : Option ByValue)
      → lookup (index_key tbl name) idx ≡ column_index found before
      → lookup (index_key tbl name) (index_cols w tbl cols recs idx)
        ≡ column_index (find_pushed name cols found) before
  unfolding index_cols
  lookup-index_cols tbl name [] idx found before h = h
  lookup-index_cols tbl name (c ∷ cols) idx found before h =
      lookup-index_cols tbl name cols _ _ before step
    where
      step :
          lookup
            (index_key tbl name)
            (if c.push then (index_key tbl c.name, index_records w c 0 recs []) ∷ idx else idx)
          ≡ column_index (if c.push && text_eq name c.name then some c else found) before
      step = unfold lookup in ground (arith, h, index_key-text_eq tbl name c.name)

  lookup-index_cols_other :
      (tbl t name : Text) (cols : List Col) (idx : Index)
      → has_no_nul tbl ≡ true
      → has_no_nul t ≡ true
      → text_eq tbl t ≡ false
      → lookup (index_key tbl name) (index_cols w t cols recs idx) ≡ lookup (index_key tbl name) idx
  unfolding index_cols
  lookup-index_cols_other tbl t name [] idx h k e = refl
  lookup-index_cols_other tbl t name (c ∷ cols) idx h k e =
      lookup-index_cols_other tbl t name cols _ h k e ∙ step
    where
      step :
          lookup
            (index_key tbl name)
            (if c.push then (index_key t c.name, index_records w c 0 recs []) ∷ idx else idx)
          ≡ lookup (index_key tbl name) idx
      step = unfold lookup in ground (arith, index_key-ne tbl t name c.name h k e)

-- No two tables share a name, and no name has a NUL.
abbrev pub Separate : List Spec → Type 0
Separate [] = Unit
Separate (s ∷ rest) =
    (has_no_nul s.table ≡ true)
    × All (λ t. text_eq t.table s.table ≡ false) rest
    × All (λ t. text_eq s.table t.table ≡ false) rest
    × Separate rest

module _ (w : Setting) (inv : Snapshot) where
  -- The index after one more table.
  abbrev with_spec : Spec → Index → Index
  with_spec s idx = elim (records_of inv s) [
    | [] ↦ idx
    | rec ∷ recs ↦ index_cols w s.table s.cols (rec ∷ recs) idx
  ]

  with_spec-other :
      (tbl name : Text) (s : Spec) (idx : Index)
      → has_no_nul tbl ≡ true
      → has_no_nul s.table ≡ true
      → text_eq tbl s.table ≡ false
      → lookup (index_key tbl name) (with_spec s idx) ≡ lookup (index_key tbl name) idx
  with_spec-other tbl name s idx h k e =
      elim (records_of inv s)
        as (λ r.
          lookup (index_key tbl name)
            (elim r [ [] ↦ idx | rec ∷ recs ↦ index_cols w s.table s.cols (rec ∷ recs) idx ])
          ≡ lookup (index_key tbl name) idx) [
            | [] ↦ refl
            | rec ∷ recs ↦ lookup-index_cols_other w (rec ∷ recs) tbl s.table name s.cols idx h k e
          ]

  index_specs-other :
      (tbl name : Text) (l : List Spec) (idx : Index)
      → has_no_nul tbl ≡ true
      → Separate l
      → All (λ t. text_eq tbl t.table ≡ false) l
      → lookup (index_key tbl name) (index_specs w inv l idx) ≡ lookup (index_key tbl name) idx
  unfolding index_specs
  index_specs-other tbl name [] idx h k e = refl
  index_specs-other tbl name (s ∷ l) idx h k e =
      index_specs-other tbl name l (with_spec s idx) h k.3 e.1
      ∙ with_spec-other tbl name s idx h k.0 e.0

  -- What the index holds for a column of table `s`: nothing, or the index of a pushed column of that
  -- name over the table's records.
  abbrev pub Indexed : Spec → Text → Option ByValue → Type 0
  Indexed s name found =
      (found ≡ none)
      ⊎ ((c : Col) × (find_pushed name s.cols none ≡ some c)
          × (found ≡ some (index_records w c 0 (records_of inv s) [])))

  Indexed-column :
      (s : Spec) (name : Text) (recs : List Record) (pushed : Option Col)
      → find_pushed name s.cols none ≡ pushed
      → records_of inv s ≡ recs
      → Indexed s name (column_index w recs pushed none)
  Indexed-column s name recs none e r = inl refl
  Indexed-column s name recs (some c) e r =
      inr (c, e, ap (λ l. some (index_records w c 0 l [])) (sym r))

  with_spec-Indexed :
      (s : Spec) (name : Text) (idx : Index)
      → lookup (index_key s.table name) idx ≡ none
      → (recs : List Record) → records_of inv s ≡ recs
      → Indexed s name (
          lookup
            (index_key s.table name)
            (elim recs [ [] ↦ idx | rec ∷ recs ↦ index_cols w s.table s.cols (rec ∷ recs) idx ]))
  with_spec-Indexed s name idx h [] r = inl h
  with_spec-Indexed s name idx h (rec ∷ recs) r =
      subst (Indexed s name)
        (sym (lookup-index_cols w (rec ∷ recs) s.table name s.cols idx none none h))
        (Indexed-column s name (rec ∷ recs) (find_pushed name s.cols none) refl r)

  pub index_specs-Indexed :
      (s : Spec) (name : Text) (l : List Spec) (idx : Index)
      → In s l
      → Separate l
      → lookup (index_key s.table name) idx ≡ none
      → Indexed s name (lookup (index_key s.table name) (index_specs w inv l idx))
  unfolding index_specs
  index_specs-Indexed s name [] idx i k h = elim i [ ]
  index_specs-Indexed s name (t ∷ l) idx (inl e) k h =
      let tbl_ok : has_no_nul s.table ≡ true = rw e k.0 in
      let others : All (λ u. text_eq s.table u.table ≡ false) l = rw e k.2 in
      subst (Indexed s name)
        (sym (
          index_specs-other s.table name l (with_spec t idx) tbl_ok k.3 others
          ∙ ap (λ u. lookup (index_key s.table name) (with_spec u idx)) (sym e)))
        (with_spec-Indexed s name idx h (records_of inv s) refl)
  index_specs-Indexed s name (t ∷ l) idx (inr i) k h =
      let apart : text_eq s.table t.table ≡ false =
        All-In (λ u. text_eq u.table t.table ≡ false) s l k.1 i in
      index_specs-Indexed s name l (with_spec t idx) i k.3
        (with_spec-other s.table name t idx (no_nul l i k.3) k.0 apart ∙ h)
    where
      no_nul : (m : List Spec) → In s m → Separate m → has_no_nul s.table ≡ true
      no_nul [] j q = elim j [ ]
      no_nul (u ∷ m) (inl e) q = rw e q.0
      no_nul (u ∷ m) (inr j) q = no_nul m j q.3

-- The seven tables.
pub specs-Separate : Separate specs
unfolding specs text_eq
specs-Separate = (
  refl,
  (refl, (refl, (refl, (refl, (refl, (refl, tt)))))),
  (refl, (refl, (refl, (refl, (refl, (refl, tt)))))),
  (
    refl,
    (refl, (refl, (refl, (refl, (refl, tt))))),
    (refl, (refl, (refl, (refl, (refl, tt))))),
    (
      refl,
      (refl, (refl, (refl, (refl, tt)))),
      (refl, (refl, (refl, (refl, tt)))),
      (
        refl,
        (refl, (refl, (refl, tt))),
        (refl, (refl, (refl, tt))),
        (
          refl,
          (refl, (refl, tt)),
          (refl, (refl, tt)),
          (refl, (refl, tt), (refl, tt), (refl, tt, tt, tt)),
        ),
      ),
    ),
  ),
)
