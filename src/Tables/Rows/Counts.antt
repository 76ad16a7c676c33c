-- ===== src/Tables/Rows/Counts.antt =====
-- One row for each record that is asked for, with every declared column.
use amcache.Base.{
  ℕ, suc, ◌≡◌, refl, Bool, true, false, ◌||◌, Option, none, some, List, [], ◌∷◌, ok, >>=-eq-ok,
  ok_injective, length, ◌∙◌, ap, arith, All,
}
use mathlib.Core.Path.{subst}
use amcache.Base.Text.{Text, text_eq, text_eq_refl}
use amcache.Hive.Regf.{Ended}
use amcache.Inventory.{Record, Table}
use amcache.Tables.Columns.{Col, Spec}
use amcache.Tables.Cell.{Setting, cell, or_empty}
use amcache.Tables.Rows.{row_record, put, fill_row, check, build_rows, indices, rows_for}

length-build_rows :
    (w : Setting) (ctx : ℕ → Option Ended) (s : Spec) (recs : List Record) (i : ℕ) (sel : List ℕ)
    (rows : List (Table Text))
    → build_rows w ctx s recs i sel ≡ ok rows
    → length rows ≡ length sel
unfolding build_rows
length-build_rows w ctx s recs i [] rows h =
    subst (λ (l : List (Table Text)). length l ≡ 0) (ok_injective h) refl
length-build_rows w ctx s recs i (k ∷ sel) rows h =
    let (_, _, h1) = >>=-eq-ok (check ctx i) _ h in
    let (rec, _, h2) = >>=-eq-ok (row_record recs i k) _ h1 in
    let (rest, more, h3) = >>=-eq-ok (build_rows w ctx s recs (suc i) sel) _ h2 in
    subst (λ (l : List (Table Text)). length l ≡ suc (length sel)) (ok_injective h3)
      (ap suc (length-build_rows w ctx s recs (suc i) sel rest more))

pub length-indices : (i : ℕ) (recs : List Record) → length (indices i recs) ≡ length recs
unfolding indices
length-indices i [] = refl
length-indices i (rec ∷ recs) = ap suc (length-indices (suc i) recs)

-- How many records are asked for.
abbrev pub asked : List Record → Option (List ℕ) → ℕ
asked recs none = length recs
asked recs (some sel) = length sel

pub length-rows_for :
    (w : Setting) (ctx : ℕ → Option Ended) (s : Spec) (recs : List Record) (sel : Option (List ℕ))
    (rows : List (Table Text))
    → rows_for w ctx s recs sel ≡ ok rows
    → length rows ≡ asked recs sel
unfolding rows_for
length-rows_for w ctx s recs none rows h =
    length-build_rows w ctx s recs 0 (indices 0 recs) rows h ∙ length-indices 0 recs
length-rows_for w ctx s recs (some sel) rows h = length-build_rows w ctx s recs 0 sel rows h

-- The row has the key.
abbrev pub has_key : Text → Table Text → Bool
has_key k [] = false
has_key k ((j, v) ∷ row) = text_eq k j || has_key k row

has_key-put_self : (k v : Text) (row : Table Text) → has_key k (put k v row) ≡ true
unfolding put
has_key-put_self k v [] = ground (arith, text_eq_refl k)
has_key-put_self k v ((j, u) ∷ row) = ground (arith, has_key-put_self k v row)

has_key-put :
    (k j v : Text) (row : Table Text) → has_key k row ≡ true → has_key k (put j v row) ≡ true
unfolding put
has_key-put k j v [] h = cc
has_key-put k j v ((i, u) ∷ row) h = ground (arith, h, has_key-put k j v row)

has_key-fill_row_keeps :
    (w : Setting) (cols : List Col) (rec : Record) (row : Table Text) (k : Text)
    → has_key k row ≡ true
    → has_key k (fill_row w cols rec row) ≡ true
unfolding fill_row
has_key-fill_row_keeps w [] rec row k h = h
has_key-fill_row_keeps w (c ∷ cols) rec row k h =
    has_key-fill_row_keeps w cols rec (put c.name (or_empty (cell w c rec)) row) k
      (has_key-put k c.name (or_empty (cell w c rec)) row h)

-- The row has every declared column.
abbrev pub IsWhole : Spec → Table Text → Type 0
IsWhole s row = All (λ (c : Col). has_key c.name row ≡ true) s.cols

has_key-fill_row :
    (w : Setting) (cols : List Col) (rec : Record) (row : Table Text)
    → All (λ (c : Col). has_key c.name (fill_row w cols rec row) ≡ true) cols
unfolding fill_row
has_key-fill_row w [] rec row = tt
has_key-fill_row w (c ∷ cols) rec row =
    let next = put c.name (or_empty (cell w c rec)) row in
    (
      has_key-fill_row_keeps w cols rec next c.name
          (has_key-put_self c.name (or_empty (cell w c rec)) row),
      has_key-fill_row w cols rec next,
    )

build_rows-IsWhole :
    (w : Setting) (ctx : ℕ → Option Ended) (s : Spec) (recs : List Record) (i : ℕ) (sel : List ℕ)
    (rows : List (Table Text))
    → build_rows w ctx s recs i sel ≡ ok rows
    → All (IsWhole s) rows
unfolding build_rows
build_rows-IsWhole w ctx s recs i [] rows h = subst (All (IsWhole s)) (ok_injective h) tt
build_rows-IsWhole w ctx s recs i (k ∷ sel) rows h =
    let (_, _, h1) = >>=-eq-ok (check ctx i) _ h in
    let (rec, _, h2) = >>=-eq-ok (row_record recs i k) _ h1 in
    let (rest, more, h3) = >>=-eq-ok (build_rows w ctx s recs (suc i) sel) _ h2 in
    subst (All (IsWhole s)) (ok_injective h3)
      (has_key-fill_row w s.cols rec [], build_rows-IsWhole w ctx s recs (suc i) sel rest more)

-- What `rowsFor` gives of any table is one row for each record that is asked for, none dropped, and
-- each has every declared column.
pub rows_for-IsWhole :
    (w : Setting) (ctx : ℕ → Option Ended) (s : Spec) (recs : List Record) (sel : Option (List ℕ))
    (rows : List (Table Text))
    → rows_for w ctx s recs sel ≡ ok rows
    → (length rows ≡ asked recs sel) × All (IsWhole s) rows
unfolding rows_for
rows_for-IsWhole w ctx s recs none rows h = (
  length-rows_for w ctx s recs none rows h,
  build_rows-IsWhole w ctx s recs 0 (indices 0 recs) rows h,
)
rows_for-IsWhole w ctx s recs (some sel) rows h =
    (length-rows_for w ctx s recs (some sel) rows h, build_rows-IsWhole w ctx s recs 0 sel rows h)
