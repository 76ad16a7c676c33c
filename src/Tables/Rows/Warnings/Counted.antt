-- ===== src/Tables/Rows/Warnings/Counted.antt =====
-- The counted row build: it gives the rows of the row build, and counts every column that fails.
use amcache.Base.{
  In, ℕ, suc, ◌≡◌, refl, true, Option, none, some, List, [], ◌∷◌, map, Result, ok, err, inl, inr,
  arith, Bool-cases, Result-cases, >>=-eq-ok, ok_injective, sym, ap, ◌∙◌,
}
use mathlib.Core.Path.{subst}
use amcache.Base.Once.{is_listed, text_key}
use amcache.Base.Text.{Text, text_eq, text_eq_refl}
use amcache.Hive.Regf.{Ended}
use amcache.Inventory.{Record, Table}
use amcache.Tables.Columns.{Col, Spec}
use amcache.Tables.Cell.{Setting, cell, or_empty}
use amcache.Tables.Rows.{
  row_record, row_record-at, RowError, check, record_at, put, fill_row, build_rows, rows_for,
}
use amcache.Tables.Rows.Warnings.{
  Log, count_failure, tally, fill_counted, build_counted, selection, logged, rows_for_logged,
}

abbrev pub names : Table ℕ → List Text
names t = map (λ (p : Text × ℕ). p.0) t

fill_counted-row :
    (w : Setting) (cols : List Col) (rec : Record) (row : Table Text) (failed : Table ℕ)
    → (fill_counted w cols rec row failed).0 ≡ fill_row w cols rec row
unfolding fill_counted fill_row
fill_counted-row w [] rec row failed = refl
fill_counted-row w (c ∷ cols) rec row failed =
    fill_counted-row w cols rec (put c.name (or_empty (cell w c rec)) row)
      (tally c.name (cell w c rec) failed)

-- The rows of a counted build.
abbrev first_of :
    Result RowError (List (Table Text) × Table ℕ) → Result RowError (List (Table Text))
first_of (err e) = err e
first_of (ok (rows, failed)) = ok rows

build_counted-rows :
    (w : Setting) (ctx : ℕ → Option Ended) (s : Spec) (recs : List Record) (i : ℕ) (sel : List ℕ)
    (failed : Table ℕ)
    → first_of (build_counted w ctx s recs i sel failed) ≡ build_rows w ctx s recs i sel
unfolding build_counted build_rows
build_counted-rows w ctx s recs i [] failed = refl
build_counted-rows w ctx s recs i (k ∷ sel) failed = elim (Result-cases (check ctx i)) [
  | inr (e, x) ↦ rw x refl
  | inl (u, x) ↦ elim (Result-cases (row_record recs i k)) [
    | inr (e, y) ↦ rw (x, y) refl
    | inl (rec, y) ↦
        let f : Table ℕ = (fill_counted w s.cols rec [] failed).1 in
        let ih = build_counted-rows w ctx s recs (suc i) sel f in
        elim (Result-cases (build_counted w ctx s recs (suc i) sel f)) [
          | inr (e, z) ↦ rw (x, y, z, sym (sym (ap first_of z) ∙ ih)) refl
          | inl (out, z) ↦
              rw (x, y, z, sym (sym (ap first_of z) ∙ ih))
                (ap (λ row. ok (row ∷ out.0)) (fill_counted-row w s.cols rec [] failed))
        ]
  ]
]

logged-first_of :
    (tbl : Text) (log : Log) (r : Result RowError (List (Table Text) × Table ℕ))
    → (logged tbl log r).0 ≡ first_of r
logged-first_of tbl log (err e) = refl
logged-first_of tbl log (ok (rows, failed)) = refl

rows_for-selection :
    (w : Setting) (ctx : ℕ → Option Ended) (s : Spec) (recs : List Record) (sel : Option (List ℕ))
    → rows_for w ctx s recs sel ≡ build_rows w ctx s recs 0 (selection recs sel)
unfolding rows_for
rows_for-selection w ctx s recs none = refl
rows_for-selection w ctx s recs (some sel) = refl

-- Counting and logging change nothing about the rows.
pub rows_for_logged-rows :
    (w : Setting) (ctx : ℕ → Option Ended) (s : Spec) (recs : List Record) (sel : Option (List ℕ))
    (log : Log)
    → (rows_for_logged w ctx s recs sel log).0 ≡ rows_for w ctx s recs sel
unfolding rows_for_logged
rows_for_logged-rows w ctx s recs sel log =
    logged-first_of s.table log (build_counted w ctx s recs 0 (selection recs sel) [])
    ∙ build_counted-rows w ctx s recs 0 (selection recs sel) []
    ∙ sym (rows_for-selection w ctx s recs sel)

listed-count_failure_self :
    (k : Text) (t : Table ℕ) → is_listed k (names (count_failure k t)) ≡ true
unfolding count_failure
listed-count_failure_self k [] = rw (text_eq_refl k) refl
listed-count_failure_self k ((j, n) ∷ t) = elim (Bool-cases (text_eq k j)) [
  | inl e ↦ ground (arith, e)
  | inr e ↦ ground (arith, e, listed-count_failure_self k t)
]

listed-count_failure :
    (k j : Text) (t : Table ℕ)
    → is_listed j (names t) ≡ true
    → is_listed j (names (count_failure k t)) ≡ true
unfolding count_failure
listed-count_failure k j [] h = cc
listed-count_failure k j ((l, n) ∷ t) h = elim (Bool-cases (text_eq j l)) [
  | inl e ↦ ground arith
  | inr e ↦ ground (arith, listed-count_failure k j t)
]

listed-tally :
    (k j : Text) (o : Option Text) (t : Table ℕ)
    → is_listed j (names t) ≡ true
    → is_listed j (names (tally k o t)) ≡ true
listed-tally k j none t h = listed-count_failure k j t h
listed-tally k j (some v) t h = h

module _ (w : Setting) (rec : Record) where
  fill_counted-keeps :
      (cols : List Col) (row : Table Text) (failed : Table ℕ) (j : Text)
      → is_listed j (names failed) ≡ true
      → is_listed j (names (fill_counted w cols rec row failed).1) ≡ true
  unfolding fill_counted
  fill_counted-keeps [] row failed j h = h
  fill_counted-keeps (c ∷ cols) row failed j h =
      fill_counted-keeps cols _ (tally c.name (cell w c rec) failed) j
        (listed-tally c.name j (cell w c rec) failed h)

  fill_counted-fails :
      (cols : List Col) (row : Table Text) (failed : Table ℕ) (c : Col)
      → In c cols
      → cell w c rec ≡ none
      → is_listed c.name (names (fill_counted w cols rec row failed).1) ≡ true
  unfolding fill_counted
  fill_counted-fails [] row failed c i h = elim i [ ]
  fill_counted-fails (d ∷ cols) row failed c (inl e) h =
      fill_counted-keeps cols _ (tally d.name (cell w d rec) failed) c.name (
        subst (λ (b : Col). is_listed c.name (names (tally b.name (cell w b rec) failed)) ≡ true) e
          (rw (h, tally) (listed-count_failure_self c.name failed)))
  fill_counted-fails (d ∷ cols) row failed c (inr i) h =
      fill_counted-fails cols _ (tally d.name (cell w d rec) failed) c i h

module _ (w : Setting) (ctx : ℕ → Option Ended) (s : Spec) (recs : List Record) where
  build_counted-keeps :
      (i : ℕ) (sel : List ℕ) (failed : Table ℕ) (j : Text) (rows : List (Table Text))
      (out : Table ℕ)
      → is_listed j (names failed) ≡ true
      → build_counted w ctx s recs i sel failed ≡ ok (rows, out)
      → is_listed j (names out) ≡ true
  unfolding build_counted
  build_counted-keeps i [] failed j rows out h e =
      subst (λ t. is_listed j (names t) ≡ true)
        (ap (λ (r : List (Table Text) × Table ℕ). r.1) (ok_injective e)) h
  build_counted-keeps i (k ∷ sel) failed j rows out h e =
      let (_, _, e1) = >>=-eq-ok (check ctx i) _ e in
      let (rec, _, e2) = >>=-eq-ok (row_record recs i k) _ e1 in
      let (r, more, e3) = >>=-eq-ok (build_counted w ctx s recs (suc i) sel _) _ e2 in
      subst (λ t. is_listed j (names t) ≡ true)
        (ap (λ (r : List (Table Text) × Table ℕ). r.1) (ok_injective e3))
        (build_counted-keeps (suc i) sel (fill_counted w s.cols rec [] failed).1 j r.0 r.1
          (fill_counted-keeps w rec s.cols [] failed j h) more)

  pub build_counted-fails :
      (i : ℕ) (sel : List ℕ) (failed : Table ℕ) (k : ℕ) (rec : Record) (c : Col)
      (rows : List (Table Text)) (out : Table ℕ)
      → In k sel
      → record_at recs k ≡ ok rec
      → In c s.cols
      → cell w c rec ≡ none
      → build_counted w ctx s recs i sel failed ≡ ok (rows, out)
      → is_listed c.name (names out) ≡ true
  unfolding build_counted
  build_counted-fails i [] failed k rec c rows out m at col h e = elim m [ ]
  build_counted-fails i (l ∷ sel) failed k rec c rows out m at col h e =
      let (_, _, e1) = >>=-eq-ok (check ctx i) _ e in
      let (rec', at', e2) = >>=-eq-ok (row_record recs i l) _ e1 in
      let (r, more, e3) = >>=-eq-ok (build_counted w ctx s recs (suc i) sel _) _ e2 in
      let f : Table ℕ = (fill_counted w s.cols rec' [] failed).1 in
      subst (λ t. is_listed c.name (names t) ≡ true)
        (ap (λ (r : List (Table Text) × Table ℕ). r.1) (ok_injective e3))
        (elim m [
          | inl same ↦
              let here : rec ≡ rec' =
                ok_injective (sym at ∙ ap (record_at recs) same ∙ row_record-at recs i l at') in
              build_counted-keeps (suc i) sel f c.name r.0 r.1
                (fill_counted-fails w rec' s.cols [] failed c col
                  (subst (λ (q : Record). cell w c q ≡ none) here h))
                more
          | inr later ↦ build_counted-fails (suc i) sel f k rec c r.0 r.1 later at col h more
        ])
