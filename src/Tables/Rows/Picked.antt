-- ===== src/Tables/Rows/Picked.antt =====
-- The rows of a selection, as a pick from the rows of all records.
use amcache.Base.{
  ℕ, suc, ◌+◌, ◌-◌, ◌≤◌, ◌<◌, ◌≡◌, refl, Bool, true, false, Option, List, [], ◌∷◌, map,
  if◌then◌else◌, ◌==◌, ok, err, >>=-eq-ok, arith, All, ok_injective, ◌∙◌, sym, ap, true-ne-false,
  Bool-cases, inl, inr, Result,
}
use mathlib.Core.Path.{subst}
use amcache.Base.Text.{Text}
use amcache.Hive.Regf.{Ended}
use amcache.Inventory.{Record, Table}
use amcache.Tables.Columns.{Spec}
use amcache.Tables.Cell.{Setting}
use amcache.Tables.Rows.{row_record, row_record-at, fill_row, record_at, check, build_rows, indices}
use amcache.Tables.Query.Sorted.{contains, IsAscending}

-- The row of one record.
abbrev pub row_of : Setting → Spec → Record → Table Text
row_of w s rec = fill_row w s.cols rec []

-- The rows that a condition keeps.
abbrev pub refilter : (Table Text → Bool) → List (Table Text) → List (Table Text)
refilter keep [] = []
refilter keep (row ∷ rows) = if keep row then row ∷ refilter keep rows else refilter keep rows

abbrev pub add_row :
    {E : Type 0} → (Record → Table Text) → Result E Record → List (Table Text) → List (Table Text)
add_row row (ok rec) rows = row rec ∷ rows
add_row row (err e) rows = rows

-- The rows at the indices, counted from `k`; an index out of range is left out.
abbrev pub picked : (Record → Table Text) → ℕ → List Record → List ℕ → List (Table Text)
picked row k recs [] = []
picked row k recs (j ∷ sel) = add_row row (record_at recs (j - k)) (picked row k recs sel)

module _ (w : Setting) (ctx : ℕ → Option Ended) (s : Spec) (recs : List Record) where
  pub build_rows-picked :
      (i : ℕ) (sel : List ℕ) (rows : List (Table Text))
      → build_rows w ctx s recs i sel ≡ ok rows
      → rows ≡ picked (row_of w s) 0 recs sel
  unfolding build_rows
  build_rows-picked i [] rows h = sym (ok_injective h)
  build_rows-picked i (k ∷ sel) rows h =
      let (_, _, h1) = >>=-eq-ok (check ctx i) _ h in
      let (rec, at, h2) = >>=-eq-ok (row_record recs i k) _ h1 in
      let (rest, more, h3) = >>=-eq-ok (build_rows w ctx s recs (suc i) sel) _ h2 in
      let same : k - 0 ≡ k = omega arith in
      sym (ok_injective h3)
      ∙ ap (λ l. row_of w s rec ∷ l) (build_rows-picked (suc i) sel rest more)
      ∙ sym (
          ap (λ r. add_row (row_of w s) r (picked (row_of w s) 0 recs sel))
            (ap (record_at recs) same ∙ row_record-at recs i k at))

-- Numbers above a bound.
abbrev Above : ℕ → List ℕ → Type 0
Above k sel = All (λ j. k < j) sel

Above-lt : (k m : ℕ) (sel : List ℕ) → k < m → Above m sel → Above k sel
Above-lt k m [] h a = tt
Above-lt k m (j ∷ sel) h a = (omega arith, Above-lt k m sel h a.1)

Above-indices : (k m : ℕ) (recs : List Record) → k < m → Above k (indices m recs)
unfolding indices
Above-indices k m [] h = tt
Above-indices k m (rec ∷ recs) h = (h, Above-indices k (suc m) recs (omega arith))

Above-suc : (k : ℕ) (sel : List ℕ) → Above k sel → All (λ j. suc k ≤ j) sel
Above-suc k [] a = tt
Above-suc k (j ∷ sel) a = (omega arith, Above-suc k sel a.1)

not-contains-Above : (k : ℕ) (sel : List ℕ) → Above k sel → contains k sel ≡ false
not-contains-Above k [] a = refl
not-contains-Above k (j ∷ sel) a = ground (arith, not-contains-Above k sel a.1)

module _ (row : Record → Table Text) where
  picked-nil : (k : ℕ) (sel : List ℕ) → picked row k [] sel ≡ []
  unfolding record_at
  picked-nil k [] = refl
  picked-nil k (j ∷ sel) = picked-nil k sel

  picked-shift :
      (k : ℕ) (rec : Record) (recs : List Record) (sel : List ℕ)
      → All (λ j. k < j) sel
      → picked row k (rec ∷ recs) sel ≡ picked row (suc k) recs sel
  unfolding record_at
  picked-shift k rec recs [] h = refl
  picked-shift k rec recs (j ∷ sel) h =
      let e : j - k ≡ suc (j - suc k) = omega arith in rw (e, picked-shift k rec recs sel h.1)

  -- The pick of the record at the front, and of what follows it.
  picked-front :
      (k : ℕ) (rec : Record) (recs : List Record) (sel : List ℕ)
      → Above k sel
      → picked row k (rec ∷ recs) (k ∷ sel) ≡ row rec ∷ picked row (suc k) recs sel
  unfolding record_at
  picked-front k rec recs sel h =
      let e : k - k ≡ 0 = omega arith in rw (e, picked-shift k rec recs sel h)

  pub picked-indices :
      (k : ℕ) (recs : List Record) → picked row k recs (indices k recs) ≡ map row recs
  unfolding indices
  picked-indices k [] = refl
  picked-indices k (rec ∷ recs) =
      picked-front k rec recs (indices (suc k) recs) (Above-indices k (suc k) recs (omega arith))
      ∙ ap (λ l. row rec ∷ l) (picked-indices (suc k) recs)

  module _ (keep : Table Text → Bool) where
    -- The condition keeps only rows that the pick has.
    abbrev pub HasKept : ℕ → List Record → List ℕ → Type 0
    HasKept k recs sel =
        (i : ℕ) (rec : Record)
        → record_at recs i ≡ ok rec
        → keep (row rec) ≡ true
        → contains (k + i) sel ≡ true

    HasKept-tail :
        (k : ℕ) (rec : Record) (recs : List Record) (sel : List ℕ)
        → HasKept k (rec ∷ recs) sel
        → HasKept (suc k) recs sel
    unfolding record_at
    HasKept-tail k rec recs sel h i r at kept =
        let e : k + suc i ≡ suc k + i = omega arith in
        subst (λ n. contains n sel ≡ true) e (h (suc i) r at kept)

    HasKept-drop :
        (k : ℕ) (recs : List Record) (sel : List ℕ)
        → HasKept (suc k) recs (k ∷ sel)
        → HasKept (suc k) recs sel
    HasKept-drop k recs sel h i r at kept = ground (arith, h i r at kept)

    dropped :
        (k : ℕ) (rec : Record) (recs : List Record) (sel : List ℕ)
        → Above k sel
        → HasKept k (rec ∷ recs) sel
        → keep (row rec) ≡ false
    unfolding record_at
    dropped k rec recs sel a h = elim (Bool-cases (keep (row rec))) [
      | inr e ↦ e
      | inl e ↦
          let same : k + 0 ≡ k = omega arith in
          absurd (
            true-ne-false (
              sym (subst (λ n. contains n sel ≡ true) same (h 0 rec refl e))
              ∙ not-contains-Above k sel a))
    ]

    -- Nothing that the condition keeps is lost by an ascending pick that has all of it.
    pub refilter-picked :
        (k : ℕ) (recs : List Record) (sel : List ℕ)
        → IsAscending sel
        → All (λ j. k ≤ j) sel
        → HasKept k recs sel
        → refilter keep (picked row k recs sel) ≡ refilter keep (map row recs)
    refilter-picked k [] sel a b h = ap (refilter keep) (picked-nil k sel)
    refilter-picked k (rec ∷ recs) [] a b h =
        let none_kept = dropped k rec recs [] tt h in
        ap (refilter keep) (picked-shift k rec recs [] tt)
        ∙ refilter-picked (suc k) recs [] tt tt (HasKept-tail k rec recs [] h)
        ∙ rw none_kept
    refilter-picked k (rec ∷ recs) (j ∷ sel) a b h = elim (Bool-cases (j == k)) [
      | inl e ↦
          let same : j ≡ k = ground (arith, e) in
          let above : Above k sel = subst (λ n. Above n sel) same a.0 in
          let ih = refilter-picked (suc k) recs sel a.1 (Above-suc k sel above) (
            HasKept-drop k recs sel (
              HasKept-tail k rec recs (k ∷ sel)
                (subst (λ n. HasKept k (rec ∷ recs) (n ∷ sel)) same h))) in
          ap (λ n. refilter keep (picked row k (rec ∷ recs) (n ∷ sel))) same
          ∙ ap (refilter keep) (picked-front k rec recs sel above)
          ∙ ap (λ l. if keep (row rec) then row rec ∷ l else l) ih
      | inr e ↦
          let below : k < j = ground (arith, e) in
          let above : Above k (j ∷ sel) = (below, Above-lt k j sel below a.0) in
          let none_kept = dropped k rec recs (j ∷ sel) above h in
          ap (refilter keep) (picked-shift k rec recs (j ∷ sel) above)
          ∙ refilter-picked (suc k) recs (j ∷ sel) a (Above-suc k (j ∷ sel) above)
              (HasKept-tail k rec recs (j ∷ sel) h)
          ∙ rw none_kept
    ]
