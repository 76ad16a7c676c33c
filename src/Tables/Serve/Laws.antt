-- ===== src/Tables/Serve/Laws.antt =====
-- The indices that a query selects lie within the records that the rows are built from, and are no
-- more than those.
use amcache.Base.{
  In, ℕ, suc, ◌≡◌, ◌≢◌, refl, true, false, List, [], ◌∷◌, arith, All, Bool-cases, inl, inr, Option,
  none, some, ◌∙◌, sym, Option-cases, Result-cases, ap, ok, err, and_left, and_right, >>=-eq-err,
  ok-ne-err, ◌+◌, ◌≤◌, length,
}
use amcache.Tables.Rows.Counts.{length-indices}
use mathlib.Core.Path.{subst}
use mathlib.Core.Option.{some-injective}
use amcache.Base.Text.{Text, to_lower}
use amcache.Hive.Regf.{Ended}
use amcache.Inventory.{Record, Snapshot, lookup}
use amcache.Tables.Columns.{Col, Spec}
use amcache.Tables.Specs.{specs}
use amcache.Tables.Cell.{Setting}
use amcache.Tables.Rows.{index_panic, record_at, row_record, check, build_rows, indices, rows_for}
use amcache.Tables.Rows.Within.{
  IsIndex, IsIndex-lt, length-IsAscending, All-zero_le, indices-IsIndex,
}
use amcache.Tables.Query.{
  Query, ByValue, Constraint, index_key, hits_of, index_records, index, records_of, selected,
}
use amcache.Tables.Query.Sorted.{contains, IsAscending}
use amcache.Tables.Query.Selection.{
  any_usable, any_hit, column_admits, admits, narrows, chosen, is_some, selected_exact,
  HasAscending,
}
use amcache.Tables.Query.Indexing.{lists, carried_at, index_records_exact}
use amcache.Tables.Query.Located.{Indexed, index_specs-Indexed, specs-Separate}
use amcache.Tables.Serve.{share, serve}

contains-All : {P : ℕ → Type 0} (l : List ℕ) → ((i : ℕ) → contains i l ≡ true → P i) → All P l
contains-All [] h = tt
contains-All (i ∷ l) h = (h i (ground arith), contains-All l (λ j k. h j (ground arith)))

contains-hits_of :
    (fold : ℕ → ℕ) (by_val : ByValue) (cst : Constraint) (i : ℕ)
    → contains i (hits_of fold by_val cst) ≡ lists by_val (to_lower fold cst.expression) i
contains-hits_of fold by_val cst i =
    elim (Option-cases (lookup (to_lower fold cst.expression) by_val)) [
      | inl e ↦ ground (arith, e)
      | inr (hits, e) ↦ ground (arith, e)
    ]

module _ (w : Setting) (recs : List Record) (i : ℕ) where
  carried-IsIndex : (c : Col) (v : Text) → carried_at w c recs i v ≡ true → IsIndex recs i
  carried-IsIndex c v h = elim (Result-cases (record_at recs i)) [
    | inl (rec, e) ↦ (rec, e)
    | inr (f, e) ↦ absurd (ground (arith, e))
  ]

  any_hit-IsIndex :
      (c : Col) (cl : List Constraint)
      → any_hit w.fold (index_records w c 0 recs []) cl i ≡ true
      → IsIndex recs i
  any_hit-IsIndex c [] h = cc
  any_hit-IsIndex c (cst ∷ cl) h =
      elim (Bool-cases (any_hit w.fold (index_records w c 0 recs []) cl i)) [
        | inl e ↦ any_hit-IsIndex c cl e
        | inr e ↦
            let listed : contains i (hits_of w.fold (index_records w c 0 recs []) cst) ≡ true =
              ground (arith, e) in
            carried-IsIndex c (to_lower w.fold cst.expression) (
              sym (index_records_exact w c recs (to_lower w.fold cst.expression) i)
              ∙ sym (contains-hits_of w.fold (index_records w c 0 recs []) cst i)
              ∙ listed)
      ]

module _ (w : Setting) (inv : Snapshot) (s : Spec) (i : ℕ) where
  admits-IsIndex :
      (query : Query)
      → In s specs
      → narrows (index w inv) s.table query ≡ true
      → admits w.fold (index w inv) s.table query i ≡ true
      → IsIndex (records_of inv s) i
  admits-IsIndex [] known h k = cc
  admits-IsIndex ((name, cl) ∷ query) known h k =
      elim (Bool-cases (narrows (index w inv) s.table query)) [
        | inl e ↦ admits-IsIndex query known e (and_right _ _ k)
        | inr e ↦
            first (lookup (index_key s.table name) (index w inv))
              (unfold index in
                index_specs-Indexed w inv s name specs [] known specs-Separate
                  (unfold lookup in refl))
              (ground (arith, e)) (and_left _ _ k)
      ]
    where
      first :
          (found : Option ByValue)
          → Indexed w inv s name found
          → (elim found [ none ↦ false | some _ ↦ any_usable cl ]) ≡ true
          → column_admits w.fold found cl i ≡ true
          → IsIndex (records_of inv s) i
      first none found u a = cc
      first (some by_val) (inl e) u a = cc
      first (some by_val) (inr (c, e, f)) u a =
          any_hit-IsIndex w (records_of inv s) i c cl (
            subst (λ t. any_hit w.fold t cl i ≡ true) (some-injective _ _ f) (ground (arith, u, a)))

module _ (w : Setting) (ctx : ℕ → Option Ended) (s : Spec) (recs : List Record) where
  check-ne-index_panic : (i : ℕ) → check ctx i ≢ err index_panic
  unfolding check
  check-ne-index_panic i = λ e. ground arith

  row_record-ne-index_panic :
      (i k : ℕ) → IsIndex recs i → IsIndex recs k → row_record recs i k ≢ err index_panic
  unfolding row_record
  row_record-ne-index_panic i k h j = λ e. elim (>>=-eq-err (record_at recs i) _ e) [
    | inl c ↦ ok-ne-err _ _ (sym h.1 ∙ c)
    | inr (_, _, c) ↦ ok-ne-err _ _ (sym j.1 ∙ c)
  ]

  build_rows-ne-index_panic :
      (i : ℕ) (sel : List ℕ)
      → All (IsIndex recs) sel
      → i + length sel ≤ length recs
      → build_rows w ctx s recs i sel ≢ err index_panic
  unfolding build_rows
  build_rows-ne-index_panic i [] h fits = λ e. ok-ne-err _ _ e
  build_rows-ne-index_panic i (k ∷ sel) h fits = λ e. elim (>>=-eq-err (check ctx i) _ e) [
    | inl c ↦ check-ne-index_panic i c
    | inr (_, _, e1) ↦ elim (>>=-eq-err (row_record recs i k) _ e1) [
      | inl c ↦ row_record-ne-index_panic i k (IsIndex-lt recs i (omega arith)) h.0 c
      | inr (_, _, e2) ↦ elim (>>=-eq-err (build_rows w ctx s recs (suc i) sel) _ e2) [
        | inl c ↦ build_rows-ne-index_panic (suc i) sel h.1 (omega arith) c
        | inr (_, _, e3) ↦ ok-ne-err _ _ e3
      ]
    ]
  ]

module _ (w : Setting) (inv : Snapshot) (s : Spec) (query : Query) (known : In s specs) where
  selected-IsIndex :
      (sel : List ℕ)
      → selected w.fold query (index w inv) s.table ≡ some sel
      → All (IsIndex (records_of inv s)) sel
  selected-IsIndex sel e =
      let (some_are, ascending, each) = selected_exact w.fold (index w inv) s.table query in
      contains-All sel (λ i h.
        admits-IsIndex w inv s i query known (sym some_are ∙ ap is_some e)
          (sym (each i) ∙ ap (λ o. chosen o i) e ∙ h))

  selected-IsAscending :
      (sel : List ℕ) → selected w.fold query (index w inv) s.table ≡ some sel → IsAscending sel
  selected-IsAscending sel e =
      subst HasAscending e (selected_exact w.fold (index w inv) s.table query).1

  rows_for-ne-index_panic :
      (ctx : ℕ → Option Ended)
      → rows_for w ctx s (records_of inv s) (selected w.fold query (index w inv) s.table)
        ≢ err index_panic
  rows_for-ne-index_panic ctx = elim (Option-cases (selected w.fold query (index w inv) s.table)) [
    | inl e ↦ rw e (
        unfold rows_for in
        build_rows-ne-index_panic w ctx s (records_of inv s) 0 (indices 0 (records_of inv s))
          (indices-IsIndex (records_of inv s) 0 (records_of inv s) (λ j rec at.
            (rec, subst (λ n. record_at (records_of inv s) n ≡ ok rec) (omega arith) at)))
          (omega (arith, length-indices 0 (records_of inv s))))
    | inr (sel, e) ↦ rw e (
        unfold rows_for in
        build_rows-ne-index_panic w ctx s (records_of inv s) 0 sel (selected-IsIndex sel e) (
          length-IsAscending (records_of inv s) sel 0 (All-zero_le sel) (selected-IsAscending sel e)
            (selected-IsIndex sel e) (omega arith)))
  ]

  served-ne-index_panic :
      (ctx : ℕ → Option Ended) (recs : List Record)
      → records_of inv s ≡ recs
      → (elim recs [
        | [] ↦ ok []
        | rec ∷ more ↦ rows_for w ctx s (rec ∷ more) (selected w.fold query (index w inv) s.table)
      ])
        ≢ err index_panic
  served-ne-index_panic ctx [] e = λ h. ok-ne-err _ _ h
  served-ne-index_panic ctx (rec ∷ more) e =
      subst
        (λ l. rows_for w ctx s l (selected w.fold query (index w inv) s.table) ≢ err index_panic) e
        (rows_for-ne-index_panic ctx)

-- Serving a query of one of the seven tables from a snapshot and its index never reads past the
-- records that the rows are built from: every index that is selected lies within them, and no more
-- indices are selected than there are records.
pub serve-ne-index_panic :
    (w : Setting) (ctx : ℕ → Option Ended) (s : Spec) (query : Query) (inv : Snapshot)
    → In s specs
    → serve w ctx s query (share w inv) ≢ err index_panic
unfolding serve
serve-ne-index_panic w ctx s query inv known =
    served-ne-index_panic w inv s query known ctx (records_of inv s) refl
