-- ===== src/Tables/Query/Indexing.antt =====
-- The index of one column: which records it lists under a value.
use amcache.Base.{
  ℕ, zero, suc, ◌+◌, ◌<◌, ◌≡◌, refl, Bool, false, ◌&&◌, ◌||◌, List, [], ◌∷◌, ◌==◌, arith, none,
  some, ◌∙◌, ok, err,
}
use amcache.Base.Text.{Text, text_eq, text_eq_iff, to_lower}
use amcache.Inventory.{Record, lookup}
use amcache.Tables.Columns.{Col}
use amcache.Tables.Cell.{Setting, cell}
use amcache.Tables.Rows.{record_at}
use amcache.Tables.Query.{ByValue, add_index, index_records}
use amcache.Tables.Query.Sorted.{contains}
use amcache.Tables.Query.Selection.{contains-append}

-- Index `i` is listed under `v`.
abbrev pub lists : ByValue → Text → ℕ → Bool
lists t v i = elim (lookup v t) [ none ↦ false | some is ↦ contains i is ]

lists-add_index :
    (u v : Text) (k i : ℕ) (t : ByValue)
    → lists (add_index u k t) v i ≡ (lists t v i || (text_eq v u && i == k))
unfolding add_index lookup
lists-add_index u v k i [] = ground arith
lists-add_index u v k i ((x, is) ∷ t) = ground (
  arith,
  text_eq_iff u x,
  text_eq_iff v x,
  text_eq_iff v u,
  lists-add_index u v k i t,
  contains-append i is (k ∷ []),
)

-- The record's decoded cell is not empty, and lowercased it is `v`.
abbrev pub carries : Setting → Col → Record → Text → Bool
carries w c rec v = elim (cell w c rec) [
  | none ↦ false
  | some [] ↦ false
  | some (d ∷ s) ↦ text_eq v (to_lower w.fold (d ∷ s))
]

abbrev carried_from : Setting → Col → ℕ → List Record → Text → ℕ → Bool
carried_from w c k [] v i = false
carried_from w c k (rec ∷ recs) v i =
    (carries w c rec v && i == k) || carried_from w c (suc k) recs v i

module _ (w : Setting) (c : Col) where
  -- The index after one more record.
  abbrev with_record : ℕ → Record → ByValue → ByValue
  with_record k rec t = elim (cell w c rec) [
    | none ↦ t
    | some [] ↦ t
    | some (d ∷ v) ↦ add_index (to_lower w.fold (d ∷ v)) k t
  ]

  lists-with_record :
      (k : ℕ) (rec : Record) (t : ByValue) (v : Text) (i : ℕ)
      → lists (with_record k rec t) v i ≡ (lists t v i || (carries w c rec v && i == k))
  lists-with_record k rec t v i =
      elim (cell w c rec)
        as (λ o.
          lists
            (elim o [
              | none ↦ t
              | some [] ↦ t
              | some (d ∷ s) ↦ add_index (to_lower w.fold (d ∷ s)) k t
            ])
            v i
          ≡ (lists t v i
              || ((elim o [
                | none ↦ false
                | some [] ↦ false
                | some (d ∷ s) ↦ text_eq v (to_lower w.fold (d ∷ s))
              ])
                  && i == k))) [
                    | none ↦ ground arith
                    | some [] ↦ ground arith
                    | some (d ∷ s) ↦ lists-add_index (to_lower w.fold (d ∷ s)) v k i t
                  ]

  lists-index_records :
      (k : ℕ) (recs : List Record) (t : ByValue) (v : Text) (i : ℕ)
      → lists (index_records w c k recs t) v i ≡ (lists t v i || carried_from w c k recs v i)
  unfolding index_records
  lists-index_records k [] t v i = ground arith
  lists-index_records k (rec ∷ recs) t v i =
      lists-index_records (suc k) recs (with_record k rec t) v i
      ∙ ground (arith, lists-with_record k rec t v i)

  -- The column's cell of record `i`, if there is one, carries `v`.
  abbrev pub carried_at : List Record → ℕ → Text → Bool
  carried_at recs i v = elim (record_at recs i) [ ok rec ↦ carries w c rec v | err _ ↦ false ]

  carried_from-below :
      (k : ℕ) (recs : List Record) (v : Text) (i : ℕ) → i < k → carried_from w c k recs v i ≡ false
  carried_from-below k [] v i h = refl
  carried_from-below k (rec ∷ recs) v i h =
      ground (arith, carried_from-below (suc k) recs v i (omega arith))

  carried_from-at :
      (k : ℕ) (recs : List Record) (v : Text) (i j : ℕ)
      → j ≡ k + i
      → carried_from w c k recs v j ≡ carried_at recs i v
  unfolding record_at
  carried_from-at k [] v i j e = refl
  carried_from-at k (rec ∷ recs) v zero j e =
      ground (arith, carried_from-below (suc k) recs v j (omega arith))
  carried_from-at k (rec ∷ recs) v (suc i) j e =
      ground (arith, carried_from-at (suc k) recs v i j (omega arith))

  -- A column's index lists record `i` under `v` exactly when the record's decoded cell is not empty
  -- and lowercases to `v`.
  pub index_records_exact :
      (recs : List Record) (v : Text) (i : ℕ)
      → lists (index_records w c 0 recs []) v i ≡ carried_at recs i v
  index_records_exact recs v i =
      lists-index_records 0 recs [] v i ∙ none_listed ∙ carried_from-at 0 recs v i i (omega arith)
    where
      none_listed : (lists [] v i || carried_from w c 0 recs v i) ≡ carried_from w c 0 recs v i
      none_listed = unfold lookup in refl
