-- ===== src/Tables/Rows/Within.antt =====
-- Indices that lie within the records, and how many of them an ascending list can hold.
use amcache.Base.{
  ℕ, suc, ◌≡◌, refl, List, [], ◌∷◌, arith, All, sym, ok, ok-ne-err, ◌+◌, ◌≤◌, ◌<◌, zero, length,
}
use mathlib.Core.Path.{subst}
use amcache.Inventory.{Record}
use amcache.Tables.Rows.{record_at, indices}
use amcache.Tables.Query.Sorted.{IsAscending}

-- The record is there.
abbrev pub IsIndex : List Record → ℕ → Type 0
IsIndex recs i = (rec : Record) × (record_at recs i ≡ ok rec)

pub IsIndex-lt : (recs : List Record) (i : ℕ) → i < length recs → IsIndex recs i
unfolding record_at
IsIndex-lt [] i h = absurd (omega arith)
IsIndex-lt (rec ∷ recs) zero h = (rec, refl)
IsIndex-lt (rec ∷ recs) (suc i) h = IsIndex-lt recs i (omega arith)

lt-record_at :
    (recs : List Record) (i : ℕ) (rec : Record) → record_at recs i ≡ ok rec → i < length recs
unfolding record_at
lt-record_at [] i rec h = absurd (ok-ne-err _ _ (sym h))
lt-record_at (r ∷ recs) zero rec h = omega arith
lt-record_at (r ∷ recs) (suc i) rec h = omega (arith, lt-record_at recs i rec h)

-- An ascending selection is no longer than the records, counted from its least index on.
pub length-IsAscending :
    (recs : List Record) (sel : List ℕ) (low : ℕ)
    → All (λ i. low ≤ i) sel
    → IsAscending sel
    → All (IsIndex recs) sel
    → low ≤ length recs
    → low + length sel ≤ length recs
length-IsAscending recs [] low above sorted all fits = omega arith
length-IsAscending recs (i ∷ sel) low above sorted all fits =
    let inside = lt-record_at recs i all.0.0 all.0.1 in
    omega (arith, above.0, length-IsAscending recs sel (suc i) sorted.0 sorted.1 all.1 inside)

pub All-zero_le : (sel : List ℕ) → All (λ i. 0 ≤ i) sel
All-zero_le [] = tt
All-zero_le (i ∷ sel) = (omega arith, All-zero_le sel)

pub indices-IsIndex :
    (recs : List Record) (i : ℕ) (l : List Record)
    → ((j : ℕ) (rec : Record) → record_at l j ≡ ok rec → IsIndex recs (i + j))
    → All (IsIndex recs) (indices i l)
unfolding indices record_at
indices-IsIndex recs i [] h = tt
indices-IsIndex recs i (rec ∷ l) h = (
  subst (IsIndex recs) (omega arith) (h 0 rec refl),
  indices-IsIndex recs (suc i) l (λ j r e. subst (IsIndex recs) (omega arith) (h (suc j) r e)),
)
