-- ===== src/Tables/Pipeline/Rows.antt =====
-- What a table ever serves: typed rows and no panic but the parsers' on Windows, nothing
-- elsewhere.
use amcache.Base.{
  In, All, ℕ, ◌^◌, ◌≤◌, ◌<◌, ◌≡◌, ◌≢◌, Option, some, List, [], ◌∷◌, Result, ok, err, inl, inr,
  arith, Option-cases, Bool-cases, sym, ap, ◌∙◌, ok_injective, ok-ne-err,
}
use mathlib.Core.Path.{subst}
use mathlib.Core.Option.{some-injective}
use amcache.Base.Text.{Text, text_eq}
use amcache.Hive.Regf.{Ended}
use amcache.Inventory.{Record, Snapshot, Table, lookup}
use amcache.Inventory.Parse.Times.{IsInTime, parse-IsInTime}
use amcache.Tables.Columns.{Spec}
use amcache.Tables.Specs.{specs}
use amcache.Tables.Cell.{Setting}
use amcache.Tables.Query.{Query, index, records_of, selected}
use amcache.Tables.Cache.{Cache}
use amcache.Tables.Rows.{RowError, index_panic, rows_for}
use amcache.Tables.Rows.Typed.{IsTyped, rows_for-IsTyped}
use amcache.Tables.Serve.{
  share, serve, ServeError, from_cache, from_rows, nil_snapshot, as_rows, Shared,
}
use amcache.Tables.Serve.Laws.{serve-ne-index_panic}
use amcache.Tables.Pipeline.{LoadError, Wiring, Attempt, Unsupported, read_other, generate_live}
use amcache.Tables.Pipeline.Runs.{Runs, IsParsed, generate-IsOutcome}

abbrev IsShort : Record → Type 0
IsShort rec = rec.last_write < 2 ^ 64

All-IsShort : (recs : List Record) → All IsInTime recs → All IsShort recs
All-IsShort [] h = tt
All-IsShort (rec ∷ recs) h = (omega (arith, h.0), All-IsShort recs h.1)

lookup-IsShort :
    (k : Text) (t : Table (List Record)) (recs : List Record)
    → All (λ (e : Text × List Record). All IsInTime e.1) t
    → lookup k t ≡ some recs
    → All IsShort recs
unfolding lookup
lookup-IsShort k [] recs a h = cc
lookup-IsShort k ((j, l) ∷ t) recs a h = elim (Bool-cases (text_eq k j)) [
  | inl e ↦ subst (All IsShort) (some-injective _ _ (rw (e, lookup) at h)) (All-IsShort l a.0)
  | inr e ↦ lookup-IsShort k t recs a.1 (rw (e, lookup) at h)
]

records_of-IsShort :
    (inv : Snapshot) (s : Spec)
    → All (λ (e : Text × List Record). All IsInTime e.1) inv.keys
    → All IsShort (records_of inv s)
records_of-IsShort inv s a = elim (Option-cases (lookup s.key inv.keys)) [
  | inl e ↦ rw (e, All) tt
  | inr (recs, e) ↦ rw (e, All) (lookup-IsShort s.key inv.keys recs a e)
]

module _ (w : Setting) (bounded : w.horizon.seconds < 2 ^ 64) (ctx : ℕ → Option Ended) (s : Spec)
    (known : In s specs) (query : Query) where
  served-IsTyped :
      (sel : Option (List ℕ)) (recs : List Record) (rows : List (Table Text))
      → All IsShort recs
      → (elim recs [ [] ↦ ok [] | rec ∷ more ↦ rows_for w ctx s (rec ∷ more) sel ]) ≡ ok rows
      → All (IsTyped s) rows
  served-IsTyped sel [] rows a h = subst (All (IsTyped s)) (ok_injective h) tt
  served-IsTyped sel (rec ∷ more) rows a h =
      (rows_for-IsTyped w ctx s (rec ∷ more) sel rows bounded a known h).1

  serve-IsTyped :
      (inv : Snapshot) (rows : List (Table Text))
      → All IsShort (records_of inv s)
      → serve w ctx s query (share w inv) ≡ ok rows
      → All (IsTyped s) rows
  unfolding serve
  serve-IsTyped inv rows a h =
      served-IsTyped (selected w.fold query (index w inv) s.table) (records_of inv s) rows a h

-- Neither an index out of range nor a missing snapshot, and typed rows.
abbrev pub IsSound : {E : Type 0} → Spec → Result (ServeError E) (List (Table Text)) → Type 0
IsSound s r =
    (r ≢ err (from_rows index_panic))
    × (r ≢ err nil_snapshot)
    × ((rows : List (Table Text)) → r ≡ ok rows → All (IsTyped s) rows)

as_rows-IsSound :
    (E : Type 0) (s : Spec) (r : Result RowError (List (Table Text)))
    → r ≢ err index_panic
    → ((rows : List (Table Text)) → r ≡ ok rows → All (IsTyped s) rows)
    → IsSound s (as_rows {E = E} r)
as_rows-IsSound E s (ok rows) h t = (λ e. cc, λ e. cc, λ l e. t l (ap ok (ok_injective e)))
as_rows-IsSound E s (err f) h t = (λ e. h (cc), λ e. cc, λ l e. cc)

from_cache-IsSound : {E : Type 0} (s : Spec) (e : E) → IsSound s (err (from_cache e))
from_cache-IsSound s e = (λ h. cc, λ h. cc, λ rows h. cc)

module _ {R X : Type 0} (n : Wiring R X) where
  IsParsed-IsShort : (inv : Snapshot) (s : Spec) → IsParsed n inv → All IsShort (records_of inv s)
  IsParsed-IsShort inv s i = records_of-IsShort inv s (
      parse-IsInTime n.orbit i.attempt.ctx i.attempt.ctx_subs n.open_hive i.res.bytes inv
        i.was_parsed)

  -- After any queries and timer firings, Generate of one of the seven tables, where its parsers return,
  -- neither reads past the records nor uses a missing snapshot, and every row that it returns has
  -- every column, with the digits of a 64-bit number or nothing in the columns of numbers; the clock
  -- is taken to fit 64 bits.
  pub generate-IsSound :
      (ctx : ℕ → Option Ended) (s : Spec) (query : Query) (a : Attempt X)
      (c : Cache Shared (LoadError R)) (t : ℕ)
      → n.setting.horizon.seconds < 2 ^ 64
      → In s specs
      → Runs n c t
      → t ≤ a.now
      → a.now ≤ a.done
      → IsSound s (generate_live n ctx s query a c).1
  generate-IsSound ctx s query a c t bounded known r h k =
      elim (generate-IsOutcome n ctx s query a c t r h k) [
        | inl (e, same) ↦ subst (IsSound s) (sym same) (from_cache-IsSound s e)
        | inr (inv, parsed, same) ↦ subst (IsSound s) (sym same) (
            as_rows-IsSound (LoadError R) s (serve n.setting ctx s query (share n.setting inv))
              (serve-ne-index_panic n.setting ctx s query inv known)
              (λ rows.
                serve-IsTyped n.setting bounded ctx s known query inv rows
                  (IsParsed-IsShort inv s parsed)))
      ]

-- Where the hive cannot be read, as on other systems than Windows, Generate fails with an error of
-- the load after any queries and timer firings.
pub generate-unsupported :
    {X : Type 0} (n : Wiring Unsupported X) (ctx : ℕ → Option Ended) (s : Spec) (query : Query)
    (a : Attempt X) (c : Cache Shared (LoadError Unsupported)) (t : ℕ)
    → ((x : X) → (n.accessors x).read_hive ≡ read_other)
    → Runs n c t
    → t ≤ a.now
    → a.now ≤ a.done
    → (e : LoadError Unsupported) × ((generate_live n ctx s query a c).1 ≡ err (from_cache e))
generate-unsupported n ctx s query a c t other r h k =
    elim (generate-IsOutcome n ctx s query a c t r h k) [
      | inl failed ↦ failed
      | inr (inv, parsed, _) ↦
          absurd (ok-ne-err _ _ (sym parsed.was_read ∙ other parsed.attempt.outside))
    ]
