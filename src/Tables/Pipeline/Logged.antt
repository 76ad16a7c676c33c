-- ===== src/Tables/Pipeline/Logged.antt =====
-- `get`, `parse` and Generate of tables/tables.go with what they log: that the stamp cannot be had,
-- once in the life of the process, each hive that was parsed, and each panic that was recovered. The
-- parsers may panic here while a hive is loaded.
use amcache.Base.{ℕ, Bool, Option, none, some, List, [], ◌∷◌, if◌then◌else◌, Result, ok, err}
use amcache.Base.Once.{OnceLog, once, nat_key, empty_log}
use amcache.Base.Text.{Text}
use amcache.Hive.Regf.{Ended}
use amcache.Hive.Host.{FileInfo}
use amcache.Inventory.{Table}
use amcache.Inventory.Parse.{parse}
use amcache.Tables.Columns.{Spec}
use amcache.Tables.Cell.{Setting}
use amcache.Tables.Query.{Query}
use amcache.Tables.Rows.{index_panic}
use amcache.Tables.Cache.{Cache, refresh, is_due, load, answer, held}
use amcache.Tables.Serve.{
  Shared, share, ServeError, from_rows, nil_snapshot, parser_panic, answered,
}
use amcache.Tables.Pipeline.{
  LoadError, from_read, from_parse, Wiring, Attempt, is_load_ended, call_of,
}

-- What the line of a parsed hive says.
pub record ParsedLine : Type 0 where
  pub raw : Bool
  pub replayed : Bool

-- What a recovered panic was: a missing snapshot, an index out of range, or one of the parsers'.
pub data Panic : Type 0 where
  of_nil of_index of_parser : Panic

-- `statWarned` with its line, the lines of the parsed hives and of the recovered panics, the last
-- first.
pub record Journal (R : Type 0) : Type 0 where
  pub stat : OnceLog ℕ R
  pub parsed : List ParsedLine
  pub panics : List (Text × Panic)

abbrev pub empty_journal : {R : Type 0} → Journal R
empty_journal = record { stat = empty_log; parsed = []; panics = [] }

-- `warnStat`.
unfoldable pub warn_stat : {R : Type 0} → R → Journal R → Journal R
warn_stat e j = record j { stat = once 0 e j.stat }

abbrev pub stat_logged : {R : Type 0} → Result R FileInfo → Journal R → Journal R
stat_logged (err e) j = warn_stat e j
stat_logged (ok info) j = j

-- How a call ends: it returns, or a panic of a parser unwinds it.
pub data Ran (A : Type 0) : Type 0 where
  returned : A → Ran A
  panicked : Ran A

abbrev pub returning : {S A : Type 0} → S × A → S × Ran A
returning (c, r) = (c, returned r)

-- What Generate returns once `get` has ended.
abbrev pub answered_ran :
    {E : Type 0}
    → Setting
    → (ℕ → Option Ended)
    → Spec
    → Query
    → Ran (Result E (Option Shared))
    → Result (ServeError E) (List (Table Text))
answered_ran w ctx s query panicked = err parser_panic
answered_ran w ctx s query (returned got) = answered w ctx s query got

-- What Generate's deferred function logs: a line for each panic that it recovers.
abbrev pub panic_logged :
    {R E : Type 0} → Text → Result (ServeError E) (List (Table Text)) → Journal R → Journal R
panic_logged tbl (err nil_snapshot) j = record j { panics = (tbl, of_nil) ∷ j.panics }
panic_logged tbl (err (from_rows index_panic)) j = record j { panics = (tbl, of_index) ∷ j.panics }
panic_logged tbl (err parser_panic) j = record j { panics = (tbl, of_parser) ∷ j.panics }
panic_logged tbl _ j = j

module _ {R X : Type 0} (n : Wiring R X) where
  -- `parse`, with the log before and after.
  unfoldable pub parse_snapshot_logged :
      Attempt X → Journal R → Result (LoadError R) Shared × Journal R
  parse_snapshot_logged a j = elim (n.accessors a.outside).read_hive [
    | err e ↦ (err (from_read e), j)
    | ok res ↦ elim (parse n.orbit a.ctx a.ctx_subs n.open_hive res.bytes) [
      | err e ↦ (err (from_parse e), j)
      | ok inv ↦ (
        ok (share n.setting inv),
        record j { parsed = record { raw = res.raw; replayed = res.replayed } ∷ j.parsed },
      )
    ]
  ]

  -- `get`, with the log before and after. Where it loads and `panics` is set, a parser panics: what the
  -- stamp has changed stays, nothing is stored, and the slot is freed.
  unfoldable pub get_logged :
      Bool
      → Attempt X
      → Cache Shared (LoadError R)
      → Journal R
      → (Cache Shared (LoadError R) × Ran (Result (LoadError R) (Option Shared))) × Journal R
  get_logged panics a c j = elim (call_of n a).waited [
    | some e ↦ ((c, returned (err e)), j)
    | none ↦
        let c' = refresh (call_of n a).stat c in
        let j' = stat_logged (n.accessors a.outside).stat_hive j in
        let (r, j'') = parse_snapshot_logged a j' in
        if is_due (is_load_ended n) (call_of n a) c'
        then (if panics then ((c', panicked), j') else (
          returning (
              answer (is_load_ended n)
                (load (is_load_ended n) (record (call_of n a) { parse = r }) c')),
          j'',
        ))
        else ((c', returned (held (is_load_ended n) c')), j')
  ]

  -- A table's Generate, with the log before and after.
  unfoldable pub generate_logged :
      Bool
      → (ℕ → Option Ended)
      → Spec
      → Query
      → Attempt X
      → Cache Shared (LoadError R)
      → Journal R
      → (Cache Shared (LoadError R) × Result (ServeError (LoadError R)) (List (Table Text)))
        × Journal R
  generate_logged panics ctx s query a c j =
      let ((c', got), j') = get_logged panics a c j in
      let rows = answered_ran n.setting ctx s query got in
      ((c', rows), panic_logged s.table rows j')
