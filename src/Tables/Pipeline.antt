-- ===== src/Tables/Pipeline.antt =====
-- How tables/tables.go puts the parts together: the cache's `parse` reads the hive, parses it and
-- indexes it, and `All` serves the seven tables over the readers of internal/hive. The readers of
-- systems other than Windows (internal/hive/hive_other.go) are here too.
pub mod Runs
pub mod Rows
pub mod Windows
pub mod Answer
pub mod Logged
pub mod Unwound
pub mod Quiet
use amcache.Base.{ℕ, Bool, true, false, Option, none, some, List, Result, ok, err}
use amcache.Base.Text.{Text}
use amcache.Hive.Regf.{Bytes, Parser, Ended, Error}
use amcache.Hive.Host.{Host, FileInfo}
use amcache.Hive.Acquire.{ReadResult, read, stat}
use amcache.Inventory.{Snapshot, Table}
use amcache.Inventory.Parse.{Registry, ParseError, parse}
use amcache.Tables.Columns.{Spec}
use amcache.Tables.Cell.{Setting}
use amcache.Tables.Query.{Query}
use amcache.Tables.Cache.{Cache, Call, Stamp}
use amcache.Tables.Serve.{Shared, share, ServeError, generate}

-- `errors.ErrUnsupported`.
pub data Unsupported : Type 0 where
  unsupported : Unsupported

-- `Read` of other systems.
abbrev pub read_other : Result Unsupported ReadResult
read_other = err unsupported

-- `Stat` of other systems.
abbrev pub stat_other : Result Unsupported FileInfo
stat_other = err unsupported

-- The two functions that `New` takes, with their errors, as one call meets them.
pub record Accessors (R : Type 0) : Type 0 where
  pub read_hive : Result R ReadResult
  pub stat_hive : Result R FileInfo

-- `All` on Windows: the host when the file is looked at, and the host when it is read.
abbrev pub windows_accessors : Parser → Host × Host → Accessors Error
windows_accessors p (at_stat, at_read) = record {
  read_hive = read p at_read;
  stat_hive = stat at_stat;
}

-- `All` elsewhere.
abbrev pub other_accessors : Unit {0} → Accessors Unsupported
other_accessors u = record { read_hive = read_other; stat_hive = stat_other }

-- Why there is no snapshot: the context ended before the slot was free, the read failed, or the parse
-- did.
pub data LoadError (R : Type 0) : Type 0 where
  wait_ended : Ended → LoadError R
  from_read : R → LoadError R
  from_parse : ParseError → LoadError R

-- What the calls meet outside: `X` is what the accessors depend on. `orbit` is the case folding of
-- strings.EqualFold, one rune for all that fold together; that of strings.ToLower is `setting.fold`.
pub record Wiring (R X : Type 0) : Type 0 where
  pub setting : Setting
  pub orbit : ℕ → ℕ
  pub open_hive : Bytes → Option Registry
  pub accessors : X → Accessors R
  pub is_read_ended : R → Bool

-- One call of `get`.
pub record Attempt (X : Type 0) : Type 0 where
  pub outside : X
  pub waited : Option Ended
  pub ctx : Text → Option Ended
  pub ctx_subs : Text → ℕ → Option Ended
  pub now : ℕ
  pub done : ℕ
  pub ended : Bool
  pub ours : Bool

module _ {R X : Type 0} (n : Wiring R X) where
  -- The error is a context's end.
  abbrev pub is_load_ended : LoadError R → Bool
  is_load_ended (wait_ended e) = true
  is_load_ended (from_read e) = n.is_read_ended e
  is_load_ended (from_parse (ParseError.context_ended e)) = true
  is_load_ended (from_parse e) = false

  -- `parse`: read, parse, index.
  unfoldable pub parse_snapshot : Attempt X → Result (LoadError R) Shared
  parse_snapshot a = elim (n.accessors a.outside).read_hive [
    | err e ↦ err (from_read e)
    | ok res ↦ elim (parse n.orbit a.ctx a.ctx_subs n.open_hive res.bytes) [
      | err e ↦ err (from_parse e)
      | ok inv ↦ ok (share n.setting inv)
    ]
  ]

  abbrev stamp_of : Result R FileInfo → Option Stamp
  stamp_of (err e) = none
  stamp_of (ok info) = some (record { mtime = info.mod_time; size = info.size })

  abbrev waiting : Option Ended → Option (LoadError R)
  waiting none = none
  waiting (some e) = some (wait_ended e)

  -- What the cache meets in one call.
  abbrev pub call_of : Attempt X → Call Shared (LoadError R)
  call_of a = record {
    waited = waiting a.waited;
    stat = stamp_of (n.accessors a.outside).stat_hive;
    now = a.now;
    parse = parse_snapshot a;
    done = a.done;
    ended = a.ended;
    ours = a.ours;
  }

  -- A table's Generate over the shared cache.
  abbrev pub generate_live :
      (ℕ → Option Ended)
      → Spec
      → Query
      → Attempt X
      → Cache Shared (LoadError R)
      → Cache Shared (LoadError R) × Result (ServeError (LoadError R)) (List (Table Text))
  generate_live ctx s query a c = generate is_load_ended n.setting ctx s query (call_of a) c
