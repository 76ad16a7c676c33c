-- ===== src/Tables/Tests/Live.antt =====
-- A table over a locked hive: the query goes through the cache, the raw read, the replay, the parse
-- and the row build.
use amcache.Base.{
  Result, List, ℕ, ◌+◌, ◌≡◌, refl, Bool, true, false, Option, none, some, [], err, arith,
}
use amcache.Hive.Regf.{Error, Ended}
use amcache.Hive.Host.{Host}
use amcache.Hive.Tests.{locked_host, locked-IsBytes}
use amcache.Hive.Tests.Format.{regf, regf-ReadsRegf}
use amcache.Inventory.{Snapshot}
use amcache.Tables.Pipeline.Windows.{IsFromClean, generate-IsFromClean}
use amcache.Base.{◌⊎◌}
use amcache.Tables.Serve.{share, serve, as_rows}
use amcache.Inventory.Tests.{small_registry}
use amcache.Tables.Specs.{application_files}
use amcache.Tables.Cache.{Cache, get, refresh, empty_cache}
use amcache.Tables.Serve.{Shared, ServeError, from_cache, parser_panic}
use amcache.Base.Text.{Text}
use amcache.Inventory.{Table}
use amcache.Tables.Pipeline.Logged.{Journal, empty_journal, generate_logged}
use amcache.Tables.Pipeline.Unwound.{IsUnwound}
use amcache.Tables.Pipeline.Quiet.{IsQuiet, asked, opened, generate_logged-IsQuiet}
use amcache.Tables.Pipeline.{
  Wiring, Attempt, Unsupported, LoadError, windows_accessors, other_accessors, generate_live,
  is_load_ended, call_of,
}
use amcache.Tables.Pipeline.Runs.{Runs, started, queried, IsOutcome, generate-IsOutcome}
use amcache.Tables.Pipeline.Rows.{IsSound, generate-IsSound, generate-unsupported}
use amcache.Tables.Tests.{setting, by_hash, application_files-In}

abbrev is_context_end : Error → Bool
is_context_end (Error.context_ended e) = true
is_context_end _ = false

abbrev on_windows : Wiring Error (Host × Host)
on_windows = record {
  setting = setting;
  orbit = λ c. c;
  open_hive = λ b. some small_registry;
  accessors = windows_accessors regf;
  is_read_ended = is_context_end;
}

abbrev elsewhere : Wiring Unsupported (Unit {0})
elsewhere = record {
  setting = setting;
  orbit = λ c. c;
  open_hive = λ b. some small_registry;
  accessors = other_accessors;
  is_read_ended = λ e. false;
}

abbrev at_time : {X : Type 0} → X → ℕ → Attempt X
at_time x t = record {
  outside = x;
  waited = none;
  ctx = λ k. none;
  ctx_subs = λ k i. none;
  now = t;
  done = t + 5;
  ended = false;
  ours = false;
}

abbrev first_query : Attempt (Host × Host)
first_query = at_time (locked_host, locked_host) 10

abbrev second_query : Attempt (Host × Host)
second_query = at_time (locked_host, locked_host) 400

abbrev after_first : Cache Shared (LoadError Error)
after_first = (get (is_load_ended on_windows) (call_of on_windows first_query) empty_cache).0

after_first-Runs : Runs on_windows after_first 15
after_first-Runs = queried first_query started (omega arith) (omega arith)

abbrev unending : ℕ → Option Ended
unending i = none

generate-IsOutcome_example :
    IsOutcome on_windows unending application_files by_hash
      (generate_live on_windows unending application_files by_hash second_query after_first).1
generate-IsOutcome_example =
    generate-IsOutcome on_windows unending application_files by_hash second_query after_first 15
      after_first-Runs (omega arith) (omega arith)

generate-IsSound_example :
    IsSound application_files
      (generate_live on_windows unending application_files by_hash second_query after_first).1
generate-IsSound_example =
    generate-IsSound on_windows unending application_files by_hash second_query after_first 15
      (omega arith) application_files-In after_first-Runs (omega arith) (omega arith)

generate-unsupported_example :
    (e : LoadError Unsupported) × ((generate_live elsewhere unending application_files []
        (at_time tt 7)
        empty_cache).1
      ≡ err (from_cache e))
generate-unsupported_example =
    generate-unsupported elsewhere unending application_files [] (at_time tt 7) empty_cache 0
      (λ x. refl) started (omega arith) (omega arith)

abbrev on_locked : Wiring Error (Unit {0})
on_locked = record {
  setting = setting;
  orbit = λ c. c;
  open_hive = λ b. some small_registry;
  accessors = λ u. windows_accessors regf (locked_host, locked_host);
  is_read_ended = is_context_end;
}

generate-IsFromClean_example :
    ((e : LoadError Error) × ((generate_live on_locked unending application_files by_hash
          (at_time tt 7)
          empty_cache).1
        ≡ err (from_cache e)))
    ⊎ ((inv : Snapshot) × IsFromClean regf on_locked (λ u. (locked_host, locked_host)) inv
        × ((generate_live on_locked unending application_files by_hash (at_time tt 7) empty_cache).1
            ≡ as_rows (serve setting unending application_files by_hash (share setting inv))))
generate-IsFromClean_example =
    generate-IsFromClean regf on_locked (λ u. (locked_host, locked_host)) unending application_files
      by_hash (at_time tt 7) empty_cache 0 regf-ReadsRegf (λ x. locked-IsBytes) (λ x. refl) started
      (omega arith) (omega arith)

-- The first query ends by a panic of the parsers.
abbrev first_generated :
    (Cache Shared (LoadError Error) × Result (ServeError (LoadError Error)) (List (Table Text)))
    × Journal Error
first_generated =
    generate_logged on_windows true unending application_files by_hash first_query empty_cache
      empty_journal

generate_logged-IsQuiet_example :
    (((generate_logged on_windows false unending application_files by_hash second_query
          first_generated.0.0 first_generated.1).0
        ≡ generate_live on_windows unending application_files by_hash second_query
            first_generated.0.0)
      ⊎ (IsUnwound on_windows false second_query first_generated.0.0
          × ((generate_logged on_windows false unending application_files by_hash second_query
                first_generated.0.0 first_generated.1).0
              ≡ (
                refresh (call_of on_windows second_query).stat first_generated.0.0,
                err parser_panic,
              ))))
    × IsQuiet on_windows
        (generate_logged on_windows false unending application_files by_hash second_query
          first_generated.0.0 first_generated.1).1
generate_logged-IsQuiet_example =
    generate_logged-IsQuiet on_windows (omega arith) false unending application_files by_hash
      second_query first_generated.0.0 15 first_generated.1 application_files-In
      (asked true unending application_files by_hash first_query application_files-In opened
        (omega arith) (omega arith))
      (omega arith) (omega arith)
