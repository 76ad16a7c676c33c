-- ===== src/Tables/Pipeline/Windows.antt =====
-- On Windows a table is served from clean bytes: the acquisition and the replay under the cache.
use amcache.Base.{ℕ, ◌≤◌, ◌≡◌, ok, err, false, length, inl, inr, ◌⊎◌, Option, sym, ap, ◌∙◌}
use amcache.Hive.Regf.{Bytes, Parser, Ended, Error, ReadsRegf, IsBytes, dirty, max_hive_bytes}
use amcache.Hive.Host.{Host}
use amcache.Hive.Acquire.{Source, acquire_hive}
use amcache.Hive.Acquire.Laws.{read-IsClean}
use amcache.Inventory.{Snapshot}
use amcache.Inventory.Parse.{parse}
use amcache.Tables.Columns.{Spec}
use amcache.Tables.Query.{Query}
use amcache.Tables.Cache.{Cache}
use amcache.Tables.Serve.{Shared, share, serve, from_cache, as_rows}
use amcache.Tables.Pipeline.{
  Accessors, LoadError, Wiring, Attempt, windows_accessors, generate_live,
}
use amcache.Tables.Pipeline.Runs.{Runs, IsParsed, generate-IsOutcome}

module _ {X : Type 0} (p : Parser) (n : Wiring Error X) (hosts : X → Host × Host) where
  -- The snapshot was parsed from bytes that the parser does not call dirty.
  pub record IsFromClean (inv : Snapshot) : Type 0 where
    pub bytes : Bytes
    pub attempt : Attempt X
    pub clean : dirty p bytes ≡ ok false
    pub capped : length bytes ≤ max_hive_bytes
    pub parsed : parse n.orbit attempt.ctx attempt.ctx_subs n.open_hive bytes ≡ ok inv

  -- The hosts deliver bytes.
  abbrev pub Deliver : Type 0
  Deliver = (x : X) (s : Source) → acquire_hive (hosts x).1 ≡ ok s → IsBytes s.bytes

  IsParsed-IsFromClean :
      ReadsRegf p
      → Deliver
      → ((x : X) → n.accessors x ≡ windows_accessors p (hosts x))
      → (inv : Snapshot) → IsParsed n inv
      → IsFromClean inv
  IsParsed-IsFromClean laws typed wired inv i =
      let x = i.attempt.outside in
      let was_read = sym (ap (λ (a : Accessors Error). a.read_hive) (wired x)) ∙ i.was_read in
      let (clean, capped, _) = read-IsClean p (hosts x).1 laws (typed x) i.res was_read in
      record {
        bytes = i.res.bytes;
        attempt = i.attempt;
        clean = clean;
        capped = capped;
        parsed = i.was_parsed;
      }

  -- On a host whose files hold bytes, with a registry parser that reads the format, after any queries
  -- and timer firings, Generate fails with an error of the load, or it serves the rows of a snapshot
  -- that `Parse` made of bytes under the cap that are not dirty, however the hive was acquired.
  pub generate-IsFromClean :
      (ctx : ℕ → Option Ended) (s : Spec) (query : Query) (a : Attempt X)
      (c : Cache Shared (LoadError Error)) (t : ℕ)
      → ReadsRegf p
      → Deliver
      → ((x : X) → n.accessors x ≡ windows_accessors p (hosts x))
      → Runs n c t
      → t ≤ a.now
      → a.now ≤ a.done
      → ((e : LoadError Error) × ((generate_live n ctx s query a c).1 ≡ err (from_cache e)))
        ⊎ ((inv : Snapshot) × IsFromClean inv
            × ((generate_live n ctx s query a c).1
                ≡ as_rows (serve n.setting ctx s query (share n.setting inv))))
  generate-IsFromClean ctx s query a c t laws typed wired r h k =
      elim (generate-IsOutcome n ctx s query a c t r h k) [
        | inl failed ↦ inl failed
        | inr (inv, parsed, served) ↦
            inr (inv, IsParsed-IsFromClean laws typed wired inv parsed, served)
      ]
