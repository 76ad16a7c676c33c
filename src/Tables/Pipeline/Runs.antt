-- ===== src/Tables/Pipeline/Runs.antt =====
-- The seven tables over one cache, in every order of queries and timer firings: what Generate returns.
use amcache.Base.{
  ℕ, ◌≤◌, ◌≡◌, refl, Option, none, some, true, List, Result, ok, err, inl, inr, ◌⊎◌, Result-cases,
  sym, ap, ◌∙◌, ok_injective, ok-ne-err,
}
use mathlib.Core.Option.{none-ne-some}
use amcache.Base.Text.{Text}
use amcache.Hive.Regf.{Ended}
use amcache.Hive.Acquire.{ReadResult}
use amcache.Inventory.{Snapshot, Table}
use amcache.Inventory.Parse.{parse}
use amcache.Tables.Columns.{Spec}
use amcache.Tables.Query.{Query}
use amcache.Tables.Cache.{Cache, get, refresh, is_due, expire, empty_cache}
use amcache.Tables.Cache.Fresh.{get-fresh}
use amcache.Tables.Cache.Holds.{Holds, refresh-Holds, get-Holds, expire-Holds}
use amcache.Tables.Serve.{Shared, share, serve, ServeError, from_cache, answered, as_rows, generate}
use amcache.Tables.Pipeline.{
  LoadError, Wiring, Attempt, is_load_ended, parse_snapshot, call_of, generate_live,
}

module _ {R X : Type 0} (n : Wiring R X) where
  -- Queries of any tables and firings of the timer, each no earlier than the last. A query may end by a
  -- panic of the parsers, which leaves what the look at the stamp has changed.
  pub data Runs : Cache Shared (LoadError R) → ℕ → Type 0 where
    started : Runs empty_cache 0
    queried :
        {c : Cache Shared (LoadError R)} {t : ℕ} (a : Attempt X)
        → Runs c t
        → t ≤ a.now
        → a.now ≤ a.done
        → Runs (get (is_load_ended n) (call_of n a) c).0 a.done
    unwound :
        {c : Cache Shared (LoadError R)} {t : ℕ} (a : Attempt X)
        → Runs c t
        → t ≤ a.now
        → a.now ≤ a.done
        → a.waited ≡ none
        → is_due (is_load_ended n) (call_of n a) (refresh (call_of n a).stat c) ≡ true
        → Runs (refresh (call_of n a).stat c) a.done
    fired :
        {c : Cache Shared (LoadError R)} {t : ℕ} (now : ℕ)
        → Runs c t
        → t ≤ now
        → Runs (expire now c) now

  -- The snapshot is what `Parse` gives of bytes that some attempt read.
  pub record IsParsed (inv : Snapshot) : Type 0 where
    pub attempt : Attempt X
    pub res : ReadResult
    pub was_read : (n.accessors attempt.outside).read_hive ≡ ok res
    pub was_parsed : parse n.orbit attempt.ctx attempt.ctx_subs n.open_hive res.bytes ≡ ok inv

  -- The index is that of the snapshot.
  abbrev pub IsShared : Shared → Type 0
  IsShared sh = (inv : Snapshot) × (sh ≡ share n.setting inv) × IsParsed inv

  parse_snapshot-IsShared : (a : Attempt X) (sh : Shared) → parse_snapshot n a ≡ ok sh → IsShared sh
  unfolding parse_snapshot
  parse_snapshot-IsShared a sh h = elim (Result-cases (n.accessors a.outside).read_hive) [
    | inr (e, x) ↦ absurd (ok-ne-err _ _ (sym (rw (x, parse_snapshot) at h)))
    | inl (res, x) ↦ elim (Result-cases (parse n.orbit a.ctx a.ctx_subs n.open_hive res.bytes)) [
      | inr (e, y) ↦ absurd (ok-ne-err _ _ (sym (rw (x, y, parse_snapshot) at h)))
      | inl (inv, y) ↦ (
        inv,
        sym (ok_injective (rw (x, y, parse_snapshot) at h)),
        record { attempt = a; res = res; was_read = x; was_parsed = y },
      )
    ]
  ]

  Runs-Holds : {c : Cache Shared (LoadError R)} {t : ℕ} → Runs c t → Holds IsShared c
  Runs-Holds started = λ s h. absurd (none-ne-some s h)
  Runs-Holds (queried {c = c} a r h k) =
      get-Holds IsShared (is_load_ended n) (call_of n a) (parse_snapshot-IsShared a) c
        (Runs-Holds r)
  Runs-Holds (unwound {c = c} a r h k w d) =
      refresh-Holds IsShared (call_of n a).stat c (Runs-Holds r)
  Runs-Holds (fired {c = c} now r h) = expire-Holds IsShared now c (Runs-Holds r)

  -- The cache's error, or the rows that are served from a snapshot that was parsed.
  abbrev pub IsOutcome :
      (ℕ → Option Ended)
      → Spec
      → Query
      → Result (ServeError (LoadError R)) (List (Table Text))
      → Type 0
  IsOutcome ctx s query r =
      ((e : LoadError R) × (r ≡ err (from_cache e)))
      ⊎ ((inv : Snapshot) × IsParsed inv
          × (r ≡ as_rows (serve n.setting ctx s query (share n.setting inv))))

  generate_live-answered :
      (ctx : ℕ → Option Ended) (s : Spec) (query : Query) (a : Attempt X)
      (c : Cache Shared (LoadError R))
      → (generate_live n ctx s query a c).1
        ≡ answered n.setting ctx s query (get (is_load_ended n) (call_of n a) c).1
  unfolding generate
  generate_live-answered ctx s query a c = refl

  -- After any queries and timer firings, Generate, where its parsers return, fails with an error of the
  -- load, or it serves the rows of a snapshot that `Parse` made of bytes that were read, over the
  -- index of that snapshot.
  pub generate-IsOutcome :
      (ctx : ℕ → Option Ended) (s : Spec) (query : Query) (a : Attempt X)
      (c : Cache Shared (LoadError R)) (t : ℕ)
      → Runs c t
      → t ≤ a.now
      → a.now ≤ a.done
      → IsOutcome ctx s query (generate_live n ctx s query a c).1
  generate-IsOutcome ctx s query a c t r h k =
      elim (Result-cases (get (is_load_ended n) (call_of n a) c).1) [
        | inr (e, x) ↦
            inl (e, generate_live-answered ctx s query a c ∙ ap (answered n.setting ctx s query) x)
        | inl (o, x) ↦
            let ((sh, same, held, _), _) = get-fresh (is_load_ended n) (call_of n a) c o k x in
            let (inv, shared, parsed) = Runs-Holds (queried a r h k) sh held in
            let served : o ≡ some (share n.setting inv) = same ∙ ap some shared in
            inr (
              inv,
              parsed,
              generate_live-answered ctx s query a c
                  ∙ ap (answered n.setting ctx s query) (x ∙ ap ok served),
            )
      ]
