-- ===== src/Tables/Pipeline/Unwound.antt =====
-- What a query of tables/tables.go does with its log and without: the same, unless a panic of the
-- parsers ends it.
use amcache.Base.{
  ℕ, ◌≡◌, refl, Option, List, err, Bool-cases, Option-cases, Result-cases, inl, inr, ap, Result,
  Bool, true, none, ◌⊎◌,
}
use amcache.Base.Once.{nat_key}
use amcache.Base.Text.{Text}
use amcache.Hive.Regf.{Ended}
use amcache.Inventory.{Table}
use amcache.Inventory.Parse.{parse}
use amcache.Tables.Columns.{Spec}
use amcache.Tables.Query.{Query}
use amcache.Tables.Cache.{Cache, get, refresh, is_due}
use amcache.Tables.Serve.{Shared, ServeError, parser_panic, generate}
use amcache.Tables.Pipeline.{
  LoadError, Wiring, Attempt, is_load_ended, parse_snapshot, call_of, generate_live,
}
use amcache.Tables.Pipeline.Logged.{
  Journal, stat_logged, parse_snapshot_logged, get_logged, generate_logged, Ran, panicked,
  returning, answered_ran,
}

module _ {R X : Type 0} (n : Wiring R X) where
  parse_snapshot_logged_result :
      (a : Attempt X) (j : Journal R) → (parse_snapshot_logged n a j).0 ≡ parse_snapshot n a
  unfolding parse_snapshot_logged parse_snapshot
  parse_snapshot_logged_result a j = elim (Result-cases (n.accessors a.outside).read_hive) [
    | inr (e, x) ↦ rw (x, parse_snapshot_logged, parse_snapshot) refl
    | inl (res, x) ↦
        rw (x, parse_snapshot_logged, parse_snapshot)
          (elim (Result-cases (parse n.orbit a.ctx a.ctx_subs n.open_hive res.bytes)) [
            | inr (e, y) ↦ rw y refl
            | inl (inv, y) ↦ rw y refl
          ])
  ]

  -- A query that a panic of the parsers has ended: it was about to load, and all that it has done to
  -- the cache is the look at the stamp.
  abbrev pub IsUnwound : Bool → Attempt X → Cache Shared (LoadError R) → Type 0
  IsUnwound panics a c =
      (panics ≡ true)
      × (a.waited ≡ none)
      × (is_due (is_load_ended n) (call_of n a) (refresh (call_of n a).stat c) ≡ true)

  get_logged_result :
      (panics : Bool) (a : Attempt X) (c : Cache Shared (LoadError R)) (j : Journal R)
      → ((get_logged n panics a c j).0 ≡ returning (get (is_load_ended n) (call_of n a) c))
        ⊎ (IsUnwound panics a c
            × ((get_logged n panics a c j).0 ≡ (refresh (call_of n a).stat c, panicked)))
  unfolding get_logged get
  get_logged_result panics a c j =
      let c' = refresh (call_of n a).stat c in
      let j' = stat_logged (n.accessors a.outside).stat_hive j in
      elim (Option-cases a.waited) [
        | inr (e, w) ↦ inl (rw (w, get_logged, get) refl)
        | inl w ↦ elim (Bool-cases (is_due (is_load_ended n) (call_of n a) c')) [
          | inr d ↦ inl (rw (w, d, get_logged, get) refl)
          | inl d ↦ elim (Bool-cases panics) [
            | inl p ↦ inr ((p, w, d), rw (w, d, p, get_logged) refl)
            | inr p ↦ inl (rw (w, d, p, parse_snapshot_logged_result a j', get_logged, get) refl)
          ]
        ]
      ]

  pub generate_logged_result :
      (panics : Bool) (ctx : ℕ → Option Ended) (s : Spec) (query : Query) (a : Attempt X)
      (c : Cache Shared (LoadError R)) (j : Journal R)
      → ((generate_logged n panics ctx s query a c j).0 ≡ generate_live n ctx s query a c)
        ⊎ (IsUnwound panics a c
            × ((generate_logged n panics ctx s query a c j).0
                ≡ (refresh (call_of n a).stat c, err parser_panic)))
  unfolding generate_logged generate
  generate_logged_result panics ctx s query a c j =
      let answer_of : Cache Shared (LoadError R) × Ran (Result (LoadError R) (Option Shared))
          → Cache Shared (LoadError R) × Result (ServeError (LoadError R)) (List (Table Text)) =
        λ r. (r.0, answered_ran n.setting ctx s query r.1) in
      elim (get_logged_result panics a c j) [
        | inl same ↦ inl (ap answer_of same)
        | inr (u, same) ↦ inr (u, ap answer_of same)
      ]
