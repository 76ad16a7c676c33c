-- ===== src/Tables/Pipeline/Quiet.antt =====
-- What the tables log over the life of the process.
use mathlib.Core.Path.{subst}
use amcache.Base.{
  In, ℕ, ◌^◌, ◌≤◌, ◌<◌, ◌≡◌, refl, Option, List, ok, err, All, Bool-cases, Option-cases,
  Result-cases, inl, inr, sym, ap, Result, Bool, ◌⊎◌, ◌∙◌,
}
use amcache.Base.Once.{IsOnce, once-IsOnce, nat_key}
use amcache.Base.Text.{Text}
use amcache.Hive.Regf.{Ended}
use amcache.Hive.Host.{FileInfo}
use amcache.Hive.Acquire.{ReadResult}
use amcache.Inventory.{Table}
use amcache.Inventory.Parse.{parse}
use amcache.Tables.Columns.{Spec}
use amcache.Tables.Specs.{specs}
use amcache.Tables.Query.{Query}
use amcache.Tables.Rows.{RowError, index_panic}
use amcache.Tables.Cache.{Cache, get, refresh, is_due, expire, empty_cache}
use amcache.Tables.Serve.{Shared, ServeError, from_rows, nil_snapshot, parser_panic, generate}
use amcache.Tables.Pipeline.{LoadError, Wiring, Attempt, is_load_ended, call_of, generate_live}
use amcache.Tables.Pipeline.Logged.{
  ParsedLine, Journal, empty_journal, warn_stat, stat_logged, panic_logged, parse_snapshot_logged,
  get_logged, generate_logged, Panic, of_parser,
}
use amcache.Tables.Pipeline.Rows.{IsSound, generate-IsSound}
use amcache.Tables.Pipeline.Runs.{Runs, started, queried, unwound, fired}
use amcache.Tables.Pipeline.Unwound.{IsUnwound, generate_logged_result}

module _ {R X : Type 0} (n : Wiring R X) where
  -- The line tells how some attempt acquired the hive.
  abbrev pub IsOfRead : ParsedLine → Type 0
  IsOfRead line =
      (x : X) × (res : ReadResult) × ((n.accessors x).read_hive ≡ ok res)
      × (line ≡ record { raw = res.raw; replayed = res.replayed })

  -- The failure of the stamp has one line at most, the hives' lines tell how they were acquired, and
  -- every panic that was recovered was one of the parsers'.
  abbrev pub IsQuiet : Journal R → Type 0
  IsQuiet j =
      IsOnce (λ (e : R). 0) j.stat
      × All IsOfRead j.parsed
      × All (λ (p : Text × Panic). p.1 ≡ of_parser) j.panics

  stat_logged-IsQuiet :
      (r : Result R FileInfo) (j : Journal R) → IsQuiet j → IsQuiet (stat_logged r j)
  unfolding warn_stat
  stat_logged-IsQuiet (ok info) j q = q
  stat_logged-IsQuiet (err e) j (o, reads, calm) =
      (once-IsOnce (λ (e : R). 0) e j.stat o, reads, calm)

  parse_snapshot_logged-IsQuiet :
      (a : Attempt X) (j : Journal R) → IsQuiet j → IsQuiet (parse_snapshot_logged n a j).1
  unfolding parse_snapshot_logged
  parse_snapshot_logged-IsQuiet a j q = elim (Result-cases (n.accessors a.outside).read_hive) [
    | inr (e, x) ↦ rw (x, parse_snapshot_logged) q
    | inl (res, x) ↦ elim (Result-cases (parse n.orbit a.ctx a.ctx_subs n.open_hive res.bytes)) [
      | inr (e, y) ↦ rw (x, y, parse_snapshot_logged) q
      | inl (inv, y) ↦ rw (x, y, parse_snapshot_logged) (q.0, ((a.outside, res, x, refl), q.1), q.2)
    ]
  ]

  get_logged-IsQuiet :
      (panics : Bool) (a : Attempt X) (c : Cache Shared (LoadError R)) (j : Journal R)
      → IsQuiet j
      → IsQuiet (get_logged n panics a c j).1
  unfolding get_logged
  get_logged-IsQuiet panics a c j q = elim (Option-cases a.waited) [
    | inr (e, x) ↦ rw (x, get_logged) q
    | inl x ↦
        let j' = stat_logged (n.accessors a.outside).stat_hive j in
        let q' = stat_logged-IsQuiet (n.accessors a.outside).stat_hive j q in
        elim (Bool-cases (is_due (is_load_ended n) (call_of n a) (refresh (call_of n a).stat c))) [
          | inr e ↦ rw (x, e, get_logged) q'
          | inl e ↦ elim (Bool-cases panics) [
            | inl p ↦ rw (x, e, p, get_logged) q'
            | inr p ↦ rw (x, e, p, get_logged) (parse_snapshot_logged-IsQuiet a j' q')
          ]
        ]
  ]

  panic_logged-IsQuiet :
      {E : Type 0} (s : Spec) (tbl : Text) (r : Result (ServeError E) (List (Table Text)))
      (j : Journal R)
      → IsSound s r
      → IsQuiet j
      → IsQuiet (panic_logged tbl r j)
  panic_logged-IsQuiet s tbl (ok rows) j h q = q
  panic_logged-IsQuiet s tbl (err (ServeError.from_cache e)) j h q = q
  panic_logged-IsQuiet s tbl (err nil_snapshot) j h q = absurd (h.1 refl)
  panic_logged-IsQuiet s tbl (err parser_panic) j h (o, reads, calm) = (o, reads, (refl, calm))
  panic_logged-IsQuiet s tbl (err (from_rows index_panic)) j h q = absurd (h.0 refl)
  panic_logged-IsQuiet s tbl (err (from_rows (RowError.context_ended e))) j h q = q

parser_panic-IsSound : (E : Type 0) (s : Spec) → IsSound {E = E} s (err parser_panic)
parser_panic-IsSound E s = (λ h. cc, λ h. cc, λ rows h. cc)

module _ {R X : Type 0} (n : Wiring R X) where
  -- The cache and the log over the life of the process: queries of the seven tables and firings of the
  -- timer, each no earlier than the last.
  pub data Journaled : Cache Shared (LoadError R) → ℕ → Journal R → Type 0 where
    opened : Journaled empty_cache 0 empty_journal
    asked :
        {c : Cache Shared (LoadError R)} {t : ℕ} {j : Journal R} (panics : Bool)
        (ctx : ℕ → Option Ended) (s : Spec) (query : Query) (a : Attempt X)
        → In s specs
        → Journaled c t j
        → t ≤ a.now
        → a.now ≤ a.done
        → Journaled
            (generate_logged n panics ctx s query a c j).0.0
            a.done
            (generate_logged n panics ctx s query a c j).1
    lapsed :
        {c : Cache Shared (LoadError R)} {t : ℕ} {j : Journal R} (now : ℕ)
        → Journaled c t j
        → t ≤ now
        → Journaled (expire now c) now j

  generate_live-get :
      (ctx : ℕ → Option Ended) (s : Spec) (query : Query) (a : Attempt X)
      (c : Cache Shared (LoadError R))
      → (generate_live n ctx s query a c).0 ≡ (get (is_load_ended n) (call_of n a) c).0
  unfolding generate
  generate_live-get ctx s query a c = refl

  generate_logged-Runs :
      (panics : Bool) (ctx : ℕ → Option Ended) (s : Spec) (query : Query) (a : Attempt X)
      (c : Cache Shared (LoadError R)) (t : ℕ) (j : Journal R)
      → Runs n c t
      → t ≤ a.now
      → a.now ≤ a.done
      → Runs n (generate_logged n panics ctx s query a c j).0.0 a.done
  generate_logged-Runs panics ctx s query a c t j r h k =
      elim (generate_logged_result n panics ctx s query a c j) [
        | inl same ↦
            subst (λ c. Runs n c a.done) (sym (ap first same ∙ generate_live-get ctx s query a c))
              (queried a r h k)
        | inr ((p, w, d), same) ↦
            subst (λ c. Runs n c a.done) (sym (ap first same)) (unwound a r h k w d)
      ]
    where
      first :
          Cache Shared (LoadError R) × Result (ServeError (LoadError R)) (List (Table Text))
          → Cache Shared (LoadError R)
      first r = r.0

  Journaled-Runs :
      {c : Cache Shared (LoadError R)} {t : ℕ} {j : Journal R} → Journaled c t j → Runs n c t
  Journaled-Runs opened = started
  Journaled-Runs (asked {c = c} {t = t} {j = j} panics ctx s query a known l h k) =
      generate_logged-Runs panics ctx s query a c t j (Journaled-Runs l) h k
  Journaled-Runs (lapsed now l h) = fired now (Journaled-Runs l) h

  module _ (bounded : n.setting.horizon.seconds < 2 ^ 64) where
    generate_logged-IsSound :
        (panics : Bool) (ctx : ℕ → Option Ended) (s : Spec) (query : Query) (a : Attempt X)
        (c : Cache Shared (LoadError R)) (t : ℕ) (j : Journal R)
        → In s specs
        → Runs n c t
        → t ≤ a.now
        → a.now ≤ a.done
        → IsSound s (generate_logged n panics ctx s query a c j).0.1
    generate_logged-IsSound panics ctx s query a c t j known r h k =
        elim (generate_logged_result n panics ctx s query a c j) [
          | inl same ↦
              subst (λ g. IsSound s g.1) (sym same)
                (generate-IsSound n ctx s query a c t bounded known r h k)
          | inr (_, same) ↦
              subst (λ g. IsSound s g.1) (sym same) (parser_panic-IsSound (LoadError R) s)
        ]

    Journaled-IsQuiet :
        {c : Cache Shared (LoadError R)} {t : ℕ} {j : Journal R} → Journaled c t j → IsQuiet n j
    unfolding generate_logged
    Journaled-IsQuiet opened = ((refl, refl), tt, tt)
    Journaled-IsQuiet (asked {c = c} {t = t} {j = j} panics ctx s query a known l h k) =
        panic_logged-IsQuiet n s s.table _ (get_logged n panics a c j).1
          (generate_logged-IsSound panics ctx s query a c t j known (Journaled-Runs l) h k)
          (get_logged-IsQuiet n panics a c j (Journaled-IsQuiet l))
    Journaled-IsQuiet (lapsed now l h) = Journaled-IsQuiet l

    -- After any queries and timer firings, whether or not the parsers panicked in some of them, Generate
    -- of one of the seven tables does to the cache and returns what it does and returns without the
    -- log, or it was ended by a panic of the parsers while it loaded the hive: then it returns that as
    -- an error and leaves the cache as the look at the file's stamp has left it. In the log, the
    -- stamp's failure is reported once at most, every line of a parsed hive tells how a read has
    -- acquired it, and every panic that was recovered was one of the parsers'; the clock is taken to
    -- fit 64 bits.
    pub generate_logged-IsQuiet :
        (panics : Bool) (ctx : ℕ → Option Ended) (s : Spec) (query : Query) (a : Attempt X)
        (c : Cache Shared (LoadError R)) (t : ℕ) (j : Journal R)
        → In s specs
        → Journaled c t j
        → t ≤ a.now
        → a.now ≤ a.done
        → (((generate_logged n panics ctx s query a c j).0 ≡ generate_live n ctx s query a c)
            ⊎ (IsUnwound n panics a c
                × ((generate_logged n panics ctx s query a c j).0
                    ≡ (refresh (call_of n a).stat c, err parser_panic))))
          × IsQuiet n (generate_logged n panics ctx s query a c j).1
    generate_logged-IsQuiet panics ctx s query a c t j known l h k = (
      generate_logged_result n panics ctx s query a c j,
      Journaled-IsQuiet (asked panics ctx s query a known l h k),
    )
