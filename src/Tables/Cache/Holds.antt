-- ===== src/Tables/Cache/Holds.antt =====
-- What every snapshot of a parse satisfies, the cache's snapshot satisfies.
use amcache.Base.{
  ℕ, ◌+◌, ◌≡◌, Bool, Option, none, some, ok, inl, inr, Bool-cases, Option-cases, Result-cases, ltb,
}
use mathlib.Core.Path.{subst}
use mathlib.Core.Option.{some-injective, none-ne-some}
use amcache.Tables.Cache.{
  Cache, Call, Stamp, cache_ttl, same_stamp, refresh, remember, is_forgotten, load, is_due, answer,
  get, expire,
}

module _ {S E : Type 0} (P : S → Type 0) where
  abbrev pub Holds : Cache S E → Type 0
  Holds c = (s : S) → c.snap ≡ some s → P s

  pub refresh-Holds : (stat : Option Stamp) (c : Cache S E) → Holds c → Holds (refresh stat c)
  unfolding refresh
  refresh-Holds none c h = h
  refresh-Holds (some stamp) c h = elim (Bool-cases (same_stamp stamp c.stamp)) [
    | inl e ↦ rw e h
    | inr e ↦ rw e (λ s k. absurd (none-ne-some s k))
  ]

  pub expire-Holds : (now : ℕ) (c : Cache S E) → Holds c → Holds (expire now c)
  unfolding expire
  expire-Holds now c h = elim (Bool-cases (ltb now (c.at + cache_ttl))) [
    | inl e ↦ rw e h
    | inr e ↦ rw e (λ s k. absurd (none-ne-some s k))
  ]

  module _ (is_ended : E → Bool) (call : Call S E) (each : (s : S) → call.parse ≡ ok s → P s) where
    load-Holds : (c : Cache S E) → Holds c → Holds (load is_ended call c).0
    unfolding load remember
    load-Holds c h = elim (Result-cases call.parse) [
      | inl (s, e) ↦ rw e (λ u k. subst P (some-injective _ _ k) (each s e))
      | inr (f, e) ↦ elim (Bool-cases (is_forgotten is_ended call f)) [
        | inl g ↦ rw (e, g) h
        | inr g ↦ rw (e, g) (λ s k. absurd (none-ne-some s k))
      ]
    ]

    answer-Holds : (r : Cache S E × Option E) → Holds r.0 → Holds (answer is_ended r).0
    unfolding answer
    answer-Holds (c, some e) h = h
    answer-Holds (c, none) h = h

    pub get-Holds : (c : Cache S E) → Holds c → Holds (get is_ended call c).0
    unfolding get
    get-Holds c h =
        let c' = refresh call.stat c in
        let h' : Holds c' = refresh-Holds call.stat c h in
        elim (Option-cases call.waited) [
          | inr (e, w) ↦ rw w h
          | inl w ↦ elim (Bool-cases (is_due is_ended call c')) [
            | inr d ↦ rw (w, d) h'
            | inl d ↦ rw (w, d) (answer-Holds (load is_ended call c') (load-Holds c' h'))
          ]
        ]
