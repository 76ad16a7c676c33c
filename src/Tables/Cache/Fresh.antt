-- ===== src/Tables/Cache/Fresh.antt =====
-- What one call of `get` serves: nothing stale, what is held while it is young, and no failure that
-- says nothing about the hive.
use amcache.Base.{
  ℕ, ◌+◌, ◌≤◌, ◌<◌, ◌≡◌, refl, Bool, true, false, Option, none, some, Result, ok, err, arith, ◌⊎◌,
  inl, inr, Bool-cases, Option-cases, Result-cases, ok-ne-err, sym, ap, ◌∙◌,
}
use amcache.Tables.Cache.{
  Cache, Call, Stamp, cache_ttl, same_stamp, is_held, refresh, is_forgotten, load, held, is_due,
  answer, get,
}

module _ {S E : Type 0} (is_ended : E → Bool) where
  refresh-stamp : (stamp : Stamp) (c : Cache S E) → (refresh (some stamp) c).stamp ≡ stamp
  unfolding refresh
  refresh-stamp stamp c = ground arith

  load-stamp : (call : Call S E) (c : Cache S E) → (load is_ended call c).0.stamp ≡ c.stamp
  unfolding load
  load-stamp call c = ground arith

  -- Served at `now`: a snapshot that is held, and not older than the cache allows.
  abbrev pub Served : Cache S E → ℕ → Option S → Type 0
  Served c now o = (s : S) × (o ≡ some s) × (c.snap ≡ some s) × (now ≤ c.at + cache_ttl)

  held-Served :
      (call : Call S E) (c : Cache S E) (o : Option S)
      → is_due is_ended call c ≡ false
      → held is_ended c ≡ ok o
      → Served c call.now o
  unfolding is_due held
  held-Served call c o d h = elim (Option-cases c.snap) [
    | inl e ↦ absurd (ground arith)
    | inr (s, e) ↦ (s, ground arith, e, ground arith)
  ]

  load-Served :
      (call : Call S E) (c : Cache S E) (o : Option S)
      → call.now ≤ call.done
      → (answer is_ended (load is_ended call c)).1 ≡ ok o
      → Served (answer is_ended (load is_ended call c)).0 call.now o
  unfolding load answer
  load-Served call c o k h = elim (Result-cases call.parse) [
    | inl (s, e) ↦ (s, ground arith, ground arith, ground arith)
    | inr (f, e) ↦ absurd (ground arith)
  ]

  get-late :
      (call : Call S E) (c : Cache S E) {e : E}
      → call.waited ≡ some e
      → get is_ended call c ≡ (c, err e)
  unfolding get
  get-late call c w = rw w

  get-kept :
      (call : Call S E) (c : Cache S E)
      → call.waited ≡ none
      → is_due is_ended call (refresh call.stat c) ≡ false
      → get is_ended call c ≡ (refresh call.stat c, held is_ended (refresh call.stat c))
  unfolding get
  get-kept call c w d = rw (w, d)

  get-due :
      (call : Call S E) (c : Cache S E)
      → call.waited ≡ none
      → is_due is_ended call (refresh call.stat c) ≡ true
      → get is_ended call c ≡ answer is_ended (load is_ended call (refresh call.stat c))
  unfolding get
  get-due call c w d = rw (w, d)

  answer-state : (r : Cache S E × Option E) → (answer is_ended r).0 ≡ r.0
  unfolding answer
  answer-state (c, some e) = refl
  answer-state (c, none) = refl

  -- `get` ends in one of three ways.
  get-cases :
      (call : Call S E) (c : Cache S E)
      → ((e : E) × (call.waited ≡ some e) × (get is_ended call c ≡ (c, err e)))
        ⊎ (((call.waited ≡ none)
              × (is_due is_ended call (refresh call.stat c) ≡ false)
              × (get is_ended call c ≡ (refresh call.stat c, held is_ended (refresh call.stat c))))
            ⊎ ((call.waited ≡ none)
                × (is_due is_ended call (refresh call.stat c) ≡ true)
                × (get is_ended call c
                    ≡ answer is_ended (load is_ended call (refresh call.stat c)))))
  get-cases call c = elim (Option-cases call.waited) [
    | inr (e, w) ↦ inl (e, w, get-late call c w)
    | inl w ↦ elim (Bool-cases (is_due is_ended call (refresh call.stat c))) [
      | inr d ↦ inr (inl (w, d, get-kept call c w d))
      | inl d ↦ inr (inr (w, d, get-due call c w d))
    ]
  ]

  -- What `get` serves is never a nil snapshot and never more than the time to live old, and where the
  -- file's stamp can be had it is stored under that stamp.
  pub get-fresh :
      (call : Call S E) (c : Cache S E) (o : Option S)
      → call.now ≤ call.done
      → (get is_ended call c).1 ≡ ok o
      → Served (get is_ended call c).0 call.now o
        × ((stamp : Stamp) → call.stat ≡ some stamp → (get is_ended call c).0.stamp ≡ stamp)
  get-fresh call c o k h = elim (get-cases call c) [
    | inl (e, w, g) ↦
        absurd (ok-ne-err o e (sym h ∙ ap (λ (r : Cache S E × Result E (Option S)). r.1) g))
    | inr (inl (w, d, g)) ↦ rw g (
      held-Served call (refresh call.stat c) o d
          (sym (ap (λ (r : Cache S E × Result E (Option S)). r.1) g) ∙ h),
      λ stamp e. rw e (refresh-stamp stamp c),
    )
    | inr (inr (w, d, g)) ↦ rw g (
      load-Served call (refresh call.stat c) o k
          (sym (ap (λ (r : Cache S E × Result E (Option S)). r.1) g) ∙ h),
      λ stamp e.
          ap (λ (d : Cache S E). d.stamp) (answer-state (load is_ended call (refresh call.stat c)))
          ∙ load-stamp call (refresh call.stat c)
          ∙ ap (λ t. (refresh t c).stamp) e
          ∙ refresh-stamp stamp c,
    )
  ]

  -- The outcome of the parse, as `get` returns it.
  abbrev pub parsed : Result E S → Result E (Option S)
  parsed (ok s) = ok (some s)
  parsed (err e) = err e

  answer-parsed :
      (call : Call S E) (c : Cache S E)
      → (answer is_ended (load is_ended call c)).1 ≡ parsed call.parse
  unfolding load answer
  answer-parsed call c = ground arith

  -- What is held may not be served: there is nothing, the stamp has changed, or its time is up.
  abbrev IsStale : Call S E → Cache S E → Type 0
  IsStale call c =
      (is_held c ≡ false)
      ⊎ (((stamp : Stamp) × (call.stat ≡ some stamp) × (same_stamp stamp c.stamp ≡ false))
          ⊎ (c.at + cache_ttl < call.now))

  refresh-at : (stat : Option Stamp) (c : Cache S E) → (refresh stat c).at ≡ c.at
  unfolding refresh
  refresh-at none c = refl
  refresh-at (some stamp) c = ground arith

  refresh-not_held :
      (stat : Option Stamp) (c : Cache S E) → is_held c ≡ false → is_held (refresh stat c) ≡ false
  unfolding refresh
  refresh-not_held none c h = h
  refresh-not_held (some stamp) c h = ground arith

  IsStale-due :
      (call : Call S E) (c : Cache S E)
      → IsStale call c
      → is_due is_ended call (refresh call.stat c) ≡ true
  unfolding is_due
  IsStale-due call c (inl h) = ground (arith, refresh-not_held call.stat c h)
  IsStale-due call c (inr (inl (stamp, e, changed))) = rw e (unfold refresh in ground arith)
  IsStale-due call c (inr (inr old)) = ground (arith, refresh-at call.stat c)

  get-parses :
      (call : Call S E) (c : Cache S E)
      → call.waited ≡ none
      → IsStale call c
      → (get is_ended call c).1 ≡ parsed call.parse
  get-parses call c w h =
      rw (get-due call c w (IsStale-due call c h)) (answer-parsed call (refresh call.stat c))

  refresh-same :
      (stat : Option Stamp) (c : Cache S E)
      → (stat ≡ none) ⊎ (stat ≡ some c.stamp)
      → refresh stat c ≡ c
  unfolding refresh
  refresh-same stat c (inl e) = rw e
  refresh-same stat c (inr e) = rw e (ground arith)

  -- While something is held, the file's stamp is unchanged (or cannot be had) and the time to live
  -- is not over, `get` answers with what is held and leaves the cache as it is, whatever a parse
  -- would give.
  pub get-reuses :
      (call : Call S E) (c : Cache S E)
      → call.waited ≡ none
      → is_held c ≡ true
      → (call.stat ≡ none) ⊎ (call.stat ≡ some c.stamp)
      → call.now ≤ c.at + cache_ttl
      → get is_ended call c ≡ (c, held is_ended c)
  get-reuses call c w h s young =
      let same = refresh-same call.stat c s in
      let kept : is_due is_ended call (refresh call.stat c) ≡ false =
        rw same (unfold is_due in ground arith) in
      get-kept call c w kept ∙ ap (λ (d : Cache S E). (d, held is_ended d)) same

  load-forgets :
      (call : Call S E) (c : Cache S E) (e : E)
      → call.parse ≡ err e
      → is_forgotten is_ended call e ≡ true
      → answer is_ended (load is_ended call c) ≡ (c, err e)
  unfolding load answer
  load-forgets call c e fails forgotten = rw (fails, forgotten)

  later-IsStale :
      (call next : Call S E) (c : Cache S E)
      → IsStale call c
      → call.now ≤ next.now
      → IsStale next (refresh call.stat c)
  later-IsStale call next c (inl h) later = inl (refresh-not_held call.stat c h)
  later-IsStale call next c (inr (inl (stamp, e, changed))) later =
      inl (rw e (unfold refresh in ground arith))
  later-IsStale call next c (inr (inr old)) later =
      inr (inr (omega (arith, refresh-at call.stat c)))

  -- Where nothing servable is held and the parse fails in a way that says nothing about the hive,
  -- `get` returns that failure and does not remember it: the next call answers with the outcome of
  -- its own parse.
  pub get-retries :
      (call next : Call S E) (c : Cache S E) (e : E)
      → call.waited ≡ none
      → IsStale call c
      → call.parse ≡ err e
      → is_forgotten is_ended call e ≡ true
      → next.waited ≡ none
      → call.now ≤ next.now
      → ((get is_ended call c).1 ≡ err e)
        × ((get is_ended next (get is_ended call c).0).1 ≡ parsed next.parse)
  get-retries call next c e w stale fails forgotten w' later =
      let g : get is_ended call c ≡ (refresh call.stat c, err e) =
        get-due call c w (IsStale-due call c stale)
        ∙ load-forgets call (refresh call.stat c) e fails forgotten in
      rw g (refl, get-parses next (refresh call.stat c) w' (later-IsStale call next c stale later))
