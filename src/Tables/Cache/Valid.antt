-- ===== src/Tables/Cache/Valid.antt =====
-- The cache over time: its invariant under every sequence of calls and timer firings.
use amcache.Base.{
  ℕ, ◌+◌, ◌≤◌, ◌≡◌, refl, Bool, true, false, ◌&&◌, Option, none, some, ltb, Result, ok, err, arith,
  inl, inr, Bool-cases, Option-cases, Result-cases, sym, ◌∙◌,
}
use mathlib.Core.Option.{some-injective}
use amcache.Tables.Cache.{
  Cache, Call, Stamp, cache_ttl, same_stamp, is_held, refresh, remember, is_forgotten, load, is_due,
  answer, get, expire, empty_cache,
}

-- The invariant at time `t`: a snapshot and a failure are never held together, what is held was
-- stored no later than `t`, and the timer that will drop it is armed.
pub record IsValid {S E : Type 0} (c : Cache S E) (t : ℕ) : Type 0 where
  pub one :
      (is_held c
        && (elim c.snap [ none ↦ false | some _ ↦ true ])
        && (elim c.error [ none ↦ false | some _ ↦ true ]))
      ≡ false
  pub past : is_held c ≡ true → c.at ≤ t
  pub armed : is_held c ≡ true → c.timer ≡ some (c.at + cache_ttl)

module _ {S E : Type 0} where
  refresh-IsValid :
      (stat : Option Stamp) (c : Cache S E) (t : ℕ) → IsValid c t → IsValid (refresh stat c) t
  unfolding refresh
  refresh-IsValid none c t v = v
  refresh-IsValid (some stamp) c t v = elim (Bool-cases (same_stamp stamp c.stamp)) [
    | inl e ↦ rw e v
    | inr e ↦ rw e (record { one = refl; past = λ h. cc; armed = λ h. cc })
  ]

  later-IsValid : (c : Cache S E) (t u : ℕ) → t ≤ u → IsValid c t → IsValid c u
  later-IsValid c t u h v = record {
    one = v.one;
    past = λ k. omega (arith, v.past k);
    armed = v.armed;
  }

  remember-IsValid : (r : Result E S) (done : ℕ) (c : Cache S E) → IsValid (remember r done c) done
  unfolding remember
  remember-IsValid (ok s) done c = record { one = refl; past = λ h. omega arith; armed = λ h. refl }
  remember-IsValid (err e) done c = record {
    one = refl;
    past = λ h. omega arith;
    armed = λ h. refl;
  }

  expire-IsValid : (now : ℕ) (c : Cache S E) (t : ℕ) → IsValid c t → IsValid (expire now c) t
  unfolding expire
  expire-IsValid now c t v = elim (Bool-cases (ltb now (c.at + cache_ttl))) [
    | inl e ↦ rw e v
    | inr e ↦ rw e (record { one = refl; past = λ h. cc; armed = λ h. cc })
  ]

  module _ (is_ended : E → Bool) where
    load-IsValid :
        (call : Call S E) (c : Cache S E) (t : ℕ)
        → IsValid c t
        → t ≤ call.done
        → IsValid (load is_ended call c).0 call.done
    unfolding load
    load-IsValid call c t v h = elim (Result-cases call.parse) [
      | inl (s, e) ↦ rw e (remember-IsValid (ok s) call.done c)
      | inr (f, e) ↦ elim (Bool-cases (is_forgotten is_ended call f)) [
        | inl g ↦ rw (e, g) (later-IsValid c t call.done h v)
        | inr g ↦ rw (e, g) (remember-IsValid (err f) call.done c)
      ]
    ]

    get-IsValid :
        (call : Call S E) (c : Cache S E) (t : ℕ)
        → IsValid c t
        → t ≤ call.now
        → call.now ≤ call.done
        → IsValid (get is_ended call c).0 call.done
    unfolding get
    get-IsValid call c t v h k =
        let c' = refresh call.stat c in
        let v' : IsValid c' t = refresh-IsValid call.stat c t v in
        elim (Option-cases call.waited) [
          | inr (e, w) ↦ rw w (later-IsValid c t call.done (omega arith) v)
          | inl w ↦ elim (Bool-cases (is_due is_ended call c')) [
            | inr d ↦ rw (w, d) (later-IsValid c' t call.done (omega arith) v')
            | inl d ↦
                rw (w, d)
                  (answered (load is_ended call c') (load-IsValid call c' t v' (omega arith)))
          ]
        ]
      where
        answered :
            (r : Cache S E × Option E)
            → IsValid r.0 call.done
            → IsValid (answer is_ended r).0 call.done
        answered (d, some e) u = u
        answered (d, none) u = u

-- The cache over time: calls of `get` and firings of the timer, each no earlier than the last.
pub data Reach {S E : Type 0} (is_ended : E → Bool) : Cache S E → ℕ → Type 0 where
  new : Reach is_ended empty_cache 0
  call :
      {c : Cache S E} {t : ℕ} (k : Call S E)
      → Reach is_ended c t
      → t ≤ k.now
      → k.now ≤ k.done
      → Reach is_ended (get is_ended k c).0 k.done
  fire :
      {c : Cache S E} {t : ℕ} (now : ℕ)
      → Reach is_ended c t
      → t ≤ now
      → Reach is_ended (expire now c) now

-- Whatever calls and timer firings come, in whatever order, the cache never holds a snapshot and a
-- failure together, what it holds was stored no later than now, and the timer that will drop it is
-- armed for the end of its time to live.
pub Reach-IsValid :
    {S E : Type 0} (is_ended : E → Bool) (c : Cache S E) (t : ℕ) → Reach is_ended c t → IsValid c t
Reach-IsValid is_ended c t new = record { one = refl; past = λ h. cc; armed = λ h. cc }
Reach-IsValid is_ended c t (call {c = d} {t = u} k r h j) =
    get-IsValid is_ended k d u (Reach-IsValid is_ended d u r) h j
Reach-IsValid is_ended c t (fire {c = d} {t = u} now r h) =
    expire-IsValid now d now (later-IsValid d u now h (Reach-IsValid is_ended d u r))

-- Once the timer that is armed for what is held has fired, nothing is held any more.
pub expire-drops :
    {S E : Type 0} (is_ended : E → Bool) (c : Cache S E) (t now due : ℕ)
    → Reach is_ended c t
    → is_held c ≡ true
    → c.timer ≡ some due
    → due ≤ now
    → is_held (expire now c) ≡ false
unfolding expire
expire-drops is_ended c t now due r h timer fired =
    let armed = (Reach-IsValid is_ended c t r).armed h in
    let at_due : c.at + cache_ttl ≡ due = some-injective _ _ (sym armed ∙ timer) in ground arith
