-- ===== src/Tables/Cache.antt =====
-- `cache` of tables/tables.go: one parsed hive, or the failure that produced none, for five minutes.
-- A call holds the one slot throughout, so calls are steps on the cache's fields. What a call meets
-- outside (the clock, the file's stamp, the outcome of the parse, its context) is its argument.
pub mod Valid
pub mod Fresh
pub mod Holds
use amcache.Base.{
  ℕ, zero, suc, ◌+◌, ◌*◌, ◌^◌, Bool, true, false, ◌&&◌, ◌||◌, not, Option, none, some, List, [],
  ◌∷◌, if◌then◌else◌, ltb, ◌==◌, Result, ok, err,
}
use amcache.Hive.Regf.{Ended}

-- `cacheTTL`, in nanoseconds.
abbrev pub cache_ttl : ℕ
cache_ttl = 5 * 60 * 10 ^ 9

-- A file's modification time and size.
pub record Stamp : Type 0 where
  pub mtime : ℕ
  pub size : ℕ

abbrev pub same_stamp : Stamp → Stamp → Bool
same_stamp a b = a.mtime == b.mtime && a.size == b.size

-- `S` is the snapshot, `E` the errors.
pub record Cache (S E : Type 0) : Type 0 where
  pub snap : Option S
  pub error : Option E
  pub at : ℕ
  pub stamp : Stamp
  pub timer : Option ℕ

-- What one call of `get` meets: `waited` is set where its context ends before it has the slot, `stat`
-- is none where the stamp cannot be had, `now` is the clock when it looks at the age, `done` when the
-- parse has ended, `ended` whether its context has ended by then, and `ours` whether that is by the
-- package's own deadline.
pub record Call (S E : Type 0) : Type 0 where
  pub waited : Option E
  pub stat : Option Stamp
  pub now : ℕ
  pub parse : Result E S
  pub done : ℕ
  pub ended : Bool
  pub ours : Bool

module _ {S E : Type 0} where
  abbrev pub is_held : Cache S E → Bool
  is_held c =
      (elim c.snap [ none ↦ false | some _ ↦ true ])
      || (elim c.error [ none ↦ false | some _ ↦ true ])

  -- `drop`.
  unfoldable pub drop : Cache S E → Cache S E
  drop c = record c { snap = none; error = none }

  -- The stamp is looked at, and a changed one drops what is held.
  unfoldable pub refresh : Option Stamp → Cache S E → Cache S E
  unfolding drop
  refresh none c = c
  refresh (some stamp) c =
      if same_stamp stamp c.stamp then c else record c { snap = none; error = none; stamp = stamp }

  -- `load` after a parse that is remembered.
  unfoldable pub remember : Result E S → ℕ → Cache S E → Cache S E
  remember (ok s) done c = record c {
    snap = some s;
    error = none;
    at = done;
    timer = some (done + cache_ttl);
  }
  remember (err e) done c = record c {
    snap = none;
    error = some e;
    at = done;
    timer = some (done + cache_ttl);
  }

  module _ (is_ended : E → Bool) where
    -- An error of the parse that says nothing about the hive: the caller's context has ended, and not
    -- by the package's own deadline.
    unfoldable pub is_forgotten : Call S E → E → Bool
    is_forgotten call e = (call.ended || is_ended e) && not call.ours

    -- `load`: the new cache, and the error that must not be remembered.
    unfoldable pub load : Call S E → Cache S E → Cache S E × Option E
    unfolding is_forgotten remember
    load call c = elim call.parse [
      | ok s ↦ (remember (ok s) call.done c, none)
      | err e ↦ (if is_forgotten call e then (c, some e) else (remember (err e) call.done c, none))
    ]

    -- The end of `get`: the remembered error, or the snapshot.
    unfoldable pub held : Cache S E → Result E (Option S)
    held c = elim c.error [ some e ↦ err e | none ↦ ok c.snap ]

    unfoldable pub is_due : Call S E → Cache S E → Bool
    is_due call c = not (is_held c) || ltb (c.at + cache_ttl) call.now

    -- What `get` returns after `load`.
    unfoldable pub answer : Cache S E × Option E → Cache S E × Result E (Option S)
    unfolding held
    answer (c, some e) = (c, err e)
    answer (c, none) = (c, held c)

    -- `get`.
    unfoldable pub get : Call S E → Cache S E → Cache S E × Result E (Option S)
    unfolding refresh load answer is_due
    get call c = elim call.waited [
      | some e ↦ (c, err e)
      | none ↦
          let c' = refresh call.stat c in
          if is_due call c' then answer (load call c') else (c', held c')
    ]

  -- `expire`, when the timer fires at `now`: a reload has re-armed it if what is held is young.
  unfoldable pub expire : ℕ → Cache S E → Cache S E
  unfolding drop
  expire now c = if ltb now (c.at + cache_ttl) then c else drop c

  -- The cache of `New`.
  abbrev pub empty_cache : Cache S E
  empty_cache = record {
    snap = none;
    error = none;
    at = 0;
    stamp = record { mtime = 0; size = 0 };
    timer = none;
  }
