-- ===== src/Tables/Tests/Caching.antt =====
-- The cache at work on numbers: a first call, a call that ends early, and the timer.
use amcache.Base.{ℕ, ◌+◌, ◌≡◌, Bool, true, false, none, some, ◌==◌, ok, err, refl, arith, inl, inr}
use amcache.Tables.Cache.{
  Cache, Call, Stamp, cache_ttl, is_held, get, held, expire, empty_cache, is_forgotten,
}
use amcache.Tables.Cache.Valid.{IsValid, Reach, new, call, Reach-IsValid, expire-drops}
use amcache.Tables.Cache.Fresh.{Served, get-fresh, get-reuses, get-retries}

-- A cache of numbers; the error 0 is a context's end.
abbrev ends : ℕ → Bool
ends e = e == 0

abbrev a_stamp : Stamp
a_stamp = record { mtime = 9; size = 4096 }

abbrev parses : Call ℕ ℕ
parses = record {
  waited = none;
  stat = some a_stamp;
  now = 10;
  parse = ok 7;
  done = 20;
  ended = false;
  ours = false;
}

abbrev cancelled : Call ℕ ℕ
cancelled = record parses { parse = err 0; ended = true }

abbrev again : Call ℕ ℕ
again = record parses { now = 30; parse = ok 8; done = 40 }

abbrev filled : Cache ℕ ℕ
filled = record {
  snap = some 7;
  error = none;
  at = 20;
  stamp = a_stamp;
  timer = some (20 + cache_ttl);
}

first_get : get ends parses empty_cache ≡ (filled, ok (some 7))
unfolding get
first_get = refl

first_served : (get ends parses empty_cache).1 ≡ ok (some 7)
unfolding get
first_served = refl

get-fresh_example :
    Served ends (get ends parses empty_cache).0 10 (some 7)
    × ((stamp : Stamp) → some a_stamp ≡ some stamp → (get ends parses empty_cache).0.stamp ≡ stamp)
get-fresh_example = get-fresh ends parses empty_cache (some 7) (omega arith) first_served

get-reuses_example : get ends again filled ≡ (filled, held ends filled)
get-reuses_example = get-reuses ends again filled refl refl (inr refl) (omega arith)

cancelled-is_forgotten : is_forgotten ends cancelled 0 ≡ true
unfolding is_forgotten
cancelled-is_forgotten = refl

get-retries_example :
    ((get ends cancelled empty_cache).1 ≡ err 0)
    × ((get ends again (get ends cancelled empty_cache).0).1 ≡ ok (some 8))
get-retries_example =
    get-retries ends cancelled again empty_cache 0 refl (inl refl) refl cancelled-is_forgotten refl
      (omega arith)

one_call : Reach ends (get ends parses empty_cache).0 20
one_call = call parses new (omega arith) (omega arith)

Reach-IsValid_example : IsValid (get ends parses empty_cache).0 20
Reach-IsValid_example = Reach-IsValid ends (get ends parses empty_cache).0 20 one_call

first-is_held : is_held (get ends parses empty_cache).0 ≡ true
unfolding get
first-is_held = refl

first_armed : (get ends parses empty_cache).0.timer ≡ some (20 + cache_ttl)
unfolding get
first_armed = refl

expire-drops_example : is_held (expire (20 + cache_ttl) (get ends parses empty_cache).0) ≡ false
expire-drops_example =
    expire-drops ends (get ends parses empty_cache).0 20 (20 + cache_ttl) (20 + cache_ttl) one_call
      first-is_held first_armed (omega arith)
