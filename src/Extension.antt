-- ===== src/Extension.antt =====
-- cmd/amcache_windows/main.go: the flags are checked, the standard output is given away, and the server
-- is made and run with the seven tables. What the process does is a list of effects.
pub mod Laws
mod Tests
use amcache.Base.{
  ℕ, zero, suc, ◌-◌, ◌*◌, ◌%◌, ◌^◌, Bool, true, false, List, [], ◌∷◌, ◌++◌, map, if◌then◌else◌, ltb,
}
use amcache.Base.Text.{Text, codes}
use amcache.Tables.Columns.{ColumnDefinition}
use amcache.Tables.Serve.{plugins}

-- A Go int or int64.
pub data ℤ : Type 0 where
  pos negsuc : ℕ → ℤ

-- The version that the build stamps, and the flags that are read.
pub record Flags : Type 0 where
  pub version : Text
  pub socket : Text
  pub interval : ℤ

-- What the operating system and osquery-go answer: the null device opens, the server is made, and it
-- ends without an error.
pub record Answers : Type 0 where
  pub null_opens : Bool
  pub server_made : Bool
  pub ended_well : Bool

pub data Reason : Type 0 where
  socket_required interval_not_positive creating_failed running_failed : Reason

pub data Effect : Type 0 where
  redirect_stdout log_not_redirected : Effect
  -- The name, the socket, the version, and the two durations in nanoseconds.
  create_server : Text → Text → Text → ℤ → ℤ → Effect
  register : Text → List ColumnDefinition → Effect
  run_server : Effect
  -- `log.Fatalf`, which exits.
  fatal : Reason → Effect

-- What is left of a number in 64 bits with a sign.
unfoldable pub to_int64 : ℕ → ℤ
to_int64 n = let r = n % 2 ^ 64 in if ltb r (2 ^ 63) then pos r else negsuc (2 ^ 64 - 1 - r)

abbrev pub second : ℕ
second = 10 ^ 9

abbrev pub is_positive : ℤ → Bool
is_positive (pos zero) = false
is_positive (pos (suc n)) = true
is_positive (negsuc n) = false

-- `time.Duration(*interval) * time.Second`, which wraps.
unfoldable pub ping_interval : ℤ → ℤ
unfolding to_int64
ping_interval (pos n) = to_int64 (n * second)
ping_interval (negsuc n) = to_int64 (2 ^ 64 - suc n * second % 2 ^ 64)

abbrev pub silence : Bool → Effect
silence true = redirect_stdout
silence false = log_not_redirected

-- The loop over `tables.All()`.
unfoldable pub register_all : List (Text × List ColumnDefinition) → List Effect
register_all ps = map (λ (p : Text × List ColumnDefinition). register p.0 p.1) ps

abbrev pub run_end : Bool → List Effect
run_end true = run_server ∷ []
run_end false = run_server ∷ fatal running_failed ∷ []

-- After the server call.
unfoldable pub serve_all : Answers → List Effect
unfolding register_all
serve_all env =
    if env.server_made
    then register_all plugins ++ run_end env.ended_well
    else fatal creating_failed ∷ []

abbrev is_empty : Text → Bool
is_empty [] = true
is_empty (c ∷ s) = false

-- `main`.
unfoldable pub main : Flags → Answers → List Effect
main flags env =
    if is_empty flags.socket
    then fatal socket_required ∷ []
    else if is_positive flags.interval
    then silence env.null_opens
      ∷ create_server (codes "amcache_windows") flags.socket flags.version (pos (60 * second))
          (ping_interval flags.interval)
      ∷ serve_all env
    else fatal interval_not_positive ∷ []
