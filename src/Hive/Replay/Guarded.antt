-- ===== src/Hive/Replay/Guarded.antt =====
-- What a `Replay` that returns went through: its guards, the chain over the logs, and the header.
use amcache.Base.{
  ◌+◌, ◌≤◌, true, false, ◌≡◌, arith, ◌⊎◌, length, ok, List, >>=-eq-ok, Result, ◌>>=◌,
}
use amcache.Hive.Regf.{Bytes, Parser, Error, max_hive_bytes}
use amcache.Hive.Replay.{
  State, applicable, sort_logs, replay_logs, replay, start, finish, rewrite_header,
}

-- The chain over the sorted logs.
abbrev pub chain : (p : Parser) → Bytes → List Bytes → Result Error State
chain p hive logs =
    replay_logs p true (sort_logs (applicable p (p.sequence2 hive) logs)) (start hive)

-- A replay that passes its guards is the chain, finished.
pub record IsGuarded (p : Parser) (hive : Bytes) (logs : List Bytes) (out : Bytes) : Type 0 where
  pub capped : length hive ≤ max_hive_bytes
  pub whole : 0x1000 ≤ length hive
  pub accepted : p.new_registry hive ≡ true
  pub end : State
  pub ran : chain p hive logs ≡ ok end
  pub finished : finish end ≡ ok out

after_guards :
    (p : Parser) (hive : Bytes) (logs : List Bytes) {out : Bytes}
    → replay p hive logs ≡ ok out
    → (length hive ≤ max_hive_bytes)
      × (0x1000 ≤ length hive)
      × (p.new_registry hive ≡ true)
      × ((chain p hive logs >>= finish) ≡ ok out)
unfolding replay
after_guards p hive logs e = ground arith

pub replay-IsGuarded :
    (p : Parser) (hive : Bytes) (logs : List Bytes) {out : Bytes}
    → replay p hive logs ≡ ok out
    → IsGuarded p hive logs out
replay-IsGuarded p hive logs e =
    let (capped, whole, accepted, chained) = after_guards p hive logs e in
    let (end, ran, finished) = >>=-eq-ok (chain p hive logs) finish chained in
    record {
      capped = capped;
      whole = whole;
      accepted = accepted;
      end = end;
      ran = ran;
      finished = finished;
    }

pub finish-cases :
    (s : State) {out : Bytes}
    → finish s ≡ ok out
    → ((s.applied ≡ false) × (out ≡ s.out))
      ⊎ ((s.applied ≡ true)
          × (s.hbins + 0x1000 ≤ length s.out)
          × (out ≡ rewrite_header s.out s.seq s.hbins s.flags))
unfolding finish
finish-cases s e = ground arith
