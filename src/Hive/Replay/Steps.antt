-- ===== src/Hive/Replay/Steps.antt =====
-- The replay loops as a step relation: a log is entered, or an entry of it is applied.
use amcache.Base.{ℕ, ◌<◌, true, false, ◌≡◌, ok, List, In, ◌⊎◌}
use amcache.Hive.Regf.{Bytes, Parser}
use amcache.Hive.Replay.{State, Applicable, apply_pages, admissible, advance}

module _ (p : Parser) (logs : List Applicable) where
  -- The first log is entered at its base, a later one only if that is ahead of the chain.
  pub data Step (s : State) : State → Type 0 where
    enter_log :
        (lg : Applicable)
        → (s.applied ≡ false) ⊎ (s.expected < lg.seq)
        → Step s (record s { expected = lg.seq })
    apply_entry :
        (lg : Applicable) (off : ℕ) (out : Bytes)
        → In lg logs
        → admissible p lg.buf off s.expected ≡ true
        → apply_pages p lg.buf s.out (p.get_dirty_pages lg.buf off) ≡ ok out
        → Step s (advance p lg.buf off out s)
