-- ===== src/Hive/Replay/Loop.antt =====
-- The replay loops: one rule for what every applied entry keeps, and that the fuel suffices.
use amcache.Base.{
  ℕ, zero, suc, ◌+◌, Bool, true, false, ◌&&◌, ◌||◌, ◌≡◌, inl, inr, Bool-cases, Result-cases, ltb,
  length, ok, err, err_injective, ap, >>=-eq-err, ◌≢◌, ◌<◌, arith, List, [], ◌∷◌, ok_injective,
  >>=-eq-ok, ok-ne-err, and_right,
}
use mathlib.Core.Path.{subst, sym, ◌∙◌}
use amcache.Hive.Replay.Entry.{IsAdmissible, admissible-IsAdmissible, apply_pages-ne-out_of_fuel}
use amcache.Hive.Regf.{Bytes, Parser, out_of_fuel}
use amcache.Hive.Replay.{
  State, Applicable, apply_pages, admissible, replay_log, replay_logs, advance, enter,
}

module _ (p : Parser) where
  module _ {ℓ} (P : State → Type ℓ)
      (keep : (buf : Bytes) (off : ℕ) (s : State) (out : Bytes)
        → admissible p buf off s.expected ≡ true
        → apply_pages p buf s.out (p.get_dirty_pages buf off) ≡ ok out
        → P s
        → P (advance p buf off out s)) where
    -- What every applied entry keeps, the loop over a log keeps.
    pub replay_log-keeps :
        (fuel : ℕ) (buf : Bytes) (off : ℕ) (s : State) {s' : State}
        → P s
        → replay_log p fuel buf off s ≡ ok s'
        → P s'
    unfolding replay_log
    replay_log-keeps zero buf off s h e = cc
    replay_log-keeps (suc fuel) buf off s h e =
        elim (Bool-cases (ltb off (length buf) && admissible p buf off s.expected)) [
          | inr stop ↦ subst P (ok_injective (rw (stop, replay_log) at e)) h
          | inl go ↦ elim (Result-cases (apply_pages p buf s.out (p.get_dirty_pages buf off))) [
            | inr (bad, failed) ↦ absurd (ok-ne-err _ _ (sym (rw (go, failed, replay_log) at e)))
            | inl (out, done) ↦
                replay_log-keeps fuel buf (off + p.log_entry_size buf off) (advance p buf off out s)
                  (keep buf off s out (and_right _ _ go) done h) (rw (go, done, replay_log) at e)
          ]
        ]

    module _ (move : (s : State) (n : ℕ) → P s → P (record s { expected = n })) where
      enter-keeps : (first : Bool) (lg : Applicable) (s : State) → P s → P (enter first lg s)
      enter-keeps first lg s h = elim (Bool-cases (first || ltb s.expected lg.seq)) [
        | inl e ↦ rw e (move s lg.seq h)
        | inr e ↦ rw e h
      ]

      pub replay_logs-keeps :
          (first : Bool) (ready : List Applicable) (s : State) {s' : State}
          → P s
          → replay_logs p first ready s ≡ ok s'
          → P s'
      unfolding replay_logs
      replay_logs-keeps first [] s h e = subst P (ok_injective e) h
      replay_logs-keeps first (lg ∷ ready) s h e =
          let (s1, ran, rest) = >>=-eq-ok _ (replay_logs p false ready) e in
          replay_logs-keeps false ready s1
            (replay_log-keeps (suc (length lg.buf)) lg.buf 0x200 (enter first lg s)
              (enter-keeps first lg s h) ran)
            rest

  -- An applied entry moves past at least its 40-byte header and stays inside the log.
  replay_log-fuel :
      (fuel : ℕ) (buf : Bytes) (off : ℕ) (s : State)
      → 0 < fuel
      → length buf < off + fuel
      → replay_log p fuel buf off s ≢ err out_of_fuel
  unfolding replay_log
  replay_log-fuel zero buf off s pos enough h = absurd (omega arith)
  replay_log-fuel (suc fuel) buf off s pos enough h =
      elim (Bool-cases (ltb off (length buf) && admissible p buf off s.expected)) [
        | inr stop ↦ ok-ne-err _ _ (rw (stop, replay_log) at h)
        | inl go ↦
            let a : IsAdmissible p buf off s.expected =
              admissible-IsAdmissible p buf off s.expected (and_right _ _ go) in
            elim (Result-cases (apply_pages p buf s.out (p.get_dirty_pages buf off))) [
              | inr (e, failed) ↦
                  apply_pages-ne-out_of_fuel p buf s.out (p.get_dirty_pages buf off)
                    (failed ∙ ap err (err_injective (rw (go, failed, replay_log) at h)))
              | inl (out, done) ↦
                  replay_log-fuel fuel buf (off + p.log_entry_size buf off)
                    (advance p buf off out s) (omega (arith, a.header, a.inside))
                    (omega (arith, a.header)) (rw (go, done, replay_log) at h)
            ]
      ]

  -- The fuel that each log is given, one more than its length, is enough.
  pub replay_logs-fuel :
      (first : Bool) (ready : List Applicable) (s : State)
      → replay_logs p first ready s ≢ err out_of_fuel
  unfolding replay_logs
  replay_logs-fuel first [] s h = ok-ne-err _ _ h
  replay_logs-fuel first (lg ∷ ready) s h =
      elim (>>=-eq-err _ (λ s'. replay_logs p false ready s') h) [
        | inl e ↦
            replay_log-fuel (suc (length lg.buf)) lg.buf 0x200 (enter first lg s) (omega arith)
              (omega arith) e
        | inr (mid, _, e) ↦ replay_logs-fuel false ready mid e
      ]
