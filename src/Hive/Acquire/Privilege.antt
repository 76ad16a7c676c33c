-- ===== src/Hive/Acquire/Privilege.antt =====
-- When the raw volume has a part in what `Read` gives.
use amcache.Base.{
  ℕ, ◌≡◌, false, Option, ◌++◌, ok, err, refl, arith, sym, ◌∙◌, inl, inr, Result-cases, Bool-cases,
  ok_injective, true-ne-false, ap,
}
use amcache.Base.Text.{Text, codes}
use amcache.Hive.Regf.{Parser, Error, max_hive_bytes, max_log_bytes}
use amcache.Hive.Host.{Host, Volume}
use amcache.Hive.Acquire.{
  Source, hive_path, read_plain, is_locked, acquire_hive, read_log, read_dirty, read,
}
use amcache.Hive.Acquire.Acquired.{IsAcquired, acquire_hive-IsAcquired}

module _ (p : Parser) (host : Host) (v : Text → Option Volume) where
  abbrev with_volumes : Host
  with_volumes = record host { open_raw = v }

  same_path : hive_path with_volumes ≡ hive_path host
  unfolding hive_path
  same_path = refl

  same_plain :
      (path : Text) (limit : ℕ) → read_plain with_volumes path limit ≡ read_plain host path limit
  unfolding read_plain
  same_plain path limit = refl

  same_log :
      (s : Source) (suffix : Text)
      → s.raw ≡ false
      → read_log with_volumes s suffix ≡ read_log host s suffix
  unfolding read_log
  same_log s suffix h = rw h (same_plain (s.path ++ suffix) max_log_bytes)

  module _ (dir path : Text) (located : hive_path host ≡ ok (dir, path))
      (unlocked : (e : Error)
        → read_plain host path max_hive_bytes ≡ err e
        → is_locked e ≡ false) where
    acquire_unprivileged : acquire_hive with_volumes ≡ acquire_hive host
    unfolding acquire_hive
    acquire_unprivileged = elim (Result-cases (read_plain host path max_hive_bytes)) [
      | inl (b, plain) ↦ ground (arith, same_path, same_plain path max_hive_bytes)
      | inr (e, fails) ↦ ground (arith, same_path, same_plain path max_hive_bytes, unlocked e)
    ]

    acquired_plainly : (s : Source) → acquire_hive host ≡ ok s → s.raw ≡ false
    acquired_plainly s from =
        let a : IsAcquired host s = acquire_hive-IsAcquired host s from in
        elim (Bool-cases s.raw) [
          | inr plain ↦ plain
          | inl raw ↦
              let (e, fails, locked) = (a.rawly raw).1 in
              let same_dir = ok_injective (sym located ∙ a.located) in
              absurd (
                true-ne-false (
                  sym locked
                  ∙ unlocked e (
                      ap (λ t. read_plain host t max_hive_bytes)
                        (ap (λ (q : Text × Text). q.1) same_dir)
                      ∙ fails)))
        ]

    -- Unless the plain read of the hive was refused by a sharing or lock violation, `Read` does the
    -- same whatever raw volumes the host has: the privileged handle has no part in its result.
    pub read_unprivileged : read p with_volumes ≡ read p host
    unfolding read read_dirty
    read_unprivileged = elim (Result-cases (acquire_hive host)) [
      | inr (e, fails) ↦ ground (arith, acquire_unprivileged)
      | inl (s, from) ↦ ground (
        arith,
        acquire_unprivileged,
        same_log s (codes ".LOG1") (acquired_plainly s from),
        same_log s (codes ".LOG2") (acquired_plainly s from),
      )
    ]
