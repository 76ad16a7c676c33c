-- ===== src/Hive/Acquire/Acquired.antt =====
-- How `acquireHive` came by a hive, and the bounds of the plain and the raw read.
use amcache.Base.{
  ℕ, ◌≤◌, ◌<◌, ◌≡◌, true, false, length, take, ok, err, refl, arith, sym, inl, inr, Result-cases,
  Bool-cases, ok_injective, ok-ne-err,
}
use mathlib.Core.Path.{subst}
use amcache.Base.Text.{Text}
use amcache.Hive.Regf.{Bytes, Error, max_hive_bytes}
use amcache.Hive.Host.{Host, OpenFile, RawFile}
use amcache.Hive.Acquire.{
  Source, hive_path, read_open, read_plain, read_found, read_raw, is_locked, acquire_hive,
}

pub read_open-le :
    (f : OpenFile) (limit : ℕ) (b : Bytes) → read_open f limit ≡ ok b → length b ≤ limit
unfolding read_open
read_open-le f limit b e = ground arith

pub read_plain-le :
    (host : Host) (path : Text) (limit : ℕ) (b : Bytes)
    → read_plain host path limit ≡ ok b
    → length b ≤ limit
unfolding read_plain
read_plain-le host path limit b e = ground arith

pub read_found-le :
    (f : RawFile) (limit : ℕ) (b : Bytes)
    → read_found f limit ≡ ok b
    → (length b ≤ limit) × (length b ≡ f.range_size) × (0 < length b)
unfolding read_found
read_found-le f limit b e = ground arith

pub read_raw-le :
    (host : Host) (drive path : Text) (limit : ℕ) (b : Bytes)
    → read_raw host drive path limit ≡ ok b
    → length b ≤ limit
unfolding read_raw
read_raw-le host drive path limit b e = ground arith

-- How an acquired hive was come by.
pub record IsAcquired (host : Host) (s : Source) : Type 0 where
  pub dir : Text
  pub located : hive_path host ≡ ok (dir, s.path)
  pub drive_of : s.drive ≡ take 2 dir
  pub plainly : s.raw ≡ false → read_plain host s.path max_hive_bytes ≡ ok s.bytes
  pub rawly :
      s.raw ≡ true
      → (read_raw host s.drive s.path max_hive_bytes ≡ ok s.bytes)
        × ((e : Error) × (read_plain host s.path max_hive_bytes ≡ err e) × (is_locked e ≡ true))

-- The route of `acquire_hive`, once the path and the plain read are known.
pub acquired-plain :
    (host : Host) (dir path : Text) (b : Bytes) (s : Source)
    → hive_path host ≡ ok (dir, path)
    → read_plain host path max_hive_bytes ≡ ok b
    → acquire_hive host ≡ ok s
    → s ≡ record { drive = take 2 dir; path = path; bytes = b; raw = false }
unfolding acquire_hive
acquired-plain host dir path b s located plain e =
    sym (ok_injective (rw (located, plain, acquire_hive) at e))

pub acquired-raw :
    (host : Host) (dir path : Text) (f : Error) (s : Source)
    → hive_path host ≡ ok (dir, path)
    → read_plain host path max_hive_bytes ≡ err f
    → acquire_hive host ≡ ok s
    → (is_locked f ≡ true)
      × ((b : Bytes) × (read_raw host (take 2 dir) path max_hive_bytes ≡ ok b)
          × (s ≡ record { drive = take 2 dir; path = path; bytes = b; raw = true }))
unfolding acquire_hive
acquired-raw host dir path f s located plain e =
    elim (Result-cases (read_raw host (take 2 dir) path max_hive_bytes)) [
      | inl (b, reads) ↦ (ground arith, (b, reads, ground arith))
      | inr (g, fails) ↦ absurd (ground arith)
    ]

pub acquire_hive-path :
    (host : Host) (s : Source)
    → acquire_hive host ≡ ok s
    → (dir : Text) × (path : Text) × (hive_path host ≡ ok (dir, path))
unfolding acquire_hive
acquire_hive-path host s e = elim (Result-cases (hive_path host)) [
  | inl ((dir, path), located) ↦ (dir, path, located)
  | inr (f, fails) ↦ absurd (ok-ne-err _ _ (sym (rw (fails, acquire_hive) at e)))
]

pub acquire_hive-IsAcquired :
    (host : Host) (s : Source) → acquire_hive host ≡ ok s → IsAcquired host s
acquire_hive-IsAcquired host s e =
    let (dir, path, located) = acquire_hive-path host s e in
    elim (Result-cases (read_plain host path max_hive_bytes)) [
      | inl (b, plain) ↦
          subst (IsAcquired host) (sym (acquired-plain host dir path b s located plain e)) (record {
            dir = dir;
            located = located;
            drive_of = refl;
            plainly = λ _. plain;
            rawly = λ h. cc;
          })
      | inr (f, fails) ↦
          let (locked, (b, reads, same)) = acquired-raw host dir path f s located fails e in
          subst (IsAcquired host) (sym same) (record {
            dir = dir;
            located = located;
            drive_of = refl;
            plainly = λ h. cc;
            rawly = λ _. (reads, (f, fails, locked));
          })
    ]

pub acquire_hive-le :
    (host : Host) (s : Source) → acquire_hive host ≡ ok s → length s.bytes ≤ max_hive_bytes
acquire_hive-le host s e =
    let a : IsAcquired host s = acquire_hive-IsAcquired host s e in
    elim (Bool-cases s.raw) [
      | inl raw ↦ read_raw-le host s.drive s.path max_hive_bytes s.bytes (a.rawly raw).0
      | inr plain ↦ read_plain-le host s.path max_hive_bytes s.bytes (a.plainly plain)
    ]
