-- ===== src/Hive/Acquire/Laws.antt =====
-- What `Read` promises its caller: clean bytes under the cap, and a raw volume handle for a locked
-- hive alone.
use amcache.Base.{
  ◌≤◌, ◌≡◌, Bool, true, false, List, ◌++◌, length, ok, err, refl, arith, sym, ◌∙◌, inl, inr,
  Result-cases, Bool-cases, ok_injective, ok-ne-err, true-ne-false, ap,
}
use mathlib.Core.Path.{subst}
use amcache.Base.Text.{Text, codes}
use amcache.Hive.Regf.{Bytes, Parser, Error, max_hive_bytes, dirty, IsBytes, ReadsRegf}
use amcache.Hive.Replay.{replay}
use amcache.Hive.Replay.Outcome.{IsClean, replay-IsClean, length-replay_bounds}
use amcache.Hive.Host.{Host}
use amcache.Hive.Acquire.{
  Source, ReadResult, hive_path, read_plain, is_locked, acquire_hive, read_log, read_bytes,
  read_dirty, read,
}
use amcache.Hive.Acquire.Acquired.{IsAcquired, acquire_hive-IsAcquired, acquire_hive-le}

-- What a successful `Read` did: either the hive was clean as acquired, or its replay is.
record IsRead (p : Parser) (host : Host) (res : ReadResult) : Type 0 where
  source : Source
  from : acquire_hive host ≡ ok source
  same_route : res.raw ≡ source.raw
  idle : res.replayed ≡ false → (dirty p source.bytes ≡ ok false) × (res.bytes ≡ source.bytes)
  replays :
      res.replayed ≡ true
      → (dirty p source.bytes ≡ ok true)
        × (dirty p res.bytes ≡ ok false)
        × ((logs : List Bytes) × (replay p source.bytes logs ≡ ok res.bytes))

module _ (p : Parser) (host : Host) where
  abbrev logs_of : Source → List Bytes
  logs_of s =
      read_bytes (read_log host s (codes ".LOG1")) ++ read_bytes (read_log host s (codes ".LOG2"))

  read_dirty-replays :
      (s : Source) (res : ReadResult)
      → read_dirty p host s ≡ ok res
      → (out : Bytes) × (replay p s.bytes (logs_of s) ≡ ok out)
        × (dirty p out ≡ ok false)
        × (res ≡ record { bytes = out; raw = s.raw; replayed = true })
  unfolding read_dirty
  read_dirty-replays s res e = elim (Result-cases (replay p s.bytes (logs_of s))) [
    | inr (f, fails) ↦ absurd (ok-ne-err _ _ (sym (rw (fails, read_dirty) at e)))
    | inl (out, done) ↦ (out, done, ground arith, ground arith)
  ]

  read_clean :
      (s : Source) (res : ReadResult)
      → acquire_hive host ≡ ok s
      → dirty p s.bytes ≡ ok false
      → read p host ≡ ok res
      → res ≡ record { bytes = s.bytes; raw = s.raw; replayed = false }
  unfolding read
  read_clean s res from clean e = sym (ok_injective (rw (from, clean, read) at e))

  read_replayed :
      (s : Source) (res : ReadResult)
      → acquire_hive host ≡ ok s
      → dirty p s.bytes ≡ ok true
      → read p host ≡ ok res
      → read_dirty p host s ≡ ok res
  unfolding read
  read_replayed s res from soiled e = ground arith

  read-acquires :
      (res : ReadResult)
      → read p host ≡ ok res
      → (s : Source) × (b : Bool) × (acquire_hive host ≡ ok s) × (dirty p s.bytes ≡ ok b)
  unfolding read
  read-acquires res e = elim (Result-cases (acquire_hive host)) [
    | inr (f, fails) ↦ absurd (ok-ne-err _ _ (sym (rw (fails, read) at e)))
    | inl (s, from) ↦ elim (Result-cases (dirty p s.bytes)) [
      | inr (f, fails) ↦ absurd (ok-ne-err _ _ (sym (rw (from, fails, read) at e)))
      | inl (b, is) ↦ (s, b, from, is)
    ]
  ]

  read-IsRead : (res : ReadResult) → read p host ≡ ok res → IsRead p host res
  read-IsRead res e =
      let (s, b, from, is) = read-acquires res e in
      elim (Bool-cases b) [
        | inr clean ↦
            let is_clean : dirty p s.bytes ≡ ok false = is ∙ ap ok clean in
            subst (IsRead p host) (sym (read_clean s res from is_clean e)) (record {
              source = s;
              from = from;
              same_route = refl;
              idle = λ _. (is_clean, refl);
              replays = λ h. cc;
            })
        | inl soiled ↦
            let is_dirty : dirty p s.bytes ≡ ok true = is ∙ ap ok soiled in
            let (out, done, clean, same) =
              read_dirty-replays s res (read_replayed s res from is_dirty e) in
            subst (IsRead p host) (sym same) (record {
              source = s;
              from = from;
              same_route = refl;
              idle = λ h. cc;
              replays = λ _. (is_dirty, clean, (logs_of s, done));
            })
      ]

  -- Over a registry parser that reads the format, and where what is acquired are bytes, `Read` never
  -- returns dirty bytes, and never more of them than the cap; where it replayed the
  -- logs, the whole base block of what it returns is clean.
  pub read-IsClean :
      ReadsRegf p
      → ((s : Source) → acquire_hive host ≡ ok s → IsBytes s.bytes)
      → (res : ReadResult) → read p host ≡ ok res
      → (dirty p res.bytes ≡ ok false)
        × (length res.bytes ≤ max_hive_bytes)
        × (res.replayed ≡ true → IsClean p res.bytes)
  read-IsClean laws typed res e =
      let r : IsRead p host res = read-IsRead res e in
      let small = acquire_hive-le host r.source r.from in
      elim (Bool-cases res.replayed) [
        | inr idle ↦ let (clean, same) = r.idle idle in (rw same clean, rw same small, λ h. cc)
        | inl replayed ↦
            let (soiled, clean, (logs, done)) = r.replays replayed in
            (
              clean,
              (length-replay_bounds p r.source.bytes logs res.bytes done).2,
              λ _.
                  elim (replay-IsClean p laws r.source.bytes logs res.bytes (typed r.source r.from)
                    done) [
                      | inl same ↦ absurd (
                          true-ne-false
                            (ok_injective (sym soiled ∙ ap (dirty p) (sym same) ∙ clean)))
                      | inr header ↦ header
                    ],
            )
      ]

  -- The bytes came from the raw volume only if the plain read of the same path was refused by a
  -- sharing or lock violation. Otherwise the plain read succeeded, and the bytes are those that it
  -- delivered or, where the logs were replayed, the result of a replay of some logs over those.
  pub read_raw-locked :
      (res : ReadResult)
      → read p host ≡ ok res
      → (dir : Text) × (path : Text) × (hive_path host ≡ ok (dir, path))
        × ((res.raw ≡ true)
            → (e : Error) × (read_plain host path max_hive_bytes ≡ err e) × (is_locked e ≡ true))
        × ((res.raw ≡ false)
            → (b : Bytes) × (read_plain host path max_hive_bytes ≡ ok b)
              × (res.replayed ≡ false → res.bytes ≡ b)
              × (res.replayed ≡ true → (logs : List Bytes) × (replay p b logs ≡ ok res.bytes)))
  read_raw-locked res e =
      let r : IsRead p host res = read-IsRead res e in
      let a : IsAcquired host r.source = acquire_hive-IsAcquired host r.source r.from in
      (
        a.dir,
        r.source.path,
        a.located,
        λ h. (a.rawly (sym r.same_route ∙ h)).1,
        λ h. (
          r.source.bytes,
          a.plainly (sym r.same_route ∙ h),
          λ i. (r.idle i).1,
          λ i. (r.replays i).2,
        ),
      )
