-- ===== src/Hive/Acquire/Capture.antt =====
-- `ReadFiles` captures what `Read` works on: replaying the capture later gives what `Read` gave.
use amcache.Base.{
  ◌≡◌, refl, Bool, true, false, Option, none, some, List, [], ◌∷◌, ◌++◌, Result, ok, err,
  Result-cases, Option-cases, inl, inr, sym, ap, ◌∙◌, arith, ok_injective, ok-ne-err,
}
use mathlib.Core.Path.{ap₂}
use amcache.Base.Text.{codes}
use amcache.Hive.Regf.{
  Bytes, Parser, Error, still_dirty, LogFailure, log1_failed, log2_failed, dirty,
}
use amcache.Hive.Replay.{replay}
use amcache.Hive.Host.{Host}
use amcache.Hive.Acquire.{
  Source, Files, ReadResult, acquire_hive, read_log, read_bytes, failure, read_dirty, read,
  as_option, read_files,
}

abbrev bytes_of : Option Bytes → List Bytes
bytes_of none = []
bytes_of (some b) = b ∷ []

abbrev missing : LogFailure → Option Bytes → List LogFailure
missing which none = which ∷ []
missing which (some b) = []

-- A replay that must not leave the hive dirty.
abbrev checked : Parser → Bytes → Bool → List Bytes → List LogFailure → Result Error ReadResult
checked p hive raw logs failed = elim (replay p hive logs) [
  | err e ↦ err e
  | ok out ↦ elim (dirty p out) [
    | err e ↦ err e
    | ok true ↦ err (still_dirty failed)
    | ok false ↦ ok (record { bytes = out; raw = raw; replayed = true })
  ]
]

abbrev checked_replay : Parser → Files → Result Error ReadResult
checked_replay p f =
    checked p f.hive f.raw (bytes_of f.log1 ++ bytes_of f.log2)
      (missing log1_failed f.log1 ++ missing log2_failed f.log2)

-- `Read`, on captured files instead of a host.
abbrev pub replay_capture : Parser → Files → Result Error ReadResult
replay_capture p f = elim (dirty p f.hive) [
  | err e ↦ err e
  | ok false ↦ ok (record { bytes = f.hive; raw = f.raw; replayed = false })
  | ok true ↦ checked_replay p f
]

bytes_of-as_option : (r : Result Error Bytes) → bytes_of (as_option r) ≡ read_bytes r
bytes_of-as_option (ok b) = refl
bytes_of-as_option (err e) = refl

missing-as_option :
    (which : LogFailure) (r : Result Error Bytes) → missing which (as_option r) ≡ failure which r
missing-as_option which (ok b) = refl
missing-as_option which (err e) = refl

replay_capture-soiled :
    (p : Parser) (f : Files) → dirty p f.hive ≡ ok true → replay_capture p f ≡ checked_replay p f
replay_capture-soiled p f x = rw (x, replay_capture) refl

module _ (p : Parser) (host : Host) (s : Source) where
  abbrev captured : Files
  captured = record {
    hive = s.bytes;
    log1 = as_option (read_log host s (codes ".LOG1"));
    log2 = as_option (read_log host s (codes ".LOG2"));
    raw = s.raw;
  }

  read_dirty-checked :
      read_dirty p host s
      ≡ checked p s.bytes s.raw
          (read_bytes (read_log host s (codes ".LOG1"))
            ++ read_bytes (read_log host s (codes ".LOG2")))
          (failure log1_failed (read_log host s (codes ".LOG1"))
            ++ failure log2_failed (read_log host s (codes ".LOG2")))
  unfolding read_dirty
  read_dirty-checked = refl

  read_dirty-captured : read_dirty p host s ≡ checked_replay p captured
  read_dirty-captured =
      let log1 = read_log host s (codes ".LOG1") in
      let log2 = read_log host s (codes ".LOG2") in
      read_dirty-checked
      ∙ sym (
          ap₂ (checked p s.bytes s.raw)
            (ap₂ ◌++◌ (bytes_of-as_option log1) (bytes_of-as_option log2))
            (ap₂ ◌++◌ (missing-as_option log1_failed log1) (missing-as_option log2_failed log2)))

  read-soiled :
      acquire_hive host ≡ ok s
      → host.ctx_logs ≡ none
      → dirty p s.bytes ≡ ok true
      → read p host ≡ read_dirty p host s
  unfolding read
  read-soiled from on x = ground (arith, from, on, x)

  read-captured :
      acquire_hive host ≡ ok s → host.ctx_logs ≡ none → read p host ≡ replay_capture p captured
  unfolding read
  read-captured from on = elim (Result-cases (dirty p s.bytes)) [
    | inr (e, x) ↦ rw (from, x, read, replay_capture) refl
    | inl (false, x) ↦ rw (from, x, read, replay_capture) refl
    | inl (true, x) ↦
        read-soiled from on x ∙ read_dirty-captured ∙ sym (replay_capture-soiled p captured x)
  ]

  read_files-captured :
      (f : Files)
      → acquire_hive host ≡ ok s
      → read_files host ≡ ok f
      → (host.ctx_logs ≡ none) × (f ≡ captured)
  unfolding read_files
  read_files-captured f from e = elim (Option-cases host.ctx_logs) [
    | inl on ↦ (on, sym (ok_injective (rw (from, on, read_files) at e)))
    | inr (ended, off) ↦ absurd (ok-ne-err _ _ (sym (rw (from, off, read_files) at e)))
  ]

files-acquired :
    (host : Host) (f : Files) → read_files host ≡ ok f → (s : Source) × (acquire_hive host ≡ ok s)
unfolding read_files
files-acquired host f e = elim (Result-cases (acquire_hive host)) [
  | inl (s, from) ↦ (s, from)
  | inr (bad, fails) ↦ absurd (ok-ne-err _ _ (sym (rw (fails, read_files) at e)))
]

-- Where `ReadFiles` captures the files of a host, `Read` of that host gives what a replay of the capture
-- gives: the same bytes, route and flag, or the same error.
pub read-eq-replay_capture :
    (p : Parser) (host : Host) (f : Files)
    → read_files host ≡ ok f
    → read p host ≡ replay_capture p f
read-eq-replay_capture p host f e =
    let (s, from) = files-acquired host f e in
    let (on, same) = read_files-captured p host s f from e in
    read-captured p host s from on ∙ ap (replay_capture p) (sym same)
