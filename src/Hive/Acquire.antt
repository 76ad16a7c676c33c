-- ===== src/Hive/Acquire.antt =====
-- internal/hive/hive_windows.go: the plain read, the raw NTFS read that replaces it when the hive is
-- locked, and `Read`, which replays a dirty hive. The operating system and the NTFS parser are
-- parameters.
pub mod Acquired
pub mod Laws
pub mod Capture
pub mod Privilege
use amcache.Base.{
  ℕ, ◌+◌, Bool, true, false, ◌&&◌, ◌||◌, not, Option, none, some, List, [], ◌∷◌, ◌++◌,
  if◌then◌else◌, ltb, leb, ◌==◌, length, take, drop, Result, ok, err,
}
use amcache.Base.Text.{Text, codes, replace_all}
use amcache.Hive.Regf.{
  Bytes, Parser, Error, Cause, Ended, not_exist, sharing_violation, lock_violation, not_found,
  os_error, system_directory, unexpected_directory, not_regular, plain_over_cap, open_volume,
  paged_reader, ntfs_context, raw_lookup, raw_size, raw_read, raw_short, context_ended, still_dirty,
  LogFailure, log1_failed, log2_failed, max_hive_bytes, max_log_bytes, dirty,
}
use amcache.Hive.Host.{OpenFile, FileInfo, RawFile, Host}
use amcache.Hive.Replay.{replay}

-- `Result` of replay.go.
pub record ReadResult : Type 0 where
  pub bytes : Bytes
  pub raw : Bool
  pub replayed : Bool

-- `source`.
pub record Source : Type 0 where
  pub drive : Text
  pub path : Text
  pub bytes : Bytes
  pub raw : Bool

-- `Files`.
pub record Files : Type 0 where
  pub hive : Bytes
  pub log1 : Option Bytes
  pub log2 : Option Bytes
  pub raw : Bool

abbrev pub is_letter : ℕ → Bool
is_letter c = (leb b'A' c && leb c b'Z') || (leb b'a' c && leb c b'z')

-- The directory is drive-qualified: a letter, a colon, a backslash.
unfoldable pub is_qualified : Text → Bool
is_qualified (c ∷ d ∷ e ∷ rest) = is_letter c && d == b':' && e == 0x5C
is_qualified _ = false

-- `filepath.Join(dir, rel)` for a directory as the API returns it: clean, except that a volume's
-- root ends in a backslash.
unfoldable pub join_path : Text → Text → Text
join_path [] rel = rel
join_path (c ∷ []) rel = if c == 0x5C then c ∷ rel else c ∷ 0x5C ∷ rel
join_path (c ∷ d ∷ dir) rel = c ∷ join_path (d ∷ dir) rel

abbrev pub hive_suffix : Text
hive_suffix = codes "AppCompat\\Programs\\Amcache.hve"

-- `hivePath`.
unfoldable pub hive_path : Host → Result Error (Text × Text)
unfolding is_qualified join_path
hive_path host = elim host.windows_directory [
  | none ↦ err system_directory
  | some dir ↦
      if is_qualified dir then ok (dir, join_path dir hive_suffix) else err unexpected_directory
]

-- `readPlain`, after the file is open.
unfoldable pub read_open : OpenFile → ℕ → Result Error Bytes
read_open f limit = elim f.stat [
  | err c ↦ err (os_error c)
  | ok (regular, size) ↦
      if not regular
      then err not_regular
      else if ltb limit size
      then err plain_over_cap
      else elim (f.read_all (limit + 1)) [
        | err c ↦ err (os_error c)
        | ok buf ↦ if ltb limit (length buf) then err plain_over_cap else ok buf
      ]
]

-- `readPlain`.
unfoldable pub read_plain : Host → Text → ℕ → Result Error Bytes
unfolding read_open
read_plain host path limit = elim (host.open_file path) [
  | err c ↦ err (os_error c)
  | ok f ↦ read_open f limit
]

-- `readRaw`, on the file that the volume holds.
unfoldable pub read_found : RawFile → ℕ → Result Error Bytes
read_found f limit =
    let n = f.range_size in
    if n == 0 || ltb limit n
    then err raw_size
    else let (got, failed) = f.read_at n in
      if failed then err raw_read else if not (length got == n) then err raw_short else ok got

-- `readRaw`: the path loses its drive and is written with slashes.
unfoldable pub read_raw : Host → Text → Text → ℕ → Result Error Bytes
unfolding read_found replace_all
read_raw host drive win_path limit = elim (host.open_raw drive) [
  | none ↦ err open_volume
  | some vol ↦
      if not vol.paged
      then err paged_reader
      else if not vol.ntfs
      then err ntfs_context
      else elim (vol.find_file (replace_all 0x5C b'/' (drop 2 win_path))) [
        | none ↦ err raw_lookup
        | some f ↦ read_found f limit
      ]
]

-- The failures of the plain read that the raw read stands in for.
unfoldable pub is_locked : Error → Bool
is_locked (os_error sharing_violation) = true
is_locked (os_error lock_violation) = true
is_locked _ = false

unfoldable pub is_absent : Error → Bool
is_absent (os_error not_exist) = true
is_absent _ = false

-- `acquireHive`.
unfoldable pub acquire_hive : Host → Result Error Source
acquire_hive host = elim (hive_path host) [
  | err e ↦ err e
  | ok (dir, path) ↦
      let drive = take 2 dir in
      elim (read_plain host path max_hive_bytes) [
        | ok bytes ↦ ok (record { drive = drive; path = path; bytes = bytes; raw = false })
        | err e ↦
            if is_absent e
            then err not_found
            else if is_locked e
            then elim host.ctx_raw [
              | some ended ↦ err (context_ended ended)
              | none ↦ elim (read_raw host drive path max_hive_bytes) [
                | err rerr ↦ err rerr
                | ok bytes ↦ ok (record { drive = drive; path = path; bytes = bytes; raw = true })
              ]
            ]
            else err e
      ]
]

-- `readLog`: through whichever route produced the hive.
unfoldable pub read_log : Host → Source → Text → Result Error Bytes
read_log host s suffix =
    if s.raw
    then read_raw host s.drive (s.path ++ suffix) max_log_bytes
    else read_plain host (s.path ++ suffix) max_log_bytes

-- A log's bytes where it could be read, and the failure where not.
abbrev pub read_bytes : Result Error Bytes → List Bytes
read_bytes (ok b) = b ∷ []
read_bytes (err e) = []

abbrev pub failure : LogFailure → Result Error Bytes → List LogFailure
failure which (ok b) = []
failure which (err e) = which ∷ []

-- The two log reads and the replay of `Read`, for a dirty hive.
unfoldable pub read_dirty : Parser → Host → Source → Result Error ReadResult
read_dirty p host s =
    let log1 = read_log host s (codes ".LOG1") in
    let log2 = read_log host s (codes ".LOG2") in
    elim (replay p s.bytes (read_bytes log1 ++ read_bytes log2)) [
      | err e ↦ err e
      | ok out ↦ elim (dirty p out) [
        | err e ↦ err e
        | ok true ↦ err (still_dirty (failure log1_failed log1 ++ failure log2_failed log2))
        | ok false ↦ ok (record { bytes = out; raw = s.raw; replayed = true })
      ]
    ]

-- `Read`.
unfoldable pub read : Parser → Host → Result Error ReadResult
read p host = elim (acquire_hive host) [
  | err e ↦ err e
  | ok s ↦ elim (dirty p s.bytes) [
    | err e ↦ err e
    | ok false ↦ ok (record { bytes = s.bytes; raw = s.raw; replayed = false })
    | ok true ↦ elim host.ctx_logs [
      | some ended ↦ err (context_ended ended)
      | none ↦ read_dirty p host s
    ]
  ]
]

abbrev pub as_option : Result Error Bytes → Option Bytes
as_option (ok b) = some b
as_option (err e) = none

-- `ReadFiles`: both logs, whether or not the hive is dirty.
unfoldable pub read_files : Host → Result Error Files
read_files host = elim (acquire_hive host) [
  | err e ↦ err e
  | ok s ↦ elim host.ctx_logs [
    | some ended ↦ err (context_ended ended)
    | none ↦ ok (record {
      hive = s.bytes;
      log1 = as_option (read_log host s (codes ".LOG1"));
      log2 = as_option (read_log host s (codes ".LOG2"));
      raw = s.raw;
    })
  ]
]

-- `Stat`.
unfoldable pub stat : Host → Result Error FileInfo
stat host = elim (hive_path host) [
  | err e ↦ err e
  | ok (dir, path) ↦ elim (host.stat_file path) [ err c ↦ err (os_error c) | ok info ↦ ok info ]
]
