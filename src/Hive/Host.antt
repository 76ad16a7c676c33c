-- ===== src/Hive/Host.antt =====
-- What internal/hive/hive_windows.go asks of the operating system and of the NTFS parser, which are
-- parameters: the answers to its calls.
use amcache.Base.{ℕ, Bool, Option, Result}
use amcache.Base.Text.{Text}
use amcache.Hive.Regf.{Bytes, Cause, Ended}

-- An open file: `Stat`, and what `io.ReadAll` gives under a limit on the bytes.
pub record OpenFile : Type 0 where
  pub stat : Result Cause (Bool × ℕ)
  pub read_all : ℕ → Result Cause Bytes

-- `os.Stat`: the modification time and the size.
pub record FileInfo : Type 0 where
  pub mod_time : ℕ
  pub size : ℕ

-- A file found on the raw volume: the size of its runs, and what `ReadAt` delivers into a buffer of
-- that size, with whether it failed otherwise than by the end of the file.
pub record RawFile : Type 0 where
  pub range_size : ℕ
  pub read_at : ℕ → Bytes × Bool

-- A raw volume, as far as the parser opened it.
pub record Volume : Type 0 where
  pub paged : Bool
  pub ntfs : Bool
  pub find_file : Text → Option RawFile

-- The host: what the calls of the operating system return. `ctx_raw` and `ctx_logs` are the two
-- points at which `Read` asks whether its context has ended.
pub record Host : Type 0 where
  pub windows_directory : Option Text
  pub open_file : Text → Result Cause OpenFile
  pub stat_file : Text → Result Cause FileInfo
  pub open_raw : Text → Option Volume
  pub ctx_raw : Option Ended
  pub ctx_logs : Option Ended
