-- ===== src/Hive/Tests.antt =====
-- The hive package at work on a small dirty hive and its log.
pub mod Format
use amcache.Base.{
  ℕ, zero, suc, ◌+◌, ◌%◌, ◌^◌, ◌≤◌, ◌<◌, ◌≡◌, ◌≢◌, true, false, none, some, List, [], ◌∷◌, ◌++◌,
  ◌==◌, length, get_or, take, drop, replicate, copy_at, ok, err, refl, arith, ◌⊎◌, inl, map, sym,
  ◌∙◌, ok_injective, ok-ne-err, if◌then◌else◌,
}
use mathlib.Core.Path.{subst}
use mathlib.Core.Option.{some-injective}
use amcache.Base.Text.{Text, codes, text_eq}
use amcache.Hive.Regf.{
  Bytes, Parser, DirtyPage, ReadsRegf, IsBytes, get_u32, put_u32, dirty, out_of_fuel,
  max_hive_bytes, Error, not_exist, sharing_violation,
}
use amcache.Hive.Regf.Bytes.{IsBytes-put_u32, IsBytes-append_zeros}
use amcache.Hive.Replay.{replay}
use amcache.Hive.Replay.Outcome.{IsClean, replay-IsClean, replay_terminates}
use amcache.Hive.Replay.Image.{ReadsPages}
use amcache.Hive.Replay.Recovery.{IsRecovered, replay-IsRecovered}
use amcache.Hive.Host.{Host, RawFile, Volume}
use amcache.Hive.Acquire.{
  Source, ReadResult, read, read_dirty, read_log, read_raw, is_absent, acquire_hive, hive_path,
  read_plain, is_locked,
}
use amcache.Hive.Acquire.Laws.{read-IsClean, read_raw-locked}
use amcache.Hive.Acquire.{Files, read_files}
use amcache.Hive.Acquire.Capture.{replay_capture, read-eq-replay_capture}
use amcache.Hive.Acquire.Privilege.{read_unprivileged}
use amcache.Hive.Tests.Format.{refs, byte_of, regf, regf-ReadsRegf, regf-ReadsPages}

-- A dirty hive of one base block.
small_hive : Bytes
small_hive = put_u32 (put_u32 (put_u32 ([] ++ replicate 4096 0) 0 0x66676572) 4 2) 8 1

small_hive-IsBytes : IsBytes small_hive
unfolding small_hive
small_hive-IsBytes =
    IsBytes-put_u32 _ 8 1
      (IsBytes-put_u32 _ 4 2 (IsBytes-put_u32 _ 0 0x66676572 (IsBytes-append_zeros [] 4096 tt)))

-- A log with one entry, numbered 2, that carries the first page of the hive bins.
small_log : Bytes
small_log =
    let base = put_u32 (put_u32 (put_u32 (replicate 5120 0) 0 0x66676572) 4 2) 0x1c 6 in
    let entry = put_u32 (put_u32 (put_u32 base 0x200 0x454C7648) 0x204 4608) 0x20c 2 in
    let sized = put_u32 (put_u32 entry 0x210 4096) 0x214 1 in
    put_u32 (put_u32 sized 0x22c 4096) 0x230 7

recovered : Bytes
recovered = elim (replay regf small_hive (small_log ∷ [])) [ ok out ↦ out | err e ↦ [] ]

small_replay : replay regf small_hive (small_log ∷ []) ≡ ok recovered
unfolding recovered replay small_hive small_log put_u32 refs byte_of copy_at
small_replay = refl

recovered-length :
    (length recovered ≡ 8192) × (get_u32 recovered 8 ≡ 2) × (get_or recovered 0x1000 0 ≡ 7)
unfolding recovered replay small_hive small_log put_u32 refs byte_of copy_at
recovered-length = (refl, refl, refl)

replay_terminates_example : replay regf small_hive (small_log ∷ []) ≢ err out_of_fuel
replay_terminates_example = replay_terminates regf small_hive (small_log ∷ [])

replay-IsClean_example : (recovered ≡ small_hive) ⊎ IsClean regf recovered
replay-IsClean_example =
    replay-IsClean regf regf-ReadsRegf small_hive (small_log ∷ []) recovered small_hive-IsBytes
      small_replay

replay-IsRecovered_example : IsRecovered regf small_hive (small_log ∷ []) recovered
replay-IsRecovered_example =
    replay-IsRecovered regf regf-ReadsRegf regf-ReadsPages small_hive (small_log ∷ []) recovered
      small_replay

-- A host whose hive is locked, so that it and its first log are read off the volume.
abbrev windows : Text
windows = codes "C:\\Windows"

abbrev hive_file : Text
hive_file = codes "C:\\Windows\\AppCompat\\Programs\\Amcache.hve"

raw_file : Bytes → RawFile
raw_file b = record { range_size = length b; read_at = λ n. (b, false) }

small_volume : Volume
small_volume = record {
  paged = true;
  ntfs = true;
  find_file = λ path.
      if text_eq path (codes "/Windows/AppCompat/Programs/Amcache.hve")
      then some (raw_file small_hive)
      else if text_eq path (codes "/Windows/AppCompat/Programs/Amcache.hve.LOG1")
      then some (raw_file small_log)
      else none;
}

pub locked_host : Host
locked_host = record {
  windows_directory = some windows;
  open_file = λ path. err sharing_violation;
  stat_file = λ path. err not_exist;
  open_raw = λ drive. some small_volume;
  ctx_raw = none;
  ctx_logs = none;
}

abbrev replayed_result : ReadResult
replayed_result = record { bytes = recovered; raw = true; replayed = true }

locked_read : read regf locked_host ≡ ok replayed_result
unfolding read acquire_hive read_dirty read_log read_raw read_plain is_absent is_locked hive_path
    locked_host small_volume raw_file text_eq replay dirty recovered small_hive small_log put_u32
    refs byte_of copy_at get_u32
locked_read = refl

abbrev locked_source : Source
locked_source = record { drive = codes "C:"; path = hive_file; bytes = small_hive; raw = true }

locked_acquire : acquire_hive locked_host ≡ ok locked_source
unfolding acquire_hive read_raw read_plain is_absent is_locked hive_path locked_host small_volume
    raw_file text_eq small_hive put_u32 copy_at
locked_acquire = refl

pub locked-IsBytes : (s : Source) → acquire_hive locked_host ≡ ok s → IsBytes s.bytes
locked-IsBytes s e =
    subst (λ (t : Source). IsBytes t.bytes) (ok_injective (sym locked_acquire ∙ e))
      small_hive-IsBytes

read-IsClean_example :
    (dirty regf recovered ≡ ok false)
    × (length recovered ≤ max_hive_bytes)
    × (true ≡ true → IsClean regf recovered)
read-IsClean_example =
    read-IsClean regf locked_host regf-ReadsRegf locked-IsBytes replayed_result locked_read

read_raw-locked_example :
    (dir : Text) × (path : Text) × (hive_path locked_host ≡ ok (dir, path))
    × (true ≡ true
        → (e : Error) × (read_plain locked_host path max_hive_bytes ≡ err e) × (is_locked e ≡ true))
    × (true ≡ false
        → (b : Bytes) × (read_plain locked_host path max_hive_bytes ≡ ok b)
          × (true ≡ false → recovered ≡ b)
          × (true ≡ true → (logs : List Bytes) × (replay regf b logs ≡ ok recovered)))
read_raw-locked_example = read_raw-locked regf locked_host replayed_result locked_read

-- A host whose hive is simply there.
open_host : Host
open_host = record locked_host {
  open_file = λ path. ok (record { stat = ok (true, 4096); read_all = λ limit. ok small_hive });
}

open_path : hive_path open_host ≡ ok (windows, hive_file)
unfolding open_host locked_host hive_path
open_path = refl

open_unlocked :
    (e : Error) → read_plain open_host hive_file max_hive_bytes ≡ err e → is_locked e ≡ false
unfolding open_host read_plain small_hive put_u32 copy_at
open_unlocked e h = absurd (ok-ne-err _ _ h)

read_unprivileged_example :
    read regf (record open_host { open_raw = λ drive. none }) ≡ read regf open_host
read_unprivileged_example =
    read_unprivileged regf open_host (λ drive. none) windows hive_file open_path open_unlocked

-- What is captured of the locked host: it has one log.
abbrev locked_files : Files
locked_files = record { hive = small_hive; log1 = some small_log; log2 = none; raw = true }

locked_capture : read_files locked_host ≡ ok locked_files
unfolding read_files acquire_hive read_log read_raw read_plain is_absent is_locked hive_path
    locked_host small_volume raw_file text_eq small_hive small_log put_u32 copy_at
locked_capture = refl

read-eq-replay_capture_example : read regf locked_host ≡ replay_capture regf locked_files
read-eq-replay_capture_example = read-eq-replay_capture regf locked_host locked_files locked_capture
