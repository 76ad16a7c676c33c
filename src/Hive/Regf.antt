-- ===== src/Hive/Regf.antt =====
-- The base block of a registry file as internal/hive/replay.go reads and writes it: little-endian
-- words, the checksum, and `Dirty`. The registry parser is third-party code and is a parameter.
pub mod Words
pub mod Bytes
pub mod Checksum
use mathlib.Core.List.{List, [], ◌∷◌}
use amcache.Base.{
  ℕ, zero, suc, ◌+◌, ◌*◌, ◌/◌, ◌%◌, ◌^◌, ◌<◌, bit_xor, ◌≡◌, refl, Bool, true, false, not, Option,
  if◌then◌else◌, ◌==◌, get_or, copy_at, Result, ok, err, length, All, ◌⊎◌, ◌≤◌, some,
}

abbrev pub Bytes : Type 0
Bytes = List ℕ

-- What `regparser` reports of one dirty page of a log entry.
pub record DirtyPage : Type 0 where
  pub page_offset : ℕ
  pub page_size : ℕ
  pub data_offset : ℕ

-- The calls of `regparser` that the package makes. `new_registry` says whether it accepts a base
-- block; the entry fields take the log's bytes and the entry's offset.
pub record Parser : Type 0 where
  pub new_registry : Bytes → Bool
  pub sequence1 : Bytes → ℕ
  pub sequence2 : Bytes → ℕ
  pub file_type : Bytes → ℕ
  pub signature : Bytes → ℕ → ℕ
  pub log_entry_size : Bytes → ℕ → ℕ
  pub dirty_pages_count : Bytes → ℕ → ℕ
  pub hive_bins_data_size : Bytes → ℕ → ℕ
  pub sequence_number : Bytes → ℕ → ℕ
  pub flags : Bytes → ℕ → ℕ
  pub get_dirty_pages : Bytes → ℕ → List DirtyPage
  -- `DirtyPage.Data`: the page's bytes, or none where the read fails.
  pub page_data : Bytes → DirtyPage → Option Bytes

-- Why a call of the operating system or of the volume parser failed, as far as the package tells
-- such failures apart.
pub data Cause : Type 0 where
  not_exist sharing_violation lock_violation other : Cause

-- Why a context ended.
pub data Ended : Type 0 where
  canceled deadline_exceeded : Ended

-- Which log could not be read.
pub data LogFailure : Type 0 where
  log1_failed log2_failed : LogFailure

-- The errors that the package returns.
pub data Error : Type 0 where
  not_found base_block : Error
  hive_over_cap log_over_cap hive_too_short too_many_logs : Error
  page_unreadable page_over_cap bins_beyond_data : Error
  os_error : Cause → Error
  system_directory unexpected_directory not_regular plain_over_cap : Error
  open_volume paged_reader ntfs_context raw_lookup raw_size raw_read raw_short : Error
  context_ended : Ended → Error
  -- `errors.Join` of the failed log reads and the refusal itself.
  still_dirty : List LogFailure → Error
  -- The model's own: a loop's fuel ran out.
  out_of_fuel : Error

abbrev pub max_hive_bytes : ℕ
max_hive_bytes = 256 * 2 ^ 20

abbrev pub max_log_bytes : ℕ
max_log_bytes = 64 * 2 ^ 20

-- `binary.LittleEndian.Uint32(buf[i : i+4])`.
unfoldable pub get_u32 : Bytes → ℕ → ℕ
get_u32 buf i =
    get_or buf i 0
    + 256 * get_or buf (i + 1) 0
    + 65536 * get_or buf (i + 2) 0
    + 16777216 * get_or buf (i + 3) 0

-- The four bytes of `binary.LittleEndian.PutUint32`.
unfoldable pub u32_bytes : ℕ → Bytes
u32_bytes v = v % 256 ∷ v / 256 % 256 ∷ v / 65536 % 256 ∷ v / 16777216 % 256 ∷ []

-- `PutUint32(b[:], v); copy(out[i:i+4], b[:])`.
unfoldable pub put_u32 : Bytes → ℕ → ℕ → Bytes
unfolding u32_bytes
put_u32 out i v = copy_at out i (u32_bytes v)

-- The loop of `checksum`, with `n` words left from offset `i`.
unfoldable pub checksum_loop : ℕ → ℕ → ℕ → Bytes → ℕ
checksum_loop zero i c buf = c
checksum_loop (suc n) i c buf = checksum_loop n (i + 4) (bit_xor c (get_u32 buf i)) buf

-- `checksum`: the exclusive or of the 127 words in the first 0x1fc bytes, the values 0 and
-- 0xFFFFFFFF replaced.
unfoldable pub checksum : Bytes → ℕ
unfolding checksum_loop get_u32
checksum buf =
    let c = checksum_loop 127 0 0 buf in
    if c == 0 then 1 else if c == 0xFFFFFFFF then 0xFFFFFFFE else c

-- `Dirty`: whether the two sequence numbers of the base block differ.
unfoldable pub dirty : Parser → Bytes → Result Error Bool
dirty p hive =
    if p.new_registry hive then ok (not (p.sequence1 hive == p.sequence2 hive)) else err base_block

abbrev pub IsByte : ℕ → Type 0
IsByte b = b < 256

abbrev pub IsBytes : Bytes → Type 0
IsBytes = All IsByte

-- What the package relies on in `regparser`: where the format puts the two sequence numbers, that
-- a base block is accepted by its signature, times, version, type and root cell, and the types of
-- what it returns (32-bit words, bytes).
pub record ReadsRegf (p : Parser) : Type 0 where
  pub sequence1_at : (b : Bytes) → p.sequence1 b ≡ get_u32 b 4
  pub sequence2_at : (b : Bytes) → p.sequence2 b ≡ get_u32 b 8
  pub accepts_by :
      (a b : Bytes)
      → ((i : ℕ) → (i < 4) ⊎ ((12 ≤ i) × (i < 0x28)) → get_or a i 0 ≡ get_or b i 0)
      → p.new_registry a ≡ p.new_registry b
  pub sequence_number_u32 : (b : Bytes) (off : ℕ) → p.sequence_number b off < 2 ^ 32
  pub hive_bins_data_size_u32 : (b : Bytes) (off : ℕ) → p.hive_bins_data_size b off < 2 ^ 32
  pub flags_u32 : (b : Bytes) (off : ℕ) → p.flags b off < 2 ^ 32
  pub page_data-IsBytes :
      (b : Bytes) (page : DirtyPage) (bytes : Bytes)
      → p.page_data b page ≡ some bytes
      → IsBytes bytes
