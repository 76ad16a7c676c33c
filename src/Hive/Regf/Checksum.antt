-- ===== src/Hive/Regf/Checksum.antt =====
-- The checksum covers the first 0x1fc bytes alone, and is never one of the two reserved values.
use amcache.Base.{
  ℕ, zero, suc, ◌+◌, ◌*◌, ◌^◌, ◌≤◌, ◌<◌, ◌≡◌, ◌≢◌, inl, refl, arith, get_or, bit_xor, [], ◌∷◌,
}
use amcache.Base.Bits.{bit_xor-lt}
use amcache.Hive.Regf.{Bytes, IsBytes, get_u32, put_u32, checksum_loop, checksum}
use amcache.Hive.Regf.Words.{get_u32-put_u32}

checksum_loop-put_u32 :
    (n i c : ℕ) (buf : Bytes) (j v : ℕ)
    → i + 4 * n ≤ j
    → checksum_loop n i c (put_u32 buf j v) ≡ checksum_loop n i c buf
unfolding checksum_loop
checksum_loop-put_u32 zero i c buf j v h = refl
checksum_loop-put_u32 (suc n) i c buf j v h = ground (
  arith,
  get_u32-put_u32 buf j v i (inl (omega arith)),
  checksum_loop-put_u32 n (i + 4) (bit_xor c (get_u32 buf i)) buf j v (omega arith),
)

-- Writing the checksum into its own field does not change it.
pub checksum-put_u32 :
    (buf : Bytes) (j v : ℕ) → 0x1fc ≤ j → checksum (put_u32 buf j v) ≡ checksum buf
unfolding checksum
checksum-put_u32 buf j v h = ground (arith, checksum_loop-put_u32 127 0 0 buf j v (omega arith))

get_or-byte : (buf : Bytes) (i : ℕ) → IsBytes buf → get_or buf i 0 < 256
get_or-byte [] i h = omega arith
get_or-byte (b ∷ buf) zero h = h.0
get_or-byte (b ∷ buf) (suc i) h = get_or-byte buf i h.1

pub get_u32-lt : (buf : Bytes) (i : ℕ) → IsBytes buf → get_u32 buf i < 2 ^ 32
unfolding get_u32
get_u32-lt buf i h = omega (
  arith,
  get_or-byte buf i h,
  get_or-byte buf (i + 1) h,
  get_or-byte buf (i + 2) h,
  get_or-byte buf (i + 3) h,
)

checksum_loop-lt :
    (n i c : ℕ) (buf : Bytes) → IsBytes buf → c < 2 ^ 32 → checksum_loop n i c buf < 2 ^ 32
unfolding checksum_loop
checksum_loop-lt zero i c buf h small = small
checksum_loop-lt (suc n) i c buf h small =
    checksum_loop-lt n (i + 4) (bit_xor c (get_u32 buf i)) buf h
      (bit_xor-lt 32 c (get_u32 buf i) small (get_u32-lt buf i h))

-- Over bytes the checksum is a 32-bit word other than the two that the format reserves.
pub checksum_valid :
    (buf : Bytes)
    → IsBytes buf
    → (checksum buf < 2 ^ 32) × (checksum buf ≢ 0) × (checksum buf ≢ 0xFFFFFFFF)
unfolding checksum
checksum_valid buf h = ground (arith, checksum_loop-lt 127 0 0 buf h (omega arith))
