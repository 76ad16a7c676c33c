-- ===== src/Hive/Regf/Words.antt =====
-- Reading back the little-endian words that `put_u32` writes.
use amcache.Base.{
  ℕ, ◌+◌, ◌^◌, ◌≤◌, ◌<◌, ◌≡◌, ◌⊎◌, arith, get_or, length, length-copy_at, get_or-copy_at_outside,
  get_or-copy_at_inside,
}
use amcache.Hive.Regf.{Bytes, get_u32, put_u32, u32_bytes}

pub length-put_u32 : (out : Bytes) (i v : ℕ) → length (put_u32 out i v) ≡ length out
unfolding put_u32
length-put_u32 out i v = length-copy_at out i (u32_bytes v)

-- The byte at `j` is not one of the four that `put_u32` writes at `i`.
pub get_or-put_u32 :
    (out : Bytes) (i v j : ℕ)
    → (j < i) ⊎ (i + 4 ≤ j)
    → get_or (put_u32 out i v) j 0 ≡ get_or out j 0
unfolding put_u32
get_or-put_u32 out i v j h = get_or-copy_at_outside out i (u32_bytes v) j 0 h

written_byte :
    (out : Bytes) (i v k j : ℕ)
    → j ≡ i + k
    → k < 4
    → i + 4 ≤ length out
    → get_or (put_u32 out i v) j 0 ≡ get_or (u32_bytes v) k 0
unfolding put_u32
written_byte out i v k j e h fits =
    rw e (get_or-copy_at_inside out i (u32_bytes v) k 0 (omega arith) (omega arith))

-- What `put_u32` writes, `get_u32` reads.
pub get_u32-put_u32_self :
    (out : Bytes) (i v : ℕ) → v < 2 ^ 32 → i + 4 ≤ length out → get_u32 (put_u32 out i v) i ≡ v
unfolding get_u32 u32_bytes
get_u32-put_u32_self out i v small fits = omega (
  arith,
  written_byte out i v 0 i (omega arith) (omega arith) fits,
  written_byte out i v 1 (i + 1) (omega arith) (omega arith) fits,
  written_byte out i v 2 (i + 2) (omega arith) (omega arith) fits,
  written_byte out i v 3 (i + 3) (omega arith) (omega arith) fits,
)

-- Words that do not overlap are kept.
pub get_u32-put_u32 :
    (out : Bytes) (i v j : ℕ)
    → (j + 4 ≤ i) ⊎ (i + 4 ≤ j)
    → get_u32 (put_u32 out i v) j ≡ get_u32 out j
unfolding get_u32
get_u32-put_u32 out i v j h = omega (
  arith,
  get_or-put_u32 out i v j (omega arith),
  get_or-put_u32 out i v (j + 1) (omega arith),
  get_or-put_u32 out i v (j + 2) (omega arith),
  get_or-put_u32 out i v (j + 3) (omega arith),
)
