-- ===== src/Hive/Regf/Bytes.antt =====
-- The buffers stay lists of bytes under the writes that the replay makes.
use amcache.Base.{ℕ, zero, suc, arith, [], ◌∷◌, ◌++◌, copy_at, replicate}
use amcache.Hive.Regf.{Bytes, IsBytes, put_u32, u32_bytes}

pub IsBytes-copy_at :
    (xs : Bytes) (n : ℕ) (ds : Bytes) → IsBytes xs → IsBytes ds → IsBytes (copy_at xs n ds)
unfolding copy_at
IsBytes-copy_at [] n ds h k = tt
IsBytes-copy_at (x ∷ xs) zero [] h k = h
IsBytes-copy_at (x ∷ xs) zero (d ∷ ds) h k = (k.0, IsBytes-copy_at xs zero ds h.1 k.1)
IsBytes-copy_at (x ∷ xs) (suc n) ds h k = (h.0, IsBytes-copy_at xs n ds h.1 k)

zeros-IsBytes : (n : ℕ) → IsBytes (replicate n 0)
zeros-IsBytes zero = tt
zeros-IsBytes (suc n) = (omega arith, zeros-IsBytes n)

pub IsBytes-append_zeros : (xs : Bytes) (n : ℕ) → IsBytes xs → IsBytes (xs ++ replicate n 0)
IsBytes-append_zeros [] n h = zeros-IsBytes n
IsBytes-append_zeros (x ∷ xs) n h = (h.0, IsBytes-append_zeros xs n h.1)

pub IsBytes-put_u32 : (xs : Bytes) (i v : ℕ) → IsBytes xs → IsBytes (put_u32 xs i v)
unfolding put_u32
IsBytes-put_u32 xs i v h = IsBytes-copy_at xs i (u32_bytes v) h (omega arith)
