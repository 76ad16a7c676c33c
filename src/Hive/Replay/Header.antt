-- ===== src/Hive/Replay/Header.antt =====
-- The rewritten base block: each field reads back, and the checksum is that of the result.
use amcache.Base.{ℕ, ◌^◌, ◌≤◌, ◌<◌, ◌≡◌, ◌≢◌, arith, ◌⊎◌, length, get_or, ◌∙◌, sym}
use amcache.Hive.Regf.{Bytes, IsBytes, checksum, get_u32, put_u32}
use amcache.Hive.Regf.Words.{length-put_u32, get_or-put_u32, get_u32-put_u32_self, get_u32-put_u32}
use amcache.Hive.Regf.Checksum.{checksum-put_u32, checksum_valid}
use amcache.Hive.Regf.Bytes.{IsBytes-put_u32}
use amcache.Hive.Replay.{rewrite_header}

module _ (out : Bytes) (seq hbins flags : ℕ) where
  abbrev fields : Bytes
  fields = put_u32 (put_u32 (put_u32 (put_u32 out 4 seq) 8 seq) 0x28 hbins) 0x90 flags

  length-fields : length fields ≡ length out
  length-fields = omega (
    arith,
    length-put_u32 (put_u32 (put_u32 (put_u32 out 4 seq) 8 seq) 0x28 hbins) 0x90 flags,
    length-put_u32 (put_u32 (put_u32 out 4 seq) 8 seq) 0x28 hbins,
    length-put_u32 (put_u32 out 4 seq) 8 seq,
    length-put_u32 out 4 seq,
  )

  pub length-rewrite_header : length (rewrite_header out seq hbins flags) ≡ length out
  unfolding rewrite_header
  length-rewrite_header = length-put_u32 fields 0x1fc (checksum fields) ∙ length-fields

  -- Outside the five fields nothing changes.
  pub get_or-rewrite_header :
      (i : ℕ)
      → (i < 4) ⊎ (((12 ≤ i) × (i < 0x28)) ⊎ (0x200 ≤ i))
      → get_or (rewrite_header out seq hbins flags) i 0 ≡ get_or out i 0
  unfolding rewrite_header
  get_or-rewrite_header i h = omega (
    arith,
    get_or-put_u32 fields 0x1fc (checksum fields) i (omega arith),
    get_or-put_u32 (put_u32 (put_u32 (put_u32 out 4 seq) 8 seq) 0x28 hbins) 0x90 flags i
        (omega arith),
    get_or-put_u32 (put_u32 (put_u32 out 4 seq) 8 seq) 0x28 hbins i (omega arith),
    get_or-put_u32 (put_u32 out 4 seq) 8 seq i (omega arith),
    get_or-put_u32 out 4 seq i (omega arith),
  )

  module _ (whole : 0x1000 ≤ length out) (seq_u32 : seq < 2 ^ 32) where
    pub sequence2-rewrite_header : get_u32 (rewrite_header out seq hbins flags) 8 ≡ seq
    unfolding rewrite_header
    sequence2-rewrite_header = omega (
      arith,
      get_u32-put_u32 fields 0x1fc (checksum fields) 8 (omega arith),
      get_u32-put_u32 (put_u32 (put_u32 (put_u32 out 4 seq) 8 seq) 0x28 hbins) 0x90 flags 8
          (omega arith),
      get_u32-put_u32 (put_u32 (put_u32 out 4 seq) 8 seq) 0x28 hbins 8 (omega arith),
      get_u32-put_u32_self (put_u32 out 4 seq) 8 seq seq_u32
          (omega (arith, length-put_u32 out 4 seq)),
    )

    pub sequence1-rewrite_header : get_u32 (rewrite_header out seq hbins flags) 4 ≡ seq
    unfolding rewrite_header
    sequence1-rewrite_header = omega (
      arith,
      get_u32-put_u32 fields 0x1fc (checksum fields) 4 (omega arith),
      get_u32-put_u32 (put_u32 (put_u32 (put_u32 out 4 seq) 8 seq) 0x28 hbins) 0x90 flags 4
          (omega arith),
      get_u32-put_u32 (put_u32 (put_u32 out 4 seq) 8 seq) 0x28 hbins 4 (omega arith),
      get_u32-put_u32 (put_u32 out 4 seq) 8 seq 4 (omega arith),
      get_u32-put_u32_self out 4 seq seq_u32 (omega arith),
    )

  pub hbins-rewrite_header :
      0x1000 ≤ length out
      → hbins < 2 ^ 32
      → get_u32 (rewrite_header out seq hbins flags) 0x28 ≡ hbins
  unfolding rewrite_header
  hbins-rewrite_header whole small = omega (
    arith,
    get_u32-put_u32 fields 0x1fc (checksum fields) 0x28 (omega arith),
    get_u32-put_u32 (put_u32 (put_u32 (put_u32 out 4 seq) 8 seq) 0x28 hbins) 0x90 flags 0x28
        (omega arith),
    get_u32-put_u32_self (put_u32 (put_u32 out 4 seq) 8 seq) 0x28 hbins small
        (omega (arith, length-put_u32 (put_u32 out 4 seq) 8 seq, length-put_u32 out 4 seq)),
  )

  -- The stored checksum is the checksum of the result, and not a reserved value.
  pub checksum-rewrite_header :
      0x1000 ≤ length out
      → IsBytes out
      → (get_u32 (rewrite_header out seq hbins flags) 0x1fc
          ≡ checksum (rewrite_header out seq hbins flags))
        × (checksum (rewrite_header out seq hbins flags) ≢ 0)
        × (checksum (rewrite_header out seq hbins flags) ≢ 0xFFFFFFFF)
  unfolding rewrite_header
  checksum-rewrite_header whole bytes =
      let fields_bytes : IsBytes fields =
        IsBytes-put_u32 _ 0x90 flags (
          IsBytes-put_u32 _ 0x28 hbins (IsBytes-put_u32 _ 8 seq (IsBytes-put_u32 _ 4 seq bytes))) in
      let (small, not_zero, not_ones) = checksum_valid fields fields_bytes in
      let same = checksum-put_u32 fields 0x1fc (checksum fields) (omega arith) in
      (
        get_u32-put_u32_self fields 0x1fc (checksum fields) small (omega (arith, length-fields))
            ∙ sym same,
        rw same not_zero,
        rw same not_ones,
      )
