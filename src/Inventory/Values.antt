-- ===== src/Inventory/Values.antt =====
-- The value and name decoders of internal/inventory/inventory.go. What the registry parser reads of a
-- value or a key node is a record; none is a panic of the parser.
pub mod Laws
pub mod Encoded
pub mod Items
pub mod Guarded
use amcache.Base.{
  ℕ, zero, suc, ◌+◌, ◌-◌, ◌*◌, ◌/◌, ◌%◌, ◌^◌, Bool, true, false, ◌&&◌, ◌||◌, not, Option, none,
  some, List, [], ◌∷◌, map, if◌then◌else◌, ltb, leb, ◌==◌,
}
use amcache.Base.Text.{Text, trim_space}
use amcache.Hive.Regf.{Bytes}
use amcache.Tables.Decode.{format_int, join, keep_item}
use amcache.Inventory.Slots.{Cells}

abbrev pub max_values : ℕ
max_values = 256

-- `1 << 20`.
abbrev pub max_value_bytes : ℕ
max_value_bytes = 1048576

abbrev pub sig_db : ℕ
sig_db = 0x6264

-- The registry types that are told apart.
pub data ValueType : Type 0 where
  reg_dword reg_dword_big_endian reg_qword reg_sz reg_expand_sz reg_multi_sz reg_other : ValueType

-- CM_KEY_VALUE; `value_data` is the data and the number of `ValueData`.
pub record Value : Type 0 where
  pub name_length : ℕ
  pub flags : ℕ
  pub name_bytes : Bytes
  pub data_length : ℕ
  pub typ : ValueType
  pub data_cell : ℕ
  pub value_data : Option (Bytes × ℕ)

-- `latin1`: one byte is one character.
abbrev pub latin1 : Bytes → Text
latin1 b = b

-- The 16-bit units, an odd byte at the end left out.
unfoldable pub utf16_units : Bytes → List ℕ
utf16_units (lo ∷ hi ∷ b) = (lo + hi * 256) ∷ utf16_units b
utf16_units _ = []

abbrev is_high : ℕ → Bool
is_high u = leb 0xd800 u && ltb u 0xdc00

abbrev is_low : ℕ → Bool
is_low u = leb 0xdc00 u && ltb u 0xe000

-- `utf16.Decode`: a surrogate without its other half is U+FFFD.
unfoldable pub utf16_decode : List ℕ → Text
utf16_decode [] = []
utf16_decode (u ∷ []) = (if is_high u || is_low u then 0xfffd else u) ∷ []
utf16_decode (u ∷ v ∷ us) =
    let after_pair = utf16_decode us in
    let after_unit = utf16_decode (v ∷ us) in
    if is_high u && is_low v
    then ((u - 0xd800) * 1024 + (v - 0xdc00) + 0x10000) ∷ after_pair
    else (if is_high u || is_low u then 0xfffd else u) ∷ after_unit

-- `utf16le`.
unfoldable pub utf16le : Bytes → Text
utf16le b = utf16_decode (utf16_units b)

-- `valueName`: the first flag tells a compressed name.
unfoldable pub value_name : Value → Text
unfolding utf16le
value_name v =
    if v.name_length == 0
    then []
    else if not (v.flags % 2 == 0)
    then latin1 v.name_bytes
    else utf16le v.name_bytes

-- `s[:strings.IndexByte(s, 0)]`.
unfoldable pub cut_at_nul : Text → Text
cut_at_nul [] = []
cut_at_nul (c ∷ s) = let rest = cut_at_nul s in if c == 0 then [] else c ∷ rest

unfoldable pub add_unit : ℕ → List (List ℕ) → List (List ℕ)
add_unit u [] = []
add_unit u (segment ∷ segments) =
    if u == 0 then [] ∷ segment ∷ segments else (u ∷ segment) ∷ segments

-- The segments of a REG_MULTI_SZ between its NUL units.
unfoldable pub segments_of : List ℕ → List (List ℕ)
segments_of [] = [] ∷ []
segments_of (u ∷ us) = add_unit u (segments_of us)

-- The loop over the segments, of which the empty ones are dropped.
unfoldable pub decode_segments : List (List ℕ) → List Text
decode_segments [] = []
decode_segments (us ∷ rest) = keep_item (utf16_decode us) (decode_segments rest)

-- An integer value of `want` bytes whose shape `ValueData` can read: `payload` is where the data of a
-- cell starts.
unfoldable pub has_shape : Cells → (ℕ → ℕ) → ℕ → Value → ℕ → Bool
has_shape r payload hive_len v want =
    if not (v.data_length % 2 ^ 31 == want)
    then false
    else if leb (2 ^ 31) v.data_length
    then want == 4
    else not (r.signature v.data_cell == sig_db || ltb hive_len (payload v.data_cell + want))

-- What `decode` gives: a text, nothing, or a panic of the parser.
pub data Decoded : Type 0 where
  decoded : Text → Decoded
  skipped parser_panic : Decoded

abbrev pub with_data : Option (Bytes × ℕ) → (Bytes → ℕ → Text) → Decoded
with_data none f = parser_panic
with_data (some (b, n)) f = decoded (f b n)

abbrev integer : Cells → (ℕ → ℕ) → ℕ → Value → ℕ → Decoded
integer r payload hive_len v want =
    if has_shape r payload hive_len v want
    then with_data v.value_data (λ b n. format_int n)
    else skipped

abbrev string : Value → Decoded
string v = with_data v.value_data (λ b n. trim_space (cut_at_nul (utf16le b)))

-- The switch on the type.
unfoldable pub decode_typed : Cells → (ℕ → ℕ) → ℕ → Value → Decoded
decode_typed r payload hive_len v = elim v.typ [
  | reg_dword ↦ integer r payload hive_len v 4
  | reg_dword_big_endian ↦ integer r payload hive_len v 4
  | reg_qword ↦ integer r payload hive_len v 8
  | reg_sz ↦ string v
  | reg_expand_sz ↦ string v
  | reg_multi_sz ↦
      with_data v.value_data (λ b n. join (decode_segments (segments_of (utf16_units b))))
  | reg_other ↦ skipped
]

-- `decode`. The texts hold no lone surrogate, so that `ToValidUTF8` changes nothing.
unfoldable pub decode : Cells → (ℕ → ℕ) → ℕ → Value → Decoded
decode r payload hive_len v =
    if ltb max_value_bytes (v.data_length % 2 ^ 31)
    then skipped
    else decode_typed r payload hive_len v

-- FILETIME ticks from 1601 to 1970 and to 2100.
abbrev pub filetime_epoch : ℕ
filetime_epoch = 116444736000000000

abbrev pub filetime_max : ℕ
filetime_max = 157469184000000000

-- `lastWrite`.
unfoldable pub last_write_of : ℕ → ℕ
last_write_of ft =
    if ltb ft filetime_epoch || leb filetime_max ft
    then 0
    else ft / 10000000 - filetime_epoch / 10000000
