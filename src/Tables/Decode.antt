-- ===== src/Tables/Decode.antt =====
-- tables/decode.go: the decoders of the registry's strings. A decoder gives none where the Go
-- function returns false.
pub mod Laws
pub mod Numbers
pub mod Multi
use amcache.Base.{
  ℕ, zero, suc, ◌+◌, ◌-◌, ◌*◌, ◌/◌, ◌%◌, ◌^◌, Bool, true, false, ◌&&◌, ◌||◌, not, Option, none,
  some, List, [], ◌∷◌, ◌++◌, if◌then◌else◌, ltb, leb, ◌==◌, length, drop,
}
use amcache.Base.Text.{Text, codes, text_eq, byte_len, trim_space, to_lower}

abbrev pub is_digit : ℕ → Bool
is_digit c = leb b'0' c && leb c b'9'

-- The digits of a number, the last first to be found, before `acc`.
unfoldable pub digits_before : ℕ → ℕ → Text → Text
digits_before zero n acc = acc
digits_before (suc fuel) n acc =
    let rest = digits_before fuel (n / 10) ((b'0' + n % 10) ∷ acc) in
    if ltb n 10 then (b'0' + n) ∷ acc else rest

-- `strconv.FormatInt` of a number that is not negative: twenty digits hold any 64-bit word.
unfoldable pub format_int : ℕ → Text
unfolding digits_before
format_int n = digits_before 20 n []

-- The loop of `strconv.ParseUint(s, 10, 64)`.
unfoldable pub parse_digits : ℕ → Text → Option ℕ
parse_digits acc [] = some acc
parse_digits acc (c ∷ s) =
    let acc' = acc * 10 + (c - b'0') in
    let rest = parse_digits acc' s in
    if not (is_digit c) then none else if ltb (2 ^ 64 - 1) acc' then none else rest

unfoldable pub parse_uint : Text → Option ℕ
unfolding parse_digits
parse_uint [] = none
parse_uint (c ∷ s) = parse_digits 0 (c ∷ s)

-- `decodeInt`.
unfoldable pub decode_int : Text → Option Text
decode_int s = elim (parse_uint s) [ none ↦ none | some n ↦ some s ]

-- `decodeBool`; `fold` is Unicode's lower case beyond ASCII.
unfoldable pub decode_bool : (ℕ → ℕ) → Text → Option Text
decode_bool fold s =
    let t = to_lower fold s in
    if text_eq t (codes "1") || text_eq t (codes "true")
    then some (codes "1")
    else if text_eq t (codes "0") || text_eq t (codes "false")
    then some (codes "0")
    else none

-- A character in front of split items: a comma starts a new one.
unfoldable pub add_char : ℕ → List Text → List Text
add_char c [] = []
add_char c (item ∷ items) = if c == b',' then [] ∷ item ∷ items else (c ∷ item) ∷ items

-- `strings.Split(s, ",")`.
unfoldable pub split : Text → List Text
split [] = [] ∷ []
split (c ∷ s) = add_char c (split s)

-- `strings.Join(items, ",")`.
unfoldable pub join : List Text → Text
join [] = []
join (item ∷ []) = item
join (item ∷ next ∷ items) = item ++ (b',' ∷ join (next ∷ items))

-- A trimmed item in front of those that are kept, unless it is empty.
unfoldable pub keep_item : Text → List Text → List Text
keep_item [] items = items
keep_item (c ∷ rest) items = (c ∷ rest) ∷ items

-- The loop of `decodeMulti`.
unfoldable pub trim_items : List Text → List Text
trim_items [] = []
trim_items (item ∷ items) = keep_item (trim_space item) (trim_items items)

-- `decodeMulti`.
unfoldable pub decode_multi : Text → Text
decode_multi s = join (trim_items (split s))

abbrev pub is_hex : ℕ → Bool
is_hex c = is_digit c || (leb b'a' c && leb c b'f') || (leb b'A' c && leb c b'F')

unfoldable pub all_hex : Text → Bool
all_hex [] = true
all_hex (c ∷ s) = is_hex c && all_hex s

-- `hex.DecodeString` succeeds: hex digits only, an even number of them.
unfoldable pub hex_decodes : Text → Bool
hex_decodes s = all_hex s && length s % 2 == 0

-- `strings.HasPrefix(s, "0000")`.
unfoldable pub has_zeros : Text → Bool
has_zeros (a ∷ b ∷ c ∷ d ∷ s) = a == b'0' && b == b'0' && c == b'0' && d == b'0'
has_zeros _ = false

-- `decodeSha1`.
unfoldable pub decode_sha1 : (ℕ → ℕ) → Text → Option Text
decode_sha1 fold s =
    if byte_len s == 44 && has_zeros s
    then (if hex_decodes (drop 4 s) then some (to_lower fold (drop 4 s)) else none)
    else if not (byte_len s == 40)
    then none
    else if hex_decodes s
    then some (to_lower fold s)
    else none
