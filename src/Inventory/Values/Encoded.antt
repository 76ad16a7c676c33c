-- ===== src/Inventory/Values/Encoded.antt =====
-- The string decoders read back what UTF-16 writes: `utf16le`, and `decode` on REG_SZ data.
use amcache.Base.{
  ℕ, ◌+◌, ◌-◌, ◌*◌, ◌/◌, ◌%◌, ◌^◌, ◌≤◌, ◌<◌, ◌≡◌, refl, false, some, List, [], ◌∷◌, ◌++◌,
  if◌then◌else◌, ltb, arith, All, ◌⊎◌, inl, inr, ap, ◌∙◌, Bool-cases,
}
use mathlib.Core.List.{append_assoc}
use amcache.Base.Text.{Text, trim_space}
use amcache.Hive.Regf.{Bytes}
use amcache.Inventory.Slots.{Cells}
use amcache.Inventory.Values.{
  Value, reg_sz, reg_expand_sz, utf16_units, utf16_decode, utf16le, cut_at_nul, decoded, decode,
  decode_typed, max_value_bytes,
}

-- The UTF-16 units of a code point.
abbrev pub units_of_char : ℕ → List ℕ
units_of_char c =
    if ltb c 0x10000
    then c ∷ []
    else (0xd800 + (c - 0x10000) / 1024) ∷ (0xdc00 + (c - 0x10000) % 1024) ∷ []

abbrev pub encode_units : Text → List ℕ
encode_units [] = []
encode_units (c ∷ s) = units_of_char c ++ encode_units s

-- Little-endian units.
abbrev pub le_bytes : List ℕ → Bytes
le_bytes [] = []
le_bytes (u ∷ us) = u % 256 ∷ u / 256 ∷ le_bytes us

-- A code point that is no surrogate.
abbrev pub IsScalar : ℕ → Type 0
IsScalar c = (c < 0xd800) ⊎ ((0xe000 ≤ c) × (c < 0x110000))

pub utf16_decode-nil : utf16_decode [] ≡ []
unfolding utf16_decode
utf16_decode-nil = refl

pub utf16_units-le_bytes : (us : List ℕ) → utf16_units (le_bytes us) ≡ us
unfolding utf16_units
utf16_units-le_bytes [] = refl
utf16_units-le_bytes (u ∷ us) =
    let whole : u % 256 + u / 256 * 256 ≡ u = omega arith in rw (whole, utf16_units-le_bytes us)

decode_unit : (c : ℕ) (us : List ℕ) → IsScalar c → utf16_decode (c ∷ us) ≡ c ∷ utf16_decode us
unfolding utf16_decode
decode_unit c [] h = ground arith
decode_unit c (v ∷ us) h = ground arith

decode_pair :
    (c : ℕ) (us : List ℕ)
    → 0x10000 ≤ c
    → c < 0x110000
    → utf16_decode ((0xd800 + (c - 0x10000) / 1024) ∷ (0xdc00 + (c - 0x10000) % 1024) ∷ us)
      ≡ c ∷ utf16_decode us
unfolding utf16_decode
decode_pair c us h k = ground arith

utf16_decode-char :
    (c : ℕ) (us : List ℕ) → IsScalar c → utf16_decode (units_of_char c ++ us) ≡ c ∷ utf16_decode us
utf16_decode-char c us h = elim (Bool-cases (ltb c 0x10000)) [
  | inl e ↦ rw e (decode_unit c us h)
  | inr e ↦ rw e (decode_pair c us (ground arith) (ground arith))
]

-- A text in front of any units decodes to itself.
pub utf16_decode-encode_units :
    (s : Text) (us : List ℕ)
    → All IsScalar s
    → utf16_decode (encode_units s ++ us) ≡ s ++ utf16_decode us
utf16_decode-encode_units [] us h = refl
utf16_decode-encode_units (c ∷ s) us h =
    ap utf16_decode (append_assoc (units_of_char c) (encode_units s) us)
    ∙ utf16_decode-char c (encode_units s ++ us) h.0
    ∙ ap (◌∷◌ c) (utf16_decode-encode_units s us h.1)

-- A code point other than NUL that is no surrogate.
abbrev pub IsShown : ℕ → Type 0
IsShown c = IsScalar c × (0 < c)

pub All-IsScalar : (s : Text) → All IsShown s → All IsScalar s
All-IsScalar [] h = tt
All-IsScalar (c ∷ s) h = (h.0.0, All-IsScalar s h.1)

-- The units end, or go on with a NUL.
abbrev pub IsTail : List ℕ → Type 0
IsTail [] = Unit
IsTail (u ∷ us) = u ≡ 0

cut_at_nul-shown :
    (s : Text) (us : List ℕ) → All IsShown s → IsTail us → cut_at_nul (s ++ utf16_decode us) ≡ s
unfolding cut_at_nul
cut_at_nul-shown [] [] h t = rw utf16_decode-nil refl
cut_at_nul-shown [] (u ∷ us) h t = rw (t, decode_unit 0 us (inl (omega arith))) refl
cut_at_nul-shown (c ∷ s) us h t = ground (arith, cut_at_nul-shown s us h.1 t, h.0.1)

utf16le-shown :
    (s : Text) (us : List ℕ)
    → All IsShown s
    → IsTail us
    → cut_at_nul (utf16le (le_bytes (encode_units s ++ us))) ≡ s
unfolding utf16le
utf16le-shown s us h t =
    ap (λ (vs : List ℕ). cut_at_nul (utf16_decode vs)) (utf16_units-le_bytes (encode_units s ++ us))
    ∙ ap cut_at_nul (utf16_decode-encode_units s us (All-IsScalar s h))
    ∙ cut_at_nul-shown s us h t

-- The value is a string, and its data is not over the cap.
abbrev pub IsString : Value → Type 0
IsString v =
    ((v.typ ≡ reg_sz) ⊎ (v.typ ≡ reg_expand_sz)) × (v.data_length % 2 ^ 31 ≤ max_value_bytes)

-- A REG_SZ or REG_EXPAND_SZ value whose data is the UTF-16LE encoding of a text without a NUL decodes
-- to that text without the spaces around it, whatever follows the first NUL.
pub decode-encode_units :
    (r : Cells) (payload : ℕ → ℕ) (hive_len : ℕ) (v : Value) (s : Text) (us : List ℕ) (n : ℕ)
    → IsString v
    → All IsShown s
    → IsTail us
    → v.value_data ≡ some (le_bytes (encode_units s ++ us), n)
    → decode r payload hive_len v ≡ decoded (trim_space s)
unfolding decode decode_typed
decode-encode_units r payload hive_len v s us n (inl typ, small) h t e =
    let short : ltb max_value_bytes (v.data_length % 2 ^ 31) ≡ false = ground (arith, small) in
    rw (short, typ, e, utf16le-shown s us h t) refl
decode-encode_units r payload hive_len v s us n (inr typ, small) h t e =
    let short : ltb max_value_bytes (v.data_length % 2 ^ 31) ≡ false = ground (arith, small) in
    rw (short, typ, e, utf16le-shown s us h t) refl
