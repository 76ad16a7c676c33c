-- ===== src/Inventory/Values/Items.antt =====
-- `decode` on REG_MULTI_SZ data reads back the texts that UTF-16 writes.
use amcache.Base.{
  ℕ, zero, suc, ◌+◌, ◌-◌, ◌/◌, ◌%◌, ◌^◌, ◌≤◌, ◌<◌, ◌≡◌, refl, false, some, List, [], ◌∷◌, ◌++◌,
  replicate, ltb, ◌==◌, arith, All, inl, inr, ap, sym, ◌∙◌, Bool-cases,
}
use mathlib.Core.List.{append_assoc, append-nil}
use mathlib.Core.Path.{ap₂}
use amcache.Base.Text.{Text}
use amcache.Tables.Decode.{join, keep_item}
use amcache.Inventory.Slots.{Cells}
use amcache.Inventory.Values.{
  Value, reg_multi_sz, utf16_decode, add_unit, segments_of, decode_segments, decoded, decode,
  decode_typed, max_value_bytes,
}
use amcache.Inventory.Values.Encoded.{
  units_of_char, encode_units, le_bytes, IsShown, utf16_decode-nil, utf16_decode-encode_units,
  utf16_units-le_bytes, All-IsScalar,
}

segments_of-starts :
    (us : List ℕ) → (first : List ℕ) × (rest : List (List ℕ)) × (segments_of us ≡ first ∷ rest)
unfolding segments_of add_unit
segments_of-starts [] = ([], [], refl)
segments_of-starts (u ∷ us) =
    let (first, rest, e) = segments_of-starts us in
    elim (Bool-cases (u == 0)) [
      | inl z ↦ ([], first ∷ rest, rw (e, z, add_unit) refl)
      | inr z ↦ (u ∷ first, rest, rw (e, z, add_unit) refl)
    ]

segments_of-nul : (us : List ℕ) → segments_of (0 ∷ us) ≡ [] ∷ segments_of us
unfolding segments_of add_unit
segments_of-nul us = let (first, rest, e) = segments_of-starts us in rw e refl

segments_of-unit :
    (u : ℕ) (us first : List ℕ) (rest : List (List ℕ))
    → 0 < u
    → segments_of us ≡ first ∷ rest
    → segments_of (u ∷ us) ≡ (u ∷ first) ∷ rest
unfolding segments_of add_unit
segments_of-unit u us first rest h e = rw e (ground arith)

-- The units of a text without a NUL, up to the NUL behind it, are one segment.
segments_of-char :
    (c : ℕ) (us first : List ℕ) (rest : List (List ℕ))
    → 0 < c
    → segments_of us ≡ first ∷ rest
    → segments_of (units_of_char c ++ us) ≡ (units_of_char c ++ first) ∷ rest
segments_of-char c us first rest h e = elim (Bool-cases (ltb c 0x10000)) [
  | inl small ↦ rw small (segments_of-unit c us first rest h e)
  | inr large ↦ rw large (
      segments_of-unit (0xd800 + (c - 0x10000) / 1024) _ _ rest (omega arith)
        (segments_of-unit (0xdc00 + (c - 0x10000) % 1024) us first rest (omega arith) e))
]

segments_of-encode_units :
    (s : Text) (us : List ℕ)
    → All IsShown s
    → segments_of (encode_units s ++ 0 ∷ us) ≡ encode_units s ∷ segments_of us
segments_of-encode_units [] us h = segments_of-nul us
segments_of-encode_units (c ∷ s) us h =
    ap segments_of (append_assoc (units_of_char c) (encode_units s) (0 ∷ us))
    ∙ segments_of-char c (encode_units s ++ 0 ∷ us) (encode_units s) (segments_of us) h.0.1
        (segments_of-encode_units s us h.1)

-- Each text with a NUL behind it, and any number of NULs after the last.
abbrev pub encode_items : List Text → ℕ → List ℕ
encode_items [] n = replicate n 0
encode_items (s ∷ items) n = encode_units s ++ 0 ∷ encode_items items n

-- The texts that are not empty.
abbrev pub not_empty : List Text → List Text
not_empty [] = []
not_empty (s ∷ items) = keep_item s (not_empty items)

decode_segments-nuls : (n : ℕ) → decode_segments (segments_of (replicate n 0)) ≡ []
unfolding decode_segments segments_of keep_item utf16_decode
decode_segments-nuls zero = refl
decode_segments-nuls (suc n) =
    ap decode_segments (segments_of-nul (replicate n 0)) ∙ decode_segments-nuls n

utf16_decode-shown : (s : Text) → All IsShown s → utf16_decode (encode_units s) ≡ s
utf16_decode-shown s h =
    ap utf16_decode (sym (append-nil (encode_units s)))
    ∙ utf16_decode-encode_units s [] (All-IsScalar s h)
    ∙ ap (◌++◌ s) utf16_decode-nil
    ∙ append-nil s

decode_segments-items :
    (items : List Text) (n : ℕ)
    → All (All IsShown) items
    → decode_segments (segments_of (encode_items items n)) ≡ not_empty items
unfolding decode_segments
decode_segments-items [] n h = decode_segments-nuls n
decode_segments-items (s ∷ items) n h =
    ap decode_segments (segments_of-encode_units s (encode_items items n) h.0)
    ∙ ap₂ keep_item (utf16_decode-shown s h.0) (decode_segments-items items n h.1)

-- A REG_MULTI_SZ value whose data is the UTF-16LE encoding of texts without NULs, a NUL behind each
-- and any number of NULs at the end, decodes to those of them that are not empty, joined by commas.
pub decode-encode_items :
    (r : Cells) (payload : ℕ → ℕ) (hive_len : ℕ) (v : Value) (items : List Text) (k n : ℕ)
    → v.typ ≡ reg_multi_sz
    → v.data_length % 2 ^ 31 ≤ max_value_bytes
    → All (All IsShown) items
    → v.value_data ≡ some (le_bytes (encode_items items k), n)
    → decode r payload hive_len v ≡ decoded (join (not_empty items))
unfolding decode decode_typed
decode-encode_items r payload hive_len v items k n typ small h e =
    let short : ltb max_value_bytes (v.data_length % 2 ^ 31) ≡ false = ground (arith, small) in
    let read =
      ap (λ us. decode_segments (segments_of us)) (utf16_units-le_bytes (encode_items items k))
      ∙ decode_segments-items items k h in
    rw (short, typ, e, read) refl
