-- ===== src/Inventory/Tests/Strings.antt =====
-- String values at work, encoded and decoded again.
use amcache.Base.{ℕ, ◌*◌, ◌≡◌, refl, some, List, [], ◌∷◌, length, arith, All, inl, inr, ◌++◌}
use amcache.Base.Text.{Text, codes, trim_space}
use amcache.Inventory.Values.{Value, reg_sz, decode}
use amcache.Tables.Decode.{join}
use amcache.Inventory.Values.{ValueType, reg_multi_sz, decoded}
use amcache.Inventory.Values.Encoded.{IsShown, le_bytes, encode_units, decode-encode_units}
use amcache.Inventory.Values.Items.{encode_items, not_empty, decode-encode_items}
use amcache.Inventory.Tests.Indices.{nested}

-- String values: a text with a character beyond the basic plane, and what was left in the cell behind
-- the NUL.
abbrev stored : ValueType → List ℕ → Value
stored typ us = record {
  name_length = 4;
  flags = 1;
  name_bytes = codes "Name";
  data_length = 2 * length us;
  typ = typ;
  data_cell = 0x100;
  value_data = some (le_bytes us, 0);
}

abbrev greeting : Text
greeting = 0x20 ∷ b'h' ∷ b'i' ∷ 0x1f600 ∷ []

greeting-IsShown : All IsShown greeting
greeting-IsShown = (
  (inl (omega arith), omega arith),
  (
    (inl (omega arith), omega arith),
    ((inl (omega arith), omega arith), ((inr (omega arith, omega arith), omega arith), tt)),
  ),
)

abbrev left_behind : List ℕ
left_behind = 0 ∷ 0xd83d ∷ b'x' ∷ []

decode-encode_units_example :
    decode nested (λ c. c) 4096 (stored reg_sz (encode_units greeting ++ left_behind))
    ≡ decoded (trim_space greeting)
decode-encode_units_example =
    decode-encode_units nested (λ c. c) 4096 (stored reg_sz (encode_units greeting ++ left_behind))
      greeting left_behind 0 (inl refl, omega arith) greeting-IsShown refl refl

decode-encode_items_example :
    decode nested
      (λ c. c)
      4096
      (stored reg_multi_sz (encode_items (greeting ∷ [] ∷ greeting ∷ []) 1))
    ≡ decoded (join (not_empty (greeting ∷ [] ∷ greeting ∷ [])))
decode-encode_items_example =
    decode-encode_items nested (λ c. c) 4096
      (stored reg_multi_sz (encode_items (greeting ∷ [] ∷ greeting ∷ []) 1))
      (greeting ∷ [] ∷ greeting ∷ []) 1 0 refl (omega arith)
      (greeting-IsShown, (tt, (greeting-IsShown, tt))) refl
