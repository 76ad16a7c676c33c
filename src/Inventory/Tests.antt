-- ===== src/Inventory/Tests.antt =====
-- The inventory parser at work on a small registry.
mod Indices
mod Strings
use mathlib.Core.Path.{subst}
use mathlib.Core.Option.{some-injective}
use amcache.Inventory.Parse.Contents.{found_nodes}
use amcache.Inventory.Parse.Complete.{IsReadable, IsFull, parse-IsFull}
use amcache.Inventory.Values.Guarded.{ReadsValue}
use amcache.Base.{
  Bool-cases, ℕ, ◌+◌, ◌*◌, ◌≤◌, ◌≡◌, ◌≢◌, refl, false, none, some, List, [], ◌∷◌, if◌then◌else◌,
  ◌==◌, length, ok, err, arith, All, inl, inr, ◌++◌,
}
use amcache.Base.Text.{
  Text, codes, text_eq, text_leb, to_lower, lower_rune, trim_space, trim_left, trim_right,
  before_trimmed, is_space,
}
use amcache.Hive.Regf.{Bytes}
use amcache.Inventory.{Record, Snapshot, lookup, key_application_file}
use amcache.Inventory.Slots.{
  Cells, sig_lh, sig_ri, sig_nk, max_subkeys, out_of_fuel, index_cycle, kind_of, seen_before,
  add_child, add_children, visit, walk, index_slots,
}
use amcache.Inventory.Slots.Count.{slots, index_slots_exact}
use amcache.Inventory.Slots.Fuel.{index_slots_terminates}
use amcache.Inventory.Values.{
  Value, reg_sz, utf16_decode, last_write_of, decode, decode_typed, utf16le, utf16_units,
  cut_at_nul, value_name,
}
use amcache.Tables.Decode.{join}
use amcache.Inventory.Values.{ValueType, reg_multi_sz, decoded}
use amcache.Inventory.Values.Encoded.{IsShown, le_bytes, encode_units, decode-encode_units}
use amcache.Inventory.Values.Items.{encode_items, not_empty, decode-encode_items}
use amcache.Inventory.Parse.{
  Node, Registry, subkeys, ask, record_of, add_values, node_name, parse_records, insert_record,
  sort_records, find_node, key_of, classify, parse_key, parse_keys, parse_found, from_option, parse,
}
use amcache.Inventory.Parse.Reference.{IsRead, parse-IsRead}
use amcache.Inventory.Parse.Laws.{FollowsIndex, length-subkeys_bounds}
use amcache.Inventory.Tests.Indices.{nested}

-- "C:", a NUL and a leftover, as a value named "x".
abbrev a_value : Value
a_value = record {
  name_length = 1;
  flags = 1;
  name_bytes = codes "x";
  data_length = 8;
  typ = reg_sz;
  data_cell = 0x80;
  value_data = some (b'C' ∷ 0 ∷ b':' ∷ 0 ∷ 0 ∷ 0 ∷ b'!' ∷ 0 ∷ [], 0);
}

abbrev a_node : Bytes → ℕ → Node
a_node name cell = record {
  flags = 0x20;
  name_bytes = name;
  filetime = 0;
  list_cell = cell;
  value_count = 1;
  values = some (a_value ∷ []);
}

pub subkeys_of : Node → List Node
subkeys_of n =
    if n.list_cell == 0x20
    then a_node (codes "root") 0x28 ∷ []
    else if n.list_cell == 0x28
    then a_node (codes "InventoryApplicationFile") 0x30 ∷ []
    else if n.list_cell == 0x30
    then a_node (codes "b|2") 0 ∷ a_node (codes "a|1") 0 ∷ []
    else []

abbrev small_cells : Cells
small_cells = record {
  signature = λ off. if off == 0 then 0 else sig_lh;
  fast_count = λ off. 2;
  children = λ off. [];
}

abbrev pub small_registry : Registry
small_registry = record {
  base = some (a_node [] 0x20);
  cells = small_cells;
  payload = λ off. 0;
  nodes = subkeys_of;
}

abbrev a_record : Text → Record
a_record name = record { name = name; last_write = 0; values = (codes "x", codes "C:") ∷ [] }

abbrev small_snapshot : Snapshot
small_snapshot = record {
  legacy = false;
  keys = (key_application_file, a_record (codes "a|1") ∷ a_record (codes "b|2") ∷ []) ∷ [];
}

small_parse :
    parse (λ c. c) (λ k. none) (λ k i. none) (λ b. some small_registry) [] ≡ ok small_snapshot
unfolding parse subkeys_of from_option subkeys index_slots walk seen_before visit kind_of find_node
    text_eq to_lower lower_rune node_name parse_found classify key_of parse_keys lookup parse_key
    text_leb trim_space trim_left trim_right before_trimmed is_space add_values ask insert_record
    parse_records record_of sort_records cut_at_nul decode decode_typed last_write_of utf16_decode
    utf16_units utf16le value_name
small_parse = refl

parse-IsRead_example : IsRead (λ c. c) (λ b. some small_registry) [] small_snapshot
parse-IsRead_example =
    parse-IsRead (λ c. c) (λ k. none) (λ k i. none) (λ b. some small_registry) [] small_snapshot
      small_parse

small-FollowsIndex : FollowsIndex small_registry
unfolding slots kind_of subkeys_of
small-FollowsIndex n t h = ground (arith, h 0)

small_subkeys : subkeys small_registry (a_node [] 0x30) ≡ ok (subkeys_of (a_node [] 0x30))
unfolding subkeys index_slots walk seen_before visit kind_of
small_subkeys = refl

length-subkeys_bounds_example : length (subkeys_of (a_node [] 0x30)) ≤ max_subkeys
length-subkeys_bounds_example =
    length-subkeys_bounds small_registry (a_node [] 0x30) (subkeys_of (a_node [] 0x30))
      small-FollowsIndex small_subkeys

-- Every value of the small registry can be read.
a_value-ReadsValue : ReadsValue small_cells (λ off. 0) 0 a_value
a_value-ReadsValue = record {
  bytes_read = 8;
  panics = λ h. cc;
  inline = λ h. absurd (omega arith);
  stored = λ h k l. refl;
}

nodes-IsReadable : (n : Node) → All (IsReadable small_registry 0) (subkeys_of n)
unfolding subkeys_of
nodes-IsReadable n =
    let one : (name : Bytes) (cell : ℕ) → IsReadable small_registry 0 (a_node name cell) =
      λ name cell. (a_value ∷ [], refl, (a_value-ReadsValue, tt)) in
    elim (Bool-cases (n.list_cell == 0x20)) [
      | inl e ↦ rw e (one (codes "root") 0x28, tt)
      | inr e ↦ elim (Bool-cases (n.list_cell == 0x28)) [
        | inl f ↦ rw (e, f) (one (codes "InventoryApplicationFile") 0x30, tt)
        | inr f ↦ elim (Bool-cases (n.list_cell == 0x30)) [
          | inl g ↦ rw (e, f, g) (one (codes "b|2") 0, (one (codes "a|1") 0, tt))
          | inr g ↦ rw (e, f, g) tt
        ]
      ]
    ]

parse-IsFull_example :
    (i : IsRead (λ c. c) (λ b. some small_registry) [] small_snapshot) × All
      (IsFull i.reg (found_nodes i))
      small_snapshot.keys
parse-IsFull_example =
    parse-IsFull (λ c. c) (λ k. none) (λ k i. none) (λ b. some small_registry) [] small_snapshot
      (λ r e.
        subst (λ r. (n : Node) → All (IsReadable r 0) (r.nodes n)) (some-injective _ _ e)
          nodes-IsReadable)
      small_parse
