-- ===== src/Inventory/Warn/Tests.antt =====
-- A parse of a hive with losses, and its log.
use amcache.Base.{
  ℕ, ◌≡◌, refl, true, false, none, some, List, [], ◌∷◌, map, if◌then◌else◌, ◌==◌, ok, inl, inr,
}
use amcache.Base.Once.{empty_log, is_listed, nat_key, once}
use amcache.Base.Stateful.{◌>>=◌}
use amcache.Base.Text.{Text, codes, text_eq, text_leb, to_lower, lower_rune}
use amcache.Hive.Regf.{Bytes}
use amcache.Inventory.{Record, Snapshot, lookup, key_application_file, key_driver_binary}
use amcache.Inventory.Slots.{
  Cells, sig_lh, sig_ri, index_cycle, kind_of, seen_before, add_child, add_children, visit, walk,
  index_slots,
}
use amcache.Inventory.Values.{
  Value, reg_sz, reg_qword, last_write_of, decode, decode_typed, has_shape, value_name,
}
use amcache.Inventory.Parse.{
  Node, Registry, subkeys, ask, record_of, add_values, node_name, parse_records, insert_record,
  sort_records, find_node, key_of, classify, parse_key, parse_keys, parse_found, from_option, parse,
}
use amcache.Inventory.Warn.{
  Line, Message, warn, warn_record_panic, decode_integer_logged, decode_typed_logged, decode_logged,
  add_values_logged, record_logged,
}
use amcache.Inventory.Warn.Marks.{panicked}
use amcache.Inventory.Warn.Once.{IsReportedOnce, silent, parsed, parse_logged-IsReportedOnce}
use amcache.Inventory.Warn.Parse.{
  parse_records_logged, parse_key_logged, parse_keys_logged, parse_found_logged, parse_logged,
}
use amcache.Inventory.Warn.Losses.{KeyLoss, record_lost, key_lost}
use amcache.Inventory.Warn.Reported.{IsLocated, parse_logged_reports}

-- An integer of eight bytes that is marked inline.
abbrev inline_value : Value
inline_value = record {
  name_length = 4;
  flags = 1;
  name_bytes = codes "Size";
  data_length = 0x80000008;
  typ = reg_qword;
  data_cell = 0x80;
  value_data = none;
}

-- A text whose reading panics.
abbrev broken_value : Value
broken_value = record {
  name_length = 4;
  flags = 1;
  name_bytes = codes "Name";
  data_length = 4;
  typ = reg_sz;
  data_cell = 0x80;
  value_data = none;
}

abbrev node : Bytes → ℕ → ℕ → List Value → Node
node name cell count vs = record {
  flags = 0x20;
  name_bytes = name;
  filetime = 0;
  list_cell = cell;
  value_count = count;
  values = some vs;
}

abbrev broken_node : Node
broken_node = node (codes "c") 0 1 (broken_value ∷ [])

abbrev files_node : Node
files_node = node (codes "InventoryApplicationFile") 0x30 0 []

abbrev drivers_node : Node
drivers_node = node (codes "InventoryDriverBinary") 0x50 0 []

abbrev file_nodes : List Node
file_nodes = node (codes "b") 0 300 [] ∷ node (codes "a") 0 1 (inline_value ∷ []) ∷ broken_node ∷ []

-- The index of the drivers lists itself.
abbrev lossy_cells : Cells
lossy_cells = record {
  signature = λ off. if off == 0 then 0 else if off == 0x50 then sig_ri else sig_lh;
  fast_count = λ off. 3;
  children = λ off. 0x50 ∷ [];
}

abbrev lossy_registry : Registry
lossy_registry = record {
  base = some (node [] 0x20 0 []);
  cells = lossy_cells;
  payload = λ off. 0;
  nodes = λ n.
      if n.list_cell == 0x20
      then node (codes "Root") 0x28 0 [] ∷ []
      else if n.list_cell == 0x28
      then files_node ∷ drivers_node ∷ []
      else file_nodes;
}

abbrev bare : Text → Record
bare name = record { name = name; last_write = 0; values = [] }

abbrev lossy_snapshot : Snapshot
lossy_snapshot = record {
  legacy = false;
  keys = (key_application_file, bare (codes "a") ∷ bare (codes "b") ∷ []) ∷ [];
}

-- The lines, the last first.
abbrev lossy_messages : List Message
lossy_messages =
    Message.index_rejected key_driver_binary index_cycle
    ∷ Message.record_skipped
    ∷ Message.marked_inline 8
    ∷ Message.too_many_values 300 256
    ∷ []

lossy_log :
    map
      (λ (line : Line). line.message)
      (parse_logged
        (λ c. c)
        (λ k. none)
        (λ k i. none)
        (λ b. some lossy_registry)
        []
        empty_log).1.lines
    ≡ lossy_messages
unfolding parse_logged from_option subkeys index_slots walk seen_before visit add_children add_child
    kind_of find_node text_eq to_lower lower_rune node_name parse_found_logged classify key_of
    parse_keys_logged lookup parse_key_logged text_leb ask parse_records_logged record_logged
    sort_records insert_record add_values_logged decode_logged decode_typed_logged
    decode_integer_logged decode_typed last_write_of value_name warn once ◌>>=◌
lossy_log = refl

lossy_parse :
    parse (λ c. c) (λ k. none) (λ k i. none) (λ b. some lossy_registry) [] ≡ ok lossy_snapshot
unfolding parse from_option subkeys index_slots walk seen_before visit add_children add_child
    kind_of find_node text_eq to_lower lower_rune node_name parse_found classify key_of parse_keys
    lookup parse_key text_leb ask parse_records record_of sort_records insert_record add_values
    decode decode_typed has_shape last_write_of value_name
lossy_parse = refl

lossy_located : IsLocated (λ c. c) (λ b. some lossy_registry) []
unfolding subkeys index_slots walk seen_before visit kind_of find_node text_eq to_lower lower_rune
    node_name
lossy_located = record {
  reg = lossy_registry;
  base = node [] 0x20 0 [];
  top = node (codes "Root") 0x28 0 [] ∷ [];
  root = node (codes "Root") 0x28 0 [];
  children = files_node ∷ drivers_node ∷ [];
  opened = refl;
  based = refl;
  listed = refl;
  rooted = refl;
  inside = refl;
}

panic_lost : KeyLoss lossy_registry 0 files_node warn_record_panic
unfolding subkeys index_slots walk seen_before visit kind_of record_of add_values decode
    decode_typed
panic_lost = record_lost broken_node file_nodes refl (inr (inr (inl refl))) (panicked refl)

files_found :
    lookup key_application_file
      (classify
        (λ c. c)
        (files_node ∷ drivers_node ∷ [])
        (record { nodes = []; legacy = false })).nodes
    ≡ some files_node
unfolding classify key_of text_eq to_lower lower_rune node_name lookup
files_found = refl

parse_logged_reports_example :
    is_listed warn_record_panic (
      map
        (λ (line : Line). line.condition)
        (parse_logged
          (λ c. c)
          (λ k. none)
          (λ k i. none)
          (λ b. some lossy_registry)
          []
          empty_log).1.lines)
    ≡ true
unfolding lossy_located
parse_logged_reports_example =
    parse_logged_reports (λ c. c) (λ k. none) (λ k i. none) (λ b. some lossy_registry) [] empty_log
      lossy_snapshot lossy_located warn_record_panic silent lossy_parse
      (key_lost key_application_file files_node (inl refl) files_found panic_lost)

-- A second parse adds no line.
parse_logged-IsReportedOnce_example :
    ((parse_logged
        (λ c. c)
        (λ k. none)
        (λ k i. none)
        (λ b. some lossy_registry)
        []
        (parse_logged
          (λ c. c)
          (λ k. none)
          (λ k i. none)
          (λ b. some lossy_registry)
          []
          empty_log).1).0
      ≡ parse (λ c. c) (λ k. none) (λ k i. none) (λ b. some lossy_registry) [])
    × IsReportedOnce
        (parse_logged
          (λ c. c)
          (λ k. none)
          (λ k i. none)
          (λ b. some lossy_registry)
          []
          (parse_logged
            (λ c. c)
            (λ k. none)
            (λ k i. none)
            (λ b. some lossy_registry)
            []
            empty_log).1).1
parse_logged-IsReportedOnce_example =
    parse_logged-IsReportedOnce (λ c. c) (λ k. none) (λ k i. none) (λ b. some lossy_registry) []
      (parse_logged (λ c. c) (λ k. none) (λ k i. none) (λ b. some lossy_registry) [] empty_log).1
      (parsed (λ c. c) (λ k. none) (λ k i. none) (λ b. some lossy_registry) [] silent)
