-- ===== src/Tables/Tests/Answers.antt =====
-- A query of the device containers of a small hive, from the bytes to the rows.
use amcache.Base.{
  length, In, ℕ, ◌≡◌, refl, Bool, false, Option, none, some, List, [], ◌∷◌, ok, err, Result,
  if◌then◌else◌, ◌==◌, inl, inr, arith,
}
use amcache.Base.Text.{Text, codes, text_eq, text_leb, to_lower, lower_rune, byte_len}
use amcache.Hive.Regf.{Bytes, Ended}
use amcache.Inventory.{Table, lookup}
use amcache.Inventory.Slots.{sig_lh, kind_of, seen_before, visit, walk, index_slots}
use amcache.Inventory.Values.{last_write_of}
use amcache.Inventory.Parse.{
  Node, Registry, subkeys, ask, record_of, add_values, node_name, parse_records, insert_record,
  sort_records, find_node, key_of, classify, parse_key, parse_keys, parse_found, from_option, parse,
}
use amcache.Tables.Specs.{
  specs, application_files, applications, application_shortcuts, driver_binaries, driver_packages,
  device_pnp, device_containers,
}
use amcache.Tables.Cell.{cell, cell_of, decode_value, value_cell}
use amcache.Tables.Decode.{decode_int, decode_bool, parse_uint, format_int}
use amcache.Tables.Query.{
  Query, selected, index, select_columns, index_specs, index_cols, index_records, add_index,
  column_hits, is_usable, narrow, sort_unique, compact, sort, insert_index, join_equal,
}
use amcache.Tables.Rows.{row_record, rows_for, build_rows, check, record_at, fill_row, put, indices}
use amcache.Tables.Cache.{
  get, refresh, load, remember, held, is_due, answer, is_forgotten, empty_cache,
}
use amcache.Tables.Serve.{ServeError, serve, generate}
use amcache.Tables.Serve.Refilter.{row_meets}
use amcache.Tables.Pipeline.{Wiring, Attempt, Unsupported, LoadError, generate_live, parse_snapshot}
use amcache.Tables.Pipeline.Runs.{started}
use amcache.Tables.Pipeline.Answer.{IsAnswer, generate-IsAnswer}
use amcache.Tables.Tests.{setting, equal_to}

abbrev node : Bytes → ℕ → Node
node name cell = record {
  flags = 0x20;
  name_bytes = name;
  filetime = 0;
  list_cell = cell;
  value_count = 0;
  values = some [];
}

-- Two containers, not in the order of their names.
abbrev containers : Registry
containers = record {
  base = some (node [] 0x20);
  cells = record {
    signature = λ off. if off == 0 then 0 else sig_lh;
    fast_count = λ off. 2;
    children = λ off. [];
  };
  payload = λ off. 0;
  nodes = λ n.
      if n.list_cell == 0x20
      then node (codes "Root") 0x28 ∷ []
      else if n.list_cell == 0x28
      then node (codes "InventoryDeviceContainer") 0x30 ∷ []
      else node (codes "{B}") 0 ∷ node (codes "{A}") 0 ∷ [];
}

abbrev plain_read : Wiring Unsupported (Unit {0})
plain_read = record {
  setting = setting;
  orbit = λ c. c;
  open_hive = λ b. some containers;
  accessors = λ u. record {
    read_hive = ok (record { bytes = []; raw = false; replayed = false });
    stat_hive = ok (record { mod_time = 3; size = 4096 });
  };
  is_read_ended = λ e. false;
}

abbrev query_at : ℕ → Attempt (Unit {0})
query_at t = record {
  outside = tt;
  waited = none;
  ctx = λ k. none;
  ctx_subs = λ k i. none;
  now = t;
  done = t;
  ended = false;
  ours = false;
}

-- An equality with the lowercased name.
abbrev by_id : Query
by_id = (codes "container_id", equal_to (codes "{b}") ∷ []) ∷ []

abbrev unending : ℕ → Option Ended
unending i = none

abbrev rows_of : {E : Type 0} → Result (ServeError E) (List (Table Text)) → List (Table Text)
rows_of (ok rows) = rows
rows_of (err e) = []

abbrev first_answer : Result (ServeError (LoadError Unsupported)) (List (Table Text))
first_answer =
    (generate_live plain_read unending device_containers by_id (query_at 7) empty_cache).1

answered : (first_answer ≡ ok (rows_of first_answer)) × (length (rows_of first_answer) ≡ 1)
unfolding generate get refresh load remember held is_due answer is_forgotten parse_snapshot parse
    from_option subkeys index_slots walk seen_before visit kind_of find_node node_name parse_found
    classify key_of parse_keys lookup parse_key text_leb ask parse_records record_of add_values
    sort_records insert_record last_write_of serve rows_for build_rows check record_at row_record
    fill_row put indices cell cell_of decode_value value_cell decode_int decode_bool parse_uint
    format_int byte_len to_lower lower_rune text_eq selected index select_columns index_specs
    index_cols index_records add_index column_hits is_usable narrow sort_unique compact sort
    insert_index join_equal specs application_files applications application_shortcuts
    driver_binaries driver_packages device_pnp device_containers
answered = (refl, refl)

device_containers-In : In device_containers specs
unfolding specs
device_containers-In = inr (inr (inr (inr (inr (inr (inl refl))))))

abbrev kept : Table Text → Bool
kept row = row_meets row device_containers.cols by_id

generate-IsAnswer_example : IsAnswer plain_read device_containers kept (rows_of first_answer)
generate-IsAnswer_example =
    generate-IsAnswer plain_read unending device_containers by_id kept device_containers-In
      (λ row h. h) (query_at 7) empty_cache 0 (rows_of first_answer) started (omega arith)
      (omega arith) answered.0
