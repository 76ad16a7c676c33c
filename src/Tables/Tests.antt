-- ===== src/Tables/Tests.antt =====
-- The tables package at work on a small snapshot, a few texts and a cache of numbers.
mod Serving
mod Caching
mod Dates
mod Live
mod Answers
use mathlib.Core.List.{Permᴰ}
use amcache.Base.{
  In, All, ℕ, ◌+◌, ◌≡◌, ◌≢◌, ◌≤◌, Bool, true, false, none, some, List, [], ◌∷◌, ◌++◌, if◌then◌else◌,
  ◌==◌, length, replicate, ok, err, refl, arith, ◌⊎◌, inl, inr,
}
use amcache.Base.Text.{Text, codes, text_eq, to_lower, byte_len, lower_rune}
use amcache.Inventory.{Table, Record, Snapshot, lookup, key_application_file}
use amcache.Tables.Columns.{Col, Spec, text_type, k_sha1}
use amcache.Tables.Specs.{
  specs, application_files, applications, application_shortcuts, driver_binaries, driver_packages,
  device_pnp, device_containers,
}
use amcache.Tables.Decode.{
  decode_int, decode_bool, decode_multi, decode_sha1, format_int, parse_uint, has_zeros,
  hex_decodes, all_hex,
}
use amcache.Tables.Decode.Laws.{decode_sha1_canonical, decode_bool_canonical, all_lower_hex}
use amcache.Tables.Decode.Numbers.{decode_int_exact, parse_uint-format_int, is_word}
use amcache.Tables.Decode.Multi.{decode_multi_twice}
use amcache.Tables.Time.{unix_epoch, decode_time}
use amcache.Tables.Serve.{serve, share}
use amcache.Tables.Serve.Laws.{serve-ne-index_panic}
use amcache.Tables.Cell.{Setting, cell, cell_of, decode_value, value_cell}
use amcache.Tables.Rows.{
  row_record, record_at, index_panic, rows_for, build_rows, check, fill_row, put,
}
use amcache.Tables.Query.{
  Constraint, Query, equals, another, index, index_records, selected, sort_unique, select_columns,
  index_specs, index_cols, add_index, column_hits, is_usable, narrow, compact, sort, insert_index,
  join_equal,
}
use amcache.Tables.Query.Selection.{chosen, admits, narrows, is_some, HasAscending, selected_exact}
use mathlib.Core.Quot
use amcache.Tables.Query.Order.{selected_map, admits_map, narrows_map, selected_map_exact}
use amcache.Tables.Query.Indexing.{lists, carried_at, index_records_exact}
use amcache.Tables.Query.Superset.{row_passes, selected-superset}
use amcache.Tables.Cache.{
  Cache, Call, Stamp, cache_ttl, is_held, get, held, expire, empty_cache, is_forgotten,
}
use amcache.Tables.Cache.Valid.{IsValid, Reach, new, call, Reach-IsValid, expire-drops}
use amcache.Tables.Cache.Fresh.{Served, get-fresh, get-reuses, get-retries}

abbrev pub setting : Setting
setting = record {
  fold = λ c. c;
  horizon = record { seconds = unix_epoch + 1800000000; nanos = 0 };
}

abbrev pub hash : Text
hash = replicate 40 b'a'

abbrev first_file : Record
first_file = record {
  name = codes "a.exe|1";
  last_write = 1700000000;
  values =
      (codes "LowerCaseLongPath", codes "c:\\a.exe") ∷ (codes "FileId", codes "0000" ++ hash) ∷ [];
}

abbrev second_file : Record
second_file = record {
  name = codes "b.exe|2";
  last_write = 0;
  values = (codes "LowerCaseLongPath", codes "c:\\b.exe") ∷ (codes "FileId", []) ∷ [];
}

abbrev pub files : List Record
files = second_file ∷ first_file ∷ []

abbrev pub snapshot : Snapshot
snapshot = record { legacy = false; keys = (key_application_file, files) ∷ [] }

abbrev pub equal_to : Text → Constraint
equal_to s = record { operator = equals; expression = s }

abbrev like : Text → Constraint
like s = record { operator = another; expression = s }

-- A hash, and a path pattern that the index cannot answer.
abbrev pub by_hash : Query
by_hash = (codes "sha1", equal_to hash ∷ []) ∷ (codes "path", like (codes "%") ∷ []) ∷ []

abbrev by_hash_swapped : Query
by_hash_swapped = (codes "path", like (codes "%") ∷ []) ∷ (codes "sha1", equal_to hash ∷ []) ∷ []

abbrev pub tbl : Text
tbl = codes "amcache_application_files"

abbrev sha1_column : Col
sha1_column = record {
  name = codes "sha1";
  typ = text_type;
  src = codes "FileId";
  kind = k_sha1;
  push = true;
}

narrowed : selected setting.fold by_hash (index setting snapshot) tbl ≡ some (1 ∷ [])
unfolding selected index select_columns index_specs index_cols index_records add_index column_hits
    is_usable byte_len narrow sort_unique compact sort insert_index join_equal specs cell cell_of
    decode_value value_cell text_eq to_lower lower_rune lookup decode_sha1 has_zeros hex_decodes
    all_hex application_files applications application_shortcuts driver_binaries driver_packages
    device_pnp device_containers
narrowed = refl

pub application_files-In : In application_files specs
unfolding specs
application_files-In = inl refl

first_file_at :
    record_at (elim (lookup application_files.key snapshot.keys) [ none ↦ [] | some recs ↦ recs ]) 1
    ≡ ok first_file
unfolding application_files lookup text_eq record_at
first_file_at = refl

first_file_passes : row_passes setting first_file application_files.cols by_hash ≡ true
unfolding application_files cell text_eq to_lower lookup decode_sha1 has_zeros is_usable byte_len
    hex_decodes all_hex
first_file_passes = refl

selected-superset_example :
    chosen (selected setting.fold by_hash (index setting snapshot) application_files.table) 1 ≡ true
selected-superset_example =
    selected-superset setting snapshot application_files 1 first_file by_hash application_files-In
      first_file_at first_file_passes

selected_exact_example :
    (is_some (selected setting.fold by_hash (index setting snapshot) tbl)
      ≡ narrows (index setting snapshot) tbl by_hash)
    × HasAscending (selected setting.fold by_hash (index setting snapshot) tbl)
    × ((i : ℕ)
        → chosen (selected setting.fold by_hash (index setting snapshot) tbl) i
          ≡ admits setting.fold (index setting snapshot) tbl by_hash i)
selected_exact_example = selected_exact setting.fold (index setting snapshot) tbl by_hash

selected_map_exact_example :
    (is_some (selected_map setting.fold (index setting snapshot) tbl (Quot.mk by_hash))
      ≡ narrows_map setting.fold (index setting snapshot) tbl (Quot.mk by_hash))
    × ((i : ℕ)
        → chosen (selected_map setting.fold (index setting snapshot) tbl (Quot.mk by_hash)) i
          ≡ admits_map setting.fold (index setting snapshot) tbl i (Quot.mk by_hash))
selected_map_exact_example =
    selected_map_exact setting.fold (index setting snapshot) tbl (Quot.mk by_hash)

index_records_exact_example :
    lists (index_records setting sha1_column 0 files []) hash 1
    ≡ carried_at setting sha1_column files 1 hash
index_records_exact_example = index_records_exact setting sha1_column files hash 1

-- The date ladder on one text of each layout, a fraction, an early date and a version.
decoded_times :
    (decode_time setting.horizon (codes "11/26/2021 09:08:07") ≡ some (codes "1637917687"))
    × (decode_time setting.horizon (codes "6/21/2006") ≡ some (codes "1150848000"))
    × (decode_time setting.horizon (codes "06-21-2006") ≡ some (codes "1150848000"))
    × (decode_time setting.horizon (codes "2006-6-21") ≡ some (codes "1150848000"))
    × (decode_time setting.horizon (codes "1/1/1601 00:00:00") ≡ none)
    × (decode_time setting.horizon (codes "2/29/2023") ≡ none)
    × (decode_time setting.horizon (codes "10.0.19041.1") ≡ none)
unfolding decode_time
decoded_times = (refl, refl, refl, refl, refl, refl, refl)

decode_sha1_upper : decode_sha1 setting.fold (replicate 40 b'A') ≡ some hash
unfolding decode_sha1 to_lower has_zeros byte_len hex_decodes all_hex
decode_sha1_upper = refl

decode_sha1_canonical_example :
    (length hash ≡ 40)
    × (all_lower_hex hash ≡ true)
    × (decode_sha1 setting.fold hash ≡ some hash)
    × ((hash ≡ to_lower setting.fold (replicate 40 b'A'))
        ⊎ ((has_zeros (replicate 40 b'A') ≡ true)
            × (hash ≡ to_lower setting.fold (replicate 36 b'A'))))
decode_sha1_canonical_example =
    decode_sha1_canonical setting.fold (replicate 40 b'A') hash decode_sha1_upper

decode_bool_spelt : decode_bool setting.fold (codes "True") ≡ some (codes "1")
unfolding decode_bool to_lower text_eq
decode_bool_spelt = refl

parse_uint-format_int_example : parse_uint (format_int 4289408507) ≡ some 4289408507
parse_uint-format_int_example = parse_uint-format_int 4289408507 (omega arith)

serve-ne-index_panic_example :
    serve setting (λ i. none) application_files by_hash (share setting snapshot) ≢ err index_panic
serve-ne-index_panic_example =
    serve-ne-index_panic setting (λ i. none) application_files by_hash snapshot application_files-In

decoded_time : decode_time setting.horizon (codes "6/21/2006") ≡ some (codes "1150848000")
unfolding decode_time
decoded_time = refl

-- One column, so that the row is short.
abbrev hashes : Spec
hashes = record { table = tbl; key = key_application_file; cols = sha1_column ∷ [] }

abbrev expected_rows : List (Table Text)
expected_rows = ((codes "sha1", hash) ∷ []) ∷ []

hash_rows : rows_for setting (λ i. none) hashes files (some (1 ∷ [])) ≡ ok expected_rows
unfolding rows_for build_rows check record_at row_record fill_row put cell cell_of decode_value
    value_cell decode_sha1 has_zeros hex_decodes all_hex byte_len to_lower lower_rune lookup text_eq
hash_rows = refl
