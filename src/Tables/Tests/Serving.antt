-- ===== src/Tables/Tests/Serving.antt =====
-- The rows that a table of tables/tables.go serves, with a pushed constraint and without.
use amcache.Base.{
  length, In, map, ℕ, ◌^◌, ◌<◌, ◌≡◌, Bool, true, Option, none, some, List, [], ◌∷◌, All, ok, err,
  refl, arith, Result,
}
use amcache.Base.Once.{empty_log, is_listed, text_key}
use amcache.Base.Text.{Text, codes, text_eq, to_lower, byte_len, lower_rune}
use amcache.Hive.Regf.{Ended}
use amcache.Inventory.{Table, Record, lookup}
use amcache.Tables.Specs.{
  specs, application_files, applications, application_shortcuts, driver_binaries, driver_packages,
  device_pnp, device_containers,
}
use amcache.Tables.Decode.{
  decode_int, decode_bool, decode_multi, decode_sha1, format_int, parse_uint, has_zeros,
  hex_decodes, all_hex,
}
use amcache.Tables.Time.{decode_time}
use amcache.Tables.Cell.{cell, cell_of, decode_value, value_cell}
use amcache.Tables.Rows.{
  row_record, RowError, record_at, rows_for, build_rows, check, fill_row, put, indices,
}
use amcache.Tables.Rows.Picked.{refilter}
use amcache.Tables.Rows.Typed.{IsTyped, rows_for-IsTyped}
use amcache.Tables.Query.{
  index_key, index, index_records, selected, sort_unique, select_columns, index_specs, index_cols,
  add_index, column_hits, is_usable, narrow, compact, sort, insert_index, join_equal,
}
use amcache.Tables.Columns.{Col}
use amcache.Tables.Rows.Warnings.{Log, rows_for_logged}
use amcache.Tables.Rows.Warnings.Once.{
  IsColumnOnce, line_key, Fails, silent, built, rows_for_logged-IsOnce,
}
use amcache.Tables.Serve.{serve, share}
use amcache.Tables.Serve.Refilter.{row_meets, serve-refilter}
use amcache.Tables.Tests.{setting, files, snapshot, by_hash, application_files-In}

abbrev rows_of : Result RowError (List (Table Text)) → List (Table Text)
rows_of (ok rows) = rows
rows_of (err e) = []

abbrev unending : ℕ → Option Ended
unending i = none

abbrev hit_rows : List (Table Text)
hit_rows = rows_of (serve setting unending application_files by_hash (share setting snapshot))

abbrev all_rows : List (Table Text)
all_rows = rows_of (serve setting unending application_files [] (share setting snapshot))

served_hits :
    serve setting unending application_files by_hash (share setting snapshot) ≡ ok hit_rows
unfolding serve rows_for build_rows check record_at row_record fill_row put indices cell cell_of
    decode_value value_cell decode_sha1 decode_int decode_bool decode_multi decode_time parse_uint
    format_int has_zeros hex_decodes all_hex byte_len to_lower lower_rune lookup text_eq selected
    index select_columns index_specs index_cols index_records add_index column_hits is_usable narrow
    sort_unique compact sort insert_index join_equal specs application_files applications
    application_shortcuts driver_binaries driver_packages device_pnp device_containers
served_hits = refl

served_all : serve setting unending application_files [] (share setting snapshot) ≡ ok all_rows
unfolding serve rows_for build_rows check record_at row_record fill_row put indices cell cell_of
    decode_value value_cell decode_sha1 decode_int decode_bool decode_multi decode_time parse_uint
    format_int has_zeros hex_decodes all_hex byte_len to_lower lower_rune lookup text_eq selected
    select_columns application_files
served_all = refl

-- SQLite keeps the rows that the constraints themselves admit.
abbrev kept : Table Text → Bool
kept row = row_meets row application_files.cols by_hash

serve-refilter_example : refilter kept hit_rows ≡ refilter kept all_rows
serve-refilter_example =
    serve-refilter setting unending application_files snapshot by_hash kept hit_rows all_rows
      application_files-In (λ row h. h) served_hits served_all

built_hits : rows_for setting unending application_files files (some (1 ∷ [])) ≡ ok hit_rows
unfolding serve rows_for build_rows check record_at row_record fill_row put indices cell cell_of
    decode_value value_cell decode_sha1 decode_int decode_bool decode_multi decode_time parse_uint
    format_int has_zeros hex_decodes all_hex byte_len to_lower lower_rune lookup text_eq selected
    index select_columns index_specs index_cols index_records add_index column_hits is_usable narrow
    sort_unique compact sort insert_index join_equal specs application_files applications
    application_shortcuts driver_binaries driver_packages device_pnp device_containers
built_hits = refl

files-in_time : All (λ (rec : Record). rec.last_write < 2 ^ 64) files
files-in_time = (omega arith, (omega arith, tt))

rows_for-IsTyped_example : (length hit_rows ≡ 1) × All (IsTyped application_files) hit_rows
rows_for-IsTyped_example =
    rows_for-IsTyped setting unending application_files files (some (1 ∷ [])) hit_rows (omega arith)
      files-in_time application_files-In built_hits

-- A record whose hash and size are no hash and no number, behind a log that has one line.
abbrev broken_file : Record
broken_file = record {
  name = codes "c.exe|3";
  last_write = 0;
  values = (codes "FileId", codes "zz") ∷ (codes "Size", codes "-1") ∷ [];
}

abbrev one_line : Log
one_line = (rows_for_logged setting unending application_files (broken_file ∷ []) none empty_log).1

rows_for_logged-IsOnce_example :
    ((rows_for_logged setting unending application_files (broken_file ∷ files) none one_line).0
      ≡ rows_for setting unending application_files (broken_file ∷ files) none)
    × IsColumnOnce
        (rows_for_logged setting unending application_files (broken_file ∷ files) none one_line).1
    × ((rows : List (Table Text)) (c : Col)
        → (rows_for_logged setting unending application_files (broken_file ∷ files) none one_line).0
          ≡ ok rows
        → In c application_files.cols
        → Fails setting application_files (broken_file ∷ files) none c
        → is_listed (index_key application_files.table c.name) (
            map line_key
              (rows_for_logged setting unending application_files
                (broken_file ∷ files)
                none
                one_line).1.lines)
          ≡ true)
rows_for_logged-IsOnce_example =
    rows_for_logged-IsOnce setting unending application_files (broken_file ∷ files) none one_line
      (built setting unending application_files (broken_file ∷ []) none silent)
