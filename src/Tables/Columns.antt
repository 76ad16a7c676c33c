-- ===== src/Tables/Columns.antt =====
-- tables/columns.go: the kinds, columns and tables, and the column list given to osquery.
use amcache.Base.{Bool, List, map}
use amcache.Base.Text.{Text}

-- `kind`: the decoder of a column.
pub data Kind : Type 0 where
  k_text k_int k_bool k_time k_epoch k_multi k_sha1 k_lower : Kind
  k_key k_key_path k_key_lower k_key_time : Kind

-- The column types of osquery that are used.
pub data ColumnType : Type 0 where
  text_type integer_type big_int_type : ColumnType

-- `col`.
pub record Col : Type 0 where
  pub name : Text
  pub typ : ColumnType
  pub src : Text
  pub kind : Kind
  pub push : Bool

-- `spec`.
pub record Spec : Type 0 where
  pub table : Text
  pub key : Text
  pub cols : List Col

-- What osquery's helpers build.
pub data ColumnDefinition : Type 0 where
  integer_column big_int_column text_column : Text → ColumnDefinition

unfoldable pub column_def : Col → ColumnDefinition
column_def c = elim c.typ [
  | integer_type ↦ integer_column c.name
  | big_int_type ↦ big_int_column c.name
  | text_type ↦ text_column c.name
]

-- `columnDefs`.
unfoldable pub column_defs : Spec → List ColumnDefinition
unfolding column_def
column_defs s = map column_def s.cols
