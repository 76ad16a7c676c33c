-- ===== src/Inventory/Warn.antt =====
-- `warn` of internal/inventory/inventory.go and what the value decoder and the record reader log: each
-- of the six conditions is reported once in the life of the process.
pub mod Parse
pub mod Erased
pub mod Kept
pub mod Marks
pub mod Once
pub mod Losses
pub mod Reported
mod Tests
use amcache.Base.{
  ℕ, ◌+◌, ◌%◌, ◌^◌, Bool, true, false, ◌||◌, not, Option, none, some, List, [], ◌∷◌, if◌then◌else◌,
  ltb, leb, ◌==◌,
}
use amcache.Base.Once.{OnceLog, once, nat_key}
use amcache.Base.Text.{Text}
use amcache.Inventory.{Record, Table}
use amcache.Inventory.Slots.{Cells, IndexError}
use amcache.Inventory.Values.{
  Value, ValueType, Decoded, decoded, skipped, parser_panic, decode_typed, with_data, value_name,
  max_values, max_value_bytes, sig_db,
}
use amcache.Tables.Decode.{format_int}
use amcache.Inventory.Parse.{Node, Registry, named}

-- The warning conditions, numbered in this order.
abbrev pub Condition : Type 0
Condition = ℕ

abbrev pub warn_legacy : Condition
warn_legacy = 0

abbrev pub warn_subkey_index : Condition
warn_subkey_index = 1

abbrev pub warn_value_count : Condition
warn_value_count = 2

abbrev pub warn_value_size : Condition
warn_value_size = 3

abbrev pub warn_value_shape : Condition
warn_value_shape = 4

abbrev pub warn_record_panic : Condition
warn_record_panic = 5

-- What a line says: counts, caps, a key of ours, the error of an index. The value of a panic is the
-- parser's.
pub data Message : Type 0 where
  legacy_format : Message
  index_rejected : Text → IndexError → Message
  too_many_values too_large wrong_size : ℕ → ℕ → Message
  marked_inline cell_too_small : ℕ → Message
  record_skipped : Message

pub record Line : Type 0 where
  pub condition : Condition
  pub message : Message

-- `warnOnce` and what was printed.
abbrev pub Log : Type 0
Log = OnceLog Condition Line

-- `warn`.
unfoldable pub warn : Condition → Message → Log → Log
warn condition message = once condition (record { condition = condition; message = message })

-- The case of the integers in `decode`, of `want` bytes.
unfoldable pub decode_integer_logged : Cells → (ℕ → ℕ) → ℕ → Value → ℕ → Log → Decoded × Log
decode_integer_logged r payload hive_len v want log =
    if not (v.data_length % 2 ^ 31 == want)
    then (skipped, warn warn_value_shape (Message.wrong_size (v.data_length % 2 ^ 31) want) log)
    else if leb (2 ^ 31) v.data_length
    then if not (want == 4)
      then (skipped, warn warn_value_shape (Message.marked_inline want) log)
      else (with_data v.value_data (λ b n. format_int n), log)
    else if r.signature v.data_cell == sig_db || ltb hive_len (payload v.data_cell + want)
    then (skipped, warn warn_value_shape (Message.cell_too_small want) log)
    else (with_data v.value_data (λ b n. format_int n), log)

-- The switch on the type: only an integer logs.
unfoldable pub decode_typed_logged : Cells → (ℕ → ℕ) → ℕ → Value → Log → Decoded × Log
decode_typed_logged r payload hive_len v log = elim v.typ [
  | ValueType.reg_dword ↦ decode_integer_logged r payload hive_len v 4 log
  | ValueType.reg_dword_big_endian ↦ decode_integer_logged r payload hive_len v 4 log
  | ValueType.reg_qword ↦ decode_integer_logged r payload hive_len v 8 log
  | _ ↦ (decode_typed r payload hive_len v, log)
]

-- `decode`, with the log before and after.
unfoldable pub decode_logged : Cells → (ℕ → ℕ) → ℕ → Value → Log → Decoded × Log
decode_logged r payload hive_len v log =
    if ltb max_value_bytes (v.data_length % 2 ^ 31)
    then (
      skipped,
      warn warn_value_size (Message.too_large (v.data_length % 2 ^ 31) max_value_bytes) log,
    )
    else decode_typed_logged r payload hive_len v log

-- The loop over the values.
unfoldable pub add_values_logged :
    Registry → ℕ → List Value → Table Text → Log → Option (Table Text) × Log
add_values_logged r hive_len [] t log = (some t, log)
add_values_logged r hive_len (v ∷ vs) t log =
    let (d, log') = decode_logged r.cells r.payload hive_len v log in
    elim d [
      | parser_panic ↦ (none, log')
      | skipped ↦ add_values_logged r hive_len vs t log'
      | decoded s ↦ add_values_logged r hive_len vs ((value_name v, s) ∷ t) log'
    ]

-- The deferred recover of `record`.
abbrev pub recovered : Node → Option (Table Text) × Log → Option Record × Log
recovered n (none, log) = (none, warn warn_record_panic Message.record_skipped log)
recovered n (some t, log) = (some (named n t), log)

abbrev pub values_logged : Registry → ℕ → Option (List Value) → Log → Option (Table Text) × Log
values_logged r hive_len none log = (none, log)
values_logged r hive_len (some vs) log = add_values_logged r hive_len vs [] log

-- `record`, with the log before and after.
unfoldable pub record_logged : Registry → ℕ → Node → Log → Option Record × Log
record_logged r hive_len n log =
    if ltb max_values n.value_count
    then (
      some (named n []),
      warn warn_value_count (Message.too_many_values n.value_count max_values) log,
    )
    else recovered n (values_logged r hive_len n.values log)
