-- ===== src/Tables/Cell.antt =====
-- `cell` of tables/decode.go: the decoder that a column names, applied to one record.
use amcache.Base.{ℕ, Option, none, some, [], ◌∷◌, if◌then◌else◌, ◌==◌}
use amcache.Base.Text.{Text, to_lower, replace_all}
use amcache.Inventory.{Record, lookup}
use amcache.Tables.Columns.{
  Kind, k_int, k_bool, k_time, k_epoch, k_multi, k_sha1, k_lower, k_key, k_key_path, k_key_lower,
  k_key_time, Col,
}
use amcache.Tables.Decode.{decode_int, decode_bool, decode_multi, decode_sha1, format_int}
use amcache.Tables.Time.{Instant, decode_time}

-- What the decoders take from outside: Unicode's lower case beyond ASCII, and the clock's time a
-- year ahead.
pub record Setting : Type 0 where
  pub fold : ℕ → ℕ
  pub horizon : Instant

abbrev pub or_empty : Option Text → Text
or_empty none = []
or_empty (some s) = s

-- The second switch of `cell`, on a value that is not empty.
unfoldable pub decode_value : Setting → Kind → Text → Option Text
decode_value w k_int s = decode_int s
decode_value w k_epoch s = decode_int s
decode_value w k_bool s = decode_bool w.fold s
decode_value w k_time s = decode_time w.horizon s
decode_value w k_multi s = some (decode_multi s)
decode_value w k_sha1 s = decode_sha1 w.fold s
decode_value w k_lower s = some (to_lower w.fold s)
decode_value w _ s = some s

-- `rec.V[c.src]`, then the switch.
unfoldable pub value_cell : Setting → Kind → Text → Record → Option Text
unfolding decode_value
value_cell w k src rec = elim (or_empty (lookup src rec.values)) [
  | [] ↦ some []
  | c ∷ s ↦ decode_value w k (c ∷ s)
]

-- The first switch of `cell`, on the column's kind. None is the second result false.
unfoldable pub cell_of : Setting → Kind → Text → Record → Option Text
unfolding value_cell
cell_of w k_key src rec = some rec.name
cell_of w k_key_path src rec = some (replace_all b'/' 0x5C rec.name)
cell_of w k_key_lower src rec = some (to_lower w.fold rec.name)
cell_of w k_key_time src rec =
    if rec.last_write == 0 then some [] else some (format_int rec.last_write)
cell_of w k src rec = value_cell w k src rec

-- `cell`.
unfoldable pub cell : Setting → Col → Record → Option Text
unfolding cell_of
cell w c rec = cell_of w c.kind c.src rec
