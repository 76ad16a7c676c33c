-- ===== src/Inventory/Values/Guarded.antt =====
-- The guards of `decode` are enough: where the parser reads as it is documented to, no value makes it
-- panic.
use amcache.Base.{
  ℕ, ◌+◌, ◌%◌, ◌^◌, ◌≤◌, ◌<◌, ◌≡◌, ◌≢◌, true, Option, none, some, arith, Option-cases, inl, inr,
}
use amcache.Inventory.Slots.{Cells}
use amcache.Inventory.Values.{
  Value, ValueType, parser_panic, decode, decode_typed, has_shape, sig_db,
}

-- The bytes that `ValueData` makes an integer of.
abbrev pub width : ValueType → Option ℕ
width ValueType.reg_dword = some 4
width ValueType.reg_dword_big_endian = some 4
width ValueType.reg_qword = some 8
width _ = none

-- What is relied on of `ValueData`, of the bytes that it reads: it panics only where it makes an integer
-- of fewer bytes than that has, it reads four bytes of a value that is inline, and the declared
-- number of a value whose data cell holds them and is no big-data cell.
pub record ReadsValue (r : Cells) (payload : ℕ → ℕ) (hive_len : ℕ) (v : Value) : Type 0 where
  pub bytes_read : ℕ
  pub panics : v.value_data ≡ none → (w : ℕ) × (width v.typ ≡ some w) × (bytes_read < w)
  pub inline : 2 ^ 31 ≤ v.data_length → bytes_read ≡ 4
  pub stored :
      v.data_length < 2 ^ 31
      → r.signature v.data_cell ≢ sig_db
      → payload v.data_cell + v.data_length % 2 ^ 31 ≤ hive_len
      → bytes_read ≡ v.data_length % 2 ^ 31

module _ (r : Cells) (payload : ℕ → ℕ) (hive_len : ℕ) (v : Value)
    (reads : ReadsValue r payload hive_len v) where
  -- An integer whose shape is right has all its bytes.
  has_shape_reads :
      (want : ℕ) → has_shape r payload hive_len v want ≡ true → want ≤ reads.bytes_read
  unfolding has_shape
  has_shape_reads want h = ground (arith, h, reads.inline, reads.stored)

  decode_typed-ne-parser_panic : decode_typed r payload hive_len v ≢ parser_panic
  unfolding decode_typed
  decode_typed-ne-parser_panic h = elim (Option-cases v.value_data) [
    | inr (d, x) ↦ ground (arith, x, h)
    | inl x ↦
        let (w, e, short) = reads.panics x in
        ground (arith, x, e, short, h, has_shape_reads 4, has_shape_reads 8)
  ]

  pub decode-ne-parser_panic : decode r payload hive_len v ≢ parser_panic
  unfolding decode
  decode-ne-parser_panic h = ground (arith, h, decode_typed-ne-parser_panic)
