-- ===== src/Tables/Rows/Typed.antt =====
-- The cells of integer and bigint columns are numbers: osquery reads them as such.
use amcache.Base.{
  length, In, All-In, ℕ, zero, suc, ◌^◌, ◌<◌, ◌≡◌, refl, Bool, true, false, ◌&&◌, Option, none,
  some, List, [], ◌∷◌, ◌==◌, ok, >>=-eq-ok, arith, All, ok_injective, ok-ne-err, sym, Option-cases,
  Bool-cases, inl, inr, ◌⊎◌, and_left, and_right,
}
use mathlib.Core.Path.{subst}
use mathlib.Core.Option.{some-injective}
use amcache.Base.Text.{Text}
use amcache.Hive.Regf.{Ended}
use amcache.Inventory.{Record, Table, lookup}
use amcache.Tables.Columns.{
  Col, Spec, Kind, k_int, k_bool, k_time, k_epoch, k_key_time, ColumnType, text_type, integer_type,
  big_int_type,
}
use amcache.Tables.Specs.{
  specs, application_files, applications, application_shortcuts, driver_binaries, driver_packages,
  device_pnp, device_containers,
}
use amcache.Tables.Decode.{decode_int, decode_bool, format_int}
use amcache.Tables.Decode.Numbers.{is_word, decode_int_exact, parse_uint-format_int}
use amcache.Tables.Decode.Laws.{decode_bool_canonical}
use amcache.Tables.Time.Laws.{decode_time_printed}
use amcache.Tables.Cell.{Setting, cell, cell_of, value_cell, decode_value, or_empty}
use amcache.Tables.Rows.Counts.{asked, length-rows_for}
use amcache.Tables.Rows.{row_record, row_record-at, record_at, check, build_rows, indices, rows_for}
use amcache.Tables.Rows.Picked.{row_of}
use amcache.Tables.Rows.Cells.{ShowsCells, row-ShowsCells}

-- Empty, or the digits of a number below 2 ^ 64.
abbrev pub IsNumber : Text → Type 0
IsNumber v = (v ≡ []) ⊎ (is_word v ≡ true)

-- What a cell of a column of that type may show.
abbrev pub FitsType : ColumnType → Text → Type 0
FitsType text_type v = Unit
FitsType integer_type v = IsNumber v
FitsType big_int_type v = IsNumber v

abbrev is_value_kind : Kind → Bool
is_value_kind k_int = true
is_value_kind k_bool = true
is_value_kind k_time = true
is_value_kind k_epoch = true
is_value_kind _ = false

abbrev is_number_kind : Kind → Bool
is_number_kind k_key_time = true
is_number_kind k = is_value_kind k

-- Only the decoders of numbers stand in columns of numbers.
abbrev has_kind : Col → Bool
has_kind c = elim c.typ [
  | text_type ↦ true
  | integer_type ↦ is_number_kind c.kind
  | big_int_type ↦ is_number_kind c.kind
]

abbrev have_kinds : List Col → Bool
have_kinds [] = true
have_kinds (c ∷ cols) = has_kind c && have_kinds cols

specs-have_kinds : All (λ (s : Spec). have_kinds s.cols ≡ true) specs
unfolding specs application_files applications application_shortcuts driver_binaries driver_packages
    device_pnp device_containers
specs-have_kinds = (refl, (refl, (refl, (refl, (refl, (refl, (refl, tt)))))))

decode_int-IsNumber : (s v : Text) → decode_int s ≡ some v → IsNumber v
decode_int-IsNumber s v h = elim (Bool-cases (is_word s)) [
  | inl e ↦ inr (ground (arith, decode_int_exact s))
  | inr e ↦ absurd (ground (arith, decode_int_exact s))
]

decode_int-format_int : (n : ℕ) → n < 2 ^ 64 → decode_int (format_int n) ≡ some (format_int n)
unfolding decode_int
decode_int-format_int n h = ground (arith, parse_uint-format_int n h)

format_int-IsNumber : (n : ℕ) → n < 2 ^ 64 → IsNumber (format_int n)
format_int-IsNumber n h =
    decode_int-IsNumber (format_int n) (format_int n) (decode_int-format_int n h)

decode_bool-IsNumber : (fold : ℕ → ℕ) (s v : Text) → decode_bool fold s ≡ some v → IsNumber v
decode_bool-IsNumber fold s v h = elim (decode_bool_canonical fold s v h) [
  | inl (one, _) ↦ inr (rw one)
  | inr (nought, _) ↦ inr (rw nought)
]

module _ (w : Setting) (bounded : w.horizon.seconds < 2 ^ 64) where
  decode_value-IsNumber :
      (k : Kind) (s v : Text) → is_value_kind k ≡ true → decode_value w k s ≡ some v → IsNumber v
  unfolding decode_value
  decode_value-IsNumber k_int s v h e = decode_int-IsNumber s v e
  decode_value-IsNumber k_epoch s v h e = decode_int-IsNumber s v e
  decode_value-IsNumber k_bool s v h e = decode_bool-IsNumber w.fold s v e
  decode_value-IsNumber k_time s v h e =
      let (n, printed, late, early) = decode_time_printed w.horizon s v e in
      rw printed (format_int-IsNumber n (omega (arith, early, bounded)))
  decode_value-IsNumber _ s v h e = cc

  module _ (rec : Record) (in_time : rec.last_write < 2 ^ 64) where
    value-IsNumber :
        (k : Kind) (t v : Text)
        → is_value_kind k ≡ true
        → (elim t [ [] ↦ some [] | c ∷ s ↦ decode_value w k (c ∷ s) ]) ≡ some v
        → IsNumber v
    value-IsNumber k [] v h e = inl (sym (some-injective _ _ e))
    value-IsNumber k (c ∷ s) v h e = decode_value-IsNumber k (c ∷ s) v h e

    cell_of-IsNumber :
        (k : Kind) (src v : Text)
        → is_number_kind k ≡ true
        → cell_of w k src rec ≡ some v
        → IsNumber v
    unfolding cell_of value_cell
    cell_of-IsNumber k_int src v h e =
        value-IsNumber k_int (or_empty (lookup src rec.values)) v refl e
    cell_of-IsNumber k_epoch src v h e =
        value-IsNumber k_epoch (or_empty (lookup src rec.values)) v refl e
    cell_of-IsNumber k_bool src v h e =
        value-IsNumber k_bool (or_empty (lookup src rec.values)) v refl e
    cell_of-IsNumber k_time src v h e =
        value-IsNumber k_time (or_empty (lookup src rec.values)) v refl e
    cell_of-IsNumber k_key_time src v h e = elim (Bool-cases (rec.last_write == 0)) [
      | inl never ↦ inl (ground arith)
      | inr some_time ↦
          let printed : v ≡ format_int rec.last_write = ground arith in
          rw printed (format_int-IsNumber rec.last_write in_time)
    ]
    cell_of-IsNumber _ src v h e = cc

    shown-IsNumber :
        (k : Kind) (src : Text)
        → is_number_kind k ≡ true
        → IsNumber (or_empty (cell_of w k src rec))
    shown-IsNumber k src h = elim (Option-cases (cell_of w k src rec)) [
      | inl e ↦ rw e (inl refl)
      | inr (v, e) ↦ rw e (cell_of-IsNumber k src v h e)
    ]

    shown-FitsType :
        (t : ColumnType) (k : Kind) (src : Text)
        → (elim t [
          | text_type ↦ true
          | integer_type ↦ is_number_kind k
          | big_int_type ↦ is_number_kind k
        ])
          ≡ true
        → FitsType t (or_empty (cell_of w k src rec))
    shown-FitsType text_type k src h = tt
    shown-FitsType integer_type k src h = shown-IsNumber k src h
    shown-FitsType big_int_type k src h = shown-IsNumber k src h

    cell-FitsType : (c : Col) → has_kind c ≡ true → FitsType c.typ (or_empty (cell w c rec))
    unfolding cell
    cell-FitsType c h = shown-FitsType c.typ c.kind c.src h

    row-fits :
        (row : Table Text) (cols : List Col)
        → ShowsCells w rec cols row
        → have_kinds cols ≡ true
        → All (λ (c : Col). (v : Text) × (lookup c.name row ≡ some v) × FitsType c.typ v) cols
    row-fits row [] shows h = tt
    row-fits row (c ∷ cols) shows h = (
      (or_empty (cell w c rec), shows.0, cell-FitsType c (and_left _ _ h)),
      row-fits row cols shows.1 (and_right (has_kind c) _ h),
    )

-- The row shows a value of the column's type in every declared column.
abbrev pub IsTyped : Spec → Table Text → Type 0
IsTyped s row =
    All (λ (c : Col). (v : Text) × (lookup c.name row ≡ some v) × FitsType c.typ v) s.cols

module _ (w : Setting) (ctx : ℕ → Option Ended) (s : Spec) (recs : List Record)
    (P : Table Text → Type 0)
    (each : (k : ℕ) (rec : Record) → record_at recs k ≡ ok rec → P (row_of w s rec)) where
  All-build_rows :
      (i : ℕ) (sel : List ℕ) (rows : List (Table Text))
      → build_rows w ctx s recs i sel ≡ ok rows
      → All P rows
  unfolding build_rows
  All-build_rows i [] rows h = subst (All P) (ok_injective h) tt
  All-build_rows i (k ∷ sel) rows h =
      let (_, _, h1) = >>=-eq-ok (check ctx i) _ h in
      let (rec, at, h2) = >>=-eq-ok (row_record recs i k) _ h1 in
      let (rest, more, h3) = >>=-eq-ok (build_rows w ctx s recs (suc i) sel) _ h2 in
      subst (All P) (ok_injective h3)
        (each k rec (row_record-at recs i k at), All-build_rows (suc i) sel rest more)

  All-rows_for :
      (sel : Option (List ℕ)) (rows : List (Table Text))
      → rows_for w ctx s recs sel ≡ ok rows
      → All P rows
  unfolding rows_for
  All-rows_for none rows h = All-build_rows 0 (indices 0 recs) rows h
  All-rows_for (some sel) rows h = All-build_rows 0 sel rows h

All-record_at :
    (P : Record → Type 0) (recs : List Record) (k : ℕ) (rec : Record)
    → All P recs
    → record_at recs k ≡ ok rec
    → P rec
unfolding record_at
All-record_at P [] k rec a h = absurd (ok-ne-err _ _ (sym h))
All-record_at P (r ∷ recs) zero rec a h = subst P (ok_injective h) a.0
All-record_at P (r ∷ recs) (suc k) rec a h = All-record_at P recs k rec a.1 h

-- As long as the clock and the records' last-write times are 64-bit numbers, `rowsFor` of one of the
-- seven tables gives one row for each record that is asked for, none dropped, every row shows a
-- value in each of its columns, and in an integer or bigint column that value is empty or the
-- digits of a number below 2 ^ 64.
pub rows_for-IsTyped :
    (w : Setting) (ctx : ℕ → Option Ended) (s : Spec) (recs : List Record) (sel : Option (List ℕ))
    (rows : List (Table Text))
    → w.horizon.seconds < 2 ^ 64
    → All (λ (rec : Record). rec.last_write < 2 ^ 64) recs
    → In s specs
    → rows_for w ctx s recs sel ≡ ok rows
    → (length rows ≡ asked recs sel) × All (IsTyped s) rows
rows_for-IsTyped w ctx s recs sel rows bounded in_time known h =
    let kinds = All-In (λ (t : Spec). have_kinds t.cols ≡ true) s specs specs-have_kinds known in
    (
      length-rows_for w ctx s recs sel rows h,
      All-rows_for w ctx s recs (IsTyped s)
          (λ k rec at.
            row-fits w bounded rec
              (All-record_at (λ (r : Record). r.last_write < 2 ^ 64) recs k rec in_time at)
              (row_of w s rec) s.cols (row-ShowsCells w rec s known) kinds)
          sel rows h,
    )
