-- ===== src/Inventory/Warn/Marks.antt =====
-- A value or a record that is left out is reported.
use amcache.Base.{
  ℕ, ◌%◌, ◌^◌, ◌≡◌, Bool, true, false, Option, none, some, List, [], ◌∷◌, arith, Bool-cases,
  Option-cases, inl, inr, ltb, In, sym, ◌∙◌,
}
use mathlib.Core.Path.{subst}
use mathlib.Core.Option.{none-ne-some}
use amcache.Base.Once.{is_marked, nat_key, once_keeps, once_marks}
use amcache.Base.Text.{Text}
use amcache.Inventory.Values.{
  Value, ValueType, skipped, decode, decode_typed, has_shape, value_name, max_values,
  max_value_bytes,
}
use amcache.Inventory.{Record, Table}
use amcache.Inventory.Parse.{Node, Registry, record_of, add_values}
use amcache.Inventory.Warn.{
  Condition, Message, Log, warn, warn_value_count, warn_value_size, warn_value_shape,
  warn_record_panic, decode_integer_logged, decode_typed_logged, decode_logged, add_values_logged,
  recovered, values_logged, record_logged,
}
use amcache.Inventory.Values.Laws.{Decoded-cases}
use amcache.Inventory.Warn.Erased.{decode_logged_result, record_logged_result}
use amcache.Inventory.Warn.Kept.{WarnKeeps, add_values_first}

abbrev pub Marked : Condition → Log → Type 0
Marked c log = is_marked c log ≡ true

pub warn_keeps : (c : Condition) → WarnKeeps (Marked c)
unfolding warn
warn_keeps c d m log h = once_keeps d _ log c h

pub warn_marks : (c : Condition) (m : Message) (log : Log) → Marked c (warn c m log)
unfolding warn
warn_marks c m log = once_marks c _ log

-- The type is one of those that are decoded.
abbrev pub is_decoded_type : ValueType → Bool
is_decoded_type ValueType.reg_other = false
is_decoded_type _ = true

-- A value that is left out, with the condition that it is reported under.
pub data ValueLoss (r : Registry) (hive_len : ℕ) (v : Value) : Condition → Type 0 where
  oversize :
      ltb max_value_bytes (v.data_length % 2 ^ 31) ≡ true → ValueLoss r hive_len v warn_value_size
  misshapen :
      ltb max_value_bytes (v.data_length % 2 ^ 31) ≡ false
      → is_decoded_type v.typ ≡ true
      → decode r.cells r.payload hive_len v ≡ skipped
      → ValueLoss r hive_len v warn_value_shape

module _ (r : Registry) (hive_len : ℕ) where
  integer_marks :
      (v : Value) (want : ℕ) (log : Log)
      → has_shape r.cells r.payload hive_len v want ≡ false
      → Marked warn_value_shape (decode_integer_logged r.cells r.payload hive_len v want log).1
  unfolding has_shape decode_integer_logged
  integer_marks v want log h = ground (
    arith,
    h,
    warn_marks warn_value_shape (Message.wrong_size (v.data_length % 2 ^ 31) want) log,
    warn_marks warn_value_shape (Message.marked_inline want) log,
    warn_marks warn_value_shape (Message.cell_too_small want) log,
  )

  decode_typed_marks :
      (v : Value) (log : Log)
      → is_decoded_type v.typ ≡ true
      → decode_typed r.cells r.payload hive_len v ≡ skipped
      → Marked warn_value_shape (decode_typed_logged r.cells r.payload hive_len v log).1
  unfolding decode_typed decode_typed_logged
  decode_typed_marks v log t h = ground (arith, t, h, integer_marks v 4 log, integer_marks v 8 log)

  decode_marks :
      (v : Value) (c : Condition) (log : Log)
      → ValueLoss r hive_len v c
      → Marked c (decode_logged r.cells r.payload hive_len v log).1
  unfolding decode_logged decode
  decode_marks v c log (oversize e) = rw e (warn_marks warn_value_size _ log)
  decode_marks v c log (misshapen e t h) = rw e (decode_typed_marks v log t (rw (e, decode) at h))

  -- A parser that panics on no value of the list.
  add_values_marks :
      (vs : List Value) (t : Table Text) (v : Value) (c : Condition) (u : Table Text) (log : Log)
      → add_values r hive_len vs t ≡ some u
      → In v vs
      → ValueLoss r hive_len v c
      → Marked c (add_values_logged r hive_len vs t log).1
  unfolding add_values add_values_logged
  add_values_marks [] t v c u log h i l = elim i [ ]
  add_values_marks (w ∷ vs) t v c u log h (inl e) l =
      add_values_first (Marked c) (warn_keeps c) r hive_len w vs t log (
        subst (λ x. Marked c (decode_logged r.cells r.payload hive_len x log).1) e
          (decode_marks v c log l))
  add_values_marks (w ∷ vs) t v c u log h (inr i) l =
      let result = decode_logged_result r.cells r.payload hive_len w log in
      let next = (decode_logged r.cells r.payload hive_len w log).1 in
      elim (Decoded-cases (decode r.cells r.payload hive_len w)) [
        | inl e ↦ absurd (none-ne-some u (rw (e, add_values) at h))
        | inr (inl e) ↦
            rw (result ∙ e, add_values_logged)
              (add_values_marks vs t v c u next (rw (e, add_values) at h) i l)
        | inr (inr (s, e)) ↦
            rw (result ∙ e, add_values_logged)
              (add_values_marks vs ((value_name w, s) ∷ t) v c u next (rw (e, add_values) at h) i l)
      ]

-- A record that is left out or loses values, with the condition that it is reported under.
pub data RecordLoss (r : Registry) (hive_len : ℕ) (n : Node) : Condition → Type 0 where
  panicked : record_of r hive_len n ≡ none → RecordLoss r hive_len n warn_record_panic
  too_many : ltb max_values n.value_count ≡ true → RecordLoss r hive_len n warn_value_count
  value_lost :
      {c : Condition} (vs : List Value) (v : Value) (rec : Record)
      → ltb max_values n.value_count ≡ false
      → n.values ≡ some vs
      → record_of r hive_len n ≡ some rec
      → In v vs
      → ValueLoss r hive_len v c
      → RecordLoss r hive_len n c

module _ (r : Registry) (hive_len : ℕ) (n : Node) where
  recovered_marks :
      (o : Option (Table Text) × Log)
      → (recovered n o).0 ≡ none
      → Marked warn_record_panic (recovered n o).1
  recovered_marks (none, log) h = warn_marks warn_record_panic Message.record_skipped log
  recovered_marks (some t, log) h = absurd (none-ne-some _ (sym h))

  recovered_log :
      (c : Condition) (o : Option (Table Text) × Log) → Marked c o.1 → Marked c (recovered n o).1
  recovered_log c (none, log) h = warn_keeps c warn_record_panic Message.record_skipped log h
  recovered_log c (some t, log) h = h

  pub record_marks :
      (c : Condition) (log : Log)
      → RecordLoss r hive_len n c
      → Marked c (record_logged r hive_len n log).1
  unfolding record_logged record_of
  record_marks c log (too_many e) = rw e (warn_marks warn_value_count _ log)
  record_marks c log (panicked h) = elim (Bool-cases (ltb max_values n.value_count)) [
    | inl e ↦ absurd (none-ne-some _ (sym (rw (e, record_of) at h)))
    | inr e ↦ rw e (
        recovered_marks (values_logged r hive_len n.values log)
          (rw (e, record_logged) at (record_logged_result r hive_len n log ∙ h)))
  ]
  record_marks c log (value_lost vs v rec e x h i l) =
      elim (Option-cases (add_values r hive_len vs [])) [
        | inl y ↦ absurd (none-ne-some rec (rw (e, x, y, record_of) at h))
        | inr (u, y) ↦ rw e (
            subst (λ o. Marked c (recovered n (values_logged r hive_len o log)).1) (sym x)
              (recovered_log c (add_values_logged r hive_len vs [] log)
                (add_values_marks r hive_len vs [] v c u log y i l)))
      ]
