-- ===== src/Inventory/Warn/Kept.antt =====
-- What `warn` keeps of a log, `Parse` keeps: it writes to the log by nothing else.
use amcache.Base.{
  if◌then◌else◌, ℕ, suc, Bool, true, false, Option, none, some, List, [], ◌∷◌, ok, err,
  Option-cases, inl, inr, Result,
}
use amcache.Base.Stateful.{Keeps, >>=-Keeps}
use amcache.Base.Text.{Text}
use amcache.Hive.Regf.{Bytes, Ended}
use amcache.Inventory.{Table, lookup, keys}
use amcache.Inventory.Slots.{Cells, IndexError}
use amcache.Inventory.Values.{Value, ValueType, Decoded, decode_typed, value_name}
use amcache.Inventory.Parse.{Node, Registry, subkeys}
use amcache.Inventory.Warn.{
  Condition, Message, Log, warn, decode_integer_logged, decode_typed_logged, decode_logged,
  add_values_logged, recovered, values_logged, record_logged,
}
use amcache.Inventory.Values.Laws.{Decoded-cases}
use amcache.Inventory.Warn.Parse.{
  parse_records_logged, subkeys_logged, parse_key_logged, parse_keys_logged, parse_found_logged,
  parse_logged,
}

-- `warn` leads from a log with the property to one with it.
abbrev pub WarnKeeps : (Log → Type 0) → Type 0
WarnKeeps P = (c : Condition) (m : Message) (log : Log) → P log → P (warn c m log)

module _ (P : Log → Type 0) (warns : WarnKeeps P) where
  either_keeps : {A : Type 0} (b : Bool) (x y : A × Log) → P x.1 → P y.1 → P (if b then x else y).1
  either_keeps true x y h k = h
  either_keeps false x y h k = k

  decode_integer_keeps :
      (r : Cells) (payload : ℕ → ℕ) (hive_len : ℕ) (v : Value) (want : ℕ) (log : Log)
      → P log
      → P (decode_integer_logged r payload hive_len v want log).1
  unfolding decode_integer_logged
  decode_integer_keeps r payload hive_len v want log h = search (either_keeps, warns)

  decode_typed_keeps :
      (r : Cells) (payload : ℕ → ℕ) (hive_len : ℕ) (v : Value) (log : Log)
      → P log
      → P (decode_typed_logged r payload hive_len v log).1
  unfolding decode_typed_logged
  decode_typed_keeps r payload hive_len v log h =
      elim v.typ
        as (λ typ.
          P
            (elim typ as (λ _. Decoded × Log) [
              | ValueType.reg_dword ↦ decode_integer_logged r payload hive_len v 4 log
              | ValueType.reg_dword_big_endian ↦ decode_integer_logged r payload hive_len v 4 log
              | ValueType.reg_qword ↦ decode_integer_logged r payload hive_len v 8 log
              | _ ↦ (decode_typed r payload hive_len v, log)
            ]).1) [
              | ValueType.reg_dword ↦ decode_integer_keeps r payload hive_len v 4 log h
              | ValueType.reg_dword_big_endian ↦ decode_integer_keeps r payload hive_len v 4 log h
              | ValueType.reg_qword ↦ decode_integer_keeps r payload hive_len v 8 log h
              | _ ↦ h
            ]

  pub decode_keeps :
      (r : Cells) (payload : ℕ → ℕ) (hive_len : ℕ) (v : Value) (log : Log)
      → P log
      → P (decode_logged r payload hive_len v log).1
  unfolding decode_logged
  decode_keeps r payload hive_len v log h = search (either_keeps, warns, decode_typed_keeps)

  module _ (r : Registry) (hive_len : ℕ) where
    -- What holds of the log after a value, the rest of the values keeps.
    add_values_after :
        (v : Value) (vs : List Value) (t : Table Text) (log : Log)
        → ((u : Table Text) (next : Log) → P next → P (add_values_logged r hive_len vs u next).1)
        → P (decode_logged r.cells r.payload hive_len v log).1
        → P (add_values_logged r hive_len (v ∷ vs) t log).1
    unfolding add_values_logged
    add_values_after v vs t log keeps h =
        let next = (decode_logged r.cells r.payload hive_len v log).1 in
        elim (Decoded-cases (decode_logged r.cells r.payload hive_len v log).0) [
          | inl e ↦ rw (e, add_values_logged) h
          | inr (inl e) ↦ rw (e, add_values_logged) (keeps t next h)
          | inr (inr (s, e)) ↦ rw (e, add_values_logged) (keeps ((value_name v, s) ∷ t) next h)
        ]

    add_values_keeps :
        (vs : List Value) (t : Table Text) (log : Log)
        → P log
        → P (add_values_logged r hive_len vs t log).1
    unfolding add_values_logged
    add_values_keeps [] t log h = h
    add_values_keeps (v ∷ vs) t log h =
        add_values_after v vs t log (add_values_keeps vs)
          (decode_keeps r.cells r.payload hive_len v log h)

    pub add_values_first :
        (v : Value) (vs : List Value) (t : Table Text) (log : Log)
        → P (decode_logged r.cells r.payload hive_len v log).1
        → P (add_values_logged r hive_len (v ∷ vs) t log).1
    add_values_first v vs t log = add_values_after v vs t log (add_values_keeps vs)

    recovered_keeps : (n : Node) (o : Option (Table Text) × Log) → P o.1 → P (recovered n o).1
    recovered_keeps n (none, log) h = warns _ _ log h
    recovered_keeps n (some t, log) h = h

    values_keeps :
        (o : Option (List Value)) (log : Log) → P log → P (values_logged r hive_len o log).1
    values_keeps none log h = h
    values_keeps (some vs) log h = add_values_keeps vs [] log h

    pub record_keeps : (n : Node) (log : Log) → P log → P (record_logged r hive_len n log).1
    unfolding record_logged
    record_keeps n log h = search (either_keeps, warns, recovered_keeps, values_keeps)

    pub parse_records-Keeps :
        (ctx : ℕ → Option Ended) (i : ℕ) (ns : List Node)
        → Keeps P (parse_records_logged ctx r hive_len i ns)
    unfolding parse_records_logged
    parse_records-Keeps ctx i [] log h = h
    parse_records-Keeps ctx i (n ∷ ns) log h =
        >>=-Keeps P _ _ (λ log h. h)
          (λ u.
            >>=-Keeps P _ _ (record_keeps n)
              (λ rec. >>=-Keeps P _ _ (parse_records-Keeps ctx (suc i) ns) (λ recs log h. h)))
          log h

    subkeys-Keeps :
        (ctx : ℕ → Option Ended) (k : Text) (subs : Result IndexError (List Node))
        → Keeps P (subkeys_logged ctx r hive_len k subs)
    subkeys-Keeps ctx k (err e) log h = warns _ _ log h
    subkeys-Keeps ctx k (ok subs) log h =
        >>=-Keeps P _ _ (parse_records-Keeps ctx 0 subs) (λ recs log h. h) log h

    pub parse_key-Keeps :
        (ctx : ℕ → Option Ended) (k : Text) (n : Node)
        → Keeps P (parse_key_logged ctx r hive_len k n)
    unfolding parse_key_logged
    parse_key-Keeps ctx k n = subkeys-Keeps ctx k (subkeys r n)

    module _ (ctx : Text → Option Ended) (ctx_subs : Text → ℕ → Option Ended) where
      pub parse_keys-Keeps :
          (found : Table Node) (ks : List Text)
          → Keeps P (parse_keys_logged ctx ctx_subs r hive_len found ks)
      unfolding parse_keys_logged
      parse_keys-Keeps found [] log h = h
      parse_keys-Keeps found (k ∷ ks) log h = elim (Option-cases (lookup k found)) [
        | inl x ↦ rw (x, parse_keys_logged) (parse_keys-Keeps found ks log h)
        | inr (n, x) ↦
            rw (x, parse_keys_logged)
              (>>=-Keeps P _ _ (λ log h. h)
                (λ u.
                  >>=-Keeps P _ _ (parse_key-Keeps (ctx_subs k) k n)
                    (λ kept. >>=-Keeps P _ _ (parse_keys-Keeps found ks) (λ rest log h. h)))
                log h)
      ]

      parse_found-Keeps :
          (nodes : Table Node) (legacy : Bool)
          → Keeps P (
              parse_found_logged ctx ctx_subs r hive_len
                (record { nodes = nodes; legacy = legacy }))
      unfolding parse_found_logged
      parse_found-Keeps [] true log h = warns _ _ log h
      parse_found-Keeps [] false log h = h
      parse_found-Keeps (n ∷ ns) legacy log h =
          >>=-Keeps P _ _ (parse_keys-Keeps (n ∷ ns) keys) (λ kept log h. h) log h

  pub parse-Keeps :
      (fold : ℕ → ℕ) (ctx : Text → Option Ended) (ctx_subs : Text → ℕ → Option Ended)
      (open_hive : Bytes → Option Registry) (hive : Bytes)
      → Keeps P (parse_logged fold ctx ctx_subs open_hive hive)
  unfolding parse_logged
  parse-Keeps fold ctx ctx_subs open_hive hive =
      >>=-Keeps P _ _ (λ log h. h)
        (λ r.
          >>=-Keeps P _ _ (λ log h. h)
            (λ base.
              >>=-Keeps P _ _ (λ log h. h)
                (λ top.
                  >>=-Keeps P _ _ (λ log h. h)
                    (λ root.
                      >>=-Keeps P _ _ (λ log h. h)
                        (λ children. parse_found-Keeps r _ ctx ctx_subs _ _)))))
