-- ===== src/Inventory/Warn/Erased.antt =====
-- Logging changes nothing about what is parsed.
use amcache.Base.{
  ℕ, suc, ◌≡◌, refl, Option, none, some, List, [], ◌∷◌, ok, arith, Bool-cases, Option-cases,
  Result-cases, inl, inr, ap, ◌∙◌, Result, ltb, Bool, true, false,
}
use amcache.Base.Stateful.{Gives, pure, >>=-Gives, >>=-Gives_ok, >>=-Gives_err, >>=-Gives_elim}
use amcache.Base.Text.{Text}
use amcache.Hive.Regf.{Bytes, Ended}
use amcache.Inventory.{Record, Table, lookup, keys}
use amcache.Inventory.Slots.{Cells}
use amcache.Inventory.Values.{Value, decode, decode_typed, has_shape, max_values, value_name}
use amcache.Inventory.Parse.{
  Node, Registry, ParseError, record_of, add_values, ask, sort_records, subkeys, parse_records,
  parse_key, parse_keys, parse_found, named, parse,
}
use amcache.Inventory.Values.Laws.{Decoded-cases}
use amcache.Inventory.Warn.{
  Log, decode_integer_logged, decode_typed_logged, decode_logged, add_values_logged, recovered,
  values_logged, record_logged,
}
use amcache.Inventory.Warn.Parse.{
  reading, parse_records_logged, parse_key_logged, parse_keys_logged, parse_found_logged,
  parse_logged,
}

decode_typed_logged_result :
    (r : Cells) (payload : ℕ → ℕ) (hive_len : ℕ) (v : Value) (log : Log)
    → (decode_typed_logged r payload hive_len v log).0 ≡ decode_typed r payload hive_len v
unfolding decode_typed_logged decode_typed decode_integer_logged has_shape
decode_typed_logged_result r payload hive_len v log = ground arith

pub decode_logged_result :
    (r : Cells) (payload : ℕ → ℕ) (hive_len : ℕ) (v : Value) (log : Log)
    → (decode_logged r payload hive_len v log).0 ≡ decode r payload hive_len v
unfolding decode_logged decode
decode_logged_result r payload hive_len v log =
    ground (arith, decode_typed_logged_result r payload hive_len v log)

module _ (r : Registry) (hive_len : ℕ) where
  pub add_values_logged_result :
      (vs : List Value) (t : Table Text) (log : Log)
      → (add_values_logged r hive_len vs t log).0 ≡ add_values r hive_len vs t
  unfolding add_values_logged add_values
  add_values_logged_result [] t log = refl
  add_values_logged_result (v ∷ vs) t log =
      let here = decode_logged_result r.cells r.payload hive_len v log in
      let next = (decode_logged r.cells r.payload hive_len v log).1 in
      elim (Decoded-cases (decode r.cells r.payload hive_len v)) [
        | inl e ↦ rw (here ∙ e, e, add_values_logged, add_values) refl
        | inr (inl e) ↦
            rw (here ∙ e, e, add_values_logged, add_values) (add_values_logged_result vs t next)
        | inr (inr (s, e)) ↦
            rw (here ∙ e, e, add_values_logged, add_values)
              (add_values_logged_result vs ((value_name v, s) ∷ t) next)
      ]

  recovered_result :
      (n : Node) (o : Option (Table Text) × Log)
      → (recovered n o).0 ≡ (elim o.0 [ none ↦ none | some t ↦ some (named n t) ])
  recovered_result n (none, log) = refl
  recovered_result n (some t, log) = refl

  -- What `record` makes of the values that the parser gave.
  abbrev record_from : Node → Option (List Value) → Option Record
  record_from n none = none
  record_from n (some vs) = elim (add_values r hive_len vs []) [
    | none ↦ none
    | some t ↦ some (named n t)
  ]

  values_logged_result :
      (n : Node) (o : Option (List Value)) (log : Log)
      → (recovered n (values_logged r hive_len o log)).0 ≡ record_from n o
  values_logged_result n none log = refl
  values_logged_result n (some vs) log =
      recovered_result n (add_values_logged r hive_len vs [] log)
      ∙ ap (λ (o : Option (Table Text)). elim o [ none ↦ none | some t ↦ some (named n t) ])
          (add_values_logged_result vs [] log)

  pub record_logged_result :
      (n : Node) (log : Log) → (record_logged r hive_len n log).0 ≡ record_of r hive_len n
  unfolding record_logged record_of
  record_logged_result n log = elim (Bool-cases (ltb max_values n.value_count)) [
    | inl e ↦ rw e refl
    | inr e ↦ rw e (values_logged_result n n.values log)
  ]

  reading-Gives : (n : Node) → Gives (reading r hive_len n) (ok (record_of r hive_len n))
  reading-Gives n log = ap ok (record_logged_result n log)

  pure-Gives : {A : Type 0} (o : Result ParseError A) → Gives {S = Log} (pure o) o
  pure-Gives o log = refl

  pub parse_records_logged-Gives :
      (ctx : ℕ → Option Ended) (i : ℕ) (ns : List Node)
      → Gives (parse_records_logged ctx r hive_len i ns) (parse_records ctx r hive_len i ns)
  unfolding parse_records_logged parse_records
  parse_records_logged-Gives ctx i [] = pure-Gives (ok [])
  parse_records_logged-Gives ctx i (n ∷ ns) = >>=-Gives _ (ask ctx i) _ _ (pure-Gives _) (λ u.
      >>=-Gives_ok _ (record_of r hive_len n) _ _ (reading-Gives n) (
        >>=-Gives _ (parse_records ctx r hive_len (suc i) ns) _ _
          (parse_records_logged-Gives ctx (suc i) ns) (λ recs. pure-Gives _)))

  pub parse_key_logged-Gives :
      (ctx : ℕ → Option Ended) (k : Text) (n : Node)
      → Gives (parse_key_logged ctx r hive_len k n) (parse_key ctx r hive_len n)
  unfolding parse_key_logged parse_key
  parse_key_logged-Gives ctx k n log = elim (Result-cases (subkeys r n)) [
    | inr (e, x) ↦ rw (x, parse_key) refl
    | inl (subs, x) ↦
        rw (x, parse_key)
          (>>=-Gives_elim _ (parse_records ctx r hive_len 0 subs) _
            (λ recs. ok (some (sort_records recs))) (parse_records_logged-Gives ctx 0 subs)
            (λ recs. pure-Gives _) log)
  ]

  module _ (ctx : Text → Option Ended) (ctx_subs : Text → ℕ → Option Ended) where
    pub parse_keys_logged-Gives :
        (found : Table Node) (ks : List Text)
        → Gives
            (parse_keys_logged ctx ctx_subs r hive_len found ks)
            (parse_keys ctx ctx_subs r hive_len found ks)
    unfolding parse_keys_logged parse_keys
    parse_keys_logged-Gives found [] log = refl
    parse_keys_logged-Gives found (k ∷ ks) log = elim (Option-cases (lookup k found)) [
      | inl x ↦ rw (x, parse_keys_logged, parse_keys) (parse_keys_logged-Gives found ks log)
      | inr (n, x) ↦ elim (Option-cases (ctx k)) [
        | inr (e, y) ↦
            rw (x, y, parse_keys_logged, parse_keys)
              (>>=-Gives_err _ (ParseError.context_ended e) _ (pure-Gives _) log)
        | inl y ↦
            rw (x, y, parse_keys_logged, parse_keys)
              (>>=-Gives_ok _ tt _ _ (pure-Gives _)
                (>>=-Gives_elim _ (parse_key (ctx_subs k) r hive_len n) _ _
                  (parse_key_logged-Gives (ctx_subs k) k n)
                  (λ kept.
                    >>=-Gives_elim _ (parse_keys ctx ctx_subs r hive_len found ks) _ _
                      (parse_keys_logged-Gives found ks) (λ rest. pure-Gives _)))
                log)
      ]
    ]

    parse_found_logged-Gives :
        (nodes : Table Node) (legacy : Bool)
        → Gives
            (parse_found_logged ctx ctx_subs r hive_len (record { nodes = nodes; legacy = legacy }))
            (parse_found ctx ctx_subs r hive_len (record { nodes = nodes; legacy = legacy }))
    unfolding parse_found_logged parse_found
    parse_found_logged-Gives [] true = pure-Gives _
    parse_found_logged-Gives [] false = pure-Gives _
    parse_found_logged-Gives (n ∷ ns) legacy =
        >>=-Gives_elim _ (parse_keys ctx ctx_subs r hive_len (n ∷ ns) keys) _ _
          (parse_keys_logged-Gives (n ∷ ns) keys) (λ kept. pure-Gives _)

-- `Parse` gives what it gives without the log.
pub parse_logged-Gives :
    (fold : ℕ → ℕ) (ctx : Text → Option Ended) (ctx_subs : Text → ℕ → Option Ended)
    (open_hive : Bytes → Option Registry) (hive : Bytes)
    → Gives (parse_logged fold ctx ctx_subs open_hive hive) (parse fold ctx ctx_subs open_hive hive)
unfolding parse_logged parse
parse_logged-Gives fold ctx ctx_subs open_hive hive =
    >>=-Gives _ _ _ _ (λ log. refl)
      (λ r.
        >>=-Gives _ _ _ _ (λ log. refl)
          (λ base.
            >>=-Gives _ _ _ _ (λ log. refl)
              (λ top.
                >>=-Gives _ _ _ _ (λ log. refl)
                  (λ root.
                    >>=-Gives _ _ _ _ (λ log. refl)
                      (λ children. parse_found_logged-Gives r _ ctx ctx_subs _ _)))))
