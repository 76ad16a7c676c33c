-- ===== src/Inventory/Warn/Parse.antt =====
-- `Parse` of internal/inventory/inventory.go with what it logs.
use amcache.Base.{
  ℕ, suc, true, false, Option, none, some, List, [], ◌∷◌, if◌then◌else◌, length, Result, ok, err,
}
use amcache.Base.Stateful.{Stateful, pure, ◌>>=◌}
use amcache.Base.Text.{Text, codes}
use amcache.Hive.Regf.{Bytes, Ended}
use amcache.Inventory.{Record, Snapshot, Table, lookup, keys}
use amcache.Inventory.Slots.{IndexError}
use amcache.Inventory.Parse.{
  Node, Registry, ParseError, bad_base_block, not_amcache, context_ended, subkeys, checked_subkeys,
  ask, keep_record, sort_records, find_node, Found, classify, keep_key, from_option,
}
use amcache.Inventory.Warn.{Log, Message, warn, warn_legacy, warn_subkey_index, record_logged}

abbrev pub Logging : Type 0 → Type 0
Logging = Stateful Log ParseError

abbrev pub reading : Registry → ℕ → Node → Logging (Option Record)
reading r hive_len n log = let (rec, log') = record_logged r hive_len n log in (ok rec, log')

-- The loop over a key's subkeys from subkey `i` on.
unfoldable pub parse_records_logged :
    (ℕ → Option Ended) → Registry → ℕ → ℕ → List Node → Logging (List Record)
parse_records_logged ctx r hive_len i [] = pure (ok [])
parse_records_logged ctx r hive_len i (n ∷ ns) = do
  _ ← pure (ask ctx i)
  rec ← reading r hive_len n
  recs ← parse_records_logged ctx r hive_len (suc i) ns
  pure (ok (keep_record rec recs))

abbrev pub subkeys_logged :
    (ℕ → Option Ended)
    → Registry
    → ℕ
    → Text
    → Result IndexError (List Node)
    → Logging (Option (List Record))
subkeys_logged ctx r hive_len k (err e) log =
    (ok none, warn warn_subkey_index (Message.index_rejected k e) log)
subkeys_logged ctx r hive_len k (ok subs) log =
    (do recs ← parse_records_logged ctx r hive_len 0 subs; pure (ok (some (sort_records recs)))) log

-- One key of the hive.
unfoldable pub parse_key_logged :
    (ℕ → Option Ended) → Registry → ℕ → Text → Node → Logging (Option (List Record))
parse_key_logged ctx r hive_len k n = subkeys_logged ctx r hive_len k (subkeys r n)

-- The context is asked before each key.
abbrev pub ask_key : Option Ended → Result ParseError (Unit {0})
ask_key none = ok tt
ask_key (some e) = err (context_ended e)

-- The loop over the keys.
unfoldable pub parse_keys_logged :
    (Text → Option Ended)
    → (Text → ℕ → Option Ended)
    → Registry
    → ℕ
    → Table Node
    → List Text
    → Logging (Table (List Record))
parse_keys_logged ctx ctx_subs r hive_len found [] = pure (ok [])
parse_keys_logged ctx ctx_subs r hive_len found (k ∷ ks) = elim (lookup k found) [
  | none ↦ parse_keys_logged ctx ctx_subs r hive_len found ks
  | some n ↦ do
    _ ← pure (ask_key (ctx k))
    kept ← parse_key_logged (ctx_subs k) r hive_len k n
    rest ← parse_keys_logged ctx ctx_subs r hive_len found ks
    pure (ok (keep_key k kept rest))
]

abbrev pub no_keys : Found → Logging Snapshot
no_keys f log =
    if f.legacy
    then (ok (record { legacy = true; keys = [] }), warn warn_legacy Message.legacy_format log)
    else (err not_amcache, log)

-- After the children of Root have been classified.
unfoldable pub parse_found_logged :
    (Text → Option Ended) → (Text → ℕ → Option Ended) → Registry → ℕ → Found → Logging Snapshot
parse_found_logged ctx ctx_subs r hive_len f = elim f.nodes [
  | [] ↦ no_keys f
  | first ∷ others ↦ do
    kept ← parse_keys_logged ctx ctx_subs r hive_len (first ∷ others) keys
    pure (ok (record { legacy = false; keys = kept }))
]

-- `Parse`, with the log before and after.
unfoldable pub parse_logged :
    (ℕ → ℕ)
    → (Text → Option Ended)
    → (Text → ℕ → Option Ended)
    → (Bytes → Option Registry)
    → Bytes
    → Logging Snapshot
parse_logged fold ctx ctx_subs open_hive hive = do
  r ← pure (from_option bad_base_block (open_hive hive))
  base ← pure (from_option not_amcache r.base)
  top ← pure (checked_subkeys r base)
  root ← pure (from_option not_amcache (find_node fold (codes "Root") top))
  children ← pure (checked_subkeys r root)
  parse_found_logged ctx ctx_subs r (length hive)
      (classify fold children (record { nodes = []; legacy = false }))
