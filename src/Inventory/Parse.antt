-- ===== src/Inventory/Parse.antt =====
-- `Parse` of internal/inventory/inventory.go: the seven keys of a hive, over what the registry parser
-- reads of it.
pub mod Inverted
pub mod Laws
pub mod Reference
pub mod Times
pub mod Contents
pub mod Complete
use amcache.Base.{
  ℕ, zero, suc, ◌/◌, ◌%◌, Bool, true, false, ◌&&◌, ◌||◌, not, Option, none, some, List, [], ◌∷◌,
  if◌then◌else◌, ltb, ◌==◌, length, Result, ok, err, ◌>>=◌,
}
use amcache.Base.Text.{Text, codes, text_eq, text_leb, to_lower}
use amcache.Hive.Regf.{Bytes, Ended}
use amcache.Inventory.{Record, Snapshot, Table, lookup, keys}
use amcache.Inventory.Slots.{Cells, IndexError, index_slots, max_subkeys}
use amcache.Inventory.Values.{
  Value, Decoded, decoded, skipped, parser_panic, latin1, utf16le, value_name, decode, max_values,
  last_write_of,
}

-- CM_KEY_NODE; no values are a panic of the walk over them.
pub record Node : Type 0 where
  pub flags : ℕ
  pub name_bytes : Bytes
  pub filetime : ℕ
  pub list_cell : ℕ
  pub value_count : ℕ
  pub values : Option (List Value)

-- A registry that the parser has opened: the root cell's key node, the cells, and `Subkeys`.
pub record Registry : Type 0 where
  pub base : Option Node
  pub cells : Cells
  pub payload : ℕ → ℕ
  pub nodes : Node → List Node

pub data ParseError : Type 0 where
  bad_base_block not_amcache : ParseError
  index_rejected : IndexError → ParseError
  context_ended : Ended → ParseError

-- `strings.EqualFold`; beyond ASCII, `fold` gives of the runes that fold together the one that stands
-- for them, a lowercase letter of ASCII where there is one (U+017F folds with s).
abbrev pub equal_fold : (ℕ → ℕ) → Text → Text → Bool
equal_fold fold s t = text_eq (to_lower fold s) (to_lower fold t)

-- `nodeName`: flag 0x20 tells a compressed name.
unfoldable pub node_name : Node → Text
node_name n = if not (n.flags / 32 % 2 == 0) then latin1 n.name_bytes else utf16le n.name_bytes

-- `subkeys`.
unfoldable pub subkeys : Registry → Node → Result IndexError (List Node)
subkeys r n =
    if r.cells.signature n.list_cell == 0
    then ok []
    else elim (index_slots r.cells n.list_cell max_subkeys) [
      | err e ↦ err e
      | ok total ↦ ok (r.nodes n)
    ]

-- The loop over the values: none where the parser panics. An assignment goes in front.
unfoldable pub add_values : Registry → ℕ → List Value → Table Text → Option (Table Text)
add_values r hive_len [] t = some t
add_values r hive_len (v ∷ vs) t = elim (decode r.cells r.payload hive_len v) [
  | parser_panic ↦ none
  | skipped ↦ add_values r hive_len vs t
  | decoded s ↦ add_values r hive_len vs ((value_name v, s) ∷ t)
]

abbrev pub named : Node → Table Text → Record
named n t = record { name = node_name n; last_write = last_write_of n.filetime; values = t }

-- `record`: none is a record that is left out after a panic.
unfoldable pub record_of : Registry → ℕ → Node → Option Record
record_of r hive_len n = if ltb max_values n.value_count then some (named n []) else elim n.values [
  | none ↦ none
  | some vs ↦ elim (add_values r hive_len vs []) [ none ↦ none | some t ↦ some (named n t) ]
]

abbrev pub keep_record : Option Record → List Record → List Record
keep_record none recs = recs
keep_record (some rec) recs = rec ∷ recs

-- The context is asked at every 1024th subkey.
unfoldable pub ask : (ℕ → Option Ended) → ℕ → Result ParseError (Unit {0})
ask ctx i =
    if i % 1024 == 0
    then (elim (ctx i) [ none ↦ ok tt | some e ↦ err (context_ended e) ])
    else ok tt

-- The loop over a key's subkeys from subkey `i` on.
unfoldable pub parse_records :
    (ℕ → Option Ended) → Registry → ℕ → ℕ → List Node → Result ParseError (List Record)
parse_records ctx r hive_len i [] = ok []
parse_records ctx r hive_len i (n ∷ ns) = do
  _ ← ask ctx i
  recs ← parse_records ctx r hive_len (suc i) ns
  ok (keep_record (record_of r hive_len n) recs)

-- Insertion in front of the first name that is not smaller.
unfoldable pub insert_record : Record → List Record → List Record
insert_record a [] = a ∷ []
insert_record a (b ∷ l) =
    let rest = insert_record a l in if text_leb a.name b.name then a ∷ b ∷ l else b ∷ rest

-- `slices.SortStableFunc` by name.
unfoldable pub sort_records : List Record → List Record
sort_records [] = []
sort_records (a ∷ l) = insert_record a (sort_records l)

-- The first node of that name.
unfoldable pub find_node : (ℕ → ℕ) → Text → List Node → Option Node
find_node fold name [] = none
find_node fold name (n ∷ ns) =
    let rest = find_node fold name ns in if equal_fold fold (node_name n) name then some n else rest

-- The first inventory key that a name is.
unfoldable pub key_of : (ℕ → ℕ) → Text → List Text → Option Text
key_of fold name [] = none
key_of fold name (k ∷ ks) =
    let rest = key_of fold name ks in if equal_fold fold name k then some k else rest

-- `found` and `legacy` after the loop over the children of Root.
pub record Found : Type 0 where
  pub nodes : Table Node
  pub legacy : Bool

abbrev is_legacy : (ℕ → ℕ) → Text → Bool
is_legacy fold name = equal_fold fold name (codes "File") || equal_fold fold name (codes "Programs")

unfoldable pub classify : (ℕ → ℕ) → List Node → Found → Found
classify fold [] f = f
classify fold (n ∷ ns) f = classify fold ns (record {
  nodes = elim (key_of fold (node_name n) keys) [ none ↦ f.nodes | some k ↦ (k, n) ∷ f.nodes ];
  legacy = f.legacy || is_legacy fold (node_name n);
})

-- One key of the hive: none where its index is rejected.
unfoldable pub parse_key :
    (ℕ → Option Ended) → Registry → ℕ → Node → Result ParseError (Option (List Record))
parse_key ctx r hive_len n = elim (subkeys r n) [
  | err e ↦ ok none
  | ok subs ↦ elim (parse_records ctx r hive_len 0 subs) [
    | err e ↦ err e
    | ok recs ↦ ok (some (sort_records recs))
  ]
]

abbrev pub keep_key : Text → Option (List Record) → Table (List Record) → Table (List Record)
keep_key k none rest = rest
keep_key k (some recs) rest = (k, recs) ∷ rest

-- The loop over the keys. `ctx k` is the context's answer before key `k`, `ctx_subs k` those within.
unfoldable pub parse_keys :
    (Text → Option Ended)
    → (Text → ℕ → Option Ended)
    → Registry
    → ℕ
    → Table Node
    → List Text
    → Result ParseError (Table (List Record))
parse_keys ctx ctx_subs r hive_len found [] = ok []
parse_keys ctx ctx_subs r hive_len found (k ∷ ks) = elim (lookup k found) [
  | none ↦ parse_keys ctx ctx_subs r hive_len found ks
  | some n ↦ elim (ctx k) [
    | some e ↦ err (context_ended e)
    | none ↦ elim (parse_key (ctx_subs k) r hive_len n) [
      | err e ↦ err e
      | ok kept ↦ elim (parse_keys ctx ctx_subs r hive_len found ks) [
        | err e ↦ err e
        | ok rest ↦ ok (keep_key k kept rest)
      ]
    ]
  ]
]

-- After the children of Root have been classified.
unfoldable pub parse_found :
    (Text → Option Ended)
    → (Text → ℕ → Option Ended)
    → Registry
    → ℕ
    → Found
    → Result ParseError Snapshot
parse_found ctx ctx_subs r hive_len f = elim f.nodes [
  | [] ↦ (if f.legacy then ok (record { legacy = true; keys = [] }) else err not_amcache)
  | first ∷ others ↦ elim (parse_keys ctx ctx_subs r hive_len (first ∷ others) keys) [
    | err e ↦ err e
    | ok kept ↦ ok (record { legacy = false; keys = kept })
  ]
]

abbrev pub checked_subkeys : Registry → Node → Result ParseError (List Node)
checked_subkeys r n = elim (subkeys r n) [ err e ↦ err (index_rejected e) | ok l ↦ ok l ]

unfoldable pub from_option : {A : Type 0} → ParseError → Option A → Result ParseError A
from_option e none = err e
from_option e (some a) = ok a

-- `Parse`; `open` is what the parser makes of the bytes.
unfoldable pub parse :
    (ℕ → ℕ)
    → (Text → Option Ended)
    → (Text → ℕ → Option Ended)
    → (Bytes → Option Registry)
    → Bytes
    → Result ParseError Snapshot
parse fold ctx ctx_subs open_hive hive = do
  r ← from_option bad_base_block (open_hive hive)
  base ← from_option not_amcache r.base
  top ← checked_subkeys r base
  root ← from_option not_amcache (find_node fold (codes "Root") top)
  children ← checked_subkeys r root
  parse_found ctx ctx_subs r (length hive)
      (classify fold children (record { nodes = []; legacy = false }))
