-- ===== src/Inventory/Parse/Laws.antt =====
-- What `Parse` gives: only the seven keys, each with its records in the order of their names, and no
-- key at all for a legacy hive; and the bound on the nodes of a subkey index.
use amcache.Base.{
  ℕ, ◌+◌, ◌≤◌, ◌≡◌, refl, Bool, true, false, ◌&&◌, Option, none, some, List, [], ◌∷◌, ◌==◌, length,
  ok, arith, Bool-cases, Option-cases, Result-cases, inl, inr, sym, ok_injective, ok-ne-err,
  >>=-eq-ok, ◌⊎◌,
}
use mathlib.Core.Path.{subst}
use amcache.Base.Text.{Text, text_leb, codes}
use amcache.Hive.Regf.{Bytes, Ended}
use amcache.Inventory.{Record, Snapshot, Table, lookup, keys}
use amcache.Inventory.Slots.{index_slots, max_subkeys}
use amcache.Inventory.Slots.Count.{slots, index_slots_exact}
use amcache.Inventory.Parse.Inverted.{parse_key-eq-ok, parse_keys_absent, parse_keys_present}
use amcache.Inventory.Parse.{
  Node, Registry, subkeys, checked_subkeys, insert_record, sort_records, Found, classify, parse_key,
  parse_keys, parse_found, keep_key, parse, from_option, find_node,
}

text_leb-total : (s t : Text) → text_leb s t ≡ false → text_leb t s ≡ true
unfolding text_leb
text_leb-total [] t h = cc
text_leb-total (x ∷ xs) [] h = refl
text_leb-total (x ∷ xs) (y ∷ ys) h = ground (arith, text_leb-total xs ys)

abbrev is_ahead : Record → List Record → Bool
is_ahead a [] = true
is_ahead a (b ∷ l) = text_leb a.name b.name

-- Each record's name is at most the next one's.
abbrev pub is_ordered : List Record → Bool
is_ordered [] = true
is_ordered (a ∷ l) = is_ahead a l && is_ordered l

is_ahead-insert_record :
    (a b : Record) (l : List Record)
    → text_leb a.name b.name ≡ true
    → is_ahead a l ≡ true
    → is_ahead a (insert_record b l) ≡ true
unfolding insert_record
is_ahead-insert_record a b [] h k = h
is_ahead-insert_record a b (c ∷ l) h k = ground arith

is_ordered-insert_record :
    (a : Record) (l : List Record) → is_ordered l ≡ true → is_ordered (insert_record a l) ≡ true
unfolding insert_record
is_ordered-insert_record a [] h = refl
is_ordered-insert_record a (b ∷ l) h = elim (Bool-cases (text_leb a.name b.name)) [
  | inl e ↦ ground arith
  | inr e ↦ ground (
    arith,
    is_ahead-insert_record b a l (text_leb-total a.name b.name e),
    is_ordered-insert_record a l,
  )
]

pub is_ordered-sort_records : (l : List Record) → is_ordered (sort_records l) ≡ true
unfolding sort_records
is_ordered-sort_records [] = refl
is_ordered-sort_records (a ∷ l) =
    is_ordered-insert_record a (sort_records l) (is_ordered-sort_records l)

abbrev KeptOrdered : Option (List Record) → Type 0
KeptOrdered none = Unit
KeptOrdered (some recs) = is_ordered recs ≡ true

parse_key-KeptOrdered :
    (ctx : ℕ → Option Ended) (r : Registry) (hive_len : ℕ) (n : Node) (kept : Option (List Record))
    → parse_key ctx r hive_len n ≡ ok kept
    → KeptOrdered kept
parse_key-KeptOrdered ctx r hive_len n kept h = elim (parse_key-eq-ok r hive_len ctx n kept h) [
  | inl (e, x, same) ↦ subst KeptOrdered same tt
  | inr (subs, recs, x, y, same) ↦ subst KeptOrdered same (is_ordered-sort_records recs)
]

-- The keys are among `ks`, in that order, each with its records ordered.
abbrev pub KeysOrdered : List Text → Table (List Record) → Type 0
KeysOrdered [] [] = Unit
KeysOrdered [] (x ∷ t) = ⊥
KeysOrdered (k ∷ ks) [] = Unit
KeysOrdered (k ∷ ks) ((j, recs) ∷ t) =
    ((k ≡ j) × (is_ordered recs ≡ true) × KeysOrdered ks t) ⊎ KeysOrdered ks ((j, recs) ∷ t)

KeysOrdered-nil : (ks : List Text) → KeysOrdered ks []
KeysOrdered-nil [] = tt
KeysOrdered-nil (k ∷ ks) = tt

KeysOrdered-later :
    (k : Text) (ks : List Text) (t : Table (List Record))
    → KeysOrdered ks t
    → KeysOrdered (k ∷ ks) t
KeysOrdered-later k ks [] h = tt
KeysOrdered-later k ks ((j, recs) ∷ t) h = inr h

KeysOrdered-keep_key :
    (k : Text) (ks : List Text) (kept : Option (List Record)) (rest : Table (List Record))
    → KeptOrdered kept
    → KeysOrdered ks rest
    → KeysOrdered (k ∷ ks) (keep_key k kept rest)
KeysOrdered-keep_key k ks none rest h a = KeysOrdered-later k ks rest a
KeysOrdered-keep_key k ks (some recs) rest h a = inl (refl, h, a)

-- A snapshot has the seven keys at most, and none where it is marked as legacy.
abbrev pub IsSnapshot : Snapshot → Type 0
IsSnapshot s = KeysOrdered keys s.keys × (s.legacy ≡ true → s.keys ≡ [])

module _ (ctx : Text → Option Ended) (ctx_subs : Text → ℕ → Option Ended) (r : Registry)
    (hive_len : ℕ) where
  parse_keys-KeysOrdered :
      (found : Table Node) (ks : List Text) (t : Table (List Record))
      → parse_keys ctx ctx_subs r hive_len found ks ≡ ok t
      → KeysOrdered ks t
  unfolding parse_keys
  parse_keys-KeysOrdered found [] t h = subst (KeysOrdered []) (ok_injective h) tt
  parse_keys-KeysOrdered found (k ∷ ks) t h = elim (Option-cases (lookup k found)) [
    | inl x ↦ KeysOrdered-later k ks t (
        parse_keys-KeysOrdered found ks t
          (parse_keys_absent r hive_len ctx ctx_subs found k ks t x h))
    | inr (n, x) ↦
        let (kept, rest, y, z, u, same) =
          parse_keys_present r hive_len ctx ctx_subs found k ks t n x h in
        subst (KeysOrdered (k ∷ ks)) same (
          KeysOrdered-keep_key k ks kept rest
            (parse_key-KeptOrdered (ctx_subs k) r hive_len n kept z)
            (parse_keys-KeysOrdered found ks rest u))
  ]

  nodes-IsSnapshot :
      (nodes : Table Node) (legacy : Bool) (s : Snapshot)
      → parse_found ctx ctx_subs r hive_len (record { nodes = nodes; legacy = legacy }) ≡ ok s
      → IsSnapshot s
  unfolding parse_found
  nodes-IsSnapshot [] false s h = absurd (ok-ne-err _ _ (sym h))
  nodes-IsSnapshot [] true s h = subst IsSnapshot (ok_injective h) (KeysOrdered-nil keys, λ e. refl)
  nodes-IsSnapshot (n ∷ ns) legacy s h =
      elim (Result-cases (parse_keys ctx ctx_subs r hive_len (n ∷ ns) keys)) [
        | inr (e, x) ↦ absurd (ok-ne-err _ _ (sym (rw (x, parse_found) at h)))
        | inl (t, x) ↦
            subst IsSnapshot (ok_injective (rw (x, parse_found) at h))
              (parse_keys-KeysOrdered (n ∷ ns) keys t x, λ e. cc)
      ]

-- A snapshot that `Parse` gives holds none but the seven keys, in their order, each with its records
-- sorted by name; a snapshot that is marked as legacy holds none.
pub parse-IsSnapshot :
    (fold : ℕ → ℕ) (ctx : Text → Option Ended) (ctx_subs : Text → ℕ → Option Ended)
    (open_hive : Bytes → Option Registry) (hive : Bytes) (s : Snapshot)
    → parse fold ctx ctx_subs open_hive hive ≡ ok s
    → IsSnapshot s
unfolding parse
parse-IsSnapshot fold ctx ctx_subs open_hive hive s h =
    let (r, opened, h1) = >>=-eq-ok (from_option _ (open_hive hive)) _ h in
    let (base, found_base, h2) = >>=-eq-ok (from_option _ r.base) _ h1 in
    let (top, listed, h3) = >>=-eq-ok (checked_subkeys r base) _ h2 in
    let (root, found_root, h4) =
      >>=-eq-ok (from_option _ (find_node fold (codes "Root") top)) _ h3 in
    let (children, inside, h5) = >>=-eq-ok (checked_subkeys r root) _ h4 in
    let f : Found = classify fold children (record { nodes = []; legacy = false }) in
    nodes-IsSnapshot ctx ctx_subs r (length hive) f.nodes f.legacy s h5

-- What is relied on of the parser's `Subkeys`: where the recursive walk of a node's index ends, it
-- gives no more nodes than that walk counts.
abbrev pub FollowsIndex : Registry → Type 0
FollowsIndex r =
    (n : Node) (t : ℕ) → ((d : ℕ) → slots r.cells (33 + d) n.list_cell ≡ t) → length (r.nodes n) ≤ t

-- The one place that asks the parser for a node's subkeys gets no more of them than the cap, whatever
-- the hive declares.
pub length-subkeys_bounds :
    (r : Registry) (n : Node) (l : List Node)
    → FollowsIndex r
    → subkeys r n ≡ ok l
    → length l ≤ max_subkeys
unfolding subkeys
length-subkeys_bounds r n l follows h = elim (Bool-cases (r.cells.signature n.list_cell == 0)) [
  | inl none_there ↦
      subst (λ (m : List Node). length m ≤ max_subkeys) (ok_injective (rw none_there at h))
        (omega arith)
  | inr some_there ↦ elim (Result-cases (index_slots r.cells n.list_cell max_subkeys)) [
    | inr (e, x) ↦ absurd (ok-ne-err _ _ (sym (rw (some_there, x) at h)))
    | inl (t, x) ↦
        let (within, counted) = index_slots_exact r.cells n.list_cell max_subkeys t x in
        let all : length (r.nodes n) ≤ max_subkeys = omega (arith, follows n t counted, within) in
        subst (λ (m : List Node). length m ≤ max_subkeys) (ok_injective (rw (some_there, x) at h))
          all
  ]
]
