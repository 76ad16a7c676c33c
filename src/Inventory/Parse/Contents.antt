-- ===== src/Inventory/Parse/Contents.antt =====
-- What a snapshot has under a key.
use mathlib.Core.List.{Permᴰ}
use mathlib.Core.Path.{subst}
use amcache.Base.{
  ℕ, ◌≡◌, refl, Bool, true, false, Option, none, some, List, [], ◌∷◌, if◌then◌else◌, ok, err,
  Bool-cases, inl, inr, sym, ap, ◌∙◌, Result, length, arith,
}
use amcache.Base.Once.{is_listed, text_key}
use amcache.Base.Text.{Text, text_eq, text_eq→eq}
use amcache.Hive.Regf.{Bytes}
use amcache.Inventory.{Record, Snapshot, Table, lookup, keys}
use amcache.Inventory.Slots.{IndexError}
use amcache.Inventory.Parse.{Node, Registry, classify, subkeys, keep_key}
use amcache.Inventory.Parse.Reference.{
  IsRead, read_key, read_keys, read_subkeys, records_of_nodes, sort_records-perm,
}

abbrev pub or_none : Option (List Record) → List Record
or_none none = []
or_none (some recs) = recs

-- The records of the subkeys, in the order of the index.
abbrev pub unsorted : Registry → ℕ → Result IndexError (List Node) → List Record
unsorted r hive_len (err e) = []
unsorted r hive_len (ok subs) = records_of_nodes r hive_len subs

abbrev pub records_below : Registry → ℕ → Option Node → List Record
records_below r hive_len none = []
records_below r hive_len (some n) = unsorted r hive_len (subkeys r n)

-- All records that a hive has below a key: none where there is no such key, or where its index is
-- rejected.
abbrev pub hive_records : Registry → ℕ → Table Node → Text → List Record
hive_records r hive_len found k = records_below r hive_len (lookup k found)

module _ (r : Registry) (hive_len : ℕ) (found : Table Node) (k : Text) where
  lookup-keep_key :
      (j : Text) (kept : Option (List Record)) (rest : Table (List Record))
      → lookup k (keep_key j kept rest) ≡ (
          if text_eq k j
          then (elim kept [ none ↦ lookup k rest | some recs ↦ some recs ])
          else lookup k rest)
  unfolding lookup
  lookup-keep_key j none rest = ground arith
  lookup-keep_key j (some recs) rest = ground arith

  found_first :
      (o x : Option (List Record)) (b : Bool)
      → x ≡ (if b then o else none)
      → (elim o [ none ↦ x | some recs ↦ some recs ]) ≡ o
  found_first none x true h = h
  found_first none x false h = h
  found_first (some recs) x b h = refl

  lookup-read_keys :
      (ks : List Text)
      → lookup k (read_keys r hive_len found ks)
        ≡ (if is_listed k ks then read_key r hive_len (lookup k found) else none)
  unfolding lookup
  lookup-read_keys [] = refl
  lookup-read_keys (j ∷ ks) =
      let rest = read_keys r hive_len found ks in
      let kept : Text → Option (List Record) = λ i. read_key r hive_len (lookup i found) in
      lookup-keep_key j (kept j) rest ∙ elim (Bool-cases (text_eq k j)) [
        | inl e ↦ rw e (
            subst (λ i. (elim (kept i) [ none ↦ lookup k rest | some recs ↦ some recs ]) ≡ kept k)
              (text_eq→eq k j e)
              (found_first (kept k) (lookup k rest) (is_listed k ks) (lookup-read_keys ks)))
        | inr e ↦ rw e (lookup-read_keys ks)
      ]

read_subkeys-perm :
    (r : Registry) (hive_len : ℕ) (subs : Result IndexError (List Node))
    → Permᴰ (or_none (read_subkeys r hive_len subs)) (unsorted r hive_len subs)
read_subkeys-perm r hive_len (err e) = Permᴰ.nil
read_subkeys-perm r hive_len (ok subs) = sort_records-perm (records_of_nodes r hive_len subs)

read_key-perm :
    (r : Registry) (hive_len : ℕ) (o : Option Node)
    → Permᴰ (or_none (read_key r hive_len o)) (records_below r hive_len o)
read_key-perm r hive_len none = Permᴰ.nil
read_key-perm r hive_len (some n) = read_subkeys-perm r hive_len (subkeys r n)

-- The key nodes that were found.
abbrev pub found_nodes :
    {fold : ℕ → ℕ} {open_hive : Bytes → Option Registry} {hive : Bytes} {inv : Snapshot}
    → IsRead fold open_hive hive inv
    → Table Node
found_nodes {fold = fold} i =
    (classify fold i.children (record { nodes = []; legacy = false })).nodes

-- A snapshot has under each of the seven keys the hive's records, in another order.
pub snapshot_records :
    (fold : ℕ → ℕ) (open_hive : Bytes → Option Registry) (hive : Bytes) (inv : Snapshot)
    (i : IsRead fold open_hive hive inv) (k : Text)
    → is_listed k keys ≡ true
    → Permᴰ (or_none (lookup k inv.keys)) (hive_records i.reg (length hive) (found_nodes i) k)
snapshot_records fold open_hive hive inv i k known =
    subst (λ o. Permᴰ (or_none o) (hive_records i.reg (length hive) (found_nodes i) k))
      (sym (
        ap (lookup k) i.contents
        ∙ lookup-read_keys i.reg (length hive) (found_nodes i) k keys
        ∙ ap (λ b. if b then read_key i.reg (length hive) (lookup k (found_nodes i)) else none)
            known))
      (read_key-perm i.reg (length hive) (lookup k (found_nodes i)))
