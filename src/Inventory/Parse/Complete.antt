-- ===== src/Inventory/Parse/Complete.antt =====
-- No record is lost to a panic of a parser that reads as it is documented to.
use mathlib.Core.List.{Permᴰ}
use mathlib.Core.Path.{subst}
use mathlib.Core.Option.{none-ne-some}
use amcache.Base.{
  ℕ, suc, ◌≡◌, ◌≢◌, refl, Option, none, some, List, [], ◌∷◌, length, ok, All, Bool-cases,
  Option-cases, inl, inr, sym, ap, ◌∙◌, ltb, ◌==◌, Result-cases, ok_injective, ok-ne-err,
}
use amcache.Base.Text.{Text}
use amcache.Hive.Regf.{Bytes, Ended}
use amcache.Inventory.{Record, Snapshot, Table, lookup}
use amcache.Inventory.Slots.{index_slots, max_subkeys}
use amcache.Inventory.Values.{Value, max_values, decode, value_name}
use amcache.Inventory.Values.Guarded.{ReadsValue, decode-ne-parser_panic}
use amcache.Inventory.Values.Laws.{Decoded-cases}
use amcache.Inventory.Parse.{Node, Registry, record_of, add_values, subkeys, parse}
use amcache.Inventory.Parse.Contents.{found_nodes}
use amcache.Inventory.Parse.Reference.{records_of_nodes, IsListing, IsRead, parse-IsRead}

-- The parser walks the node's values without a panic, and reads each of them as documented.
abbrev pub IsReadable : Registry → ℕ → Node → Type 0
IsReadable r hive_len n =
    (vs : List Value) × (n.values ≡ some vs) × All (ReadsValue r.cells r.payload hive_len) vs

module _ (r : Registry) (hive_len : ℕ) where
  add_values-ne-none :
      (vs : List Value) (t : Table Text)
      → All (ReadsValue r.cells r.payload hive_len) vs
      → add_values r hive_len vs t ≢ none
  unfolding add_values
  add_values-ne-none [] t a h = cc
  add_values-ne-none (v ∷ vs) t (reads, a) h =
      elim (Decoded-cases (decode r.cells r.payload hive_len v)) [
        | inl e ↦ decode-ne-parser_panic r.cells r.payload hive_len v reads e
        | inr (inl e) ↦ add_values-ne-none vs t a (rw (e, add_values) at h)
        | inr (inr (s, e)) ↦
            add_values-ne-none vs ((value_name v, s) ∷ t) a (rw (e, add_values) at h)
      ]

  record_of-ne-none : (n : Node) → IsReadable r hive_len n → record_of r hive_len n ≢ none
  unfolding record_of
  record_of-ne-none n (vs, x, a) h = elim (Bool-cases (ltb max_values n.value_count)) [
    | inl e ↦ none-ne-some _ (sym (rw (e, record_of) at h))
    | inr e ↦ elim (Option-cases (add_values r hive_len vs [])) [
      | inl y ↦ add_values-ne-none vs [] a y
      | inr (t, y) ↦ none-ne-some _ (sym (rw (e, x, y, record_of) at h))
    ]
  ]

  length-records_of_nodes :
      (ns : List Node)
      → All (IsReadable r hive_len) ns
      → length (records_of_nodes r hive_len ns) ≡ length ns
  length-records_of_nodes [] a = refl
  length-records_of_nodes (n ∷ ns) (readable, a) = elim (Option-cases (record_of r hive_len n)) [
    | inl e ↦ absurd (record_of-ne-none n readable e)
    | inr (rec, e) ↦ rw e (ap suc (length-records_of_nodes ns a))
  ]

length-perm : {l m : List Record} → Permᴰ l m → length l ≡ length m
length-perm Permᴰ.nil = refl
length-perm (Permᴰ.cons e p) = ap suc (length-perm p)
length-perm (Permᴰ.swap e f) = refl
length-perm (Permᴰ.trans p q) = length-perm p ∙ length-perm q

-- A key of a snapshot with as many records as its node has subkeys.
abbrev pub IsFull : Registry → Table Node → Text × List Record → Type 0
IsFull r found (k, recs) =
    (n : Node) × (subs : List Node) × (lookup k found ≡ some n)
    × (subkeys r n ≡ ok subs)
    × (length recs ≡ length subs)

module _ (r : Registry) (hive_len : ℕ) (found : Table Node)
    (readable : (n : Node) → All (IsReadable r hive_len) (r.nodes n)) where
  subkeys-IsReadable :
      (n : Node) (subs : List Node) → subkeys r n ≡ ok subs → All (IsReadable r hive_len) subs
  unfolding subkeys
  subkeys-IsReadable n subs h = elim (Bool-cases (r.cells.signature n.list_cell == 0)) [
    | inl none_there ↦ subst (All (IsReadable r hive_len)) (ok_injective (rw none_there at h)) tt
    | inr some_there ↦ elim (Result-cases (index_slots r.cells n.list_cell max_subkeys)) [
      | inr (e, x) ↦ absurd (ok-ne-err _ _ (sym (rw (some_there, x) at h)))
      | inl (t, x) ↦
          subst (All (IsReadable r hive_len)) (ok_injective (rw (some_there, x) at h)) (readable n)
    ]
  ]

  IsListing-IsFull :
      (t : Table (List Record)) → All (IsListing r hive_len found) t → All (IsFull r found) t
  IsListing-IsFull [] a = tt
  IsListing-IsFull ((k, recs) ∷ t) ((n, subs, at, listed, p, _), a) = (
    (
      n,
      subs,
      at,
      listed,
      length-perm p ∙ length-records_of_nodes r hive_len subs (subkeys-IsReadable n subs listed),
    ),
    IsListing-IsFull t a,
  )

-- Where the parser reads the values below every node as it is documented to, each key of a snapshot
-- that `Parse` gives has exactly as many records as its node has subkeys: the guards leave no value
-- on which the parser panics, so that no record is skipped, however the values are declared.
pub parse-IsFull :
    (fold : ℕ → ℕ) (ctx : Text → Option Ended) (ctx_subs : Text → ℕ → Option Ended)
    (open_hive : Bytes → Option Registry) (hive : Bytes) (s : Snapshot)
    → ((r : Registry)
        → open_hive hive ≡ some r
        → (n : Node) → All (IsReadable r (length hive)) (r.nodes n))
    → parse fold ctx ctx_subs open_hive hive ≡ ok s
    → (i : IsRead fold open_hive hive s) × All (IsFull i.reg (found_nodes i)) s.keys
parse-IsFull fold ctx ctx_subs open_hive hive s readable h =
    let i : IsRead fold open_hive hive s = parse-IsRead fold ctx ctx_subs open_hive hive s h in
    (
      i,
      IsListing-IsFull i.reg (length hive) (found_nodes i) (readable i.reg i.opened) s.keys
          i.listings,
    )
