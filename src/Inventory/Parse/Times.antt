-- ===== src/Inventory/Parse/Times.antt =====
-- Every record of a snapshot was last written before the year 2100, or at no known time.
use mathlib.Core.List.{Permᴰ}
use mathlib.Core.Path.{subst}
use amcache.Base.{
  ℕ, ◌<◌, ◌≡◌, refl, Option, none, some, List, [], ◌∷◌, length, ok, All, Bool-cases, Option-cases,
  inl, inr, sym, ap, ltb,
}
use mathlib.Core.Option.{some-injective, none-ne-some}
use amcache.Base.Text.{Text}
use amcache.Hive.Regf.{Bytes, Ended}
use amcache.Inventory.{Record, Snapshot, Table}
use amcache.Inventory.Values.{max_values, last_write_of}
use amcache.Inventory.Values.Laws.{last_write_of_exact}
use amcache.Inventory.Parse.{Node, Registry, record_of, keep_record, add_values, parse}
use amcache.Inventory.Parse.Reference.{records_of_nodes, IsListing, IsRead, parse-IsRead}

abbrev pub IsInTime : Record → Type 0
IsInTime rec = rec.last_write < 4102444800

record_of-last_write :
    (r : Registry) (hive_len : ℕ) (n : Node) (rec : Record)
    → record_of r hive_len n ≡ some rec
    → rec.last_write ≡ last_write_of n.filetime
unfolding record_of
record_of-last_write r hive_len n rec h = elim (Bool-cases (ltb max_values n.value_count)) [
  | inl e ↦ ap (λ (q : Record). q.last_write) (sym (some-injective _ _ (rw (e, record_of) at h)))
  | inr e ↦ elim (Option-cases n.values) [
    | inl x ↦ absurd (none-ne-some rec (rw (e, x, record_of) at h))
    | inr (vs, x) ↦ elim (Option-cases (add_values r hive_len vs [])) [
      | inl y ↦ absurd (none-ne-some rec (rw (e, x, y, record_of) at h))
      | inr (t, y) ↦
          ap (λ (q : Record). q.last_write)
            (sym (some-injective _ _ (rw (e, x, y, record_of) at h)))
    ]
  ]
]

record_of-IsInTime :
    (r : Registry) (hive_len : ℕ) (n : Node) (rec : Record)
    → record_of r hive_len n ≡ some rec
    → IsInTime rec
record_of-IsInTime r hive_len n rec h =
    let (below, _, _, _) = last_write_of_exact n.filetime in
    subst (λ t. t < 4102444800) (sym (record_of-last_write r hive_len n rec h)) below

All-keep_record :
    (P : Record → Type 0) (o : Option Record) (recs : List Record)
    → ((rec : Record) → o ≡ some rec → P rec)
    → All P recs
    → All P (keep_record o recs)
All-keep_record P none recs h a = a
All-keep_record P (some rec) recs h a = (h rec refl, a)

records_of_nodes-IsInTime :
    (r : Registry) (hive_len : ℕ) (ns : List Node) → All IsInTime (records_of_nodes r hive_len ns)
records_of_nodes-IsInTime r hive_len [] = tt
records_of_nodes-IsInTime r hive_len (n ∷ ns) =
    All-keep_record IsInTime (record_of r hive_len n) (records_of_nodes r hive_len ns)
      (record_of-IsInTime r hive_len n) (records_of_nodes-IsInTime r hive_len ns)

All-perm : (P : Record → Type 0) {l m : List Record} → Permᴰ l m → All P m → All P l
All-perm P Permᴰ.nil a = a
All-perm P (Permᴰ.cons e p) a = (subst P (sym e) a.0, All-perm P p a.1)
All-perm P (Permᴰ.swap e f) a = (subst P (sym e) a.1.0, (subst P (sym f) a.0, a.1.1))
All-perm P (Permᴰ.trans p q) a = All-perm P p (All-perm P q a)

IsListing-IsInTime :
    (r : Registry) (hive_len : ℕ) (found : Table Node) (t : Table (List Record))
    → All (IsListing r hive_len found) t
    → All (λ (e : Text × List Record). All IsInTime e.1) t
IsListing-IsInTime r hive_len found [] h = tt
IsListing-IsInTime r hive_len found ((k, recs) ∷ t) ((n, subs, _, _, p, _), h) = (
  All-perm IsInTime p (records_of_nodes-IsInTime r hive_len subs),
  IsListing-IsInTime r hive_len found t h,
)

pub parse-IsInTime :
    (fold : ℕ → ℕ) (ctx : Text → Option Ended) (ctx_subs : Text → ℕ → Option Ended)
    (open_hive : Bytes → Option Registry) (hive : Bytes) (s : Snapshot)
    → parse fold ctx ctx_subs open_hive hive ≡ ok s
    → All (λ (e : Text × List Record). All IsInTime e.1) s.keys
parse-IsInTime fold ctx ctx_subs open_hive hive s h =
    let i : IsRead fold open_hive hive s = parse-IsRead fold ctx ctx_subs open_hive hive s h in
    IsListing-IsInTime i.reg (length hive) _ s.keys i.listings
