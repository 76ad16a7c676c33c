-- ===== src/Inventory/Parse/Reference.antt =====
-- `Parse` against a reference: what a hive holds, read without the context checks, with no error path
-- but the rejected index of a key.
use mathlib.Core.List.Permᴰ
use mathlib.Core.List.{Permᴰ}
use mathlib.Core.Path.{subst, ap₂}
use mathlib.Core.Option.{some-injective, none-ne-some}
use amcache.Base.{
  ℕ, suc, ◌≡◌, refl, Bool, true, false, Option, none, some, List, [], ◌∷◌, length, ok, err, All,
  Bool-cases, Option-cases, Result-cases, inl, inr, sym, ap, ◌∙◌, ok_injective, ok-ne-err,
  >>=-eq-ok, Result,
}
use amcache.Base.Text.{Text, text_leb, codes}
use amcache.Hive.Regf.{Bytes, Ended}
use amcache.Inventory.{Record, Snapshot, Table, lookup, keys}
use amcache.Inventory.Slots.{IndexError}
use amcache.Inventory.Parse.Inverted.{parse_key-eq-ok, parse_keys_absent, parse_keys_present}
use amcache.Inventory.Parse.{
  Node, Registry, record_of, keep_record, subkeys, checked_subkeys, insert_record, sort_records,
  Found, classify, ask, parse_records, parse_key, parse_keys, parse_found, keep_key, parse,
  from_option, find_node, ParseError,
}
use amcache.Inventory.Parse.Laws.{is_ordered, is_ordered-sort_records}

-- The records of the subkeys, those left out where reading one panics.
abbrev pub records_of_nodes : Registry → ℕ → List Node → List Record
records_of_nodes r hive_len [] = []
records_of_nodes r hive_len (n ∷ ns) =
    keep_record (record_of r hive_len n) (records_of_nodes r hive_len ns)

-- A key that was found and whose index is not rejected.
abbrev pub read_subkeys : Registry → ℕ → Result IndexError (List Node) → Option (List Record)
read_subkeys r hive_len (err e) = none
read_subkeys r hive_len (ok subs) = some (sort_records (records_of_nodes r hive_len subs))

abbrev pub read_key : Registry → ℕ → Option Node → Option (List Record)
read_key r hive_len none = none
read_key r hive_len (some n) = read_subkeys r hive_len (subkeys r n)

abbrev pub read_keys : Registry → ℕ → Table Node → List Text → Table (List Record)
read_keys r hive_len found [] = []
read_keys r hive_len found (k ∷ ks) =
    keep_key k (read_key r hive_len (lookup k found)) (read_keys r hive_len found ks)

module _ (r : Registry) (hive_len : ℕ) where
  parse_records-eq-ok :
      (ctx : ℕ → Option Ended) (i : ℕ) (ns : List Node) (recs : List Record)
      → parse_records ctx r hive_len i ns ≡ ok recs
      → recs ≡ records_of_nodes r hive_len ns
  unfolding parse_records
  parse_records-eq-ok ctx i [] recs h = sym (ok_injective h)
  parse_records-eq-ok ctx i (n ∷ ns) recs h =
      let (_, _, h1) = >>=-eq-ok (ask ctx i) _ h in
      let (rest, more, h2) = >>=-eq-ok (parse_records ctx r hive_len (suc i) ns) _ h1 in
      sym (ok_injective h2)
      ∙ ap (keep_record (record_of r hive_len n)) (parse_records-eq-ok ctx (suc i) ns rest more)

  parse_key_reads :
      (ctx : ℕ → Option Ended) (n : Node) (kept : Option (List Record))
      → parse_key ctx r hive_len n ≡ ok kept
      → kept ≡ read_subkeys r hive_len (subkeys r n)
  parse_key_reads ctx n kept h = elim (parse_key-eq-ok r hive_len ctx n kept h) [
    | inl (e, x, same) ↦ rw x (sym same)
    | inr (subs, recs, x, y, same) ↦
        rw x (sym same ∙ ap (λ l. some (sort_records l)) (parse_records-eq-ok ctx 0 subs recs y))
  ]

  parse_keys-eq-ok :
      (ctx : Text → Option Ended) (ctx_subs : Text → ℕ → Option Ended) (found : Table Node)
      (ks : List Text) (t : Table (List Record))
      → parse_keys ctx ctx_subs r hive_len found ks ≡ ok t
      → t ≡ read_keys r hive_len found ks
  unfolding parse_keys
  parse_keys-eq-ok ctx ctx_subs found [] t h = sym (ok_injective h)
  parse_keys-eq-ok ctx ctx_subs found (k ∷ ks) t h = elim (Option-cases (lookup k found)) [
    | inl x ↦ rw x (
        parse_keys-eq-ok ctx ctx_subs found ks t
          (parse_keys_absent r hive_len ctx ctx_subs found k ks t x h))
    | inr (n, x) ↦
        let (kept, rest, y, z, u, same) =
          parse_keys_present r hive_len ctx ctx_subs found k ks t n x h in
        rw x (
          sym same
          ∙ ap₂ (keep_key k) (parse_key_reads (ctx_subs k) n kept z)
              (parse_keys-eq-ok ctx ctx_subs found ks rest u))
  ]

insert_record-perm : (a : Record) (l : List Record) → Permᴰ (insert_record a l) (a ∷ l)
unfolding insert_record
insert_record-perm a [] = Permᴰ.refl (a ∷ [])
insert_record-perm a (b ∷ l) = elim (Bool-cases (text_leb a.name b.name)) [
  | inl e ↦ rw (e, insert_record) (Permᴰ.refl (a ∷ b ∷ l))
  | inr e ↦
      rw (e, insert_record)
        (Permᴰ.trans (Permᴰ.cons refl (insert_record-perm a l)) (Permᴰ.swap refl refl))
]

pub sort_records-perm : (l : List Record) → Permᴰ (sort_records l) l
unfolding sort_records
sort_records-perm [] = Permᴰ.nil
sort_records-perm (a ∷ l) =
    Permᴰ.trans (insert_record-perm a (sort_records l)) (Permᴰ.cons refl (sort_records-perm l))

-- The records of a key: those of its node's subkeys, in another order, that of their names.
abbrev pub IsListing : Registry → ℕ → Table Node → Text × List Record → Type 0
IsListing r hive_len found (k, recs) =
    (n : Node) × (subs : List Node) × (lookup k found ≡ some n)
    × (subkeys r n ≡ ok subs)
    × Permᴰ recs (records_of_nodes r hive_len subs)
    × (is_ordered recs ≡ true)

module _ (r : Registry) (hive_len : ℕ) (found : Table Node) where
  subkeys-IsListing :
      (k : Text) (n : Node) (recs : List Record)
      → lookup k found ≡ some n
      → read_subkeys r hive_len (subkeys r n) ≡ some recs
      → IsListing r hive_len found (k, recs)
  subkeys-IsListing k n recs at h = elim (Result-cases (subkeys r n)) [
    | inr (e, x) ↦ absurd (none-ne-some recs (rw x at h))
    | inl (subs, x) ↦
        let l = records_of_nodes r hive_len subs in
        let same : sort_records l ≡ recs = some-injective _ _ (rw x at h) in
        (
          n,
          subs,
          at,
          x,
          subst (λ recs. Permᴰ recs l) same (sort_records-perm l),
          subst (λ recs. is_ordered recs ≡ true) same (is_ordered-sort_records l),
        )
  ]

  read_keys-IsListing :
      (ks : List Text) → All (IsListing r hive_len found) (read_keys r hive_len found ks)
  read_keys-IsListing [] = tt
  read_keys-IsListing (k ∷ ks) = elim (Option-cases (lookup k found)) [
    | inl x ↦ rw x (read_keys-IsListing ks)
    | inr (n, x) ↦ elim (Option-cases (read_subkeys r hive_len (subkeys r n))) [
      | inl y ↦ rw (x, y) (read_keys-IsListing ks)
      | inr (recs, y) ↦ rw (x, y) (subkeys-IsListing k n recs x y, read_keys-IsListing ks)
    ]
  ]

-- The nodes that are found below Root, and what is read of them.
pub record IsRead (fold : ℕ → ℕ) (open_hive : Bytes → Option Registry) (hive : Bytes) (s : Snapshot)
    : Type 0 where
  pub reg : Registry
  pub base : Node
  pub top : List Node
  pub root : Node
  pub children : List Node
  pub opened : open_hive hive ≡ some reg
  pub based : reg.base ≡ some base
  pub listed : subkeys reg base ≡ ok top
  pub rooted : find_node fold (codes "Root") top ≡ some root
  pub inside : subkeys reg root ≡ ok children
  pub contents :
      s.keys
      ≡ read_keys reg
          (length hive)
          (classify fold children (record { nodes = []; legacy = false })).nodes
          keys
  pub listings :
      All
        (IsListing reg
          (length hive)
          (classify fold children (record { nodes = []; legacy = false })).nodes)
        s.keys

from_option-eq-ok :
    {A : Type 0} (e : ParseError) (o : Option A) (a : A) → from_option e o ≡ ok a → o ≡ some a
unfolding from_option
from_option-eq-ok e none a h = absurd (ok-ne-err _ _ (sym h))
from_option-eq-ok e (some b) a h = ap some (ok_injective h)

checked_subkeys-eq-ok :
    (r : Registry) (n : Node) (l : List Node) → checked_subkeys r n ≡ ok l → subkeys r n ≡ ok l
checked_subkeys-eq-ok r n l h = elim (Result-cases (subkeys r n)) [
  | inl (m, x) ↦ let same : m ≡ l = ok_injective (rw (x, checked_subkeys) at h) in x ∙ ap ok same
  | inr (e, x) ↦ absurd (ok-ne-err _ _ (sym (rw (x, checked_subkeys) at h)))
]

parse_found-contents :
    (ctx : Text → Option Ended) (ctx_subs : Text → ℕ → Option Ended) (r : Registry) (hive_len : ℕ)
    (nodes : Table Node) (legacy : Bool) (s : Snapshot)
    → parse_found ctx ctx_subs r hive_len (record { nodes = nodes; legacy = legacy }) ≡ ok s
    → s.keys ≡ read_keys r hive_len nodes keys
unfolding parse_found lookup
parse_found-contents ctx ctx_subs r hive_len [] false s h = absurd (ok-ne-err _ _ (sym h))
parse_found-contents ctx ctx_subs r hive_len [] true s h =
    ap (λ (t : Snapshot). t.keys) (sym (ok_injective h))
parse_found-contents ctx ctx_subs r hive_len (n ∷ ns) legacy s h =
    elim (Result-cases (parse_keys ctx ctx_subs r hive_len (n ∷ ns) keys)) [
      | inr (e, x) ↦ absurd (ok-ne-err _ _ (sym (rw (x, parse_found) at h)))
      | inl (t, x) ↦
          ap (λ (u : Snapshot). u.keys) (sym (ok_injective (rw (x, parse_found) at h)))
          ∙ parse_keys-eq-ok r hive_len ctx ctx_subs (n ∷ ns) keys t x
    ]

-- Where `Parse` succeeds, whatever its context answered on the way, the snapshot is what a reading
-- without the context gives: under Root of the opened registry the nodes of the seven keys are
-- found, and each of them whose index is not rejected is listed, with the records of exactly its
-- subkeys, less those that panic, in the order of their names.
pub parse-IsRead :
    (fold : ℕ → ℕ) (ctx : Text → Option Ended) (ctx_subs : Text → ℕ → Option Ended)
    (open_hive : Bytes → Option Registry) (hive : Bytes) (s : Snapshot)
    → parse fold ctx ctx_subs open_hive hive ≡ ok s
    → IsRead fold open_hive hive s
unfolding parse
parse-IsRead fold ctx ctx_subs open_hive hive s h =
    let (r, opened, h1) = >>=-eq-ok (from_option _ (open_hive hive)) _ h in
    let (base, based, h2) = >>=-eq-ok (from_option _ r.base) _ h1 in
    let (top, listed, h3) = >>=-eq-ok (checked_subkeys r base) _ h2 in
    let (root, rooted, h4) = >>=-eq-ok (from_option _ (find_node fold (codes "Root") top)) _ h3 in
    let (children, inside, h5) = >>=-eq-ok (checked_subkeys r root) _ h4 in
    let f : Found = classify fold children (record { nodes = []; legacy = false }) in
    let contents = parse_found-contents ctx ctx_subs r (length hive) f.nodes f.legacy s h5 in
    record {
      reg = r;
      base = base;
      top = top;
      root = root;
      children = children;
      opened = from_option-eq-ok _ _ r opened;
      based = from_option-eq-ok _ _ base based;
      listed = checked_subkeys-eq-ok r base top listed;
      rooted = from_option-eq-ok _ _ root rooted;
      inside = checked_subkeys-eq-ok r root children inside;
      contents = contents;
      listings =
          subst (All (IsListing r (length hive) f.nodes)) (sym contents)
            (read_keys-IsListing r (length hive) f.nodes keys);
    }
