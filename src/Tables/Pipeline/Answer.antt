-- ===== src/Tables/Pipeline/Answer.antt =====
-- What SQLite keeps of a table is what it would keep of all the hive's records.
use mathlib.Core.List.Permᴰ
use mathlib.Core.List.{Permᴰ}
use mathlib.Core.Path.{subst}
use amcache.Base.{
  In, ℕ, ◌≤◌, ◌≡◌, refl, Bool, true, false, Option, none, some, List, [], ◌∷◌, map, length, ok, err,
  All-In, inl, inr, sym, ap, ◌∙◌, ok_injective, ok-ne-err, Result, if◌then◌else◌,
}
use amcache.Base.Once.{is_listed, text_key}
use amcache.Base.Text.{Text, text_eq}
use amcache.Hive.Regf.{Ended}
use amcache.Inventory.{Record, Snapshot, Table, lookup, keys}
use amcache.Inventory.Parse.Contents.{or_none, hive_records, found_nodes, snapshot_records}
use amcache.Inventory.Parse.Reference.{IsRead, parse-IsRead}
use amcache.Tables.Columns.{Spec}
use amcache.Tables.Specs.{specs}
use amcache.Tables.Query.{Query, records_of}
use amcache.Tables.Rows.{RowError}
use amcache.Tables.Rows.Picked.{row_of, refilter}
use amcache.Tables.Cache.{Cache}
use amcache.Tables.Serve.{Shared, ServeError, from_rows, from_cache, as_rows, serve, share}
use amcache.Tables.Serve.Refilter.{row_meets, some_rows}
use amcache.Tables.Pipeline.{LoadError, Wiring, Attempt, generate_live}
use amcache.Tables.Pipeline.Runs.{Runs, IsParsed, generate-IsOutcome}

module _ {A : Type 0} where
  kept_front :
      (b c : Bool) (x y : A) {l m : List A}
      → b ≡ c
      → x ≡ y
      → Permᴰ l m
      → Permᴰ (if b then x ∷ l else l) (if c then y ∷ m else m)
  kept_front true true x y h e p = Permᴰ.cons e p
  kept_front false false x y h e p = p
  kept_front true false x y h e p = cc
  kept_front false true x y h e p = cc

  kept_swap :
      (b c : Bool) (x y : A) (l : List A)
      → Permᴰ
          (if b then x ∷ (if c then y ∷ l else l) else (if c then y ∷ l else l))
          (if c then y ∷ (if b then x ∷ l else l) else (if b then x ∷ l else l))
  kept_swap true true x y l = Permᴰ.swap refl refl
  kept_swap true false x y l = Permᴰ.refl (x ∷ l)
  kept_swap false true x y l = Permᴰ.refl (y ∷ l)
  kept_swap false false x y l = Permᴰ.refl l

module _ (keep : Table Text → Bool) where
  refilter-perm : {l m : List (Table Text)} → Permᴰ l m → Permᴰ (refilter keep l) (refilter keep m)
  refilter-perm Permᴰ.nil = Permᴰ.nil
  refilter-perm (Permᴰ.cons e p) = kept_front _ _ _ _ (ap keep e) e (refilter-perm p)
  refilter-perm (Permᴰ.swap {a = x} {b = y} {b' = z} {l = l} e f) =
      subst (λ p. Permᴰ (refilter keep (x ∷ y ∷ l)) (refilter keep (p ∷ z ∷ l))) f
        (subst (λ q. Permᴰ (refilter keep (x ∷ y ∷ l)) (refilter keep (y ∷ q ∷ l))) e
          (kept_swap (keep x) (keep y) x y (refilter keep l)))
  refilter-perm (Permᴰ.trans p q) = Permᴰ.trans (refilter-perm p) (refilter-perm q)

map-perm : {A B : Type 0} (f : A → B) {l m : List A} → Permᴰ l m → Permᴰ (map f l) (map f m)
map-perm f Permᴰ.nil = Permᴰ.nil
map-perm f (Permᴰ.cons e p) = Permᴰ.cons (ap f e) (map-perm f p)
map-perm f (Permᴰ.swap e g) = Permᴰ.swap (ap f e) (ap f g)
map-perm f (Permᴰ.trans p q) = Permᴰ.trans (map-perm f p) (map-perm f q)

specs-are_keys : (s : Spec) → In s specs → is_listed s.key keys ≡ true
unfolding text_eq specs
specs-are_keys s known =
    All-In (λ (t : Spec). is_listed t.key keys ≡ true) s specs
      (refl, (refl, (refl, (refl, (refl, (refl, (refl, tt))))))) known

as_rows-eq-ok :
    {E : Type 0} (r : Result RowError (List (Table Text))) (rows : List (Table Text))
    → ◌≡◌ {A = Result (ServeError E) (List (Table Text))} (as_rows r) (ok rows)
    → r ≡ ok rows
as_rows-eq-ok (ok l) rows h = ap ok (ok_injective h)
as_rows-eq-ok (err e) rows h = absurd (ok-ne-err rows (from_rows e) (sym h))

or_none_elim : (o : Option (List Record)) → (elim o [ none ↦ [] | some recs ↦ recs ]) ≡ or_none o
or_none_elim none = refl
or_none_elim (some recs) = refl

module _ {R X : Type 0} (n : Wiring R X) where
  -- The rows are an answer: some attempt read a hive, and of all its records below the table's key,
  -- the condition keeps the same rows as it keeps of these.
  pub record IsAnswer (s : Spec) (keep : Table Text → Bool) (rows : List (Table Text))
      : Type 0 where
    pub inv : Snapshot
    pub parsed : IsParsed n inv
    pub hive : IsRead n.orbit n.open_hive parsed.res.bytes inv
    pub same : Permᴰ (refilter keep rows) (
        refilter keep (
          map
            (row_of n.setting s)
            (hive_records hive.reg (length parsed.res.bytes) (found_nodes hive) s.key)))

  module _ (ctx : ℕ → Option Ended) (s : Spec) (query : Query) (keep : Table Text → Bool)
      (known : In s specs)
      (implied : (row : Table Text) → keep row ≡ true → row_meets row s.cols query ≡ true) where
    served-IsAnswer :
        (inv : Snapshot) (rows : List (Table Text))
        → IsParsed n inv
        → serve n.setting ctx s query (share n.setting inv) ≡ ok rows
        → IsAnswer s keep rows
    unfolding serve
    served-IsAnswer inv rows i h =
        let hive =
          parse-IsRead n.orbit i.attempt.ctx i.attempt.ctx_subs n.open_hive i.res.bytes inv
            i.was_parsed in
        let below =
          snapshot_records n.orbit n.open_hive i.res.bytes inv hive s.key
            (specs-are_keys s known) in
        let filtered =
          some_rows n.setting ctx s inv known query keep implied (records_of inv s) rows refl h in
        let all = hive_records hive.reg (length i.res.bytes) (found_nodes hive) s.key in
        record {
          inv = inv;
          parsed = i;
          hive = hive;
          same =
              subst (λ l. Permᴰ l (refilter keep (map (row_of n.setting s) all))) (sym filtered)
                (refilter-perm keep (
                  map-perm (row_of n.setting s)
                    (subst (λ l. Permᴰ l all) (sym (or_none_elim (lookup s.key inv.keys))) below)));
        }

    -- After any queries and timer firings, where Generate of one of the seven tables returns rows, SQLite
    -- keeps of them what it would keep of all records that the hive has below the table's key, of a
    -- hive that some attempt has read and parsed: none is missing and none is there twice, whatever
    -- the query's constraints narrowed, as long as what SQLite keeps meets those constraints.
    pub generate-IsAnswer :
        (a : Attempt X) (c : Cache Shared (LoadError R)) (t : ℕ) (rows : List (Table Text))
        → Runs n c t
        → t ≤ a.now
        → a.now ≤ a.done
        → (generate_live n ctx s query a c).1 ≡ ok rows
        → IsAnswer s keep rows
    generate-IsAnswer a c t rows r h k served =
        elim (generate-IsOutcome n ctx s query a c t r h k) [
          | inl (e, failed) ↦ absurd (ok-ne-err rows (from_cache e) (sym served ∙ failed))
          | inr (inv, parsed, same) ↦ served-IsAnswer inv rows parsed (
              as_rows-eq-ok (serve n.setting ctx s query (share n.setting inv)) rows
                (sym same ∙ served))
        ]
