-- ===== src/Inventory/Parse/Inverted.antt =====
-- What a parse of keys that succeeds has done on the way.
use amcache.Base.{
  ℕ, ◌≡◌, Option, none, some, List, ◌∷◌, ok, err, Option-cases, Result-cases, inl, inr, ◌⊎◌, sym,
  ok_injective, ok-ne-err,
}
use amcache.Base.Text.{Text}
use amcache.Hive.Regf.{Ended}
use amcache.Inventory.{Record, Table, lookup}
use amcache.Inventory.Slots.{IndexError}
use amcache.Inventory.Parse.{
  Node, Registry, subkeys, sort_records, parse_records, parse_key, parse_keys, keep_key,
}

module _ (r : Registry) (hive_len : ℕ) where
  pub parse_key-eq-ok :
      (ctx : ℕ → Option Ended) (n : Node) (kept : Option (List Record))
      → parse_key ctx r hive_len n ≡ ok kept
      → ((e : IndexError) × (subkeys r n ≡ err e) × (none ≡ kept))
        ⊎ ((subs : List Node) × (recs : List Record) × (subkeys r n ≡ ok subs)
            × (parse_records ctx r hive_len 0 subs ≡ ok recs)
            × (some (sort_records recs) ≡ kept))
  unfolding parse_key
  parse_key-eq-ok ctx n kept h = elim (Result-cases (subkeys r n)) [
    | inr (e, x) ↦ inl (e, x, ok_injective (rw (x, parse_key) at h))
    | inl (subs, x) ↦ elim (Result-cases (parse_records ctx r hive_len 0 subs)) [
      | inr (e, y) ↦ absurd (ok-ne-err _ _ (sym (rw (x, y, parse_key) at h)))
      | inl (recs, y) ↦ inr (subs, recs, x, y, ok_injective (rw (x, y, parse_key) at h))
    ]
  ]

  module _ (ctx : Text → Option Ended) (ctx_subs : Text → ℕ → Option Ended)
      (found : Table Node) where
    pub parse_keys_absent :
        (k : Text) (ks : List Text) (t : Table (List Record))
        → lookup k found ≡ none
        → parse_keys ctx ctx_subs r hive_len found (k ∷ ks) ≡ ok t
        → parse_keys ctx ctx_subs r hive_len found ks ≡ ok t
    unfolding parse_keys
    parse_keys_absent k ks t x h = rw (x, parse_keys) at h

    pub parse_keys_present :
        (k : Text) (ks : List Text) (t : Table (List Record)) (n : Node)
        → lookup k found ≡ some n
        → parse_keys ctx ctx_subs r hive_len found (k ∷ ks) ≡ ok t
        → (kept : Option (List Record)) × (rest : Table (List Record)) × (ctx k ≡ none)
          × (parse_key (ctx_subs k) r hive_len n ≡ ok kept)
          × (parse_keys ctx ctx_subs r hive_len found ks ≡ ok rest)
          × (keep_key k kept rest ≡ t)
    unfolding parse_keys
    parse_keys_present k ks t n x h = elim (Option-cases (ctx k)) [
      | inr (e, y) ↦ absurd (ok-ne-err _ _ (sym (rw (x, y, parse_keys) at h)))
      | inl y ↦ elim (Result-cases (parse_key (ctx_subs k) r hive_len n)) [
        | inr (e, z) ↦ absurd (ok-ne-err _ _ (sym (rw (x, y, z, parse_keys) at h)))
        | inl (kept, z) ↦ elim (Result-cases (parse_keys ctx ctx_subs r hive_len found ks)) [
          | inr (e, u) ↦ absurd (ok-ne-err _ _ (sym (rw (x, y, z, u, parse_keys) at h)))
          | inl (rest, u) ↦ (kept, rest, y, z, u, ok_injective (rw (x, y, z, u, parse_keys) at h))
        ]
      ]
    ]
