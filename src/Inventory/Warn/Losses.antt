-- ===== src/Inventory/Warn/Losses.antt =====
-- What is lost of a key of the hive is reported.
use amcache.Base.{
  ℕ, suc, ◌≡◌, Bool, true, false, Option, some, List, [], ◌∷◌, ok, err, Option-cases, Result-cases,
  inl, inr, In, sym, ap, ◌∙◌, >>=-eq-ok, ok_injective, ok-ne-err,
}
use mathlib.Core.Path.{subst}
use mathlib.Core.Option.{none-ne-some}
use amcache.Base.Once.{nat_key}
use amcache.Base.Stateful.{Reaches, >>=-Reaches_first, >>=-Reaches_next, >>=-Keeps}
use amcache.Base.Text.{Text}
use amcache.Hive.Regf.{Ended}
use amcache.Inventory.Slots.{IndexError}
use amcache.Inventory.{Record, Snapshot, Table, lookup, keys}
use amcache.Inventory.Parse.{
  Node, Registry, subkeys, record_of, ask, parse_records, parse_key, parse_keys, parse_found,
}
use amcache.Inventory.Parse.Inverted.{parse_key-eq-ok, parse_keys_absent, parse_keys_present}
use amcache.Inventory.Warn.{Condition, Message, warn_legacy, warn_subkey_index, record_logged}
use amcache.Inventory.Warn.Erased.{record_logged_result, parse_key_logged-Gives}
use amcache.Inventory.Warn.Kept.{parse_records-Keeps, parse_keys-Keeps}
use amcache.Inventory.Warn.Marks.{Marked, RecordLoss, record_marks, warn_keeps, warn_marks}
use amcache.Inventory.Warn.Parse.{
  parse_records_logged, parse_key_logged, ask_key, parse_keys_logged, parse_found_logged,
}

-- What is left out of a key: all of it where its index is rejected, or what is lost of a record.
pub data KeyLoss (r : Registry) (hive_len : ℕ) (n : Node) : Condition → Type 0 where
  index_lost : (e : IndexError) → subkeys r n ≡ err e → KeyLoss r hive_len n warn_subkey_index
  record_lost :
      {c : Condition} (m : Node) (subs : List Node)
      → subkeys r n ≡ ok subs
      → In m subs
      → RecordLoss r hive_len m c
      → KeyLoss r hive_len n c

-- What is left out of a hive whose children of Root are classified: something of one of the keys, or
-- everything where there is no key.
pub data Loss (r : Registry) (hive_len : ℕ) (found : Table Node) : Condition → Type 0 where
  key_lost :
      {c : Condition} (k : Text) (n : Node)
      → In k keys
      → lookup k found ≡ some n
      → KeyLoss r hive_len n c
      → Loss r hive_len found c
  all_legacy : found ≡ [] → Loss r hive_len found warn_legacy

module _ (r : Registry) (hive_len : ℕ) where
  parse_records_marks :
      (ctx : ℕ → Option Ended) (i : ℕ) (ns : List Node) (recs : List Record) (m : Node)
      (c : Condition)
      → parse_records ctx r hive_len i ns ≡ ok recs
      → In m ns
      → RecordLoss r hive_len m c
      → Reaches (Marked c) (parse_records_logged ctx r hive_len i ns)
  unfolding parse_records parse_records_logged
  parse_records_marks ctx i [] recs m c h x l = elim x [ ]
  parse_records_marks ctx i (n ∷ ns) recs m c h x l =
      let (u, asked, h1) = >>=-eq-ok (ask ctx i) _ h in
      let (rest, more, h2) = >>=-eq-ok (parse_records ctx r hive_len (suc i) ns) _ h1 in
      >>=-Reaches_next (Marked c) _ u _ (λ log. asked)
        (elim x [
          | inl e ↦
              >>=-Reaches_first (Marked c) _ _
                (λ log.
                  subst (λ n. Marked c (record_logged r hive_len n log).1) e
                    (record_marks r hive_len m c log l))
                (λ rec.
                  >>=-Keeps (Marked c) _ _
                    (parse_records-Keeps (Marked c) (warn_keeps c) r hive_len ctx (suc i) ns)
                    (λ recs log k. k))
          | inr later ↦
              >>=-Reaches_next (Marked c) _ (record_of r hive_len n) _
                (λ log. ap ok (record_logged_result r hive_len n log))
                (>>=-Reaches_first (Marked c) _ _
                  (parse_records_marks ctx (suc i) ns rest m c more later l) (λ recs log k. k))
        ])

  parse_key_marks :
      (ctx : ℕ → Option Ended) (k : Text) (n : Node) (kept : Option (List Record)) (c : Condition)
      → parse_key ctx r hive_len n ≡ ok kept
      → KeyLoss r hive_len n c
      → Reaches (Marked c) (parse_key_logged ctx r hive_len k n)
  unfolding parse_key parse_key_logged
  parse_key_marks ctx k n kept c h (index_lost e x) log =
      rw x (warn_marks warn_subkey_index (Message.index_rejected k e) log)
  parse_key_marks ctx k n kept c h (record_lost m subs x i l) log =
      elim (parse_key-eq-ok r hive_len ctx n kept h) [
        | inl (e, y, _) ↦ absurd (ok-ne-err _ _ (sym x ∙ y))
        | inr (others, recs, y, z, _) ↦
            let here : In m others = subst (In m) (ok_injective (sym x ∙ y)) i in
            rw y (
              >>=-Reaches_first (Marked c) _ _ (parse_records_marks ctx 0 others recs m c z here l)
                (λ recs log k. k) log)
      ]

  module _ (ctx : Text → Option Ended) (ctx_subs : Text → ℕ → Option Ended)
      (found : Table Node) where
    parse_keys_marks :
        (ks : List Text) (t : Table (List Record)) (k : Text) (n : Node) (c : Condition)
        → parse_keys ctx ctx_subs r hive_len found ks ≡ ok t
        → In k ks
        → lookup k found ≡ some n
        → KeyLoss r hive_len n c
        → Reaches (Marked c) (parse_keys_logged ctx ctx_subs r hive_len found ks)
    unfolding parse_keys parse_keys_logged
    parse_keys_marks [] t k n c h i x l log = elim i [ ]
    parse_keys_marks (j ∷ ks) t k n c h (inl e) x l log =
        let at : lookup j found ≡ some n = ap (λ q. lookup q found) (sym e) ∙ x in
        let (kept, rest, y, z, u, _) =
          parse_keys_present r hive_len ctx ctx_subs found j ks t n at h in
        rw (at, parse_keys_logged)
          (>>=-Reaches_next (Marked c) _ tt _ (λ log. ap ask_key y)
            (>>=-Reaches_first (Marked c) _ _ (parse_key_marks (ctx_subs j) j n kept c z l) (λ kept.
              >>=-Keeps (Marked c) _ _
                (parse_keys-Keeps (Marked c) (warn_keeps c) r hive_len ctx ctx_subs found ks)
                (λ rest log k. k)))
            log)
    parse_keys_marks (j ∷ ks) t k n c h (inr later) x l log = elim (Option-cases (lookup j found)) [
      | inl at ↦
          rw (at, parse_keys_logged)
            (parse_keys_marks ks t k n c
              (parse_keys_absent r hive_len ctx ctx_subs found j ks t at h) later x l log)
      | inr (m, at) ↦
          let (kept, rest, y, z, u, _) =
            parse_keys_present r hive_len ctx ctx_subs found j ks t m at h in
          rw (at, parse_keys_logged)
            (>>=-Reaches_next (Marked c) _ tt _ (λ log. ap ask_key y)
              (>>=-Reaches_next (Marked c) _ kept _
                (λ log. parse_key_logged-Gives r hive_len (ctx_subs j) j m log ∙ z)
                (>>=-Reaches_first (Marked c) _ _ (parse_keys_marks ks rest k n c u later x l)
                  (λ rest log k. k)))
              log)
    ]

  pub parse_found_marks :
      (ctx : Text → Option Ended) (ctx_subs : Text → ℕ → Option Ended) (found : Table Node)
      (legacy : Bool) (s : Snapshot) (c : Condition)
      → parse_found ctx ctx_subs r hive_len (record { nodes = found; legacy = legacy }) ≡ ok s
      → Loss r hive_len found c
      → Reaches
          (Marked c)
          (parse_found_logged ctx ctx_subs r hive_len (record { nodes = found; legacy = legacy }))
  unfolding parse_found parse_found_logged lookup
  parse_found_marks ctx ctx_subs [] legacy s c h (key_lost k n i x l) log =
      absurd (none-ne-some n x)
  parse_found_marks ctx ctx_subs [] true s c h (all_legacy e) log =
      warn_marks warn_legacy Message.legacy_format log
  parse_found_marks ctx ctx_subs [] false s c h (all_legacy e) log = absurd (ok-ne-err _ _ (sym h))
  parse_found_marks ctx ctx_subs (m ∷ ms) legacy s c h (all_legacy e) log = cc
  parse_found_marks ctx ctx_subs (m ∷ ms) legacy s c h (key_lost k n i x l) log =
      elim (Result-cases (parse_keys ctx ctx_subs r hive_len (m ∷ ms) keys)) [
        | inr (e, y) ↦ absurd (ok-ne-err _ _ (sym (rw (y, parse_found) at h)))
        | inl (t, y) ↦
            >>=-Reaches_first (Marked c) _ _
              (parse_keys_marks ctx ctx_subs (m ∷ ms) keys t k n c y i x l) (λ kept log k. k) log
      ]
