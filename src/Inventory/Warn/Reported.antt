-- ===== src/Inventory/Warn/Reported.antt =====
-- Whatever `Parse` leaves out of a snapshot, it reports.
use amcache.Base.{
  ℕ, ◌≡◌, refl, true, false, Option, some, List, [], map, length, ok, sym, ap, ◌∙◌, ◌>>=◌, Result,
}
use amcache.Base.Once.{is_listed, nat_key}
use amcache.Base.Stateful.{Reaches, >>=-Reaches_next}
use amcache.Base.Text.{Text, codes}
use amcache.Hive.Regf.{Bytes, Ended}
use amcache.Inventory.{Snapshot, Table}
use amcache.Inventory.Parse.{
  Node, Registry, ParseError, Found, classify, find_node, subkeys, parse_found, parse, from_option,
  checked_subkeys,
}
use amcache.Inventory.Warn.{Condition, Line, Log}
use amcache.Inventory.Warn.Losses.{Loss, parse_found_marks}
use amcache.Inventory.Warn.Marks.{Marked}
use amcache.Inventory.Warn.Once.{Logged, Logged-IsReportedOnce, parsed}
use amcache.Inventory.Warn.Parse.{parse_logged}

-- What `Parse` has found on the way to the keys of a hive.
pub record IsLocated (fold : ℕ → ℕ) (open_hive : Bytes → Option Registry) (hive : Bytes)
    : Type 0 where
  pub reg : Registry
  pub base : Node
  pub top : List Node
  pub root : Node
  pub children : List Node
  pub opened : open_hive hive ≡ some reg
  pub based : reg.base ≡ some base
  pub listed : subkeys reg base ≡ ok top
  pub rooted : find_node fold (codes "Root") top ≡ some root
  pub inside : subkeys reg root ≡ ok children

-- The nodes of the keys that were found.
abbrev pub nodes_of :
    {fold : ℕ → ℕ} {open_hive : Bytes → Option Registry} {hive : Bytes}
    → IsLocated fold open_hive hive
    → Table Node
nodes_of {fold = fold} i = (classify fold i.children (record { nodes = []; legacy = false })).nodes

bound : {E A B : Type 0} (r : Result E A) (a : A) (f : A → Result E B) → r ≡ ok a → (r >>= f) ≡ f a
bound r a f h = ap (λ x. x >>= f) h

checked :
    (r : Registry) (n : Node) (l : List Node) → subkeys r n ≡ ok l → checked_subkeys r n ≡ ok l
checked r n l h = rw (h, checked_subkeys) refl

given : {A : Type 0} (e : ParseError) (o : Option A) (a : A) → o ≡ some a → from_option e o ≡ ok a
unfolding from_option
given e o a h = ap (from_option e) h

module _ (fold : ℕ → ℕ) (ctx : Text → Option Ended) (ctx_subs : Text → ℕ → Option Ended)
    (open_hive : Bytes → Option Registry) (hive : Bytes) where
  parse_located :
      (i : IsLocated fold open_hive hive)
      → parse fold ctx ctx_subs open_hive hive
        ≡ parse_found ctx ctx_subs i.reg
            (length hive)
            (classify fold i.children (record { nodes = []; legacy = false }))
  unfolding parse
  parse_located i =
      bound _ i.reg _ (given _ _ _ i.opened)
      ∙ bound _ i.base _ (given _ _ _ i.based)
      ∙ bound _ i.top _ (checked i.reg i.base i.top i.listed)
      ∙ bound _ i.root _ (given _ _ _ i.rooted)
      ∙ bound _ i.children _ (checked i.reg i.root i.children i.inside)

  parse_marks :
      (s : Snapshot) (i : IsLocated fold open_hive hive) (c : Condition)
      → parse fold ctx ctx_subs open_hive hive ≡ ok s
      → Loss i.reg (length hive) (nodes_of i) c
      → Reaches (Marked c) (parse_logged fold ctx ctx_subs open_hive hive)
  unfolding parse_logged
  parse_marks s i c h l =
      let f : Found = classify fold i.children (record { nodes = []; legacy = false }) in
      >>=-Reaches_next (Marked c) _ i.reg _ (λ log. given _ _ _ i.opened)
        (>>=-Reaches_next (Marked c) _ i.base _ (λ log. given _ _ _ i.based)
          (>>=-Reaches_next (Marked c) _ i.top _ (λ log. checked i.reg i.base i.top i.listed)
            (>>=-Reaches_next (Marked c) _ i.root _ (λ log. given _ _ _ i.rooted)
              (>>=-Reaches_next (Marked c) _ i.children _
                (λ log. checked i.reg i.root i.children i.inside)
                (parse_found_marks i.reg (length hive) ctx ctx_subs f.nodes f.legacy s c
                  (sym (parse_located i) ∙ h) l)))))

-- After any parses, one more that succeeds has a line in the log for each of these that its snapshot
-- leaves out: a legacy hive, a key whose subkey index is rejected, a record that is skipped after a
-- panic, the values of a record that declares too many, and a value of a type that is decoded, a
-- string or an integer, that is dropped from a record that is kept; as one of the lines that were
-- written before or as its own. Nothing is said of values of other types, which are dropped unread.
pub parse_logged_reports :
    (fold : ℕ → ℕ) (ctx : Text → Option Ended) (ctx_subs : Text → ℕ → Option Ended)
    (open_hive : Bytes → Option Registry) (hive : Bytes) (log : Log) (s : Snapshot)
    (i : IsLocated fold open_hive hive) (c : Condition)
    → Logged log
    → parse fold ctx ctx_subs open_hive hive ≡ ok s
    → Loss i.reg (length hive) (nodes_of i) c
    → is_listed c (
        map
          (λ (line : Line). line.condition)
          (parse_logged fold ctx ctx_subs open_hive hive log).1.lines)
      ≡ true
parse_logged_reports fold ctx ctx_subs open_hive hive log s i c l h loss =
    let once = Logged-IsReportedOnce (parsed fold ctx ctx_subs open_hive hive l) in
    ap (is_listed c) (sym once.0) ∙ parse_marks fold ctx ctx_subs open_hive hive s i c h loss log
