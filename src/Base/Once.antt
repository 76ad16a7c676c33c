-- ===== src/Base/Once.antt =====
-- A log that reports each key once in the life of the process: what `sync.Once` and a `sync.Map` of
-- the reported keys are for.
use Prim.Native.Nat.{ℕ}
use mathlib.Core.Path.{◌≡◌, refl, ap}
use mathlib.Core.Logic.{◌↔◌}
use mathlib.Core.Bool.{Bool, true, false, ◌&&◌, not}
use mathlib.Core.List.{List, [], ◌∷◌, map}
use native.Mathlib.Omega.{arith}
use mathlib.Core.Logic.{inl, inr}
use amcache.Base.Tests.{if◌then◌else◌, ◌==◌, ==_iff, Bool-cases}
use amcache.Base.Text.{Text, text_eq, text_eq_iff}

-- The keys can be told apart.
pub record Key (K : Type 0) : Type 0 where
  pub same : K → K → Bool
  pub same_iff : (a b : K) → (same a b ≡ true) ↔ (a ≡ b)

instance abbrev pub nat_key : Key ℕ
nat_key = record { same = ◌==◌; same_iff = ==_iff }

instance abbrev pub text_key : Key Text
text_key = record { same = text_eq; same_iff = text_eq_iff }

-- The keys that have been reported, and the lines that were written, the last first.
pub record OnceLog (K L : Type 0) : Type 0 where
  pub marked : List K
  pub lines : List L

module _ {K : Type 0} ⦃key : Key K⦄ where
  abbrev pub is_listed : K → List K → Bool
  is_listed k [] = false
  is_listed k (j ∷ js) = if key.same k j then true else is_listed k js

  -- No key comes twice.
  abbrev pub are_distinct : List K → Bool
  are_distinct [] = true
  are_distinct (k ∷ ks) = not (is_listed k ks) && are_distinct ks

  pub is_listed_head : (k : K) (ks : List K) → is_listed k (k ∷ ks) ≡ true
  is_listed_head k ks = rw ((key.same_iff k k).1 refl) refl

module _ {K L : Type 0} ⦃key : Key K⦄ where
  abbrev pub empty_log : OnceLog K L
  empty_log = record { marked = []; lines = [] }

  abbrev pub is_marked : K → OnceLog K L → Bool
  is_marked k log = is_listed k log.marked

  -- Writes the line unless its key has been reported.
  unfoldable pub once : K → L → OnceLog K L → OnceLog K L
  once k line log =
      if is_marked k log then log else record { marked = k ∷ log.marked; lines = line ∷ log.lines }

  -- What is marked as reported is what the lines report, and nothing is reported twice.
  abbrev pub IsOnce : (L → K) → OnceLog K L → Type 0
  IsOnce key_of log = (log.marked ≡ map key_of log.lines) × (are_distinct log.marked ≡ true)

  pub once-IsOnce :
      (key_of : L → K) (line : L) (log : OnceLog K L)
      → IsOnce key_of log
      → IsOnce key_of (once (key_of line) line log)
  unfolding once
  once-IsOnce key_of line log h = elim (Bool-cases (is_marked (key_of line) log)) [
    | inl e ↦ rw e h
    | inr e ↦ rw e (ap (◌∷◌ (key_of line)) h.0, rw e h.1)
  ]

  pub once_keeps :
      (k : K) (line : L) (log : OnceLog K L) (j : K)
      → is_marked j log ≡ true
      → is_marked j (once k line log) ≡ true
  unfolding once
  once_keeps k line log j h = ground (arith, h)

  pub once_marks : (k : K) (line : L) (log : OnceLog K L) → is_marked k (once k line log) ≡ true
  unfolding once
  once_marks k line log = elim (Bool-cases (is_marked k log)) [
    | inl e ↦ rw e e
    | inr e ↦ rw e (is_listed_head k log.marked)
  ]
