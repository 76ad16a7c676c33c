-- ===== src/Tables/Query/Order.antt =====
-- The order in which the constrained columns come has no part in the selection.
use amcache.Base.{
  ℕ, ◌≡◌, refl, Bool, false, ◌&&◌, ◌||◌, List, arith, Option, none, some, ◌∙◌, sym, ap,
}
use mathlib.Core.List.{Perm, Permᴰ}
use mathlib.Core.Quot
use mathlib.Core.Quot.{Quot}
use mathlib.Core.Path.{ap₂}
use mathlib.Core.Logic.{∥∥₁_elim}
use amcache.Base.Text.{Text}
use amcache.Inventory.{lookup}
use amcache.Tables.Query.{Query, Index, Constraint, index_key, selected}
use amcache.Tables.Query.Sorted.{ascending_ext}
use amcache.Tables.Query.Selection.{
  any_usable, column_admits, admits, narrows, chosen, is_some, HasAscending, selected_exact,
}

-- Two selections that narrow alike and choose alike are the same.
chosen_ext :
    (a b : Option (List ℕ))
    → HasAscending a
    → HasAscending b
    → is_some a ≡ is_some b
    → ((i : ℕ) → chosen a i ≡ chosen b i)
    → a ≡ b
chosen_ext none none h k s e = refl
chosen_ext none (some b) h k s e = cc
chosen_ext (some a) none h k s e = cc
chosen_ext (some a) (some b) h k s e = ap some (ascending_ext a b h k e)

and_swap : (a b c d x : Bool) → a ≡ d → b ≡ c → (a && (b && x)) ≡ (c && (d && x))
and_swap a b c d x p q = ground arith

or_swap : (a b c d x : Bool) → a ≡ d → b ≡ c → (a || (b || x)) ≡ (c || (d || x))
or_swap a b c d x p q = ground arith

pub selection_set : IsSet (Option (List ℕ))
selection_set = hlevel

module _ (fold : ℕ → ℕ) (idx : Index) (tbl : Text) where
  abbrev admits_one : ℕ → Text × List Constraint → Bool
  admits_one i e = column_admits fold (lookup (index_key tbl e.0) idx) e.1 i

  abbrev narrows_one : Text × List Constraint → Bool
  narrows_one e = elim (lookup (index_key tbl e.0) idx) [ none ↦ false | some _ ↦ any_usable e.1 ]

  pub admits-perm :
      {q r : Query} (i : ℕ) → Permᴰ q r → admits fold idx tbl q i ≡ admits fold idx tbl r i
  admits-perm i Permᴰ.nil = refl
  admits-perm i (Permᴰ.cons e p) = ap₂ ◌&&◌ (ap (admits_one i) e) (admits-perm i p)
  admits-perm i (Permᴰ.swap e f) = and_swap _ _ _ _ _ (ap (admits_one i) e) (ap (admits_one i) f)
  admits-perm i (Permᴰ.trans p q) = admits-perm i p ∙ admits-perm i q

  pub narrows-perm : {q r : Query} → Permᴰ q r → narrows idx tbl q ≡ narrows idx tbl r
  narrows-perm Permᴰ.nil = refl
  narrows-perm (Permᴰ.cons e p) = ap₂ ◌||◌ (ap narrows_one e) (narrows-perm p)
  narrows-perm (Permᴰ.swap e f) = or_swap _ _ _ _ _ (ap narrows_one e) (ap narrows_one f)
  narrows-perm (Permᴰ.trans p q) = narrows-perm p ∙ narrows-perm q

  selected-perm : {q r : Query} → Permᴰ q r → selected fold q idx tbl ≡ selected fold r idx tbl
  selected-perm {q} {r} p =
      let (sq, aq, cq) = selected_exact fold idx tbl q in
      let (sr, ar, cr) = selected_exact fold idx tbl r in
      chosen_ext (selected fold q idx tbl) (selected fold r idx tbl) aq ar
        (sq ∙ narrows-perm p ∙ sym sr) (λ i. cq i ∙ admits-perm i p ∙ sym (cr i))

  -- The order in which the map of constraints is walked has no part in the selection.
  pub selected-order_independent :
      (q r : Query) → Perm q r → selected fold q idx tbl ≡ selected fold r idx tbl
  selected-order_independent q r p = ∥∥₁_elim p (selection_set _ _) selected-perm

-- The map of constraints: constrained columns in no order.
abbrev pub SameMap : Query → Query → Type 0
SameMap q r = Perm q r

abbrev pub ConstraintMap : Type 0
ConstraintMap = Quot SameMap

pub bool_set : IsSet Bool
bool_set = hlevel

module _ (fold : ℕ → ℕ) (idx : Index) (tbl : Text) where
  -- `selected` of a map, whichever order Go walks it in.
  unfoldable pub selected_map : ConstraintMap → Option (List ℕ)
  selected_map =
      Quot.lift selection_set (λ q. selected fold q idx tbl)
        (selected-order_independent fold idx tbl)

  -- Every column of the map admits the record.
  unfoldable pub admits_map : ℕ → ConstraintMap → Bool
  admits_map i =
      Quot.lift bool_set (λ q. admits fold idx tbl q i)
        (λ q r p. ∥∥₁_elim p (bool_set _ _) (admits-perm fold idx tbl i))

  -- Some column of the map narrows the selection.
  unfoldable pub narrows_map : ConstraintMap → Bool
  narrows_map =
      Quot.lift bool_set (narrows idx tbl)
        (λ q r p. ∥∥₁_elim p (bool_set _ _) (narrows-perm fold idx tbl))

  -- The selection is a function of the map of constraints, a list of columns up to their order: it
  -- narrows where some column of the map does, and chooses the records that every column admits.
  pub selected_map_exact :
      (m : ConstraintMap)
      → (is_some (selected_map m) ≡ narrows_map m)
        × ((i : ℕ) → chosen (selected_map m) i ≡ admits_map i m)
  unfolding selected_map admits_map narrows_map
  selected_map_exact =
      Quot.ind (λ m. hlevel)
        (λ q. let (narrowed, _, met) = selected_exact fold idx tbl q in (narrowed, met))
