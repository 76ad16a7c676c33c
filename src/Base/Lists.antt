-- ===== src/Base/Lists.antt =====
-- Lists measured and indexed by native numbers, under the library's names; slices of bytes.
use Prim.Native.Nat.{ℕ, zero, suc, ◌+◌, ◌≤◌, ◌<◌}
use mathlib.Core.Path.{◌≡◌, refl, ap, subst, sym}
use mathlib.Core.Logic.{◌⊎◌, inl, inr}
use mathlib.Core.List.{List, [], ◌∷◌, ◌++◌}
use native.Mathlib.Omega.{arith}

module _ {ℓ} {A : Type ℓ} where
  abbrev pub length : List A → ℕ
  length [] = 0
  length (x ∷ xs) = suc (length xs)

  abbrev pub get_or : List A → ℕ → A → A
  get_or [] i d = d
  get_or (x ∷ xs) zero d = x
  get_or (x ∷ xs) (suc i) d = get_or xs i d

  abbrev pub take : ℕ → List A → List A
  take zero xs = []
  take (suc n) [] = []
  take (suc n) (x ∷ xs) = x ∷ take n xs

  abbrev pub drop : ℕ → List A → List A
  drop zero xs = xs
  drop (suc n) [] = []
  drop (suc n) (x ∷ xs) = drop n xs

  abbrev pub replicate : ℕ → A → List A
  replicate zero a = []
  replicate (suc n) a = a ∷ replicate n a

  -- `All P xs` holds when every element does.
  abbrev pub All {κ} : (A → Type κ) → List A → Type κ
  All P [] = Unit
  All P (x ∷ xs) = P x × All P xs

  -- Go's `copy(xs[n:], ds)`: overwrite from index `n`, as far as both reach.
  unfoldable pub copy_at : List A → ℕ → List A → List A
  copy_at [] n ds = []
  copy_at (x ∷ xs) zero [] = x ∷ xs
  copy_at (x ∷ xs) zero (d ∷ ds) = d ∷ copy_at xs zero ds
  copy_at (x ∷ xs) (suc n) ds = x ∷ copy_at xs n ds

module _ {ℓ} {A : Type ℓ} where
  pub length-append : (xs ys : List A) → length (xs ++ ys) ≡ length xs + length ys
  length-append [] ys = omega arith
  length-append (x ∷ xs) ys = omega (arith, length-append xs ys)

  pub length-replicate : (n : ℕ) (a : A) → length (replicate n a) ≡ n
  length-replicate zero a = refl
  length-replicate (suc n) a = ap suc (length-replicate n a)

  pub length-copy_at : (xs : List A) (n : ℕ) (ds : List A) → length (copy_at xs n ds) ≡ length xs
  unfolding copy_at
  length-copy_at [] n ds = refl
  length-copy_at (x ∷ xs) zero [] = refl
  length-copy_at (x ∷ xs) zero (d ∷ ds) = ap suc (length-copy_at xs zero ds)
  length-copy_at (x ∷ xs) (suc n) ds = ap suc (length-copy_at xs n ds)

  -- A copy does not touch what lies outside the range it writes.
  pub get_or-copy_at_outside :
      (xs : List A) (n : ℕ) (ds : List A) (i : ℕ) (d : A)
      → (i < n) ⊎ (n + length ds ≤ i)
      → get_or (copy_at xs n ds) i d ≡ get_or xs i d
  unfolding copy_at
  get_or-copy_at_outside [] n ds i d h = refl
  get_or-copy_at_outside (x ∷ xs) zero [] i d h = refl
  get_or-copy_at_outside (x ∷ xs) zero (y ∷ ds) zero d h = absurd (omega arith)
  get_or-copy_at_outside (x ∷ xs) zero (y ∷ ds) (suc i) d h =
      get_or-copy_at_outside xs zero ds i d (inr (omega arith))
  get_or-copy_at_outside (x ∷ xs) (suc n) ds zero d h = refl
  get_or-copy_at_outside (x ∷ xs) (suc n) ds (suc i) d h =
      get_or-copy_at_outside xs n ds i d (omega arith)

  -- Inside the range the copied bytes are read back.
  pub get_or-copy_at_inside :
      (xs : List A) (n : ℕ) (ds : List A) (i : ℕ) (d : A)
      → i < length ds
      → n + i < length xs
      → get_or (copy_at xs n ds) (n + i) d ≡ get_or ds i d
  unfolding copy_at
  get_or-copy_at_inside [] n ds i d h k = absurd (omega arith)
  get_or-copy_at_inside (x ∷ xs) n [] i d h k = absurd (omega arith)
  get_or-copy_at_inside (x ∷ xs) zero (y ∷ ds) zero d h k = refl
  get_or-copy_at_inside (x ∷ xs) zero (y ∷ ds) (suc i) d h k =
      ground (arith, get_or-copy_at_inside xs zero ds i d (omega arith) (omega arith))
  get_or-copy_at_inside (x ∷ xs) (suc n) (y ∷ ds) i d h k =
      ground (arith, get_or-copy_at_inside xs n (y ∷ ds) i d h (omega arith))

  pub get_or-append_left :
      (xs ys : List A) (i : ℕ) (d : A) → i < length xs → get_or (xs ++ ys) i d ≡ get_or xs i d
  get_or-append_left [] ys i d h = absurd (omega arith)
  get_or-append_left (x ∷ xs) ys zero d h = refl
  get_or-append_left (x ∷ xs) ys (suc i) d h = get_or-append_left xs ys i d (omega arith)

module _ {A : Type 0} where
  -- The element is one of the list's.
  abbrev pub In : A → List A → Type 0
  In a [] = ⊥
  In a (x ∷ xs) = (a ≡ x) ⊎ In a xs

  pub All-In {κ} : (P : A → Type κ) (a : A) (xs : List A) → All P xs → In a xs → P a
  All-In P a [] h i = elim i [ ]
  All-In P a (x ∷ xs) h (inl e) = subst P (sym e) h.0
  All-In P a (x ∷ xs) h (inr i) = All-In P a xs h.1 i
