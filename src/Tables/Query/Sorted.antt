-- ===== src/Tables/Query/Sorted.antt =====
-- Sorting, compacting and intersecting index lists, by membership; ascending lists with the same
-- members are equal.
use Prim.Native.Nat.{compare, Ordering}
use mathlib.Core.Path.{ap₂}
use amcache.Base.{
  ℕ, ◌≤◌, ◌<◌, ◌≡◌, refl, Bool, false, ◌&&◌, ◌||◌, List, [], ◌∷◌, ◌==◌, ltb, All, arith, Bool-cases,
  inl, inr,
}
use amcache.Tables.Query.{insert_index, sort, compact, join_equal, sort_unique, intersect}

abbrev pub contains : ℕ → List ℕ → Bool
contains i [] = false
contains i (x ∷ xs) = i == x || contains i xs

abbrev pub IsSorted : List ℕ → Type 0
IsSorted [] = Unit
IsSorted (x ∷ xs) = All (λ y. x ≤ y) xs × IsSorted xs

abbrev pub IsAscending : List ℕ → Type 0
IsAscending [] = Unit
IsAscending (x ∷ xs) = All (λ y. x < y) xs × IsAscending xs

contains-insert_index :
    (i a : ℕ) (l : List ℕ) → contains i (insert_index a l) ≡ (i == a || contains i l)
unfolding insert_index
contains-insert_index i a [] = refl
contains-insert_index i a (b ∷ l) = ground (arith, contains-insert_index i a l)

contains-sort : (i : ℕ) (l : List ℕ) → contains i (sort l) ≡ contains i l
unfolding sort
contains-sort i [] = refl
contains-sort i (a ∷ l) = ground (arith, contains-insert_index i a (sort l), contains-sort i l)

contains-join_equal :
    (i a : ℕ) (l : List ℕ) → contains i (join_equal a l) ≡ (i == a || contains i l)
unfolding join_equal
contains-join_equal i a [] = refl
contains-join_equal i a (b ∷ l) = ground arith

contains-compact : (i : ℕ) (l : List ℕ) → contains i (compact l) ≡ contains i l
unfolding compact
contains-compact i [] = refl
contains-compact i (a ∷ l) =
    ground (arith, contains-join_equal i a (compact l), contains-compact i l)

pub contains-sort_unique : (i : ℕ) (l : List ℕ) → contains i (sort_unique l) ≡ contains i l
unfolding sort_unique
contains-sort_unique i l = ground (arith, contains-compact i (sort l), contains-sort i l)

All-le_trans : (a b : ℕ) (l : List ℕ) → a ≤ b → All (λ y. b ≤ y) l → All (λ y. a ≤ y) l
All-le_trans a b [] h k = tt
All-le_trans a b (x ∷ l) h k = (omega arith, All-le_trans a b l h k.1)

All-lt_trans : (a b : ℕ) (l : List ℕ) → a < b → All (λ y. b < y) l → All (λ y. a < y) l
All-lt_trans a b [] h k = tt
All-lt_trans a b (x ∷ l) h k = (omega arith, All-lt_trans a b l h k.1)

All-insert_index :
    (c a : ℕ) (l : List ℕ) → c ≤ a → All (λ y. c ≤ y) l → All (λ y. c ≤ y) (insert_index a l)
unfolding insert_index
All-insert_index c a [] h k = (h, tt)
All-insert_index c a (b ∷ l) h k = elim (Bool-cases (ltb b a)) [
  | inl e ↦ rw e (k.0, All-insert_index c a l h k.1)
  | inr e ↦ rw e (h, k)
]

insert_index-IsSorted : (a : ℕ) (l : List ℕ) → IsSorted l → IsSorted (insert_index a l)
unfolding insert_index
insert_index-IsSorted a [] h = (tt, tt)
insert_index-IsSorted a (b ∷ l) h = elim (Bool-cases (ltb b a)) [
  | inl e ↦ rw e (All-insert_index b a l (ground arith) h.0, insert_index-IsSorted a l h.1)
  | inr e ↦ let a≤b : a ≤ b = ground arith in rw e ((a≤b, All-le_trans a b l a≤b h.0), (h.0, h.1))
]

sort-IsSorted : (l : List ℕ) → IsSorted (sort l)
unfolding sort
sort-IsSorted [] = tt
sort-IsSorted (a ∷ l) = insert_index-IsSorted a (sort l) (sort-IsSorted l)

All-join_equal :
    (c a : ℕ) (l : List ℕ) → c ≤ a → All (λ y. c ≤ y) l → All (λ y. c ≤ y) (join_equal a l)
unfolding join_equal
All-join_equal c a [] h k = (h, tt)
All-join_equal c a (b ∷ l) h k = elim (Bool-cases (a == b)) [ inl e ↦ rw e k | inr e ↦ rw e (h, k) ]

-- Compaction keeps a lower bound.
All-compact : (c : ℕ) (l : List ℕ) → All (λ y. c ≤ y) l → All (λ y. c ≤ y) (compact l)
unfolding compact
All-compact c [] h = tt
All-compact c (a ∷ l) h = All-join_equal c a (compact l) h.0 (All-compact c l h.1)

join_equal-IsAscending :
    (a : ℕ) (l : List ℕ) → All (λ y. a ≤ y) l → IsAscending l → IsAscending (join_equal a l)
unfolding join_equal
join_equal-IsAscending a [] h k = (tt, tt)
join_equal-IsAscending a (b ∷ l) h k = elim (Bool-cases (a == b)) [
  | inl e ↦ rw e k
  | inr e ↦ let a<b : a < b = ground arith in rw e ((a<b, All-lt_trans a b l a<b k.0), k)
]

compact-IsAscending : (l : List ℕ) → IsSorted l → IsAscending (compact l)
unfolding compact
compact-IsAscending [] h = tt
compact-IsAscending (a ∷ l) h =
    join_equal-IsAscending a (compact l) (All-compact a l h.0) (compact-IsAscending l h.1)

pub sort_unique-IsAscending : (l : List ℕ) → IsAscending (sort_unique l)
unfolding sort_unique
sort_unique-IsAscending l = compact-IsAscending (sort l) (sort-IsSorted l)

-- What is not above a bound is no member of a list above it.
not-contains : (i y : ℕ) (l : List ℕ) → i ≤ y → All (λ z. y < z) l → contains i l ≡ false
not-contains i y [] h k = refl
not-contains i y (x ∷ l) h k = ground (arith, not-contains i y l h k.1)

pub contains-intersect :
    (i : ℕ) (a b : List ℕ)
    → IsAscending a
    → IsAscending b
    → contains i (intersect a b) ≡ (contains i a && contains i b)
unfolding intersect
contains-intersect i [] b h k = refl
contains-intersect i (x ∷ a) [] h k = ground arith
contains-intersect i (x ∷ a) (y ∷ b) h k = ground (
  arith,
  not-contains i x a,
  not-contains i y b,
  contains-intersect i a (y ∷ b) h.1 k,
  contains-intersect i (x ∷ a) b h k.1,
  contains-intersect i a b h.1 k.1,
)

All-intersect : (c : ℕ) (a b : List ℕ) → All (λ y. c < y) a → All (λ y. c < y) (intersect a b)
unfolding intersect
All-intersect c [] b h = tt
All-intersect c (x ∷ a) [] h = tt
All-intersect c (x ∷ a) (y ∷ b) h =
    elim (compare x y)
      as (λ o.
        All (λ z. c < z)
          (elim o [
            | Ordering.lt ↦ intersect a (y ∷ b)
            | Ordering.gt ↦ intersect (x ∷ a) b
            | Ordering.eq ↦ x ∷ intersect a b
          ])) [
            | Ordering.lt ↦ All-intersect c a (y ∷ b) h.1
            | Ordering.gt ↦ All-intersect c (x ∷ a) b h
            | Ordering.eq ↦ (h.0, All-intersect c a b h.1)
          ]

pub intersect-IsAscending :
    (a b : List ℕ) → IsAscending a → IsAscending b → IsAscending (intersect a b)
unfolding intersect
intersect-IsAscending [] b h k = tt
intersect-IsAscending (x ∷ a) [] h k = tt
intersect-IsAscending (x ∷ a) (y ∷ b) h k =
    elim (compare x y)
      as (λ o. IsAscending (elim o [
        | Ordering.lt ↦ intersect a (y ∷ b)
        | Ordering.gt ↦ intersect (x ∷ a) b
        | Ordering.eq ↦ x ∷ intersect a b
      ])) [
        | Ordering.lt ↦ intersect-IsAscending a (y ∷ b) h.1 k
        | Ordering.gt ↦ intersect-IsAscending (x ∷ a) b h k.1
        | Ordering.eq ↦ (All-intersect x a b h.0, intersect-IsAscending a b h.1 k.1)
      ]

-- Ascending lists with the same members are the same list.
pub ascending_ext :
    (a b : List ℕ) → IsAscending a → IsAscending b → ((i : ℕ) → contains i a ≡ contains i b) → a ≡ b
ascending_ext [] [] h k e = refl
ascending_ext [] (y ∷ b) h k e = absurd (ground (arith, e y))
ascending_ext (x ∷ a) [] h k e = absurd (ground (arith, e x))
ascending_ext (x ∷ a) (y ∷ b) h k e =
    let same : x ≡ y = ground (arith, e x, e y, not-contains x y b, not-contains y x a) in
    ap₂ ◌∷◌ same (
      ascending_ext a b h.1 k.1
        (λ i. ground (arith, e i, same, not-contains i x a, not-contains i y b)))
