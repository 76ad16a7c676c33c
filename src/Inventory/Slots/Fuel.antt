-- ===== src/Inventory/Slots/Fuel.antt =====
-- The walk of `indexSlots` ends: no offset is visited twice, and there are 2 ^ 32 of them.
use amcache.Base.{
  ℕ, zero, suc, ◌+◌, ◌^◌, ◌≤◌, ◌<◌, ◌≡◌, ◌≢◌, false, List, [], ◌∷◌, if◌then◌else◌, ◌==◌, err, arith,
  Bool-cases, inl, inr, All,
}
use amcache.Inventory.Slots.{
  Cells, Frame, Pending, fast_index, offset_index, key_node, other_cell, kind_of, seen_before,
  add_child, add_children, visit, walk, index_slots, out_of_fuel,
}

-- The offsets below `n` that have not been seen.
abbrev free : List ℕ → ℕ → ℕ
free seen zero = 0
free seen (suc n) = (if seen_before n seen then 0 else 1) + free seen n

free-le : (seen : List ℕ) (n : ℕ) → free seen n ≤ n
free-le seen zero = omega arith
free-le seen (suc n) = ground (arith, free-le seen n)

free-lt_suc : (seen : List ℕ) (n : ℕ) → free seen n < n + 1
free-lt_suc seen n = omega (arith, free-le seen n)

free_less : (x : ℕ) (seen : List ℕ) (n : ℕ) → free (x ∷ seen) n ≤ free seen n
unfolding seen_before
free_less x seen zero = omega arith
free_less x seen (suc n) = ground (arith, free_less x seen n)

free-lt :
    (x : ℕ) (seen : List ℕ) (n : ℕ)
    → x < n
    → seen_before x seen ≡ false
    → free (x ∷ seen) n < free seen n
unfolding seen_before
free-lt x seen zero h e = absurd (omega arith)
free-lt x seen (suc n) h e = elim (Bool-cases (n == x)) [
  | inl same ↦ ground (arith, free_less x seen n)
  | inr other ↦ ground (arith, free-lt x seen n)
]

-- Every offset that an index lists is below `n`.
abbrev pub ListsBelow : Cells → ℕ → Type 0
ListsBelow r n = (o : ℕ) → All (λ c. c < n) (r.children o)

module _ (r : Cells) (n : ℕ) where
  abbrev StackBelow : List Frame → Type 0
  StackBelow stack = All (λ (f : Frame). f.off < n) stack

  add_child-StackBelow :
      (depth child : ℕ) (q : Pending)
      → child < n
      → StackBelow q.stack
      → StackBelow (add_child r depth child q).stack
  unfolding add_child
  add_child-StackBelow depth child q h a =
      elim (kind_of (r.signature child))
        as (λ k.
          StackBelow
            (elim k as (λ _. Pending) [
              | key_node ↦ record q { total = q.total + 1 }
              | fast_index ↦ record q { stack = record { off = child; depth = depth } ∷ q.stack }
              | offset_index ↦ record q { stack = record { off = child; depth = depth } ∷ q.stack }
              | other_cell ↦ q
            ]).stack) [
              | key_node ↦ a
              | fast_index ↦ (h, a)
              | offset_index ↦ (h, a)
              | other_cell ↦ a
            ]

  add_children-StackBelow :
      (depth : ℕ) (cs : List ℕ) (q : Pending)
      → All (λ c. c < n) cs
      → StackBelow q.stack
      → StackBelow (add_children r depth cs q).stack
  unfolding add_children
  add_children-StackBelow depth [] q h a = a
  add_children-StackBelow depth (child ∷ cs) q h a =
      add_children-StackBelow depth cs (add_child r depth child q) h.1
        (add_child-StackBelow depth child q h.0 a)

  visit-StackBelow :
      (f : Frame) (q : Pending)
      → ListsBelow r n
      → StackBelow q.stack
      → StackBelow (visit r f q).stack
  unfolding visit
  visit-StackBelow f q below a =
      elim (kind_of (r.signature f.off))
        as (λ k.
          StackBelow
            (elim k as (λ _. Pending) [
              | fast_index ↦ record q { total = q.total + r.fast_count f.off }
              | offset_index ↦ add_children r (f.depth + 1) (r.children f.off) q
              | key_node ↦ q
              | other_cell ↦ q
            ]).stack) [
              | fast_index ↦ a
              | offset_index ↦
                  add_children-StackBelow (f.depth + 1) (r.children f.off) q (below f.off) a
              | key_node ↦ a
              | other_cell ↦ a
            ]

  walk_ends :
      (limit fuel : ℕ) (stack : List Frame) (seen : List ℕ) (total : ℕ)
      → ListsBelow r n
      → StackBelow stack
      → free seen n < fuel
      → walk r limit fuel stack seen total ≢ err out_of_fuel
  unfolding walk
  walk_ends limit fuel [] seen total below a h = λ e. cc
  walk_ends limit zero (f ∷ stack) seen total below a h = absurd (omega arith)
  walk_ends limit (suc fuel) (f ∷ stack) seen total below a h =
      let q = visit r f (record { stack = stack; total = total }) in
      let rest =
        walk_ends limit fuel q.stack (f.off ∷ seen) q.total below
          (visit-StackBelow f (record { stack = stack; total = total }) below a.1) in
      λ e. ground (arith, rest, free-lt f.off seen n a.0)

-- `indexSlots` always ends by itself, however its index cells nest or refer back: since offsets are
-- 32-bit words, the fuel of its loop never runs out.
pub index_slots_terminates :
    (r : Cells) (off limit : ℕ)
    → ListsBelow r (2 ^ 32)
    → off < 2 ^ 32
    → index_slots r off limit ≢ err out_of_fuel
unfolding index_slots
index_slots_terminates r off limit below h =
    walk_ends r (2 ^ 32) limit (2 ^ 32 + 1) (record { off = off; depth = 0 } ∷ []) [] 0 below
      (h, tt) (free-lt_suc [] (2 ^ 32))
