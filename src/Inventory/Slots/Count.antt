-- ===== src/Inventory/Slots/Count.antt =====
-- What `indexSlots` counts is what the recursive walk of the index meets.
use amcache.Base.{ℕ, zero, suc, ◌+◌, ◌-◌, ◌^◌, ◌≤◌, ◌≡◌, List, [], ◌∷◌, ok, arith, ap, ok_injective}
use amcache.Inventory.Slots.{
  Cells, Frame, Pending, fast_index, offset_index, key_node, other_cell, kind_of, add_child,
  add_children, visit, walk, index_slots, max_index_depth,
}

abbrev children_total : (ℕ → ℕ) → List ℕ → ℕ
children_total count [] = 0
children_total count (child ∷ cs) = count child + children_total count cs

-- A child that is a key node is one, an index is what the walk of it counts.
abbrev child_count : Cells → (ℕ → ℕ) → ℕ → ℕ
child_count r count child = elim (kind_of (r.signature child)) [
  | key_node ↦ 1
  | fast_index ↦ count child
  | offset_index ↦ count child
  | other_cell ↦ 0
]

-- The key nodes that a recursive walk reaches from the index at `off`, nested no deeper than
-- `depth`: a fast index has its count, any other the sum over its children.
unfoldable pub slots : Cells → ℕ → ℕ → ℕ
slots r zero off = 0
slots r (suc depth) off = elim (kind_of (r.signature off)) [
  | fast_index ↦ r.fast_count off
  | offset_index ↦ children_total (child_count r (λ c. slots r depth c)) (r.children off)
  | key_node ↦ 0
  | other_cell ↦ 0
]

-- `d` more levels than the walk allows.
module _ (r : Cells) (d : ℕ) where
  abbrev frame_slots : Frame → ℕ
  frame_slots f = slots r (33 + d - f.depth) f.off

  -- What the pending frames still have to count.
  abbrev owed : List Frame → ℕ
  owed [] = 0
  owed (f ∷ stack) = frame_slots f + owed stack

  abbrev whole : Pending → ℕ
  whole q = q.total + owed q.stack

  whole-add_child :
      (depth child : ℕ) (q : Pending)
      → whole (add_child r depth child q)
        ≡ whole q + child_count r (λ c. slots r (33 + d - depth) c) child
  unfolding add_child
  whole-add_child depth child q =
      elim (kind_of (r.signature child))
        as (λ k.
          whole (elim k [
            | key_node ↦ record q { total = q.total + 1 }
            | fast_index ↦ record q { stack = record { off = child; depth = depth } ∷ q.stack }
            | offset_index ↦ record q { stack = record { off = child; depth = depth } ∷ q.stack }
            | other_cell ↦ q
          ])
          ≡ whole q + (elim k [
            | key_node ↦ 1
            | fast_index ↦ slots r (33 + d - depth) child
            | offset_index ↦ slots r (33 + d - depth) child
            | other_cell ↦ 0
          ])) [
            | key_node ↦ omega arith
            | fast_index ↦ omega arith
            | offset_index ↦ omega arith
            | other_cell ↦ omega arith
          ]

  whole-add_children :
      (depth : ℕ) (cs : List ℕ) (q : Pending)
      → whole (add_children r depth cs q)
        ≡ whole q + children_total (child_count r (λ c. slots r (33 + d - depth) c)) cs
  unfolding add_children
  whole-add_children depth [] q = omega arith
  whole-add_children depth (child ∷ cs) q = omega (
    arith,
    whole-add_children depth cs (add_child r depth child q),
    whole-add_child depth child q,
  )

  whole-visit :
      (f : Frame) (q : Pending)
      → f.depth ≤ max_index_depth
      → whole (visit r f q) ≡ whole q + frame_slots f
  unfolding visit
  whole-visit f q h =
      let deeper : 33 + d - f.depth ≡ suc (33 + d - (f.depth + 1)) = omega arith in
      rw deeper (
        unfold slots in
        elim (kind_of (r.signature f.off))
          as (λ k.
            whole (elim k [
              | fast_index ↦ record q { total = q.total + r.fast_count f.off }
              | offset_index ↦ add_children r (f.depth + 1) (r.children f.off) q
              | key_node ↦ q
              | other_cell ↦ q
            ])
            ≡ whole q + (elim k [
              | fast_index ↦ r.fast_count f.off
              | offset_index ↦
                  children_total (child_count r (λ c. slots r (33 + d - (f.depth + 1)) c))
                    (r.children f.off)
              | key_node ↦ 0
              | other_cell ↦ 0
            ])) [
              | fast_index ↦ omega arith
              | offset_index ↦ whole-add_children (f.depth + 1) (r.children f.off) q
              | key_node ↦ omega arith
              | other_cell ↦ omega arith
            ])

  walk_exact :
      (limit fuel : ℕ) (stack : List Frame) (seen : List ℕ) (total t : ℕ)
      → walk r limit fuel stack seen total ≡ ok t
      → t ≡ total + owed stack
  unfolding walk
  walk_exact limit fuel [] seen total t h = omega (arith, ok_injective h)
  walk_exact limit zero (f ∷ stack) seen total t h = cc
  walk_exact limit (suc fuel) (f ∷ stack) seen total t h =
      let q = visit r f (record { stack = stack; total = total }) in
      ground (
        arith,
        walk_exact limit fuel q.stack (f.off ∷ seen) q.total t,
        whole-visit f (record { stack = stack; total = total }),
      )

walk-le :
    (r : Cells) (limit fuel : ℕ) (stack : List Frame) (seen : List ℕ) (total t : ℕ)
    → total ≤ limit
    → walk r limit fuel stack seen total ≡ ok t
    → t ≤ limit
unfolding walk
walk-le r limit fuel [] seen total t k h = omega (arith, ok_injective h)
walk-le r limit zero (f ∷ stack) seen total t k h = cc
walk-le r limit (suc fuel) (f ∷ stack) seen total t k h =
    let q = visit r f (record { stack = stack; total = total }) in
    ground (arith, walk-le r limit fuel q.stack (f.off ∷ seen) q.total t)

-- Where `indexSlots` accepts an index, the recursive walk of that index ends within 33 levels and
-- reaches exactly the key nodes that were counted, however much deeper it could go, and they are
-- within the limit.
pub index_slots_exact :
    (r : Cells) (off limit t : ℕ)
    → index_slots r off limit ≡ ok t
    → (t ≤ limit) × ((d : ℕ) → slots r (33 + d) off ≡ t)
unfolding index_slots
index_slots_exact r off limit t h = (
  walk-le r limit (2 ^ 32 + 1) (record { off = off; depth = 0 } ∷ []) [] 0 t (omega arith) h,
  λ d.
      let counted : t ≡ 0 + (slots r (33 + d - 0) off + 0) =
        walk_exact r d limit (2 ^ 32 + 1) (record { off = off; depth = 0 } ∷ []) [] 0 t h in
      let level : slots r (33 + d) off ≡ slots r (33 + d - 0) off =
        ap (λ n. slots r n off) (omega arith) in
      omega (arith, counted, level),
)
