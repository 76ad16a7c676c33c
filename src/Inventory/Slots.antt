-- ===== src/Inventory/Slots.antt =====
-- `indexSlots` of internal/inventory/inventory.go: how many key nodes a subkey index will materialise,
-- counted without materialising any.
pub mod Count
pub mod Fuel
use amcache.Base.{
  ℕ, zero, suc, ◌+◌, ◌^◌, Bool, true, false, ◌||◌, List, [], ◌∷◌, if◌then◌else◌, ltb, ◌==◌, length,
  Result, ok, err,
}

-- What the registry parser reads of a cell at an offset: its signature, the count of a fast index,
-- and the offsets that an index lists.
pub record Cells : Type 0 where
  pub signature : ℕ → ℕ
  pub fast_count : ℕ → ℕ
  pub children : ℕ → List ℕ

abbrev pub sig_nk : ℕ
sig_nk = 0x6b6e

abbrev pub sig_lf : ℕ
sig_lf = 0x666c

abbrev pub sig_lh : ℕ
sig_lh = 0x686c

abbrev pub sig_ri : ℕ
sig_ri = 0x6972

abbrev pub sig_li : ℕ
sig_li = 0x696c

abbrev pub max_index_depth : ℕ
max_index_depth = 32

abbrev pub max_subkeys : ℕ
max_subkeys = 1000000

pub data IndexError : Type 0 where
  index_depth index_cycle too_many_subkeys out_of_fuel : IndexError

-- `frame`.
pub record Frame : Type 0 where
  pub off : ℕ
  pub depth : ℕ

-- The switch on a cell's signature.
pub data CellKind : Type 0 where
  fast_index offset_index key_node other_cell : CellKind

unfoldable pub kind_of : ℕ → CellKind
kind_of sig =
    if sig == sig_lf || sig == sig_lh
    then fast_index
    else if sig == sig_ri || sig == sig_li
    then offset_index
    else if sig == sig_nk
    then key_node
    else other_cell

unfoldable pub seen_before : ℕ → List ℕ → Bool
seen_before off [] = false
seen_before off (o ∷ seen) = off == o || seen_before off seen

-- The pending frames, the last pushed first, and the running total.
pub record Pending : Type 0 where
  pub stack : List Frame
  pub total : ℕ

-- One child of an index: a key node counts, an index is pushed, anything else is left out.
unfoldable pub add_child : Cells → ℕ → ℕ → Pending → Pending
add_child r depth child q = elim (kind_of (r.signature child)) [
  | key_node ↦ record q { total = q.total + 1 }
  | fast_index ↦ record q { stack = record { off = child; depth = depth } ∷ q.stack }
  | offset_index ↦ record q { stack = record { off = child; depth = depth } ∷ q.stack }
  | other_cell ↦ q
]

-- The loop over the children.
unfoldable pub add_children : Cells → ℕ → List ℕ → Pending → Pending
add_children r depth [] q = q
add_children r depth (child ∷ cs) q = add_children r depth cs (add_child r depth child q)

-- The switch on the popped frame's cell.
unfoldable pub visit : Cells → Frame → Pending → Pending
visit r f q = elim (kind_of (r.signature f.off)) [
  | fast_index ↦ record q { total = q.total + r.fast_count f.off }
  | offset_index ↦ add_children r (f.depth + 1) (r.children f.off) q
  | key_node ↦ q
  | other_cell ↦ q
]

-- The loop over the pending frames.
unfoldable pub walk : Cells → ℕ → ℕ → List Frame → List ℕ → ℕ → Result IndexError ℕ
walk r limit fuel [] seen total = ok total
walk r limit zero (f ∷ stack) seen total = err out_of_fuel
walk r limit (suc fuel) (f ∷ stack) seen total =
    let q = visit r f (record { stack = stack; total = total }) in
    let rest = walk r limit fuel q.stack (f.off ∷ seen) q.total in
    if ltb max_index_depth f.depth
    then err index_depth
    else if seen_before f.off seen
    then err index_cycle
    else if ltb limit q.total || ltb limit (length q.stack)
    then err too_many_subkeys
    else rest

-- `indexSlots`: an offset is a 32-bit word, so that each is visited once at most.
unfoldable pub index_slots : Cells → ℕ → ℕ → Result IndexError ℕ
index_slots r off limit = walk r limit (2 ^ 32 + 1) (record { off = off; depth = 0 } ∷ []) [] 0
