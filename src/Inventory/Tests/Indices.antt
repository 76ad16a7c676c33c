-- ===== src/Inventory/Tests/Indices.antt =====
-- The walk of a subkey index at work: a nested index, and one that lists itself.
use amcache.Base.{ℕ, ◌+◌, ◌≤◌, ◌≡◌, ◌≢◌, refl, [], ◌∷◌, if◌then◌else◌, ◌==◌, ok, err, arith}
use amcache.Inventory.Slots.{
  Cells, sig_lh, sig_ri, sig_nk, max_subkeys, out_of_fuel, index_cycle, kind_of, seen_before,
  add_child, add_children, visit, walk, index_slots,
}
use amcache.Inventory.Slots.Count.{slots, index_slots_exact}
use amcache.Inventory.Slots.Fuel.{index_slots_terminates}

-- An index over a fast index of three keys and one key node.
abbrev pub nested : Cells
nested = record {
  signature = λ off.
      if off == 0x20
      then sig_ri
      else if off == 0x40
      then sig_lh
      else if off == 0x60
      then sig_nk
      else 0;
  fast_count = λ off. 3;
  children = λ off. if off == 0x20 then 0x40 ∷ 0x60 ∷ [] else [];
}

nested_slots : index_slots nested 0x20 max_subkeys ≡ ok 4
unfolding index_slots walk visit add_children add_child kind_of seen_before
nested_slots = refl

index_slots_exact_example : (4 ≤ max_subkeys) × ((d : ℕ) → slots nested (33 + d) 0x20 ≡ 4)
index_slots_exact_example = index_slots_exact nested 0x20 max_subkeys 4 nested_slots

-- An index that lists itself twice.
abbrev cyclic : Cells
cyclic = record {
  signature = λ off. sig_ri;
  fast_count = λ off. 0;
  children = λ off. 0x20 ∷ 0x20 ∷ [];
}

cyclic_slots : index_slots cyclic 0x20 max_subkeys ≡ err index_cycle
unfolding index_slots walk visit add_children add_child kind_of seen_before
cyclic_slots = refl

index_slots_terminates_example : index_slots cyclic 0x20 max_subkeys ≢ err out_of_fuel
index_slots_terminates_example =
    index_slots_terminates cyclic 0x20 max_subkeys (λ o. (omega arith, (omega arith, tt)))
      (omega arith)
