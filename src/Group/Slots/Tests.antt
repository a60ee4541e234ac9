-- ===== src/Group/Slots/Tests.antt =====
-- Slots of a small group.
use rs_dtool.Base.{
  ℕ, suc, zero, ◌+◌, ◌≢◌, ◌≡◌, refl, [], ◌∷◌, some, returns, panics, arith, get_elem?,
}
use rs_dtool.Group.Slots.{
  GroupExt, Heap, Slot, SlotVec, index, new_reporter, swap_remove_and_update_index,
}
use rs_dtool.Group.Slots.Access.{
  len, slot_at, slot_at_mut, slot_inlock_ext_mut, slot_at_mut-IsIndexed,
}
use rs_dtool.Group.Slots.Contents.{contents, put, slots-Bag}
use rs_dtool.Group.Slots.Indices.{
  IsIndexed, Removed, new_reporter-IsIndexed, swap_remove_and_update_index-IsIndexed,
  swap_remove_and_update_index_out,
}

abbrev pub numbers : GroupExt
numbers = record {
  GroupShare = ℕ;
  Data = ℕ;
  IdleData = ℕ;
  BusyData = ℕ;
  SlotShare = ℕ;
  SlotInlock = ℕ;
}

-- Three slots; the cell at address 3 belongs to a slot that has been removed.
abbrev heap : Heap numbers
heap =
    record { index = 0; ext = 50 }
    ∷ record { index = 2; ext = 51 }
    ∷ record { index = 1; ext = 52 }
    ∷ record { index = 7; ext = 53 }
    ∷ []

abbrev slots : SlotVec numbers
slots =
    record { share = 0; ext = 10 }
    ∷ record { share = 2; ext = 12 }
    ∷ record { share = 1; ext = 11 }
    ∷ []

indexed : IsIndexed heap slots
unfolding index
indexed zero s p = ground arith
indexed (suc zero) s p = ground arith
indexed (suc (suc zero)) s p = ground arith
indexed (suc (suc (suc i))) s p = cc

new_reporter-IsIndexed_example :
    let (reporter, slots', heap') = new_reporter 0 heap slots 54 14 in
    IsIndexed heap' slots'
    × (get_elem? slots' 3 ≡ some (record { share = reporter.slot_share; ext = 14 }))
    × (index heap' reporter.slot_share ≡ returns 3)
    × (reporter.group ≡ 0)
    × ((a i : ℕ) → index heap a ≡ returns i → index heap' a ≡ returns i)
new_reporter-IsIndexed_example = new_reporter-IsIndexed 0 heap slots 54 14 indexed

swap_remove_and_update_index-IsIndexed_example : Removed heap slots 0
swap_remove_and_update_index-IsIndexed_example =
    swap_remove_and_update_index-IsIndexed heap slots 0 indexed (omega arith)

removal_out : swap_remove_and_update_index heap slots 3 ≡ panics
removal_out = swap_remove_and_update_index_out heap slots 3 (omega arith)

-- The slot of cell 1 moves to position 0.
removal_runs :
    swap_remove_and_update_index heap slots 0
    ≡ returns (
      record { share = 0; ext = 10 },
      record { share = 1; ext = 11 } ∷ record { share = 2; ext = 12 } ∷ [],
      record { index = 0; ext = 50 }
          ∷ record { index = 0; ext = 51 }
          ∷ record { index = 1; ext = 52 }
          ∷ record { index = 7; ext = 53 }
          ∷ [],
    )
unfolding swap_remove_and_update_index
removal_runs = refl

slot_at_mut-IsIndexed_test :
    (s : Slot numbers) × (slots' : SlotVec numbers) × (slot_at slots 1 ≡ returns s)
    × (slot_at_mut slots 1 (λ t. slot_inlock_ext_mut t (λ n. n + 1)) ≡ returns slots')
    × (get_elem? slots' 1 ≡ some (record s { ext = s.ext + 1 }))
    × ((j : ℕ) → 1 ≢ j → get_elem? slots' j ≡ get_elem? slots j)
    × (len slots' ≡ len slots)
    × IsIndexed heap slots'
slot_at_mut-IsIndexed_test = slot_at_mut-IsIndexed heap slots 1 (λ n. n + 1) indexed (omega arith)

slots-Bag_example :
    let (reporter, slots', heap') = new_reporter 0 heap slots 54 14 in
    (contents slots' ≡ put (record { share = reporter.slot_share; ext = 14 }) (contents slots))
    × ((r : Removed heap slots 0) × (put r.removed (contents r.rest) ≡ contents slots))
slots-Bag_example = slots-Bag 0 heap slots 54 14 0 indexed (omega arith)
