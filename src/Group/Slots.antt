-- ===== src/Group/Slots.antt =====
-- Dtool_impl/src/downloader/download_group.rs: the slots of a group. A slot and the reporter of its
-- task share a counted cell, which holds the slot's position. The cells stand on a heap, and a
-- counted reference is an address there; a cell lives as long as a reference to it.
mod Cells
mod Removal
pub mod Indices
mod Access
mod Contents
pub mod Exts
mod Tests
use rs_dtool.Base.{
  ℕ, ◌-◌, List, [], ◌∷◌, ◌++◌, none, some, Exec, returns, undefined, ◌>>=◌, unwrap, length,
  get_elem?, set, take, ◌==◌, if◌then◌else◌,
}

-- The trait: what a user of the group adds to each part of it.
pub record GroupExt : Type 1 where
  pub GroupShare : Type 0
  pub Data : Type 0
  pub IdleData : Type 0
  pub BusyData : Type 0
  pub SlotShare : Type 0
  pub SlotInlock : Type 0

pub record SlotShare (E : GroupExt) : Type 0 where
  pub index : ℕ
  pub ext : E.SlotShare

pub record Slot (E : GroupExt) : Type 0 where
  pub share : ℕ
  pub ext : E.SlotInlock

abbrev pub Heap : GroupExt → Type 0
Heap E = List (SlotShare E)

abbrev pub SlotVec : GroupExt → Type 0
SlotVec E = List (Slot E)

-- `group` is the address of the shared group.
pub record Reporter : Type 0 where
  pub group : ℕ
  pub slot_share : ℕ

-- `Reporter::from_raw`
unfoldable pub from_raw : ℕ → ℕ → Reporter
from_raw group slot_share = record { group = group; slot_share = slot_share }

-- `Vec::swap_remove` of the standard library: the last element takes the free place.
pub swap_remove {ℓ} : {A : Type ℓ} → List A → ℕ → Exec (A × List A)
swap_remove xs i = do
  removed ← unwrap (get_elem? xs i)
  last ← unwrap (get_elem? xs (length xs - 1))
  returns (removed, take (length xs - 1) (set xs i last))

module _ {E : GroupExt} where
  -- Two clones of one reference to a new cell.
  pub new_pair : Heap E → ℕ → E.SlotShare → (ℕ × ℕ) × Heap E
  new_pair heap index ext =
      ((length heap, length heap), heap ++ record { index = index; ext = ext } ∷ [])

  -- `Slot::with_raw`
  pub with_raw : ℕ → E.SlotInlock → Slot E
  with_raw share ext = record { share = share; ext = ext }

  -- `Slot::index`, a read through the reference, and the write `*slot.index_mut() = i`.
  unfoldable pub index : Heap E → ℕ → Exec ℕ
  index heap share = elim (get_elem? heap share) [
    | none ↦ undefined
    | some cell ↦ returns cell.index
  ]

  pub set_index : Heap E → ℕ → ℕ → Exec (Heap E)
  set_index heap share i = elim (get_elem? heap share) [
    | none ↦ undefined
    | some cell ↦ returns (set heap share (record cell { index = i }))
  ]

  pub push_slot : SlotVec E → Slot E → SlotVec E
  push_slot slots slot = slots ++ slot ∷ []

  pub update_index : Heap E → SlotVec E → ℕ → Exec (Heap E)
  update_index heap slots i = do slot ← unwrap (get_elem? slots i); set_index heap slot.share i

  pub swap_remove_and_update_index : Heap E → SlotVec E → ℕ → Exec (Slot E × SlotVec E × Heap E)
  unfolding swap_remove update_index set_index
  swap_remove_and_update_index heap slots i = do
    (removed, rest) ← swap_remove slots i
    if i == length rest
        then returns (removed, rest, heap)
        else (do heap' ← update_index heap rest i; returns (removed, rest, heap'))

  -- The free function: a new task gets the next position.
  unfoldable pub new_reporter :
      ℕ → Heap E → SlotVec E → E.SlotShare → E.SlotInlock → Reporter × SlotVec E × Heap E
  unfolding new_pair with_raw push_slot from_raw
  new_reporter group heap slots slot_ext slot_inlock =
      let (shares, heap') = new_pair heap (length slots) slot_ext in
      let slot = with_raw shares.0 slot_inlock in
      (from_raw group shares.1, push_slot slots slot, heap')
