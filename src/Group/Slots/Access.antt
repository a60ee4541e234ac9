-- ===== src/Group/Slots/Access.antt =====
-- Dtool_impl/src/downloader/download_group.rs: the ways to a slot of `SlotVec`, to its extension and to that of
-- its cell. A write through a borrowed part is a function from the old value to the new one.
use native.Mathlib.Decide.{ℕ_discrete}
use mathlib.Core.Option.{some-injective}
use rs_dtool.Base.{
  ℕ, ◌<◌, ◌≡◌, ◌≢◌, ap, sym, refl, ◌∙◌, arith, zero, suc, [], ◌∷◌, List, none, some, Exec, returns,
  undefined, ◌>>=◌, >>=-returns, unwrap, length, length-set, get_elem?, get_elem?-set_self,
  get_elem?-set_ne, get_elem?-some_lt, set,
}
use rs_dtool.Group.Slots.{GroupExt, Heap, Slot, SlotVec, index}
use rs_dtool.Group.Slots.Indices.{IsIndexed}

module _ {E : GroupExt} where
  abbrev pub len : SlotVec E → ℕ
  len slots = length slots

  -- `Index::index`, and `IndexMut::index_mut` followed by a write: out of range they panic.
  abbrev pub slot_at : SlotVec E → ℕ → Exec (Slot E)
  slot_at slots i = unwrap (get_elem? slots i)

  abbrev pub slot_at_mut : SlotVec E → ℕ → (Slot E → Slot E) → Exec (SlotVec E)
  slot_at_mut slots i f = do slot ← slot_at slots i; returns (set slots i (f slot))

  abbrev pub as_ref : SlotVec E → List (Slot E)
  as_ref slots = slots

  abbrev pub as_mut : SlotVec E → (List (Slot E) → List (Slot E)) → SlotVec E
  as_mut slots f = f slots

  abbrev pub slot_ext : Heap E → Slot E → Exec E.SlotShare
  slot_ext heap slot = elim (get_elem? heap slot.share) [
    | none ↦ undefined
    | some cell ↦ returns cell.ext
  ]

  abbrev pub slot_inlock_ext : Slot E → E.SlotInlock
  slot_inlock_ext slot = slot.ext

  abbrev pub slot_inlock_ext_mut : Slot E → (E.SlotInlock → E.SlotInlock) → Slot E
  slot_inlock_ext_mut slot f = record slot { ext = f slot.ext }

  some_of_lt :
      (slots : SlotVec E) (i : ℕ) → i < length slots → (s : Slot E) × (get_elem? slots i ≡ some s)
  some_of_lt [] i h = absurd (omega arith)
  some_of_lt (s ∷ slots) zero h = (s, refl)
  some_of_lt (s ∷ slots) (suc i) h = some_of_lt slots i (omega arith)

  set-IsIndexed :
      (heap : Heap E) (slots : SlotVec E) (i : ℕ) (s s' : Slot E)
      → IsIndexed heap slots
      → get_elem? slots i ≡ some s
      → s'.share ≡ s.share
      → IsIndexed heap (set slots i s')
  set-IsIndexed heap slots i s s' indexed at same j t h = elim (ℕ_discrete i j) [
    | yes e ↦
        let own : get_elem? (set slots i s') i ≡ some s' =
          get_elem?-set_self slots i s' (get_elem?-some_lt slots i at) in
        let here : s' ≡ t = some-injective s' t (sym own ∙ ap (get_elem? (set slots i s')) e ∙ h) in
        let shares : t.share ≡ s.share = sym (ap (λ q. q.share) here) ∙ same in
        ap (index heap) shares ∙ indexed i s at ∙ ap returns e
    | no ne ↦ indexed j t (sym (get_elem?-set_ne slots i j s' ne) ∙ h)
  ]

  -- A write to the extension of the slot at a position of the vector returns; that slot has the new
  -- extension and the same cell, the other slots are as they were, and an indexed vector stays
  -- indexed.
  pub slot_at_mut-IsIndexed :
      (heap : Heap E) (slots : SlotVec E) (i : ℕ) (f : E.SlotInlock → E.SlotInlock)
      → IsIndexed heap slots
      → i < length slots
      → (s : Slot E) × (slots' : SlotVec E) × (slot_at slots i ≡ returns s)
        × (slot_at_mut slots i (λ t. slot_inlock_ext_mut t f) ≡ returns slots')
        × (get_elem? slots' i ≡ some (record s { ext = f s.ext }))
        × ((j : ℕ) → i ≢ j → get_elem? slots' j ≡ get_elem? slots j)
        × (len slots' ≡ len slots)
        × IsIndexed heap slots'
  slot_at_mut-IsIndexed heap slots i f indexed lt =
      let (s, at) = some_of_lt slots i lt in
      let s' : Slot E = record s { ext = f s.ext } in
      let found : slot_at slots i ≡ returns s = ap unwrap at in
      (
        s,
        set slots i s',
        found,
        >>=-returns _ found,
        get_elem?-set_self slots i s' lt,
        λ j ne. get_elem?-set_ne slots i j s' ne,
        length-set slots i s',
        set-IsIndexed heap slots i s s' indexed at refl,
      )
