-- ===== src/Group/Slots/Indices.antt =====
-- The cell of each slot holds the slot's position: `SlotVec` and `new_reporter` of
-- Dtool_impl/src/downloader/download_group.rs keep this.
use native.Mathlib.Decide.{dec_lt, ℕ_discrete}
use rs_dtool.Base.{
  returns-injective, subst, ℕ, ◌+◌, ◌≤◌, ◌<◌, ◌≡◌, ◌≢◌, refl, sym, ◌∙◌, inl, inr, [], ◌∷◌, ◌++◌,
  some, returns, panics, length, get_elem?, get_elem?-snoc, get_elem?-snoc_cases, get_elem?-some_lt,
  arith,
}
use rs_dtool.Group.Slots.{
  GroupExt, SlotShare, Slot, Heap, SlotVec, index, update_index, new_reporter,
  swap_remove_and_update_index,
}
use rs_dtool.Group.Slots.Cells.{index_of_cell, index-append, Written, written}
use rs_dtool.Group.Slots.Removal.{SwapRemoved, swap_removed, swap_remove_out}

module _ {E : GroupExt} where
  abbrev pub IsIndexed : Heap E → SlotVec E → Type 0
  IsIndexed heap slots =
      (i : ℕ) (s : Slot E) → get_elem? slots i ≡ some s → index heap s.share ≡ returns i

  -- Two slots of an indexed vector have different cells.
  IsIndexed-inj :
      (heap : Heap E) (slots : SlotVec E)
      → IsIndexed heap slots
      → (i j : ℕ) (s t : Slot E) → get_elem? slots i ≡ some s
      → get_elem? slots j ≡ some t
      → s.share ≡ t.share
      → i ≡ j
  IsIndexed-inj heap slots v i j s t p q e = cc (v i s p, v j t q)

  -- A new reporter has a cell of its own, which holds the position of its slot, and every other slot
  -- keeps its position; so the vector stays indexed.
  pub new_reporter-IsIndexed :
      (group : ℕ) (heap : Heap E) (slots : SlotVec E) (ext : E.SlotShare) (inlock : E.SlotInlock)
      → IsIndexed heap slots
      → let (reporter, slots', heap') = new_reporter group heap slots ext inlock in
        IsIndexed heap' slots'
        × (get_elem? slots' (length slots)
            ≡ some (record { share = reporter.slot_share; ext = inlock }))
        × (index heap' reporter.slot_share ≡ returns (length slots))
        × (reporter.group ≡ group)
        × ((a i : ℕ) → index heap a ≡ returns i → index heap' a ≡ returns i)
  unfolding new_reporter
  new_reporter-IsIndexed group heap slots ext inlock v =
      let cell : SlotShare E = record { index = length slots; ext = ext } in
      let slot : Slot E = record { share = length heap; ext = inlock } in
      let fresh : index (heap ++ cell ∷ []) (length heap) ≡ returns (length slots) =
        index_of_cell (heap ++ cell ∷ []) (length heap) (get_elem?-snoc heap cell) in
      (
        λ i s p. elim (get_elem?-snoc_cases slots slot s i p) [
          | inl old ↦ index-append heap cell s.share i (v i s old)
          | inr (at_end, same) ↦ rw (← same, at_end) fresh
        ],
        get_elem?-snoc slots slot,
        fresh,
        refl,
        λ a i h. index-append heap cell a i h,
      )

  -- What a removal at `i` gives: the slot that stood there, every other slot at the position that
  -- its cell now holds, and no other cell touched.
  pub record Removed (heap : Heap E) (slots : SlotVec E) (i : ℕ) : Type 0 where
    pub removed : Slot E
    pub rest : SlotVec E
    pub heap' : Heap E
    pub ran : swap_remove_and_update_index heap slots i ≡ returns (removed, rest, heap')
    pub hit : get_elem? slots i ≡ some removed
    pub shorter : length rest + 1 ≡ length slots
    pub indexed : IsIndexed heap' rest
    pub kept :
        (j : ℕ) (s : Slot E)
        → get_elem? slots j ≡ some s
        → i ≢ j
        → (k : ℕ) × (get_elem? rest k ≡ some s) × (index heap' s.share ≡ returns k)
    pub outside :
        (a : ℕ)
        → ((j : ℕ) (s : Slot E) → get_elem? slots j ≡ some s → s.share ≢ a)
        → index heap' a ≡ index heap a

  -- The last slot is removed, and no slot moves.
  Removed-at_end :
      (heap : Heap E) (slots : SlotVec E) (i : ℕ)
      → IsIndexed heap slots
      → (r : SwapRemoved slots i) → i ≡ length r.rest
      → Removed heap slots i
  unfolding swap_remove_and_update_index
  Removed-at_end heap slots i v r e = record {
    removed = r.removed;
    rest = r.rest;
    heap' = heap;
    ran = rw r.ran (ground arith);
    hit = r.hit;
    shorter = r.shorter;
    indexed = λ j s p.
        let lt : j < length r.rest = get_elem?-some_lt r.rest j p in
        v j s (sym (r.kept j lt (omega arith)) ∙ p);
    kept = λ j s p ne.
        let lt : j < length slots = get_elem?-some_lt slots j p in
        (j, r.kept j (omega arith) ne ∙ p, v j s p);
    outside = λ a _. refl;
  }

  -- The last slot moves to the free place, and its cell is written.
  Removed-before_end :
      (heap : Heap E) (slots : SlotVec E) (i : ℕ)
      → IsIndexed heap slots
      → (r : SwapRemoved slots i) → i < length r.rest
      → Written heap r.last.share i
      → Removed heap slots i
  unfolding swap_remove_and_update_index update_index
  Removed-before_end heap slots i v r lt w = record {
    removed = r.removed;
    rest = r.rest;
    heap' = w.heap';
    ran = rw (r.ran, r.moved lt, w.ran) (ground arith);
    hit = r.hit;
    shorter = r.shorter;
    indexed = indexed;
    kept = kept;
    outside = λ a h. w.elsewhere a (h (length r.rest) r.last r.was_last);
  }
    where
      stayed :
          (j : ℕ) (s : Slot E)
          → j < length r.rest
          → get_elem? slots j ≡ some s
          → index w.heap' s.share ≡ returns j
      stayed j s below p =
          w.elsewhere s.share (λ e.
            let same : length r.rest ≡ j =
              IsIndexed-inj heap slots v (length r.rest) j r.last s r.was_last p e in
            omega arith)
          ∙ v j s p

      indexed : IsIndexed w.heap' r.rest
      indexed j s p = elim (ℕ_discrete i j) [
        | yes e ↦ cc (r.moved lt, w.here)
        | no ne ↦
            let below : j < length r.rest = get_elem?-some_lt r.rest j p in
            stayed j s below (sym (r.kept j below ne) ∙ p)
      ]

      kept :
          (j : ℕ) (s : Slot E)
          → get_elem? slots j ≡ some s
          → i ≢ j
          → (k : ℕ) × (get_elem? r.rest k ≡ some s) × (index w.heap' s.share ≡ returns k)
      kept j s p ne = elim (dec_lt j (length r.rest)) [
        | yes below ↦ (j, r.kept j below ne ∙ p, stayed j s below p)
        | no above ↦
            let at_end : j ≡ length r.rest = omega (arith, get_elem?-some_lt slots j p) in
            (i, cc (r.moved lt, r.was_last), cc (r.was_last, w.here))
      ]

  -- Removing a slot keeps the vector indexed: each of the others is found at the position that its
  -- own cell holds, so a task that asks for its index gets the slot that is its own. The position
  -- is to be in range.
  pub swap_remove_and_update_index-IsIndexed :
      (heap : Heap E) (slots : SlotVec E) (i : ℕ)
      → IsIndexed heap slots
      → i < length slots
      → Removed heap slots i
  swap_remove_and_update_index-IsIndexed heap slots i v lt =
      let r : SwapRemoved slots i = swap_removed slots i lt in
      elim (dec_lt i (length r.rest)) [
        | yes below ↦
            Removed-before_end heap slots i v r below
              (written heap r.last.share i (length r.rest) (v (length r.rest) r.last r.was_last))
        | no above ↦ Removed-at_end heap slots i v r (omega (arith, r.shorter))
      ]

  -- Out of range it panics, like `Vec::swap_remove`.
  pub swap_remove_and_update_index_out :
      (heap : Heap E) (slots : SlotVec E) (i : ℕ)
      → length slots ≤ i
      → swap_remove_and_update_index heap slots i ≡ panics
  unfolding swap_remove_and_update_index
  swap_remove_and_update_index_out heap slots i le = rw (swap_remove_out slots i le)

  -- The same for a removal that is known to return.
  pub IsIndexed-of_removal :
      (heap : Heap E) (slots : SlotVec E) (i : ℕ) {t : Slot E × SlotVec E × Heap E}
      → IsIndexed heap slots
      → swap_remove_and_update_index heap slots i ≡ returns t
      → IsIndexed t.2 t.1
  IsIndexed-of_removal heap slots i {t} v h = elim (dec_lt i (length slots)) [
    | yes lt ↦
        let r : Removed heap slots i = swap_remove_and_update_index-IsIndexed heap slots i v lt in
        subst (λ (u : Slot E × SlotVec E × Heap E). IsIndexed u.2 u.1)
          (returns-injective (sym r.ran ∙ h)) r.indexed
    | no ge ↦
        let out : swap_remove_and_update_index heap slots i ≡ panics =
          swap_remove_and_update_index_out heap slots i (omega arith) in
        absurd (cc out)
  ]
