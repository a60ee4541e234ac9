-- ===== src/Group/Slots/Cells.antt =====
-- Reads and writes of the shared cells of Dtool_impl/src/downloader/download_group.rs.
use rs_dtool.Base.{
  ℕ, ◌≡◌, ◌≢◌, inl, inr, [], ◌∷◌, ◌++◌, some, returns, get_elem?, set, get_elem?-set_self,
  get_elem?-set_ne, get_elem?-append_left, get_elem?-some_lt, Option-cases, arith,
}
use rs_dtool.Group.Slots.{GroupExt, SlotShare, Heap, index, set_index}

module _ {E : GroupExt} where
  -- A read that succeeds is at an address of the heap.
  pub index-cell :
      (heap : Heap E) (a i : ℕ)
      → index heap a ≡ returns i
      → (cell : SlotShare E) × (get_elem? heap a ≡ some cell) × (cell.index ≡ i)
  unfolding index
  index-cell heap a i h = elim (Option-cases (get_elem? heap a)) [
    | inl e ↦ ground arith
    | inr (cell, e) ↦ (cell, e, ground arith)
  ]

  pub index_of_cell :
      (heap : Heap E) (a : ℕ) {cell : SlotShare E}
      → get_elem? heap a ≡ some cell
      → index heap a ≡ returns cell.index
  unfolding index
  index_of_cell heap a e = rw (e, index)

  pub index-append :
      (heap : Heap E) (cell : SlotShare E) (a i : ℕ)
      → index heap a ≡ returns i
      → index (heap ++ cell ∷ []) a ≡ returns i
  unfolding index
  index-append heap cell a i h =
      let (old, e, _) = index-cell heap a i h in
      rw (get_elem?-append_left heap (cell ∷ []) a (get_elem?-some_lt heap a e), index) h

  -- A write through a reference that is good changes what it reads, and nothing else.
  pub record Written (heap : Heap E) (a i : ℕ) : Type 0 where
    pub heap' : Heap E
    pub ran : set_index heap a i ≡ returns heap'
    pub here : index heap' a ≡ returns i
    pub elsewhere : (b : ℕ) → a ≢ b → index heap' b ≡ index heap b

  pub written : (heap : Heap E) (a i j : ℕ) → index heap a ≡ returns j → Written heap a i
  unfolding index set_index
  written heap a i j h =
      let (cell, e, _) = index-cell heap a j h in
      let new : SlotShare E = record cell { index = i } in
      record {
        heap' = set heap a new;
        ran = rw (e, set_index);
        here = rw (get_elem?-set_self heap a new (get_elem?-some_lt heap a e), index);
        elsewhere = λ b ne. rw (get_elem?-set_ne heap a b new ne, index);
      }
