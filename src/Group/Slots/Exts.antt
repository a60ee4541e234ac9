-- ===== src/Group/Slots/Exts.antt =====
-- What the slots of Dtool_impl/src/downloader/download_group.rs do with the extensions of their shared cells,
-- which belong to the user of the group.
use native.Mathlib.Decide.{ℕ_discrete}
use rs_dtool.Base.{
  ℕ, ◌≡◌, ap, sym, ◌>>=◌, ◌∙◌, Option, none, some, [], ◌∷◌, ◌++◌, returns, >>=-eq-returns,
  returns-injective, subst, length, get_elem?, set, get_elem?-set_self, get_elem?-set_ne,
  get_elem?-append_left, get_elem?-some_lt, get_elem?-snoc, get_elem?-ge, unwrap, ◌==◌, Bool, true,
  false, if◌then◌else◌, arith, inl, inr, Option-cases,
}
use rs_dtool.Group.Slots.{
  GroupExt, SlotShare, Slot, Heap, SlotVec, index, set_index, update_index, swap_remove,
  swap_remove_and_update_index, new_reporter,
}

module _ {E : GroupExt} where
  abbrev pub ext_of : Option (SlotShare E) → Option E.SlotShare
  ext_of none = none
  ext_of (some cell) = some cell.ext

  abbrev pub ext_at : Heap E → ℕ → Option E.SlotShare
  ext_at heap a = ext_of (get_elem? heap a)

  -- Every cell stays, with its extension.
  abbrev pub KeepsExts : Heap E → Heap E → Type 0
  KeepsExts heap heap' =
      (a : ℕ) (x : E.SlotShare) → ext_at heap a ≡ some x → ext_at heap' a ≡ some x

  pub set_index-KeepsExts :
      (heap : Heap E) (share i : ℕ) {heap' : Heap E}
      → set_index heap share i ≡ returns heap'
      → KeepsExts heap heap'
  unfolding set_index
  set_index-KeepsExts heap share i {heap'} ran a x e = elim (Option-cases (get_elem? heap share)) [
    | inl gone ↦ absurd (ground arith)
    | inr (cell, at) ↦
        let new : SlotShare E = record cell { index = i } in
        let written : set heap share new ≡ heap' = ground arith in
        rw (← written) (elim (ℕ_discrete share a) [
          | yes same ↦ rw (← same) (
              ap ext_of (get_elem?-set_self heap share new (get_elem?-some_lt heap share at))
              ∙ ap ext_of (sym at)
              ∙ ap (ext_at heap) same
              ∙ e)
          | no other ↦ ap ext_of (get_elem?-set_ne heap share a new other) ∙ e
        ])
  ]

  removed-KeepsExts :
      (last : Bool) (heap : Heap E) (removed : Slot E) (rest : SlotVec E) (i : ℕ)
      {t : Slot E × SlotVec E × Heap E}
      → (if last
          then returns (removed, rest, heap)
          else (do heap' ← update_index heap rest i; returns (removed, rest, heap')))
        ≡ returns t
      → KeepsExts heap t.2
  unfolding update_index
  removed-KeepsExts true heap removed rest i ran =
      subst (λ (u : Slot E × SlotVec E × Heap E). KeepsExts heap u.2) (returns-injective ran)
        (λ a x e. e)
  removed-KeepsExts false heap removed rest i ran =
      let (heap', e, q) = >>=-eq-returns (update_index heap rest i) _ ran in
      let (slot, _, set) = >>=-eq-returns (unwrap (get_elem? rest i)) _ e in
      subst (λ (u : Slot E × SlotVec E × Heap E). KeepsExts heap u.2) (returns-injective q)
        (set_index-KeepsExts heap slot.share i set)

  pub swap_remove_and_update_index-KeepsExts :
      (heap : Heap E) (slots : SlotVec E) (i : ℕ) {t : Slot E × SlotVec E × Heap E}
      → swap_remove_and_update_index heap slots i ≡ returns t
      → KeepsExts heap t.2
  unfolding swap_remove_and_update_index
  swap_remove_and_update_index-KeepsExts heap slots i ran =
      let ((removed, rest), _, q) = >>=-eq-returns (swap_remove slots i) _ ran in
      removed-KeepsExts (i == length rest) heap removed rest i q

  snoc-KeepsExts : (heap : Heap E) (cell : SlotShare E) → KeepsExts heap (heap ++ cell ∷ [])
  snoc-KeepsExts heap cell a x e = elim (Option-cases (get_elem? heap a)) [
    | inl gone ↦ absurd (cc (ap ext_of gone))
    | inr (old, at) ↦
        ap ext_of (get_elem?-append_left heap (cell ∷ []) a (get_elem?-some_lt heap a at)) ∙ e
  ]

  -- A new cell has the extension that it was given, and no old one changes.
  pub new_reporter-KeepsExts :
      (group : ℕ) (heap : Heap E) (slots : SlotVec E) (ext : E.SlotShare) (inlock : E.SlotInlock)
      → let (reporter, _, heap') = new_reporter group heap slots ext inlock in
        KeepsExts heap heap'
        × (ext_at heap' reporter.slot_share ≡ some ext)
        × (ext_at heap reporter.slot_share ≡ none)
  unfolding new_reporter
  new_reporter-KeepsExts group heap slots ext inlock =
      let cell : SlotShare E = record { index = length slots; ext = ext } in
      (
        snoc-KeepsExts heap cell,
        ap ext_of (get_elem?-snoc heap cell),
        ap ext_of (get_elem?-ge heap (length heap) (omega arith)),
      )

  -- A write to an extension leaves the positions.
  pub index-set_ext :
      (heap : Heap E) (a c : ℕ) (cell : SlotShare E) (x : E.SlotShare)
      → get_elem? heap a ≡ some cell
      → index (set heap a (record cell { ext = x })) c ≡ index heap c
  unfolding index
  index-set_ext heap a c cell x at = elim (ℕ_discrete a c) [
    | yes p ↦
        let new : SlotShare E = record cell { ext = x } in
        let own : get_elem? (set heap a new) a ≡ some new =
          get_elem?-set_self heap a new (get_elem?-some_lt heap a at) in
        rw (← p, index, own, at)
    | no ne ↦ rw (index, get_elem?-set_ne heap a c (record cell { ext = x }) ne)
  ]
