-- ===== src/Group/Slots/Contents.antt =====
-- The slots of a group up to order, over `SlotVec` of Dtool_impl/src/downloader/download_group.rs: the
-- vector as a bag.
use mathlib.Core.Option.{some-injective}
use mathlib.Core.Path.{ap₂}
use mathlib.Core.Quot
use mathlib.Core.Quot.{Quot, Quot-set}
use mathlib.Core.List.Perm
use mathlib.Core.List.{Perm}
use rs_dtool.Base.{
  ℕ, zero, suc, ◌-◌, ◌<◌, ◌≡◌, ap, sym, subst, ◌∙◌, List, [], ◌∷◌, ◌++◌, some, returns, length,
  get_elem?, get_elem?-lt, set, take, arith, >>=-eq-returns, >>=-returns, ◌>>=◌, ◌==◌, Bool, true,
  false, if◌then◌else◌, returns-injective,
}
use rs_dtool.Group.Slots.{
  update_index, push_slot, with_raw, GroupExt, Heap, Slot, SlotVec, swap_remove,
  swap_remove_and_update_index, new_reporter,
}
use rs_dtool.Group.Slots.Indices.{IsIndexed, Removed, swap_remove_and_update_index-IsIndexed}

abbrev pub Bag {ℓ} : Type ℓ → Type ℓ
Bag A = Quot (Perm {A = A})

module _ {ℓ} {A : Type ℓ} where
  abbrev pub contents : List A → Bag A
  contents = Quot.mk

  pub put : A → Bag A → Bag A
  put x = Quot.lift Quot-set (λ xs. contents (x ∷ xs)) (λ xs ys p. Quot.sound (Perm.cons x p))

  -- The last element first.
  Perm-last :
      (xs : List A) (n : ℕ) (l : A)
      → length xs ≡ suc n
      → get_elem? xs n ≡ some l
      → Perm (l ∷ take n xs) xs
  Perm-last [] n l size at = absurd cc
  Perm-last (x ∷ []) zero l size at =
      subst (λ y. Perm (y ∷ []) (x ∷ [])) (some-injective x l at) (Perm.refl (x ∷ []))
  Perm-last (x ∷ []) (suc n) l size at = absurd (omega arith)
  Perm-last (x ∷ y ∷ xs) zero l size at = absurd (omega arith)
  Perm-last (x ∷ y ∷ xs) (suc n) l size at =
      Perm.trans (Perm.swap x l (take n (y ∷ xs)))
        (Perm.cons x (Perm-last (y ∷ xs) n l (omega arith) at))

  Perm-swap_remove :
      (xs : List A) (n i : ℕ) (r l : A)
      → length xs ≡ suc n
      → get_elem? xs i ≡ some r
      → get_elem? xs n ≡ some l
      → Perm (r ∷ take n (set xs i l)) xs
  Perm-swap_remove [] n i r l size hit at = absurd cc
  Perm-swap_remove (x ∷ []) zero zero r l size hit at =
      subst (λ y. Perm (y ∷ []) (x ∷ [])) (some-injective x r hit) (Perm.refl (x ∷ []))
  Perm-swap_remove (x ∷ []) (suc n) i r l size hit at = absurd (omega arith)
  Perm-swap_remove (x ∷ []) zero (suc i) r l size hit at = absurd cc
  Perm-swap_remove (x ∷ y ∷ xs) zero i r l size hit at = absurd (omega arith)
  Perm-swap_remove (x ∷ y ∷ xs) (suc n) zero r l size hit at =
      subst (λ z. Perm (z ∷ l ∷ take n (y ∷ xs)) (x ∷ y ∷ xs)) (some-injective x r hit)
        (Perm.cons x (Perm-last (y ∷ xs) n l (omega arith) at))
  Perm-swap_remove (x ∷ y ∷ xs) (suc n) (suc i) r l size hit at =
      Perm.trans (Perm.swap x r (take n (set (y ∷ xs) i l)))
        (Perm.cons x (Perm-swap_remove (y ∷ xs) n i r l (omega arith) hit at))

  Perm-snoc : (a : A) (xs : List A) → Perm (xs ++ a ∷ []) (a ∷ xs)
  Perm-snoc a [] = Perm.refl (a ∷ [])
  Perm-snoc a (x ∷ xs) = Perm.trans (Perm.cons x (Perm-snoc a xs)) (Perm.swap a x xs)

  swap_remove-put :
      (xs : List A) (i : ℕ)
      → i < length xs
      → (r : A) × (rest : List A) × (swap_remove xs i ≡ returns (r, rest))
        × (put r (contents rest) ≡ contents xs)
  unfolding swap_remove put
  swap_remove-put xs i lt =
      let (r, hit) = get_elem?-lt xs i lt in
      let (l, at) = get_elem?-lt xs (length xs - 1) (omega arith) in
      (
        r,
        take (length xs - 1) (set xs i l),
        rw (hit, at),
        Quot.sound (Perm-swap_remove xs (length xs - 1) i r l (omega arith) hit at),
      )

module _ {E : GroupExt} where
  new_reporter-put :
      (group : ℕ) (heap : Heap E) (slots : SlotVec E) (ext : E.SlotShare) (inlock : E.SlotInlock)
      → let (reporter, slots', heap') = new_reporter group heap slots ext inlock in
        contents slots'
        ≡ put (record { share = reporter.slot_share; ext = inlock }) (contents slots)
  unfolding new_reporter put push_slot with_raw
  new_reporter-put group heap slots ext inlock =
      Quot.sound (Perm-snoc (record { share = length heap; ext = inlock }) slots)

  -- The removal with the write of the index takes what `swap_remove` takes.
  same_removal :
      (heap : Heap E) (slots : SlotVec E) (i : ℕ) (r : Slot E) (rest : SlotVec E)
      (out : Slot E × SlotVec E × Heap E)
      → swap_remove slots i ≡ returns (r, rest)
      → swap_remove_and_update_index heap slots i ≡ returns out
      → (r ≡ out.0) × (rest ≡ out.1)
  unfolding swap_remove_and_update_index
  same_removal heap slots i r rest out ran whole =
      on (i == length rest) (sym (>>=-returns _ ran) ∙ whole)
    where
      on :
          (b : Bool)
          → (if b
              then returns (r, rest, heap)
              else (update_index heap rest i >>= λ heap'. returns (r, rest, heap')))
            ≡ returns out
          → (r ≡ out.0) × (rest ≡ out.1)
      on true h = (ap (λ o. o.0) (returns-injective h), ap (λ o. o.1) (returns-injective h))
      on false h =
          let (heap', _, h') = >>=-eq-returns (update_index heap rest i) _ h in
          (ap (λ o. o.0) (returns-injective h'), ap (λ o. o.1) (returns-injective h'))

  -- Up to order, an indexed vector of slots is a bag: `new_reporter` puts the slot of the new task into
  -- it, and a removal at a position of the vector returns and takes one slot out of it, the one that
  -- it gives back; the slots that stay are those of the bag.
  pub slots-Bag :
      (group : ℕ) (heap : Heap E) (slots : SlotVec E) (ext : E.SlotShare) (inlock : E.SlotInlock)
      (i : ℕ)
      → IsIndexed heap slots
      → i < length slots
      → let (reporter, slots', heap') = new_reporter group heap slots ext inlock in
        (contents slots'
          ≡ put (record { share = reporter.slot_share; ext = inlock }) (contents slots))
        × ((r : Removed heap slots i) × (put r.removed (contents r.rest) ≡ contents slots))
  slots-Bag group heap slots ext inlock i indexed lt =
      let r : Removed heap slots i =
        swap_remove_and_update_index-IsIndexed heap slots i indexed lt in
      let (removed, rest, ran, e) = swap_remove-put slots i lt in
      let (e1, e2) =
        same_removal heap slots i removed rest (r.removed, r.rest, r.heap') ran r.ran in
      (
        new_reporter-put group heap slots ext inlock,
        (r, ap₂ (λ x xs. put x (contents xs)) (sym e1) (sym e2) ∙ e),
      )
