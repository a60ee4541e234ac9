-- ===== src/Group/Tasks/Cells.antt =====
-- The cells of the reporters of a group: whose they are, and what becomes of their extensions while
-- the tasks take steps.
use mathlib.Core.Option.{some-injective}
use rs_dtool.Base.{
  ℕ, ◌≡◌, refl, sym, ap, ◌∙◌, subst, none, some, returns, >>=-eq-returns, returns-injective, ◌⊎◌,
  inl, inr,
}
use rs_dtool.Family.{Lockable, Excludes}
use rs_dtool.Group.Slots.{GroupExt, Reporter}
use rs_dtool.Group.Slots.Exts.{ext_at, KeepsExts, new_reporter-KeepsExts}
use rs_dtool.Group.Shared.{World}
use rs_dtool.Group.Handles.{BusyGroup}
use rs_dtool.Group.BusyGroup
use rs_dtool.Group.Tasks.{
  Handle, reporter, Hire, by_group, by_reporter, System, Step, update, Reach, here, later, move,
  hire,
}
use rs_dtool.Group.Tasks.Invariant.{Leaves, Kind-Leaves}
use rs_dtool.Group.Tasks.Moves.{Move-Effect, Hire-effect}
use rs_dtool.Group.Tasks.Steps.{update_cases}
use rs_dtool.Group.Tasks.Effects.{ReporterBusy-as_group}
use rs_dtool.Group.Tasks.CellOf.{cell_of, Move-cell}

module _ {E : GroupExt} {L : Lockable} where
  -- A new reporter has a cell that was not there.
  record NewCell (w w' : World E L) (r : Reporter) : Type 0 where
    ext : E.SlotShare
    free_before : ext_at w.heap r.slot_share ≡ none
    at_cell : ext_at w'.heap r.slot_share ≡ some ext
    exts : KeepsExts w.heap w'.heap

  BusyGroup-NewCell :
      (g : BusyGroup) (w : World E L) (ext : E.SlotShare) (inlock : E.SlotInlock) {r : Reporter}
      {w' : World E L}
      → BusyGroup.new_reporter g w ext inlock ≡ returns (r, w')
      → NewCell w w' r
  unfolding BusyGroup.new_reporter
  BusyGroup-NewCell g w ext inlock {r} {w'} h =
      let (b, _, q) = >>=-eq-returns (BusyGroup.busy_ref g w) _ h in
      let (kept, at_cell, free_before) =
        new_reporter-KeepsExts g.guard.group w.heap b.slots ext inlock in
      subst (λ (u : Reporter × World E L). NewCell w u.1 u.0) (returns-injective q)
        (record { ext = ext; free_before = free_before; at_cell = at_cell; exts = kept })

  Hire-NewCell : {w w' : World E L} {r : Reporter} {h : Handle} → Hire E L w w' r h → NewCell w w' r
  Hire-NewCell {w} (by_group {g} ext inlock p) = BusyGroup-NewCell g w ext inlock p
  Hire-NewCell {w} (by_reporter {g} ext inlock p) =
      BusyGroup-NewCell _ w ext inlock (sym ((ReporterBusy-as_group g w).1 ext inlock) ∙ p)

  -- Each reporter has a cell, which is no other task's.
  pub record Owned (s : System E L) : Type 0 where
    pub live :
        (i a : ℕ) → cell_of (s.pc i) ≡ some a → (x : E.SlotShare) × (ext_at s.world.heap a ≡ some x)
    pub apart : (i j a : ℕ) → cell_of (s.pc i) ≡ some a → cell_of (s.pc j) ≡ some a → i ≡ j

  module _ (X : Excludes L) where
    pub Step-Leaves : {s t : System E L} → Step E L s t → Leaves s.world t.world
    Step-Leaves (move i m) = Kind-Leaves (Move-Effect X m).0
    Step-Leaves (hire i k free m) = (Hire-effect X m).1.leaves

    Step-Owned : {s t : System E L} → Step E L s t → Owned s → Owned t
    Step-Owned {s} (move i {w} {h} m) o = record {
      live = λ j a e.
          let (x, q) = o.live j a (before j a e) in
          (x, (Kind-Leaves (Move-Effect X m).0).exts a x q);
      apart = λ j k a e e'. o.apart j k a (before j a e) (before k a e');
    }
      where
        before : (j a : ℕ) → cell_of (update s.pc i h j) ≡ some a → cell_of (s.pc j) ≡ some a
        before j a =
            update_cases (λ x. cell_of x ≡ some a → cell_of (s.pc j) ≡ some a) s.pc i h j
              (λ same e. subst (λ k. cell_of (s.pc k) ≡ some a) same (Move-cell m a e)) (λ _ e. e)
    Step-Owned {s} (hire i k {w} {r} free m) o = record {
      live = λ j a e. elim (after j a e) [
        | inl (_, e') ↦ (new.ext, ap (ext_at w.heap) (sym e') ∙ new.at_cell)
        | inr old ↦ let (x, q) = o.live j a old in (x, new.exts a x q)
      ];
      apart = λ j l a e e'. elim (after j a e) [
        | inl (p, q) ↦ elim (after l a e') [
          | inl (p', _) ↦ sym p ∙ p'
          | inr old ↦ absurd (not_live l a old q)
        ]
        | inr old ↦ elim (after l a e') [
          | inl (_, q) ↦ absurd (not_live j a old q)
          | inr old' ↦ o.apart j l a old old'
        ]
      ];
    }
      where
        new : NewCell s.world w r
        new = Hire-NewCell m

        after :
            (j a : ℕ)
            → cell_of (update s.pc k (reporter r) j) ≡ some a
            → ((k ≡ j) × (r.slot_share ≡ a)) ⊎ (cell_of (s.pc j) ≡ some a)
        after j a =
            update_cases
              (λ x.
                cell_of x ≡ some a → ((k ≡ j) × (r.slot_share ≡ a)) ⊎ (cell_of (s.pc j) ≡ some a))
              s.pc k (reporter r) j (λ same e. inl (same, some-injective _ _ e)) (λ _ e. inr e)

        not_live : (j a : ℕ) → cell_of (s.pc j) ≡ some a → ¬ (r.slot_share ≡ a)
        not_live j a e q =
            let (x, there) = o.live j a e in
            absurd (cc (new.free_before, ap (ext_at s.world.heap) q))

    Leaves-refl : (w : World E L) → Leaves w w
    Leaves-refl w = record { same_share = refl; exts = λ a x e. e }

    Leaves-trans : (u v w : World E L) → Leaves u v → Leaves v w → Leaves u w
    Leaves-trans u v w p q = record {
      same_share = q.same_share ∙ p.same_share;
      exts = λ a x e. q.exts a x (p.exts a x e);
    }

    -- In every state that the tasks reach from a state where each reporter has a cell of its own,
    -- such as one without reporters, each reporter again has a cell, and no two tasks have the
    -- same; the user's part of what the group shares is as it was, and so is what the user had put
    -- into each cell. The lock excludes.
    pub Reach-Owned :
        {s t : System E L} → Owned s → Reach E L s t → Owned t × Leaves s.world t.world
    Reach-Owned {s} o here = (o, Leaves-refl s.world)
    Reach-Owned {s} {t} o (later {t = u} r step) =
        let (o', leaves) = Reach-Owned o r in
        (Step-Owned step o', Leaves-trans s.world u.world t.world leaves (Step-Leaves step))
