-- ===== src/Group/Tasks/Effects.antt =====
-- What each operation under the lock does to the memory of the group.
use rs_dtool.Base.{
  ℕ, true, ◌≡◌, refl, returns, >>=-eq-returns, returns-injective, subst, ap, ◌⊎◌, inl, inr, arith,
}
use rs_dtool.Family.{Lockable}
use rs_dtool.Group.Slots.{GroupExt, Slot, SlotVec, Heap, Reporter}
use rs_dtool.Group.Slots
use rs_dtool.Group.Slots.Exts.{
  set_index-KeepsExts, KeepsExts, swap_remove_and_update_index-KeepsExts, new_reporter-KeepsExts,
}
use rs_dtool.Group.Slots.Indices.{IsIndexed, new_reporter-IsIndexed, IsIndexed-of_removal}
use rs_dtool.Group.Shared.{State, Busy, Idle, World, state_of, set_state, is_busy}
use rs_dtool.Group.Handles.{
  GroupGuard, ReporterGuard, BusyGroup, IdleGroup, ReporterBusy, ReporterIdle,
}
use rs_dtool.Group.GroupGuard
use rs_dtool.Group.ReporterGuard
use rs_dtool.Group.BusyGroup
use rs_dtool.Group.IdleGroup
use rs_dtool.Group.ReporterBusy
use rs_dtool.Group.ReporterIdle
use rs_dtool.Group.Tasks.Invariant.{IsIndexedIn, Leaves}

pub State-cases :
    {T U : Type 0} (s : State T U) → ((b : T) × (s ≡ State.busy b)) ⊎ ((i : U) × (s ≡ State.idle i))
State-cases (State.busy b) = inl (b, refl)
State-cases (State.idle i) = inr (i, refl)

module _ {E : GroupExt} {L : Lockable} where
  -- The lock is untouched, and the new state is known.
  pub record Sets (w w' : World E L) (s : State (Busy E) (Idle E)) : Type 0 where
    pub same_mutex : w'.shared.mutex ≡ w.shared.mutex
    pub same_share : w'.shared.share ≡ w.shared.share
    pub same_heap : w'.heap ≡ w.heap
    pub new_state : state_of w' ≡ s

  set_state-Sets :
      (w w' : World E L) (s : State (Busy E) (Idle E)) → set_state w s ≡ w' → Sets w w' s
  set_state-Sets w w' s p =
      rw (← p) (record { same_mutex = refl; same_share = refl; same_heap = refl; new_state = refl })

  pub BusyGroup-swap_state :
      (g : BusyGroup) (w : World E L) (i : Idle E) {g' : IdleGroup} {b : Busy E} {w' : World E L}
      → BusyGroup.swap_state g w i ≡ returns (g', b, w')
      → Sets w w' (State.idle i)
  unfolding BusyGroup.swap_state
  BusyGroup-swap_state g w i h = ground arith

  -- The group stays busy, with the lock untouched and the slots indexed.
  pub record StaysBusy (w w' : World E L) : Type 0 where
    pub same_mutex : w'.shared.mutex ≡ w.shared.mutex
    pub still_busy : is_busy (state_of w') ≡ true
    pub keeps : IsIndexedIn w → IsIndexedIn w'
    pub leaves : Leaves w w'

  stays_busy :
      (w w' : World E L) (b : Busy E) (heap : Heap E)
      → KeepsExts w.heap heap
      → (IsIndexedIn w → IsIndexed heap b.slots)
      → record (set_state w (State.busy b)) { heap = heap } ≡ w'
      → StaysBusy w w'
  unfolding is_busy
  stays_busy w w' b heap exts keeps p = rw (← p) (record {
    same_mutex = refl;
    still_busy = refl;
    keeps = λ v b' e.
        let same : b ≡ b' = cc e in subst (λ (c : Busy E). IsIndexed heap c.slots) same (keeps v);
    leaves = record { same_share = refl; exts = exts };
  })

  busy_ref_lem :
      (g : BusyGroup) (w : World E L) {b : Busy E}
      → BusyGroup.busy_ref g w ≡ returns b
      → state_of w ≡ State.busy b
  unfolding BusyGroup.busy_ref
  busy_ref_lem g w h = ground arith

  pub BusyGroup-remove_slot :
      (g : BusyGroup) (w : World E L) (i : ℕ) {s : Slot E} {w' : World E L}
      → BusyGroup.remove_slot g w i ≡ returns (s, w')
      → StaysBusy w w'
  unfolding BusyGroup.remove_slot
  BusyGroup-remove_slot g w i {s} {w'} h =
      let (b, e, q) = >>=-eq-returns (BusyGroup.busy_ref g w) _ h in
      let (t, ran, q') = >>=-eq-returns (Slots.swap_remove_and_update_index w.heap b.slots i) _ q in
      stays_busy w w' (record b { slots = t.1 }) t.2
        (swap_remove_and_update_index-KeepsExts w.heap b.slots i ran)
        (λ v. IsIndexed-of_removal w.heap b.slots i (v b (busy_ref_lem g w e)) ran)
        (ap (λ (u : Slot E × World E L). u.1) (returns-injective q'))

  pub BusyGroup-slots_mut :
      (g : BusyGroup) (w : World E L) (heap : Heap E) (slots : SlotVec E) {w' : World E L}
      → KeepsExts w.heap heap
      → IsIndexed heap slots
      → BusyGroup.slots_mut g (record w { heap = heap }) slots ≡ returns w'
      → StaysBusy w w'
  unfolding BusyGroup.busy_mut
  BusyGroup-slots_mut g w heap slots {w'} exts indexed h = elim (State-cases (state_of w)) [
    | inl (b, e) ↦
        stays_busy w w' (record b { slots = slots }) heap exts (λ _. indexed) (ground arith)
    | inr (i, e) ↦ ground arith
  ]

  pub ReporterBusy-slots_mut :
      (g : ReporterBusy) (w : World E L) (slots : SlotVec E)
      → ReporterBusy.slots_mut g w slots ≡ BusyGroup.slots_mut (ReporterBusy.as_group g) w slots
  unfolding ReporterBusy.busy_mut BusyGroup.busy_mut ReporterBusy.as_group
  ReporterBusy-slots_mut g w slots = refl

  -- A write to a position changes the heap alone.
  pub record Reindexed (w w' : World E L) : Type 0 where
    pub same_mutex : w'.shared.mutex ≡ w.shared.mutex
    pub leaves : Leaves w w'

  pub ReporterGuard-my_index_mut :
      (g : ReporterGuard) (w : World E L) (i : ℕ) {w' : World E L}
      → ReporterGuard.my_index_mut g w i ≡ returns w'
      → Reindexed w w'
  ReporterGuard-my_index_mut g w i h =
      let (heap, ran, q) = >>=-eq-returns (Slots.set_index w.heap g.slot i) _ h in
      rw (← returns-injective q) (record {
        same_mutex = refl;
        leaves = record { same_share = refl; exts = set_index-KeepsExts w.heap g.slot i ran };
      })

  pub BusyGroup-new_reporter :
      (g : BusyGroup) (w : World E L) (ext : E.SlotShare) (inlock : E.SlotInlock) {r : Reporter}
      {w' : World E L}
      → BusyGroup.new_reporter g w ext inlock ≡ returns (r, w')
      → StaysBusy w w'
  unfolding BusyGroup.new_reporter
  BusyGroup-new_reporter g w ext inlock {r} {w'} h =
      let (b, e, q) = >>=-eq-returns (BusyGroup.busy_ref g w) _ h in
      let t : Reporter × SlotVec E × Heap E =
        Slots.new_reporter g.guard.group w.heap b.slots ext inlock in
      stays_busy w w' (record b { slots = t.1 }) t.2
        (new_reporter-KeepsExts g.guard.group w.heap b.slots ext inlock).0
        (λ v.
          (new_reporter-IsIndexed g.guard.group w.heap b.slots ext inlock
            (v b (busy_ref_lem g w e))).0)
        (ap (λ (u : Reporter × World E L). u.1) (returns-injective q))

  pub IdleGroup-swap_state :
      (g : IdleGroup) (w : World E L) (b : Busy E) {g' : BusyGroup} {i : Idle E} {w' : World E L}
      → IdleGroup.swap_state g w b ≡ returns (g', i, w')
      → Sets w w' (State.busy b)
  unfolding IdleGroup.swap_state
  IdleGroup-swap_state g w b h = ground arith

  pub IdleGroup-to_busy :
      (g : IdleGroup) (w : World E L) (f : Idle E → Busy E) {g' : BusyGroup} {w' : World E L}
      → IdleGroup.to_busy g w f ≡ returns (g', w')
      → (i : Idle E) × (state_of w ≡ State.idle i) × Sets w w' (State.busy (f i))
  unfolding IdleGroup.to_busy
  IdleGroup-to_busy g w f {g'} {w'} h = elim (State-cases (state_of w)) [
    | inl (b, e) ↦ ground arith
    | inr (i, e) ↦ (i, e, ground arith)
  ]

  pub ReporterBusy-to_idle :
      (g : ReporterBusy) (w : World E L) (f : Busy E → Idle E) {g' : ReporterIdle} {w' : World E L}
      → ReporterBusy.to_idle g w f ≡ returns (g', w')
      → (b : Busy E) × (state_of w ≡ State.busy b) × Sets w w' (State.idle (f b))
  unfolding ReporterBusy.to_idle
  ReporterBusy-to_idle g w f {g'} {w'} h = elim (State-cases (state_of w)) [
    | inl (b, e) ↦ (b, e, ground arith)
    | inr (i, e) ↦ ground arith
  ]

  pub ReporterBusy-swap_state :
      (g : ReporterBusy) (w : World E L) (i : Idle E) {g' : ReporterIdle} {b : Busy E}
      {w' : World E L}
      → ReporterBusy.swap_state g w i ≡ returns (g', b, w')
      → Sets w w' (State.idle i)
  unfolding ReporterBusy.swap_state
  ReporterBusy-swap_state g w i h = ground arith

  pub ReporterIdle-swap_state :
      (g : ReporterIdle) (w : World E L) (b : Busy E) {g' : ReporterBusy} {i : Idle E}
      {w' : World E L}
      → ReporterIdle.swap_state g w b ≡ returns (g', i, w')
      → Sets w w' (State.busy b)
  unfolding ReporterIdle.swap_state
  ReporterIdle-swap_state g w b h = ground arith

  pub ReporterIdle-to_busy :
      (g : ReporterIdle) (w : World E L) (f : Idle E → Busy E) {g' : ReporterBusy} {w' : World E L}
      → ReporterIdle.to_busy g w f ≡ returns (g', w')
      → (i : Idle E) × (state_of w ≡ State.idle i) × Sets w w' (State.busy (f i))
  unfolding ReporterIdle.to_busy
  ReporterIdle-to_busy g w f {g'} {w'} h = elim (State-cases (state_of w)) [
    | inl (b, e) ↦ ground arith
    | inr (i, e) ↦ (i, e, ground arith)
  ]

  -- Through a reporter the slots are reached as through its group.
  pub ReporterBusy-as_group :
      (g : ReporterBusy) (w : World E L)
      → ((i : ℕ)
          → ReporterBusy.remove_slot g w i ≡ BusyGroup.remove_slot (ReporterBusy.as_group g) w i)
        × ((ext : E.SlotShare) (inlock : E.SlotInlock)
            → ReporterBusy.new_reporter g w ext inlock
              ≡ BusyGroup.new_reporter (ReporterBusy.as_group g) w ext inlock)
  unfolding ReporterBusy.remove_slot BusyGroup.remove_slot ReporterBusy.new_reporter
      BusyGroup.new_reporter ReporterBusy.as_group
  ReporterBusy-as_group g w = (λ i. refl, λ ext inlock. refl)

  -- The writes to the data leave the state's variant, the slots and the lock.
  pub record KeepsState (w w' : World E L) : Type 0 where
    pub same_mutex : w'.shared.mutex ≡ w.shared.mutex
    pub leaves : Leaves w w'
    pub keeps : IsIndexedIn w → IsIndexedIn w'

  pub GroupGuard-state_data_mut :
      (g : GroupGuard) (w : World E L) (f : E.BusyData → E.BusyData) (h : E.IdleData → E.IdleData)
      → KeepsState w (GroupGuard.state_data_mut g w f h)
  unfolding GroupGuard.state_data_mut
  GroupGuard-state_data_mut g w f h = elim (State-cases (state_of w)) [
    | inl (b, e) ↦
        let c : Busy E = record b { busy_data = f b.busy_data } in
        let new : GroupGuard.state_data_mut g w f h ≡ set_state w (State.busy c) = ground arith in
        rw new (record {
          same_mutex = refl;
          leaves = record { same_share = refl; exts = λ a x e. e };
          keeps = λ v b' e'.
              let same : b.slots ≡ b'.slots = ground arith in subst (IsIndexed w.heap) same (v b e);
        })
    | inr (i, e) ↦
        let c : Idle E = record { idle_data = h i.idle_data } in
        let new : GroupGuard.state_data_mut g w f h ≡ set_state w (State.idle c) = ground arith in
        rw new (record {
          same_mutex = refl;
          leaves = record { same_share = refl; exts = λ a x e. e };
          keeps = λ v b' e'. absurd (cc e');
        })
  ]

  pub ReporterGuard-state_data_mut :
      (g : ReporterGuard) (w : World E L) (f : E.BusyData → E.BusyData)
      (h : E.IdleData → E.IdleData)
      → KeepsState w (ReporterGuard.state_data_mut g w f h)
  unfolding GroupGuard.state_data_mut ReporterGuard.state_data_mut ReporterGuard.as_group
  ReporterGuard-state_data_mut g w f h = GroupGuard-state_data_mut (ReporterGuard.as_group g) w f h
