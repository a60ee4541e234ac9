-- ===== src/Group/Tasks/Broken.antt =====
-- The tasks of a group of the thread model `ThreadLocal`, whose lock is the `BorrowChecker` of
-- Dtool_impl/src/downloader/family.rs.
use native.Mathlib.Decide.{ℕ_discrete}
use rs_dtool.Base.{zero, suc, true, ◌≡◌, refl, panics, undefined}
use rs_dtool.Family.{Lockable, borrow_checker}
use rs_dtool.Family
use rs_dtool.Group.Slots.{GroupExt}
use rs_dtool.Group.Shared
use rs_dtool.Group.Slots.Indices.{IsIndexed}
use rs_dtool.Group.Shared.{
  State, Busy, Idle, World, state_of, set_state, is_busy, is_idle, new_group, empty,
}
use rs_dtool.Group.Handles.{DownloadGroup, GroupGuard, BusyGroup, IdleGroup}
use rs_dtool.Group.GroupGuard
use rs_dtool.Group.BusyGroup
use rs_dtool.Group.IdleGroup
use rs_dtool.Group.Tasks.{
  group, group_guard, busy_group, idle_group, holds_lock, System, Reach, here, later, move, update,
  lock_group, see_busy, see_idle, start, stop,
}

module _ (E : GroupExt) (share : E.GroupShare) (d : E.Data) (idle_d : E.IdleData)
    (busy_d : E.BusyData) where
  -- Two tasks, each with a clone of the group.
  abbrev pub two_clones : System E borrow_checker
  two_clones = record {
    world = new_group E borrow_checker share d idle_d;
    pc = λ i. elim i [ zero ↦ group (record { group = 0 }) | suc _ ↦ group (record { group = 0 }) ];
  }

  -- With the borrow checker for a lock, two tasks take the lock of any new group at once; the one
  -- then stops the group under the other, whose access to the busy group panics, and whose
  -- `swap_state` is undefined behaviour.
  pub two_holders :
      (t : System E borrow_checker) × (g : BusyGroup) × Reach E borrow_checker two_clones t
      × (t.pc 0 ≡ busy_group g)
      × (holds_lock (t.pc 1) ≡ true)
      × (BusyGroup.busy_ref g t.world ≡ panics)
      × ((i : Idle E) → BusyGroup.swap_state g t.world i ≡ undefined)
  unfolding new_group GroupGuard.lock GroupGuard.get_state BusyGroup.swap_state BusyGroup.busy_ref
      IdleGroup.swap_state ℕ_discrete Family.new Family.acquire empty Shared.acquire
  two_holders =
      let guard : GroupGuard = record { group = 0 } in
      let g : BusyGroup = record { guard = guard } in
      let g' : IdleGroup = record { guard = guard } in
      let clone : DownloadGroup = record { group = 0 } in
      let idle : Idle E = record { idle_data = idle_d } in
      let b : Busy E = empty E busy_d in
      let w : World E borrow_checker = two_clones.world in
      let w' : World E borrow_checker = set_state w (State.busy b) in
      let w'' : World E borrow_checker = set_state w (State.idle idle) in
      let valid : IsIndexed w.heap b.slots = λ i s p. cc p in
      let s1 : System E borrow_checker = record {
        world = w;
        pc = update two_clones.pc 0 (group_guard guard);
      } in
      let s2 : System E borrow_checker = record {
        world = w;
        pc = update s1.pc 0 (idle_group g');
      } in
      let s3 : System E borrow_checker = record {
        world = w';
        pc = update s2.pc 0 (busy_group g);
      } in
      let s4 : System E borrow_checker = record {
        world = w';
        pc = update s3.pc 1 (group_guard guard);
      } in
      let s5 : System E borrow_checker = record {
        world = w';
        pc = update s4.pc 1 (busy_group g);
      } in
      let s6 : System E borrow_checker = record {
        world = w'';
        pc = update s5.pc 1 (idle_group g');
      } in
      let r1 : Reach E borrow_checker two_clones s1 =
        later here (move 0 (lock_group {g = clone} refl)) in
      let r2 : Reach E borrow_checker two_clones s2 = later r1 (move 0 (see_idle refl)) in
      let r3 : Reach E borrow_checker two_clones s3 =
        later r2 (move 0 (start {i = idle} b valid refl)) in
      let r4 : Reach E borrow_checker two_clones s4 =
        later r3 (move 1 (lock_group {g = clone} refl)) in
      let r5 : Reach E borrow_checker two_clones s5 = later r4 (move 1 (see_busy refl)) in
      let r6 : Reach E borrow_checker two_clones s6 = later r5 (move 1 (stop {b = b} idle refl)) in
      (s6, g, r6, refl, refl, refl, λ i. refl)
