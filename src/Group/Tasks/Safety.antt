-- ===== src/Group/Tasks/Safety.antt =====
-- What a task of a group may rely on, whatever the others do, over any lock that excludes.
use rs_dtool.Base.{ℕ, true, ◌≡◌, refl, returns, subst, arith}
use rs_dtool.Family.{Lockable, Excludes}
use rs_dtool.Group.Slots.{GroupExt}
use rs_dtool.Group.Slots.Indices.{IsIndexed}
use rs_dtool.Group.Shared.{State, Busy, Idle, state_of, set_state, is_busy, is_idle}
use rs_dtool.Group.Handles.{BusyGroup, IdleGroup, ReporterBusy, ReporterIdle}
use rs_dtool.Group.BusyGroup
use rs_dtool.Group.IdleGroup
use rs_dtool.Group.ReporterBusy
use rs_dtool.Group.ReporterIdle
use rs_dtool.Group.Tasks.{
  Handle, busy_group, idle_group, reporter_busy, reporter_idle, holds_lock, System, Reach, IsStart,
}
use rs_dtool.Group.Tasks.Invariant.{Knows}
use rs_dtool.Group.Tasks.Steps.{Reach-Inv}

busy_of : {T U : Type 0} (s : State T U) → is_busy s ≡ true → (b : T) × (s ≡ State.busy b)
unfolding is_busy
busy_of (State.busy b) h = (b, refl)
busy_of (State.idle i) h = cc

idle_of : {T U : Type 0} (s : State T U) → is_idle s ≡ true → (i : U) × (s ≡ State.idle i)
unfolding is_idle
idle_of (State.busy b) h = cc
idle_of (State.idle i) h = (i, refl)

module _ {E : GroupExt} {L : Lockable} (X : Excludes L) {s t : System E L} (start : IsStart E L s)
    (r : Reach E L s t) where
  -- Of the tasks that started from a new group whose lock excludes, no two hold the lock at once.
  pub mutual_exclusion : (i j : ℕ) → holds_lock (t.pc i) ≡ true → holds_lock (t.pc j) ≡ true → i ≡ j
  mutual_exclusion = (Reach-Inv X start r).unique

  knows : (i : ℕ) (h : Handle) → t.pc i ≡ h → Knows t.world h
  knows i h e = subst (Knows t.world) e ((Reach-Inv X start r).knows i)

  -- A task that holds the busy group reaches the slots with no panic, finds them indexed, and can
  -- stop the group with no undefined behaviour, if the group is new at first and its lock excludes;
  -- a task that gives it a `Busy`, or writes through `slots_mut` or `my_index_mut`, leaves the slots
  -- indexed.
  pub busy_group_safe :
      (i : ℕ) (g : BusyGroup)
      → t.pc i ≡ busy_group g
      → (b : Busy E) × (BusyGroup.busy_ref g t.world ≡ returns b)
        × IsIndexed t.world.heap b.slots
        × ((d : Idle E)
            → BusyGroup.swap_state g t.world d
              ≡ returns (record { guard = g.guard }, b, set_state t.world (State.idle d)))
  unfolding BusyGroup.busy_ref BusyGroup.swap_state
  busy_group_safe i g e =
      let (b, e') = busy_of (state_of t.world) (knows i (busy_group g) e) in
      (b, ground arith, (Reach-Inv X start r).indexed b e', λ d. ground arith)

  -- A task that holds the idle group reaches its data with no panic, and can start the group by
  -- either way with no undefined behaviour, if the group is new at first and its lock excludes.
  pub idle_group_safe :
      (i : ℕ) (g : IdleGroup)
      → t.pc i ≡ idle_group g
      → (d : Idle E) × (IdleGroup.idle_ref g t.world ≡ returns d)
        × ((b : Busy E)
            → IdleGroup.swap_state g t.world b
              ≡ returns (record { guard = g.guard }, d, set_state t.world (State.busy b)))
        × ((f : Idle E → Busy E)
            → IdleGroup.to_busy g t.world f
              ≡ returns (record { guard = g.guard }, set_state t.world (State.busy (f d))))
  unfolding IdleGroup.idle_ref IdleGroup.swap_state IdleGroup.to_busy
  idle_group_safe i g e =
      let (d, e') = idle_of (state_of t.world) (knows i (idle_group g) e) in
      (d, ground arith, λ b. ground arith, λ f. ground arith)

  -- A reporter's task that holds the busy group reaches the slots with no panic, finds them indexed,
  -- and can stop the group by either way with no panic and no undefined behaviour, if the group is
  -- new at first and its lock excludes.
  pub reporter_busy_safe :
      (i : ℕ) (g : ReporterBusy)
      → t.pc i ≡ reporter_busy g
      → (b : Busy E) × (ReporterBusy.busy_ref g t.world ≡ returns b)
        × IsIndexed t.world.heap b.slots
        × ((d : Idle E)
            → ReporterBusy.swap_state g t.world d
              ≡ returns (record { guard = g.guard }, b, set_state t.world (State.idle d)))
        × ((f : Busy E → Idle E)
            → ReporterBusy.to_idle g t.world f
              ≡ returns (record { guard = g.guard }, set_state t.world (State.idle (f b))))
  unfolding ReporterBusy.busy_ref ReporterBusy.swap_state ReporterBusy.to_idle
  reporter_busy_safe i g e =
      let (b, e') = busy_of (state_of t.world) (knows i (reporter_busy g) e) in
      (b, ground arith, (Reach-Inv X start r).indexed b e', λ d. ground arith, λ f. ground arith)

  -- A reporter's task that holds the idle group reaches its data with no panic, and can start the
  -- group by either way with no panic and no undefined behaviour, if the group is new at first and
  -- its lock excludes.
  pub reporter_idle_safe :
      (i : ℕ) (g : ReporterIdle)
      → t.pc i ≡ reporter_idle g
      → (d : Idle E) × (ReporterIdle.idle_ref g t.world ≡ returns d)
        × ((b : Busy E)
            → ReporterIdle.swap_state g t.world b
              ≡ returns (record { guard = g.guard }, d, set_state t.world (State.busy b)))
        × ((f : Idle E → Busy E)
            → ReporterIdle.to_busy g t.world f
              ≡ returns (record { guard = g.guard }, set_state t.world (State.busy (f d))))
  unfolding ReporterIdle.idle_ref ReporterIdle.swap_state ReporterIdle.to_busy
  reporter_idle_safe i g e =
      let (d, e') = idle_of (state_of t.world) (knows i (reporter_idle g) e) in
      (d, ground arith, λ b. ground arith, λ f. ground arith)
