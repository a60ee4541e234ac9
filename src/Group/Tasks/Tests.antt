-- ===== src/Group/Tasks/Tests.antt =====
-- The properties of the tasks, at states of the scenario.
use native.Mathlib.Decide.{ℕ_discrete}
use rs_dtool.Base.{ℕ, zero, suc, some, true, ◌≡◌, refl, returns, panics, undefined}
use rs_dtool.Family.{borrow_checker}
use rs_dtool.Group.Slots.Indices.{IsIndexed}
use rs_dtool.Group.Shared.{State, Busy, Idle, set_state}
use rs_dtool.Group.Handles.{BusyGroup}
use rs_dtool.Group.BusyGroup
use rs_dtool.Group.IdleGroup
use rs_dtool.Group.ReporterBusy
use rs_dtool.Group.ReporterIdle
use rs_dtool.Group.Tasks.{busy_group, holds_lock, System, Reach}
use rs_dtool.Group.Tasks.Invariant.{Inv, Leaves}
use rs_dtool.Group.Tasks.CellOf.{cell_of}
use rs_dtool.Group.Tasks.Cells.{Owned, Reach-Owned}
use rs_dtool.Group.Tasks.Steps.{Reach-Inv}
use rs_dtool.Group.Tasks.Safety.{
  mutual_exclusion, busy_group_safe, idle_group_safe, reporter_busy_safe, reporter_idle_safe,
}
use rs_dtool.Group.Tasks.Broken.{two_clones, two_holders}
use rs_dtool.Group.Tasks.Scenario.{
  flags, clones, at_start, excludes, guard, handle, at_start-IsStart, idle_handle, hired_guard,
  hired_busy, sees_idle, started, sees_busy, Reach-idle, Reach-started, Reach-sees_busy, hired_idle,
  stopped_world, Reach-stopped,
}

mutual_exclusion_test : ◌≡◌ {A = ℕ} 2 2
unfolding ℕ_discrete
mutual_exclusion_test = mutual_exclusion excludes at_start-IsStart Reach-sees_busy 2 2 refl refl

busy_group_safe_example :
    (b : Busy flags) × (BusyGroup.busy_ref handle started.world ≡ returns b)
    × IsIndexed started.world.heap b.slots
    × ((d : Idle flags)
        → BusyGroup.swap_state handle started.world d
          ≡ returns (record { guard = guard }, b, set_state started.world (State.idle d)))
unfolding ℕ_discrete
busy_group_safe_example = busy_group_safe excludes at_start-IsStart Reach-started 0 handle refl

idle_group_safe_test :
    (d : Idle flags) × (IdleGroup.idle_ref idle_handle sees_idle.world ≡ returns d)
    × ((b : Busy flags)
        → IdleGroup.swap_state idle_handle sees_idle.world b
          ≡ returns (record { guard = guard }, d, set_state sees_idle.world (State.busy b)))
    × ((f : Idle flags → Busy flags)
        → IdleGroup.to_busy idle_handle sees_idle.world f
          ≡ returns (record { guard = guard }, set_state sees_idle.world (State.busy (f d))))
unfolding ℕ_discrete
idle_group_safe_test = idle_group_safe excludes at_start-IsStart Reach-idle 0 idle_handle refl

reporter_busy_safe_test :
    (b : Busy flags) × (ReporterBusy.busy_ref hired_busy sees_busy.world ≡ returns b)
    × IsIndexed sees_busy.world.heap b.slots
    × ((d : Idle flags)
        → ReporterBusy.swap_state hired_busy sees_busy.world d
          ≡ returns (record { guard = hired_guard }, b, set_state sees_busy.world (State.idle d)))
    × ((f : Busy flags → Idle flags)
        → ReporterBusy.to_idle hired_busy sees_busy.world f
          ≡ returns (record { guard = hired_guard }, set_state sees_busy.world (State.idle (f b))))
unfolding ℕ_discrete
reporter_busy_safe_test =
    reporter_busy_safe excludes at_start-IsStart Reach-sees_busy 2 hired_busy refl

reporter_idle_safe_test :
    (d : Idle flags) × (ReporterIdle.idle_ref hired_idle stopped_world ≡ returns d)
    × ((b : Busy flags)
        → ReporterIdle.swap_state hired_idle stopped_world b
          ≡ returns (record { guard = hired_guard }, d, set_state stopped_world (State.busy b)))
    × ((f : Idle flags → Busy flags)
        → ReporterIdle.to_busy hired_idle stopped_world f
          ≡ returns (record { guard = hired_guard }, set_state stopped_world (State.busy (f d))))
unfolding ℕ_discrete
reporter_idle_safe_test =
    reporter_idle_safe excludes at_start-IsStart Reach-stopped 2 hired_idle refl

Reach-Inv_example : Inv excludes sees_busy
Reach-Inv_example = Reach-Inv excludes at_start-IsStart Reach-sees_busy

two_holders_example :
    (t : System flags borrow_checker) × (g : BusyGroup) × Reach flags borrow_checker
      (two_clones flags 1 2 3 4)
      t
    × (t.pc 0 ≡ busy_group g)
    × (holds_lock (t.pc 1) ≡ true)
    × (BusyGroup.busy_ref g t.world ≡ panics)
    × ((i : Idle flags) → BusyGroup.swap_state g t.world i ≡ undefined)
two_holders_example = two_holders flags 1 2 3 4

clones_have_no_cell : (i a : ℕ) → ¬ (cell_of (clones i) ≡ some a)
clones_have_no_cell zero a e = cc
clones_have_no_cell (suc zero) a e = cc
clones_have_no_cell (suc (suc i)) a e = cc

Reach-Owned_example : Owned sees_busy × Leaves at_start.world sees_busy.world
Reach-Owned_example =
    Reach-Owned excludes
      (record {
        live = λ i a e. absurd (clones_have_no_cell i a e);
        apart = λ i j a e e'. absurd (clones_have_no_cell i a e);
      })
      Reach-sees_busy
