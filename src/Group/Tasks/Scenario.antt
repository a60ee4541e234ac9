-- ===== src/Group/Tasks/Scenario.antt =====
-- Two tasks of a small group, and a third that they hire, over a lock that waits while it is held.
use native.Mathlib.Decide.{ℕ_discrete}
use rs_dtool.Base.{ℕ, zero, suc, Bool, true, false, ◌≡◌, refl, Exec, returns, waits, [], ◌∷◌, arith}
use rs_dtool.Family.{Lockable, Excludes}
use rs_dtool.Group.Slots
use rs_dtool.Group.Slots.{GroupExt, Reporter}
use rs_dtool.Group.Shared.{State, Busy, Idle, World, state_of, set_state, new_group}
use rs_dtool.Group.Shared
use rs_dtool.Group.Handles.{
  DownloadGroup, GroupGuard, BusyGroup, IdleGroup, ReporterBusy, ReporterGuard, ReporterIdle,
}
use rs_dtool.Group.GroupGuard
use rs_dtool.Group.ReporterGuard
use rs_dtool.Group.BusyGroup
use rs_dtool.Group.IdleGroup
use rs_dtool.Group.ReporterBusy
use rs_dtool.Group.Tasks.{
  Handle, nothing, group, group_guard, busy_group, idle_group, reporter, reporter_guard,
  reporter_busy, holds_lock, System, IsStart, Reach, here, later, move, hire, update, lock_group,
  unlock_group, see_idle, start, erase, by_group, lock_reporter, reporter_sees_busy, reporter_idle,
  reporter_stops,
}

abbrev pub flags : GroupExt
flags = record {
  GroupShare = ℕ;
  Data = ℕ;
  IdleData = ℕ;
  BusyData = ℕ;
  SlotShare = ℕ;
  SlotInlock = ℕ;
}

abbrev pub acquire_flag : Bool → Exec Bool
acquire_flag true = waits
acquire_flag false = returns true

abbrev pub flag_lock : Lockable
flag_lock = record {
  Lock = Bool;
  new = false;
  acquire = acquire_flag;
  release = λ _. returns false;
}

pub flag_lock_free : (l l' : Bool) → acquire_flag l ≡ returns l' → ¬ (l ≡ true)
flag_lock_free true l' h = cc
flag_lock_free false l' h = λ e. cc

pub flag_lock_holds : (l l' : Bool) → acquire_flag l ≡ returns l' → l' ≡ true
flag_lock_holds true l' h = cc
flag_lock_holds false l' h = ground arith

pub flag_lock_new : ¬ (false ≡ true)
flag_lock_new e = cc

pub flag_lock_release : (l l' : Bool) → l ≡ true → returns false ≡ returns l' → ¬ (l' ≡ true)
flag_lock_release l l' h e e' = cc

abbrev pub excludes : Excludes flag_lock
excludes = record {
  Held = λ l. l ≡ true;
  new_free = flag_lock_new;
  acquire_free = flag_lock_free;
  acquire_holds = flag_lock_holds;
  release_frees = flag_lock_release;
}

abbrev pub clone : DownloadGroup
clone = record { group = 0 }

abbrev pub guard : GroupGuard
guard = record { group = 0 }

abbrev pub handle : BusyGroup
handle = record { guard = guard }

abbrev pub rest : Idle flags
rest = record { idle_data = 3 }

abbrev pub work : Busy flags
work = record { slots = []; busy_data = 4 }

abbrev pub world : Bool → State (Busy flags) (Idle flags) → World flags flag_lock
world held s = record {
  heap = [];
  shared = record { share = 1; mutex = held; locked = record { inlock_data = 2; state = s } };
}

-- Tasks 0 and 1 have a clone of the group; the others wait to be hired.
abbrev pub clones : ℕ → Handle
clones zero = group clone
clones (suc zero) = group clone
clones (suc (suc _)) = nothing

abbrev pub system : World flags flag_lock → (ℕ → Handle) → System flags flag_lock
system w pc = record { world = w; pc = pc }

abbrev pub at_start : System flags flag_lock
at_start = system (world false (State.idle rest)) clones

pub clones_unlocked : (i : ℕ) → holds_lock (clones i) ≡ false
clones_unlocked zero = refl
clones_unlocked (suc zero) = refl
clones_unlocked (suc (suc _)) = refl

pub at_start-IsStart : IsStart flags flag_lock at_start
unfolding new_group
at_start-IsStart = record {
  unlocked = clones_unlocked;
  share = 1;
  inlock = 2;
  idle_data = 3;
  is_new = refl;
}

abbrev pub idle_handle : IdleGroup
idle_handle = record { guard = guard }

abbrev pub hired : Reporter
hired = record { group = 0; slot_share = 0 }

abbrev pub hired_guard : ReporterGuard
hired_guard = record { slot = 0; group = 0 }

abbrev pub hired_busy : ReporterBusy
hired_busy = record { guard = hired_guard }

abbrev pub with_one : Bool → World flags flag_lock
with_one held = record {
  heap = record { index = 0; ext = 8 } ∷ [];
  shared = record {
    share = 1;
    mutex = held;
    locked = record {
      inlock_data = 2;
      state = State.busy (record { slots = record { share = 0; ext = 9 } ∷ []; busy_data = 4 });
    };
  };
}

-- Task 0 locks the group, starts it and hires task 2, which then takes the lock.
abbrev pub locked : System flags flag_lock
locked = system (world true (State.idle rest)) (update clones 0 (group_guard guard))

abbrev pub sees_idle : System flags flag_lock
sees_idle = system (world true (State.idle rest)) (update locked.pc 0 (idle_group idle_handle))

abbrev pub started : System flags flag_lock
started = system (world true (State.busy work)) (update sees_idle.pc 0 (busy_group handle))

abbrev pub has_hired : System flags flag_lock
has_hired = system (with_one true) (update started.pc 2 (reporter hired))

abbrev pub erased : System flags flag_lock
erased = system (with_one true) (update has_hired.pc 0 (group_guard guard))

abbrev pub unlocked : System flags flag_lock
unlocked = system (with_one false) (update erased.pc 0 (group clone))

abbrev pub taken : System flags flag_lock
taken = system (with_one true) (update unlocked.pc 2 (reporter_guard hired_guard))

abbrev pub sees_busy : System flags flag_lock
sees_busy = system (with_one true) (update taken.pc 2 (reporter_busy hired_busy))

pub Reach-idle : Reach flags flag_lock at_start sees_idle
unfolding GroupGuard.lock GroupGuard.get_state Shared.acquire ℕ_discrete
Reach-idle =
    let r : Reach flags flag_lock at_start locked =
      later here (move 0 (lock_group {g = clone} refl)) in
    later r (move 0 (see_idle refl))

pub Reach-started : Reach flags flag_lock at_start started
unfolding IdleGroup.swap_state ℕ_discrete
Reach-started = later Reach-idle (move 0 (start {i = rest} work (λ i s p. cc p) refl))

pub Reach-sees_busy : Reach flags flag_lock at_start sees_busy
unfolding BusyGroup.new_reporter BusyGroup.erase_state Slots.new_reporter GroupGuard.release_lock
    ReporterGuard.lock ReporterGuard.get_state Shared.acquire Shared.release ℕ_discrete
Reach-sees_busy =
    let r1 : Reach flags flag_lock at_start has_hired =
      later Reach-started (hire 0 2 refl (by_group 8 9 refl)) in
    let r2 : Reach flags flag_lock at_start erased = later r1 (move 0 erase) in
    let r3 : Reach flags flag_lock at_start unlocked = later r2 (move 0 (unlock_group refl)) in
    let r4 : Reach flags flag_lock at_start taken =
      later r3 (move 2 (lock_reporter {r = hired} refl)) in
    later r4 (move 2 (reporter_sees_busy refl))

-- Task 2 then stops the group.
abbrev pub hired_idle : ReporterIdle
hired_idle = record { guard = hired_guard }

abbrev pub stopped_world : World flags flag_lock
stopped_world = set_state (with_one true) (State.idle rest)

abbrev pub stopped : System flags flag_lock
stopped = system stopped_world (update sees_busy.pc 2 (reporter_idle hired_idle))

pub Reach-stopped : Reach flags flag_lock at_start stopped
unfolding ReporterBusy.swap_state ℕ_discrete
Reach-stopped = later Reach-sees_busy (move 2 (reporter_stops {g = hired_busy} rest refl))
