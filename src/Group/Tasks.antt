-- ===== src/Group/Tasks.antt =====
-- The tasks of one group of Dtool_impl/src/downloader/download_group.rs, interleaved in any order.
-- A task is the one handle that it holds of the group, so it has no second reporter to give to
-- `swap_slot`. What it does with the lock held is one step, and so is each
-- way to take the lock or to give it back.
pub mod Invariant
mod Effects
mod Guards
mod Moves
pub mod CellOf
pub mod Cells
pub mod Steps
mod Safety
mod Progress
mod Broken
pub mod Scenario
pub mod Tests
use native.Mathlib.Decide.{ℕ_discrete}
use mathlib.Core.Logic.{ite}
use rs_dtool.Base.{ℕ, Bool, true, false, ◌≡◌, ◌≢◌, returns}
use rs_dtool.Family.{Lockable}
use rs_dtool.Group.Slots.{GroupExt, Slot, SlotVec, Heap, Reporter}
use rs_dtool.Group.Slots.Exts.{KeepsExts}
use rs_dtool.Group.Slots.Indices.{IsIndexed}
use rs_dtool.Group.Shared.{State, Busy, Idle, World, state_of, new_group}
use rs_dtool.Group.Handles.{
  DownloadGroup, GroupGuard, ReporterGuard, BusyGroup, IdleGroup, ReporterBusy, ReporterIdle,
}
use rs_dtool.Group.GroupGuard
use rs_dtool.Group.ReporterGuard
use rs_dtool.Group.BusyGroup
use rs_dtool.Group.IdleGroup
use rs_dtool.Group.ReporterBusy
use rs_dtool.Group.ReporterIdle

pub data Handle : Type 0 where
  nothing : Handle
  group : DownloadGroup → Handle
  reporter : Reporter → Handle
  group_guard : GroupGuard → Handle
  busy_group : BusyGroup → Handle
  idle_group : IdleGroup → Handle
  reporter_guard : ReporterGuard → Handle
  reporter_busy : ReporterBusy → Handle
  reporter_idle : ReporterIdle → Handle

abbrev pub holds_lock : Handle → Bool
holds_lock nothing = false
holds_lock (group _) = false
holds_lock (reporter _) = false
holds_lock _ = true

-- What one task does with what it holds. A `Busy` that comes from outside is to be valid data, as the
-- comments of `swap_state` and `to_busy` ask; and the same is asked of a task that has a `&mut` to the
-- slots, by `slots_mut`, or to its position, by `my_index_mut`: once it gives it up, the slots are
-- indexed. By `slots_mut` a task gets at the positions in the cells too (`Slot::index_mut`). The data
-- of a busy or an idle group is written under its guard, which its handles are around.
pub data Move (E : GroupExt) (L : Lockable) (w : World E L)
    : Handle → World E L → Handle → Type 0 where
  lock_group :
      {w' : World E L} {g : DownloadGroup} {g' : GroupGuard}
      → GroupGuard.lock g w ≡ returns (g', w')
      → Move E L w (group g) w' (group_guard g')
  unlock_group :
      {w' : World E L} {g : GroupGuard} {g' : DownloadGroup}
      → GroupGuard.release_lock g w ≡ returns (g', w')
      → Move E L w (group_guard g) w' (group g')
  drop_group :
      {w' : World E L} {g : GroupGuard}
      → GroupGuard.drop g w ≡ returns w'
      → Move E L w (group_guard g) w' nothing
  see_busy :
      {g : GroupGuard} {b : BusyGroup}
      → GroupGuard.get_state g w ≡ State.busy b
      → Move E L w (group_guard g) w (busy_group b)
  see_idle :
      {g : GroupGuard} {b : IdleGroup}
      → GroupGuard.get_state g w ≡ State.idle b
      → Move E L w (group_guard g) w (idle_group b)
  write_data :
      {g : GroupGuard} (d : E.Data)
      → Move E L w (group_guard g) (GroupGuard.data_mut g w d) (group_guard g)
  write_state_data :
      {g : GroupGuard} (f : E.BusyData → E.BusyData) (h : E.IdleData → E.IdleData)
      → Move E L w (group_guard g) (GroupGuard.state_data_mut g w f h) (group_guard g)
  stop :
      {w' : World E L} {g : BusyGroup} {g' : IdleGroup} {b : Busy E} (i : Idle E)
      → BusyGroup.swap_state g w i ≡ returns (g', b, w')
      → Move E L w (busy_group g) w' (idle_group g')
  remove :
      {w' : World E L} {g : BusyGroup} {s : Slot E} (i : ℕ)
      → BusyGroup.remove_slot g w i ≡ returns (s, w')
      → Move E L w (busy_group g) w' (busy_group g)
  write_slots :
      {w' : World E L} {g : BusyGroup} (heap : Heap E) (slots : SlotVec E)
      → KeepsExts w.heap heap
      → IsIndexed heap slots
      → BusyGroup.slots_mut g (record w { heap = heap }) slots ≡ returns w'
      → Move E L w (busy_group g) w' (busy_group g)
  erase : {g : BusyGroup} → Move E L w (busy_group g) w (group_guard (BusyGroup.erase_state g))
  start :
      {w' : World E L} {g : IdleGroup} {g' : BusyGroup} {i : Idle E} (b : Busy E)
      → IsIndexed w.heap b.slots
      → IdleGroup.swap_state g w b ≡ returns (g', i, w')
      → Move E L w (idle_group g) w' (busy_group g')
  start_by :
      {w' : World E L} {g : IdleGroup} {g' : BusyGroup} (f : Idle E → Busy E)
      → ((i : Idle E) → IsIndexed w.heap (f i).slots)
      → IdleGroup.to_busy g w f ≡ returns (g', w')
      → Move E L w (idle_group g) w' (busy_group g')
  raw_idle : {g : IdleGroup} → Move E L w (idle_group g) w (group_guard (IdleGroup.into_raw g))
  lock_reporter :
      {w' : World E L} {r : Reporter} {g : ReporterGuard}
      → ReporterGuard.lock r w ≡ returns (g, w')
      → Move E L w (reporter r) w' (reporter_guard g)
  unlock_reporter :
      {w' : World E L} {g : ReporterGuard} {r : Reporter}
      → ReporterGuard.release_lock g w ≡ returns (r, w')
      → Move E L w (reporter_guard g) w' (reporter r)
  drop_reporter :
      {w' : World E L} {g : ReporterGuard}
      → ReporterGuard.drop g w ≡ returns w'
      → Move E L w (reporter_guard g) w' nothing
  reporter_sees_busy :
      {g : ReporterGuard} {b : ReporterBusy}
      → ReporterGuard.get_state g w ≡ State.busy b
      → Move E L w (reporter_guard g) w (reporter_busy b)
  reporter_sees_idle :
      {g : ReporterGuard} {b : ReporterIdle}
      → ReporterGuard.get_state g w ≡ State.idle b
      → Move E L w (reporter_guard g) w (reporter_idle b)
  write_data_of_reporter :
      {g : ReporterGuard} (d : E.Data)
      → Move E L w (reporter_guard g) (ReporterGuard.data_mut g w d) (reporter_guard g)
  write_state_data_of_reporter :
      {g : ReporterGuard} (f : E.BusyData → E.BusyData) (h : E.IdleData → E.IdleData)
      → Move E L w (reporter_guard g) (ReporterGuard.state_data_mut g w f h) (reporter_guard g)
  write_index :
      {w' : World E L} {g : ReporterGuard} (i : ℕ)
      → ReporterGuard.my_index_mut g w i ≡ returns w'
      → ((b : Busy E) → state_of w' ≡ State.busy b → IsIndexed w'.heap b.slots)
      → Move E L w (reporter_guard g) w' (reporter_guard g)
  reporter_stops :
      {w' : World E L} {g : ReporterBusy} {g' : ReporterIdle} {b : Busy E} (i : Idle E)
      → ReporterBusy.swap_state g w i ≡ returns (g', b, w')
      → Move E L w (reporter_busy g) w' (reporter_idle g')
  reporter_stops_by :
      {w' : World E L} {g : ReporterBusy} {g' : ReporterIdle} (f : Busy E → Idle E)
      → ReporterBusy.to_idle g w f ≡ returns (g', w')
      → Move E L w (reporter_busy g) w' (reporter_idle g')
  reporter_removes :
      {w' : World E L} {g : ReporterBusy} {s : Slot E} (i : ℕ)
      → ReporterBusy.remove_slot g w i ≡ returns (s, w')
      → Move E L w (reporter_busy g) w' (reporter_busy g)
  reporter_writes_slots :
      {w' : World E L} {g : ReporterBusy} (heap : Heap E) (slots : SlotVec E)
      → KeepsExts w.heap heap
      → IsIndexed heap slots
      → ReporterBusy.slots_mut g (record w { heap = heap }) slots ≡ returns w'
      → Move E L w (reporter_busy g) w' (reporter_busy g)
  raw_reporter_busy :
      {g : ReporterBusy} → Move E L w (reporter_busy g) w (reporter_guard (ReporterBusy.into_raw g))
  reporter_starts :
      {w' : World E L} {g : ReporterIdle} {g' : ReporterBusy} {i : Idle E} (b : Busy E)
      → IsIndexed w.heap b.slots
      → ReporterIdle.swap_state g w b ≡ returns (g', i, w')
      → Move E L w (reporter_idle g) w' (reporter_busy g')
  reporter_starts_by :
      {w' : World E L} {g : ReporterIdle} {g' : ReporterBusy} (f : Idle E → Busy E)
      → ((i : Idle E) → IsIndexed w.heap (f i).slots)
      → ReporterIdle.to_busy g w f ≡ returns (g', w')
      → Move E L w (reporter_idle g) w' (reporter_busy g')
  raw_reporter_idle :
      {g : ReporterIdle} → Move E L w (reporter_idle g) w (reporter_guard (ReporterIdle.into_raw g))

-- A task that holds the busy group makes a reporter, for another task.
pub data Hire (E : GroupExt) (L : Lockable) (w : World E L) (w' : World E L) (r : Reporter)
    : Handle → Type 0 where
  by_group :
      {g : BusyGroup} (ext : E.SlotShare) (inlock : E.SlotInlock)
      → BusyGroup.new_reporter g w ext inlock ≡ returns (r, w')
      → Hire E L w w' r (busy_group g)
  by_reporter :
      {g : ReporterBusy} (ext : E.SlotShare) (inlock : E.SlotInlock)
      → ReporterBusy.new_reporter g w ext inlock ≡ returns (r, w')
      → Hire E L w w' r (reporter_busy g)

abbrev pub update : (ℕ → Handle) → ℕ → Handle → ℕ → Handle
update pc i h j = ite (ℕ_discrete i j) h (pc j)

pub record System (E : GroupExt) (L : Lockable) : Type 0 where
  pub world : World E L
  pub pc : ℕ → Handle

pub data Step (E : GroupExt) (L : Lockable) (s : System E L) : System E L → Type 0 where
  move :
      (i : ℕ) {w : World E L} {h : Handle}
      → Move E L s.world (s.pc i) w h
      → Step E L s (record { world = w; pc = update s.pc i h })
  hire :
      (i k : ℕ) {w : World E L} {r : Reporter}
      → s.pc k ≡ nothing
      → Hire E L s.world w r (s.pc i)
      → Step E L s (record { world = w; pc = update s.pc k (reporter r) })

-- At first every task has a clone of the group, or nothing.
pub record IsStart (E : GroupExt) (L : Lockable) (s : System E L) : Type 0 where
  pub unlocked : (i : ℕ) → holds_lock (s.pc i) ≡ false
  pub share : E.GroupShare
  pub inlock : E.Data
  pub idle_data : E.IdleData
  pub is_new : s.world ≡ new_group E L share inlock idle_data

pub data Reach (E : GroupExt) (L : Lockable) (s : System E L) : System E L → Type 0 where
  here : Reach E L s s
  later : {t u : System E L} → Reach E L s t → Step E L t u → Reach E L s u
