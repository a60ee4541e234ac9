-- ===== src/Group/ReporterGuard.antt =====
-- Dtool_impl/src/downloader/download_group.rs: `Reporter` and `ReporterGuard`.
use rs_dtool.Base.{
  ℕ, Exec, returns, panics, undefined, ◌>>=◌, Build, debug, release as release_build, ◌==◌,
  if◌then◌else◌, get_elem?, none, some,
}
use rs_dtool.Family.{Lockable}
use rs_dtool.Group.Slots.{GroupExt, Reporter, from_raw, index, set_index}
use rs_dtool.Group.Shared.{
  State, busy, idle, InLockShared, World, set_state, set_data, acquire, release,
}
use rs_dtool.Group.Handles.{GroupGuard, ReporterGuard, ReporterGuardState}

module _ {E : GroupExt} {L : Lockable} where
  unfoldable pub new : Reporter → World E L → Exec (ReporterGuard × World E L)
  new r w = do w' ← acquire w; returns (record { slot = r.slot_share; group = r.group }, w')

  -- `Reporter::lock`
  unfoldable pub lock : Reporter → World E L → Exec (ReporterGuard × World E L)
  unfolding new
  lock r w = new r w

  -- `Reporter::group` and `Reporter::slot_ext`
  abbrev pub share : Reporter → World E L → E.GroupShare
  share r w = w.shared.share

  abbrev pub slot_ext : Reporter → World E L → Exec E.SlotShare
  slot_ext r w = elim (get_elem? w.heap r.slot_share) [
    | none ↦ undefined
    | some cell ↦ returns cell.ext
  ]

  -- `ReporterGuard::group`
  abbrev pub group_ext : ReporterGuard → World E L → E.GroupShare
  group_ext g w = w.shared.share

  -- `ReporterGuard::my_slot_ext`
  abbrev pub my_slot_ext : ReporterGuard → World E L → Exec E.SlotShare
  my_slot_ext g w = elim (get_elem? w.heap g.slot) [
    | none ↦ undefined
    | some cell ↦ returns cell.ext
  ]

  unfoldable pub release_lock : ReporterGuard → World E L → Exec (Reporter × World E L)
  unfolding from_raw
  release_lock g w = do w' ← release w; returns (from_raw g.group g.slot, w')

  -- `Drop::drop`
  unfoldable pub drop : ReporterGuard → World E L → Exec (World E L)
  drop g w = release w

  unfoldable pub locked : ReporterGuard → World E L → InLockShared E
  locked g w = w.shared.locked

  abbrev pub data_ref : ReporterGuard → World E L → E.Data
  unfolding locked
  data_ref g w = (locked g w).inlock_data

  unfoldable pub data_mut : ReporterGuard → World E L → E.Data → World E L
  data_mut g w d = set_data w d

  abbrev pub state_data : ReporterGuard → World E L → State E.BusyData E.IdleData
  unfolding locked
  state_data g w = elim (locked g w).state [ busy b ↦ busy b.busy_data | idle i ↦ idle i.idle_data ]

  -- A write through `state_data_mut`, by a function for each variant.
  unfoldable pub state_data_mut :
      ReporterGuard → World E L → (E.BusyData → E.BusyData) → (E.IdleData → E.IdleData) → World E L
  unfolding locked
  state_data_mut g w f h = elim (locked g w).state [
    | busy b ↦ set_state w (busy (record b { busy_data = f b.busy_data }))
    | idle i ↦ set_state w (idle (record { idle_data = h i.idle_data }))
  ]

  unfoldable pub get_state : ReporterGuard → World E L → ReporterGuardState
  unfolding locked
  get_state g w = elim (locked g w).state [
    | busy _ ↦ busy (record { guard = g })
    | idle _ ↦ idle (record { guard = g })
  ]

  abbrev pub my_index : ReporterGuard → World E L → Exec ℕ
  my_index g w = index w.heap g.slot

  -- A write through `my_index_mut`.
  abbrev pub my_index_mut : ReporterGuard → World E L → ℕ → Exec (World E L)
  my_index_mut g w i = do heap ← set_index w.heap g.slot i; returns (record w { heap = heap })

-- `debug_assert_eq!` on the two groups, then the swap.
abbrev pub swap_slot : Build → ReporterGuard → Reporter → Exec (ReporterGuard × Reporter)
swap_slot debug g r =
    if g.group == r.group
    then returns (record g { slot = r.slot_share }, record r { slot_share = g.slot })
    else panics
swap_slot release_build g r =
    returns (record g { slot = r.slot_share }, record r { slot_share = g.slot })

-- `as_group` and `as_group_mut`, by a transmute of the reference to the group.
unfoldable pub as_group : ReporterGuard → GroupGuard
as_group g = record { group = g.group }
