-- ===== src/Group/GroupGuard.antt =====
-- Dtool_impl/src/downloader/download_group.rs: `DownloadGroup::lock` and `GroupGuard`. A method takes
-- the memory of the group, and one that changes it gives the new memory too.
use rs_dtool.Base.{Exec, returns, ◌>>=◌}
use rs_dtool.Family.{Lockable}
use rs_dtool.Group.Slots.{GroupExt}
use rs_dtool.Group.Shared.{
  State, busy, idle, InLockShared, World, set_state, set_data, acquire, release,
}
use rs_dtool.Group.Handles.{DownloadGroup, GroupGuard, GroupGuardState}

module _ {E : GroupExt} {L : Lockable} where
  unfoldable pub new : DownloadGroup → World E L → Exec (GroupGuard × World E L)
  new g w = do w' ← acquire w; returns (record { group = g.group }, w')

  -- `DownloadGroup::lock`
  unfoldable pub lock : DownloadGroup → World E L → Exec (GroupGuard × World E L)
  unfolding new
  lock g w = new g w

  -- `DownloadGroup::share` and `GroupGuard::group_ext`
  abbrev pub share : DownloadGroup → World E L → E.GroupShare
  share g w = w.shared.share

  abbrev pub group_ext : GroupGuard → World E L → E.GroupShare
  group_ext g w = w.shared.share

  unfoldable pub release_lock : GroupGuard → World E L → Exec (DownloadGroup × World E L)
  release_lock g w = do w' ← release w; returns (record { group = g.group }, w')

  -- `Drop::drop`
  unfoldable pub drop : GroupGuard → World E L → Exec (World E L)
  drop g w = release w

  unfoldable pub locked : GroupGuard → World E L → InLockShared E
  locked g w = w.shared.locked

  abbrev pub data_ref : GroupGuard → World E L → E.Data
  unfolding locked
  data_ref g w = (locked g w).inlock_data

  -- A write through `data_mut`.
  unfoldable pub data_mut : GroupGuard → World E L → E.Data → World E L
  data_mut g w d = set_data w d

  abbrev pub state_data : GroupGuard → World E L → State E.BusyData E.IdleData
  unfolding locked
  state_data g w = elim (locked g w).state [ busy b ↦ busy b.busy_data | idle i ↦ idle i.idle_data ]

  -- A write through `state_data_mut`, by a function for each variant.
  unfoldable pub state_data_mut :
      GroupGuard → World E L → (E.BusyData → E.BusyData) → (E.IdleData → E.IdleData) → World E L
  unfolding locked
  state_data_mut g w f h = elim (locked g w).state [
    | busy b ↦ set_state w (busy (record b { busy_data = f b.busy_data }))
    | idle i ↦ set_state w (idle (record { idle_data = h i.idle_data }))
  ]

  unfoldable pub get_state : GroupGuard → World E L → GroupGuardState
  unfolding locked
  get_state g w = elim (locked g w).state [
    | busy _ ↦ busy (record { guard = g })
    | idle _ ↦ idle (record { guard = g })
  ]
