-- ===== src/Group/Shared.antt =====
-- Dtool_impl/src/downloader/download_group.rs: what the tasks of one group share, and its two states.
use rs_dtool.Base.{[], Bool, true, false, Exec, returns, undefined, ◌>>=◌}
use rs_dtool.Family.{Lockable}
use rs_dtool.Group.Slots.{GroupExt, Heap, SlotVec}

pub data State (T U : Type 0) : Type 0 where
  busy : T → State T U
  idle : U → State T U

module _ {T U : Type 0} where
  unfoldable pub is_busy : State T U → Bool
  is_busy (busy _) = true
  is_busy (idle _) = false

  unfoldable pub is_idle : State T U → Bool
  is_idle (busy _) = false
  is_idle (idle _) = true

  -- The wrong variant is undefined behaviour. `f` does not panic.
  unfoldable pub busy_to_idle_unchecked : State T U → (T → U) → Exec (State T U)
  busy_to_idle_unchecked (busy b) f = returns (idle (f b))
  busy_to_idle_unchecked (idle _) f = undefined

  unfoldable pub idle_to_busy_unchecked : State T U → (U → T) → Exec (State T U)
  idle_to_busy_unchecked (idle i) f = returns (busy (f i))
  idle_to_busy_unchecked (busy _) f = undefined

pub record Busy (E : GroupExt) : Type 0 where
  pub slots : SlotVec E
  pub busy_data : E.BusyData

pub record Idle (E : GroupExt) : Type 0 where
  pub idle_data : E.IdleData

module _ {E : GroupExt} where
  -- `Busy::empty`, for a value of `E.BusyData`
  pub with_raw : SlotVec E → E.BusyData → Busy E
  with_raw slots d = record { slots = slots; busy_data = d }

  -- `slots`, `data` and the writes through `slots_mut` and `data_mut` of `Busy`.
  abbrev pub slots_of : Busy E → SlotVec E
  slots_of b = b.slots

  abbrev pub slots_mut_of : Busy E → (SlotVec E → SlotVec E) → Busy E
  slots_mut_of b f = record b { slots = f b.slots }

  abbrev pub data_of : Busy E → E.BusyData
  data_of b = b.busy_data

  abbrev pub data_mut_of : Busy E → (E.BusyData → E.BusyData) → Busy E
  data_mut_of b f = record b { busy_data = f b.busy_data }

unfoldable pub empty : (E : GroupExt) → E.BusyData → Busy E
unfolding with_raw
empty E d = with_raw [] d

pub record InLockShared (E : GroupExt) : Type 0 where
  pub inlock_data : E.Data
  pub state : State (Busy E) (Idle E)

pub record GroupShared (E : GroupExt) (L : Lockable) : Type 0 where
  pub share : E.GroupShare
  pub mutex : L.Lock
  pub locked : InLockShared E

-- The memory that one group reaches: the shared group, and the cells of its slots.
pub record World (E : GroupExt) (L : Lockable) : Type 0 where
  pub heap : Heap E
  pub shared : GroupShared E L

module _ (E : GroupExt) (L : Lockable) where
  -- `GroupShared::with_raw`
  pub shared_with_raw : E.GroupShare → InLockShared E → GroupShared E L
  shared_with_raw share inlock = record { share = share; mutex = L.new; locked = inlock }

  -- `DownloadGroup::new`: the group is idle, and its lock is free.
  unfoldable pub new_group : E.GroupShare → E.Data → E.IdleData → World E L
  unfolding shared_with_raw
  new_group group d idle_d = record {
    heap = [];
    shared =
        shared_with_raw group
          (record { inlock_data = d; state = State.idle (record { idle_data = idle_d }) });
  }

module _ {E : GroupExt} {L : Lockable} where
  abbrev pub state_of : World E L → State (Busy E) (Idle E)
  state_of w = w.shared.locked.state

  -- A write through `locked_mut`.
  abbrev pub set_locked : World E L → InLockShared E → World E L
  set_locked w inlock = record w { shared = record (w.shared) { locked = inlock } }

  abbrev pub set_state : World E L → State (Busy E) (Idle E) → World E L
  set_state w s = set_locked w (record (w.shared.locked) { state = s })

  abbrev pub set_data : World E L → E.Data → World E L
  set_data w d = set_locked w (record (w.shared.locked) { inlock_data = d })

  -- `mutex.acquire()` and `mutex.release()`.
  unfoldable pub acquire : World E L → Exec (World E L)
  acquire w = do
    l ← L.acquire w.shared.mutex
    returns (record w { shared = record (w.shared) { mutex = l } })

  unfoldable pub release : World E L → Exec (World E L)
  release w = do
    l ← L.release w.shared.mutex
    returns (record w { shared = record (w.shared) { mutex = l } })
