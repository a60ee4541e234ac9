-- ===== src/Group/BusyGroup.antt =====
-- Dtool_impl/src/downloader/download_group.rs: `BusyGroup`.
use rs_dtool.Base.{ℕ, Exec, returns, panics, undefined, ◌>>=◌}
use rs_dtool.Family.{Lockable}
use rs_dtool.Group.Slots.{GroupExt, Slot, SlotVec, Reporter}
use rs_dtool.Group.Slots
use rs_dtool.Group.Shared.{busy, idle, Busy, Idle, World, state_of, set_state, set_data}
use rs_dtool.Group.Handles.{GroupGuard, BusyGroup, IdleGroup}

module _ {E : GroupExt} {L : Lockable} where
  -- `busy`, and `busy_mut` with the write through it: `unreachable!()` panics.
  unfoldable pub busy_ref : BusyGroup → World E L → Exec (Busy E)
  busy_ref g w = elim (state_of w) [ busy b ↦ returns b | idle _ ↦ panics ]

  unfoldable pub busy_mut : BusyGroup → World E L → (Busy E → Busy E) → Exec (World E L)
  busy_mut g w f = elim (state_of w) [
    | busy b ↦ returns (set_state w (busy (f b)))
    | idle _ ↦ panics
  ]

  unfoldable pub new_reporter :
      BusyGroup → World E L → E.SlotShare → E.SlotInlock → Exec (Reporter × World E L)
  unfolding busy_ref
  new_reporter g w slot_ext slot_inlock = do
    b ← busy_ref g w
    let (r, slots, heap) = Slots.new_reporter g.guard.group w.heap b.slots slot_ext slot_inlock
    returns (r, record (set_state w (busy (record b { slots = slots }))) { heap = heap })

  -- Here the wrong variant is undefined behaviour.
  unfoldable pub swap_state : BusyGroup → World E L → Idle E → Exec (IdleGroup × Busy E × World E L)
  swap_state g w i = elim (state_of w) [
    | busy b ↦ returns (record { guard = g.guard }, b, set_state w (idle i))
    | idle _ ↦ undefined
  ]

  abbrev pub data_ref : BusyGroup → World E L → E.Data
  data_ref g w = w.shared.locked.inlock_data

  abbrev pub data_mut : BusyGroup → World E L → E.Data → World E L
  data_mut g w d = set_data w d

  abbrev pub slots : BusyGroup → World E L → Exec (SlotVec E)
  unfolding busy_ref
  slots g w = do b ← busy_ref g w; returns b.slots

  -- A write through `slots_mut`.
  abbrev pub slots_mut : BusyGroup → World E L → SlotVec E → Exec (World E L)
  unfolding busy_mut
  slots_mut g w new = busy_mut g w (λ b. record b { slots = new })

  -- `slots_mut().swap_remove_and_update_index(i)`
  unfoldable pub remove_slot : BusyGroup → World E L → ℕ → Exec (Slot E × World E L)
  unfolding busy_ref
  remove_slot g w i = do
    b ← busy_ref g w
    (removed, rest, heap) ← Slots.swap_remove_and_update_index w.heap b.slots i
    returns (removed, record (set_state w (busy (record b { slots = rest }))) { heap = heap })

  abbrev pub busy_data : BusyGroup → World E L → Exec E.BusyData
  unfolding busy_ref
  busy_data g w = do b ← busy_ref g w; returns b.busy_data

  abbrev pub busy_data_mut : BusyGroup → World E L → E.BusyData → Exec (World E L)
  unfolding busy_mut
  busy_data_mut g w new = busy_mut g w (λ b. record b { busy_data = new })

unfoldable pub erase_state : BusyGroup → GroupGuard
erase_state g = g.guard
