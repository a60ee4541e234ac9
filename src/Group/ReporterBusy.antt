-- ===== src/Group/ReporterBusy.antt =====
-- Dtool_impl/src/downloader/download_group.rs: `ReporterBusy`.
use rs_dtool.Base.{ℕ, Exec, returns, panics, ◌>>=◌}
use rs_dtool.Family.{Lockable}
use rs_dtool.Group.Slots.{GroupExt, Slot, SlotVec, Reporter}
use rs_dtool.Group.Slots
use rs_dtool.Group.Shared.{
  busy, idle, Busy, Idle, World, state_of, set_state, set_data, busy_to_idle_unchecked,
}
use rs_dtool.Group.Handles.{ReporterGuard, ReporterBusy, ReporterIdle, BusyGroup}

module _ {E : GroupExt} {L : Lockable} where
  -- `busy`, and `busy_mut` with the write through it.
  unfoldable pub busy_ref : ReporterBusy → World E L → Exec (Busy E)
  busy_ref g w = elim (state_of w) [ busy b ↦ returns b | idle _ ↦ panics ]

  unfoldable pub busy_mut : ReporterBusy → World E L → (Busy E → Busy E) → Exec (World E L)
  busy_mut g w f = elim (state_of w) [
    | busy b ↦ returns (set_state w (busy (f b)))
    | idle _ ↦ panics
  ]

  unfoldable pub new_reporter :
      ReporterBusy → World E L → E.SlotShare → E.SlotInlock → Exec (Reporter × World E L)
  unfolding busy_ref
  new_reporter g w slot_ext slot_inlock = do
    b ← busy_ref g w
    let (r, slots, heap) = Slots.new_reporter g.guard.group w.heap b.slots slot_ext slot_inlock
    returns (r, record (set_state w (busy (record b { slots = slots }))) { heap = heap })

  unfoldable pub swap_state :
      ReporterBusy → World E L → Idle E → Exec (ReporterIdle × Busy E × World E L)
  swap_state g w i = elim (state_of w) [
    | busy b ↦ returns (record { guard = g.guard }, b, set_state w (idle i))
    | idle _ ↦ panics
  ]

  unfoldable pub to_idle :
      ReporterBusy → World E L → (Busy E → Idle E) → Exec (ReporterIdle × World E L)
  unfolding busy_to_idle_unchecked
  to_idle g w f = do
    s ← busy_to_idle_unchecked (state_of w) f
    returns (record { guard = g.guard }, set_state w s)

  abbrev pub data_ref : ReporterBusy → World E L → E.Data
  data_ref g w = w.shared.locked.inlock_data

  abbrev pub data_mut : ReporterBusy → World E L → E.Data → World E L
  data_mut g w d = set_data w d

  abbrev pub slots : ReporterBusy → World E L → Exec (SlotVec E)
  unfolding busy_ref
  slots g w = do b ← busy_ref g w; returns b.slots

  -- A write through `slots_mut`.
  abbrev pub slots_mut : ReporterBusy → World E L → SlotVec E → Exec (World E L)
  unfolding busy_mut
  slots_mut g w new = busy_mut g w (λ b. record b { slots = new })

  -- `slots_mut().swap_remove_and_update_index(i)`
  unfoldable pub remove_slot : ReporterBusy → World E L → ℕ → Exec (Slot E × World E L)
  unfolding busy_ref
  remove_slot g w i = do
    b ← busy_ref g w
    (removed, rest, heap) ← Slots.swap_remove_and_update_index w.heap b.slots i
    returns (removed, record (set_state w (busy (record b { slots = rest }))) { heap = heap })

  abbrev pub busy_data : ReporterBusy → World E L → Exec E.BusyData
  unfolding busy_ref
  busy_data g w = do b ← busy_ref g w; returns b.busy_data

  abbrev pub busy_data_mut : ReporterBusy → World E L → E.BusyData → Exec (World E L)
  unfolding busy_mut
  busy_data_mut g w new = busy_mut g w (λ b. record b { busy_data = new })

abbrev pub into_raw : ReporterBusy → ReporterGuard
into_raw g = g.guard

-- `as_group` and `as_group_mut`, by a transmute of the reference to the group.
unfoldable pub as_group : ReporterBusy → BusyGroup
as_group g = record { guard = record { group = g.guard.group } }
