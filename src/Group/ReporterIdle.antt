-- ===== src/Group/ReporterIdle.antt =====
-- Dtool_impl/src/downloader/download_group.rs: `ReporterIdle`.
use rs_dtool.Base.{Exec, returns, panics, ◌>>=◌}
use rs_dtool.Family.{Lockable}
use rs_dtool.Group.Slots.{GroupExt}
use rs_dtool.Group.Shared.{
  busy, idle, Busy, Idle, World, state_of, set_state, set_data, idle_to_busy_unchecked,
}
use rs_dtool.Group.Handles.{ReporterGuard, ReporterBusy, ReporterIdle, IdleGroup}

module _ {E : GroupExt} {L : Lockable} where
  -- `idle`, and `idle_mut` with the write through it.
  unfoldable pub idle_ref : ReporterIdle → World E L → Exec (Idle E)
  idle_ref g w = elim (state_of w) [ busy _ ↦ panics | idle i ↦ returns i ]

  unfoldable pub idle_mut : ReporterIdle → World E L → (Idle E → Idle E) → Exec (World E L)
  idle_mut g w f = elim (state_of w) [
    | busy _ ↦ panics
    | idle i ↦ returns (set_state w (idle (f i)))
  ]

  unfoldable pub swap_state :
      ReporterIdle → World E L → Busy E → Exec (ReporterBusy × Idle E × World E L)
  swap_state g w b = elim (state_of w) [
    | busy _ ↦ panics
    | idle i ↦ returns (record { guard = g.guard }, i, set_state w (busy b))
  ]

  unfoldable pub to_busy :
      ReporterIdle → World E L → (Idle E → Busy E) → Exec (ReporterBusy × World E L)
  unfolding idle_to_busy_unchecked
  to_busy g w f = do
    s ← idle_to_busy_unchecked (state_of w) f
    returns (record { guard = g.guard }, set_state w s)

  abbrev pub data_ref : ReporterIdle → World E L → E.Data
  data_ref g w = w.shared.locked.inlock_data

  abbrev pub data_mut : ReporterIdle → World E L → E.Data → World E L
  data_mut g w d = set_data w d

  abbrev pub idle_data : ReporterIdle → World E L → Exec E.IdleData
  unfolding idle_ref
  idle_data g w = do i ← idle_ref g w; returns i.idle_data

  abbrev pub idle_data_mut : ReporterIdle → World E L → E.IdleData → Exec (World E L)
  unfolding idle_mut
  idle_data_mut g w new = idle_mut g w (λ i. record { idle_data = new })

abbrev pub into_raw : ReporterIdle → ReporterGuard
into_raw g = g.guard

-- `as_group` and `as_group_mut`, by a transmute of the reference to the group.
abbrev pub as_group : ReporterIdle → IdleGroup
as_group g = record { guard = record { group = g.guard.group } }
