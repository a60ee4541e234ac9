-- ===== src/Group/Tasks/CellOf.antt =====
-- Which cell of Dtool_impl/src/downloader/download_group.rs a handle refers to, and what becomes of it in a move.
use rs_dtool.Base.{
  ℕ, ◌≡◌, sym, ap, ◌∙◌, Option, none, some, returns, >>=-eq-returns, returns-injective, inl, inr,
  arith,
}
use rs_dtool.Family.{Lockable}
use rs_dtool.Group.Slots.{GroupExt, Reporter, from_raw}
use rs_dtool.Group.Shared.{State, Busy, Idle, World, state_of, acquire, release}
use rs_dtool.Group.Handles.{ReporterGuard, ReporterBusy, ReporterIdle}
use rs_dtool.Group.ReporterGuard
use rs_dtool.Group.ReporterBusy
use rs_dtool.Group.ReporterIdle
use rs_dtool.Group.Tasks.{
  Handle, reporter, reporter_guard, reporter_busy, reporter_idle, Move, lock_group, unlock_group,
  drop_group, see_busy, see_idle, write_data, write_state_data, stop, remove, erase, start,
  start_by, raw_idle, lock_reporter, unlock_reporter, drop_reporter, reporter_sees_busy,
  reporter_sees_idle, write_data_of_reporter, write_state_data_of_reporter, reporter_stops,
  reporter_stops_by, reporter_removes, raw_reporter_busy, reporter_starts, reporter_starts_by,
  raw_reporter_idle, write_slots, reporter_writes_slots, write_index,
}
use rs_dtool.Group.Tasks.Effects.{State-cases}

-- The cell that a handle refers to.
abbrev pub cell_of : Handle → Option ℕ
cell_of (reporter r) = some r.slot_share
cell_of (reporter_guard g) = some g.slot
cell_of (reporter_busy b) = some b.guard.slot
cell_of (reporter_idle i) = some i.guard.slot
cell_of _ = none

module _ {E : GroupExt} {L : Lockable} where
  ReporterGuard-lock_slot :
      (r : Reporter) (w : World E L) {g : ReporterGuard} {w' : World E L}
      → ReporterGuard.lock r w ≡ returns (g, w')
      → g.slot ≡ r.slot_share
  unfolding ReporterGuard.lock
  ReporterGuard-lock_slot r w h =
      let (v, _, q) = >>=-eq-returns (acquire w) _ h in
      sym (ap (λ (u : ReporterGuard × World E L). u.0.slot) (returns-injective q))

  ReporterGuard-release_slot :
      (g : ReporterGuard) (w : World E L) {r : Reporter} {w' : World E L}
      → ReporterGuard.release_lock g w ≡ returns (r, w')
      → r.slot_share ≡ g.slot
  unfolding ReporterGuard.release_lock from_raw
  ReporterGuard-release_slot g w h =
      let (v, _, q) = >>=-eq-returns (release w) _ h in
      sym (ap (λ (u : Reporter × World E L). u.0.slot_share) (returns-injective q))

  ReporterGuard-get_state_slot :
      (g : ReporterGuard) (w : World E L)
      → ((b : ReporterBusy) → ReporterGuard.get_state g w ≡ State.busy b → b.guard.slot ≡ g.slot)
        × ((i : ReporterIdle) → ReporterGuard.get_state g w ≡ State.idle i → i.guard.slot ≡ g.slot)
  unfolding ReporterGuard.get_state
  ReporterGuard-get_state_slot g w = (λ b h. ground arith, λ i h. ground arith)

  ReporterBusy-swap_state_slot :
      (g : ReporterBusy) (w : World E L) (i : Idle E) {g' : ReporterIdle} {b : Busy E}
      {w' : World E L}
      → ReporterBusy.swap_state g w i ≡ returns (g', b, w')
      → g'.guard.slot ≡ g.guard.slot
  unfolding ReporterBusy.swap_state
  ReporterBusy-swap_state_slot g w i h = ground arith

  ReporterIdle-swap_state_slot :
      (g : ReporterIdle) (w : World E L) (b : Busy E) {g' : ReporterBusy} {i : Idle E}
      {w' : World E L}
      → ReporterIdle.swap_state g w b ≡ returns (g', i, w')
      → g'.guard.slot ≡ g.guard.slot
  unfolding ReporterIdle.swap_state
  ReporterIdle-swap_state_slot g w b h = ground arith

  ReporterBusy-to_idle_slot :
      (g : ReporterBusy) (w : World E L) (f : Busy E → Idle E) {g' : ReporterIdle} {w' : World E L}
      → ReporterBusy.to_idle g w f ≡ returns (g', w')
      → g'.guard.slot ≡ g.guard.slot
  unfolding ReporterBusy.to_idle
  ReporterBusy-to_idle_slot g w f h = elim (State-cases (state_of w)) [
    | inl (b, e) ↦ ground arith
    | inr (i, e) ↦ ground arith
  ]

  ReporterIdle-to_busy_slot :
      (g : ReporterIdle) (w : World E L) (f : Idle E → Busy E) {g' : ReporterBusy} {w' : World E L}
      → ReporterIdle.to_busy g w f ≡ returns (g', w')
      → g'.guard.slot ≡ g.guard.slot
  unfolding ReporterIdle.to_busy
  ReporterIdle-to_busy_slot g w f h = elim (State-cases (state_of w)) [
    | inl (b, e) ↦ ground arith
    | inr (i, e) ↦ ground arith
  ]

  -- A reporter's handle keeps its cell through every move, until it is dropped.
  pub Move-cell :
      {w w' : World E L} {h h' : Handle}
      → Move E L w h w' h'
      → (a : ℕ) → cell_of h' ≡ some a
      → cell_of h ≡ some a
  Move-cell (lock_group p) a e = absurd cc
  Move-cell (unlock_group p) a e = absurd cc
  Move-cell (drop_group p) a e = absurd cc
  Move-cell (see_busy p) a e = absurd cc
  Move-cell (see_idle p) a e = absurd cc
  Move-cell (write_data d) a e = absurd cc
  Move-cell (write_state_data f h) a e = absurd cc
  Move-cell (stop i p) a e = absurd cc
  Move-cell (remove i p) a e = absurd cc
  Move-cell (write_slots heap slots exts indexed p) a e = absurd cc
  Move-cell erase a e = absurd cc
  Move-cell (start b v p) a e = absurd cc
  Move-cell (start_by f v p) a e = absurd cc
  Move-cell raw_idle a e = absurd cc
  Move-cell {w} (lock_reporter {r = r} p) a e = sym (ap some (ReporterGuard-lock_slot r w p)) ∙ e
  Move-cell {w} (unlock_reporter {g = g} p) a e =
      sym (ap some (ReporterGuard-release_slot g w p)) ∙ e
  Move-cell (drop_reporter p) a e = absurd cc
  Move-cell {w} (reporter_sees_busy {g} {b} p) a e =
      sym (ap some ((ReporterGuard-get_state_slot g w).0 b p)) ∙ e
  Move-cell {w} (reporter_sees_idle {g} {b} p) a e =
      sym (ap some ((ReporterGuard-get_state_slot g w).1 b p)) ∙ e
  Move-cell (write_data_of_reporter d) a e = e
  Move-cell (write_state_data_of_reporter f h) a e = e
  Move-cell (write_index i p indexed) a e = e
  Move-cell {w} (reporter_stops {g = g} i p) a e =
      sym (ap some (ReporterBusy-swap_state_slot g w i p)) ∙ e
  Move-cell {w} (reporter_stops_by {g = g} f p) a e =
      sym (ap some (ReporterBusy-to_idle_slot g w f p)) ∙ e
  Move-cell (reporter_removes i p) a e = e
  Move-cell (reporter_writes_slots heap slots exts indexed p) a e = e
  Move-cell raw_reporter_busy a e = e
  Move-cell {w} (reporter_starts {g = g} b v p) a e =
      sym (ap some (ReporterIdle-swap_state_slot g w b p)) ∙ e
  Move-cell {w} (reporter_starts_by {g = g} f v p) a e =
      sym (ap some (ReporterIdle-to_busy_slot g w f p)) ∙ e
  Move-cell raw_reporter_idle a e = e
