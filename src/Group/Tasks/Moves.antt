-- ===== src/Group/Tasks/Moves.antt =====
-- What a move of one task of a group does, over any lock that excludes.
use rs_dtool.Base.{true, false, ◌≡◌, refl, returns, sym, ◌∙◌, subst, arith}
use rs_dtool.Family.{Lockable, Excludes}
use rs_dtool.Group.Slots.{GroupExt, Reporter}
use rs_dtool.Group.Slots.Indices.{IsIndexed}
use rs_dtool.Group.Shared.{State, Busy, Idle, World, state_of, is_busy, is_idle, acquire}
use rs_dtool.Group.GroupGuard
use rs_dtool.Group.ReporterGuard
use rs_dtool.Group.Tasks.{
  Handle, holds_lock, Move, Hire, lock_group, unlock_group, drop_group, see_busy, see_idle,
  write_data, write_state_data, stop, remove, erase, start, start_by, raw_idle, lock_reporter,
  unlock_reporter, drop_reporter, reporter_sees_busy, reporter_sees_idle, write_data_of_reporter,
  write_state_data_of_reporter, reporter_stops, reporter_stops_by, reporter_removes,
  raw_reporter_busy, reporter_starts, reporter_starts_by, raw_reporter_idle, by_group, by_reporter,
  write_slots, reporter_writes_slots, write_index,
}
use rs_dtool.Group.Tasks.Invariant.{
  Knows, IsIndexedIn, Kind, takes, gives, works, same_heap-Leaves, acquire_lem, release_lem,
}
use rs_dtool.Group.Tasks.Effects.{
  Sets, StaysBusy, BusyGroup-swap_state, BusyGroup-remove_slot, BusyGroup-new_reporter,
  IdleGroup-swap_state, IdleGroup-to_busy, ReporterBusy-swap_state, ReporterBusy-to_idle,
  ReporterIdle-swap_state, ReporterIdle-to_busy, ReporterBusy-as_group, GroupGuard-state_data_mut,
  ReporterGuard-state_data_mut, BusyGroup-slots_mut, ReporterBusy-slots_mut,
  ReporterGuard-my_index_mut,
}
use rs_dtool.Group.Tasks.Guards.{
  GroupGuard-lock, ReporterGuard-lock, GroupGuard-release_lock, ReporterGuard-release_lock,
  GroupGuard-get_state, ReporterGuard-get_state,
}

module _ {E : GroupExt} {L : Lockable} (X : Excludes L) where
  -- What a move shows of itself: its kind, and that its task knows what it says.
  abbrev pub Effect : World E L → Handle → World E L → Handle → Type 0
  Effect w h w' h' = Kind X w w' (holds_lock h) (holds_lock h') × Knows w' h'

  same : (w : World E L) → Kind X w w true true
  same w = works refl (record { same_share = refl; exts = λ a x e. e }) (λ v. v)

  to_idle :
      (w w' : World E L) (i : Idle E)
      → Sets w w' (State.idle i)
      → Kind X w w' true true × (is_idle (state_of w') ≡ true)
  unfolding is_idle
  to_idle w w' i s = (
    works s.same_mutex (same_heap-Leaves w w' s.same_share s.same_heap)
        (λ v b e. absurd (ground arith)),
    rw s.new_state,
  )

  to_busy :
      (w w' : World E L) (b : Busy E)
      → IsIndexed w.heap b.slots
      → Sets w w' (State.busy b)
      → Kind X w w' true true × (is_busy (state_of w') ≡ true)
  unfolding is_busy
  to_busy w w' b v s = (
    works s.same_mutex (same_heap-Leaves w w' s.same_share s.same_heap) (λ _. keeps),
    rw s.new_state,
  )
    where
      keeps : IsIndexedIn w'
      keeps b' e =
          let c : b ≡ b' = cc (s.new_state) in
          rw s.same_heap (subst (λ (d : Busy E). IsIndexed w.heap d.slots) c v)

  stays :
      (w w' : World E L) → StaysBusy w w' → Kind X w w' true true × (is_busy (state_of w') ≡ true)
  stays w w' s = (works s.same_mutex s.leaves s.keeps, s.still_busy)

  taking : (w w' : World E L) → acquire w ≡ returns w' → Kind X w w' false true
  taking w w' h = let (r, free, held) = acquire_lem X w w' h in takes r free held

  -- A move takes the lock if it was free, gives it back, or works under it; and what the task then
  -- knows of the state is so.
  pub Move-Effect : {w w' : World E L} {h h' : Handle} → Move E L w h w' h' → Effect w h w' h'
  unfolding GroupGuard.drop ReporterGuard.drop GroupGuard.data_mut ReporterGuard.data_mut
  Move-Effect {w} {w'} (lock_group {g = g} p) = (taking w w' (GroupGuard-lock g w p), tt)
  Move-Effect {w} {w'} (unlock_group {g = g} p) =
      (gives (release_lem w w' (GroupGuard-release_lock g w p)), tt)
  Move-Effect {w} {w'} (drop_group p) = (gives (release_lem w w' p), tt)
  Move-Effect {w} (see_busy {g} {b} p) = (same w, (GroupGuard-get_state g w).0 b p)
  Move-Effect {w} (see_idle {g} {b} p) = (same w, (GroupGuard-get_state g w).1 b p)
  Move-Effect {w} (write_data {g} d) =
      (works refl (record { same_share = refl; exts = λ a x e. e }) (λ v. v), tt)
  Move-Effect {w} (write_state_data {g} f h) =
      let k = GroupGuard-state_data_mut g w f h in (works k.same_mutex k.leaves k.keeps, tt)
  Move-Effect {w} {w'} (stop {g = g} i p) = to_idle w w' i (BusyGroup-swap_state g w i p)
  Move-Effect {w} {w'} (remove {g = g} i p) = stays w w' (BusyGroup-remove_slot g w i p)
  Move-Effect {w} {w'} (write_slots {g = g} heap slots exts indexed p) =
      stays w w' (BusyGroup-slots_mut g w heap slots exts indexed p)
  Move-Effect {w} erase = (same w, tt)
  Move-Effect {w} {w'} (start {g = g} b v p) = to_busy w w' b v (IdleGroup-swap_state g w b p)
  Move-Effect {w} {w'} (start_by {g = g} f v p) =
      let (i, _, s) = IdleGroup-to_busy g w f p in to_busy w w' (f i) (v i) s
  Move-Effect {w} raw_idle = (same w, tt)
  Move-Effect {w} {w'} (lock_reporter {r = r} p) = (taking w w' (ReporterGuard-lock r w p), tt)
  Move-Effect {w} {w'} (unlock_reporter {g = g} p) =
      (gives (release_lem w w' (ReporterGuard-release_lock g w p)), tt)
  Move-Effect {w} {w'} (drop_reporter p) = (gives (release_lem w w' p), tt)
  Move-Effect {w} (reporter_sees_busy {g} {b} p) = (same w, (ReporterGuard-get_state g w).0 b p)
  Move-Effect {w} (reporter_sees_idle {g} {b} p) = (same w, (ReporterGuard-get_state g w).1 b p)
  Move-Effect {w} (write_data_of_reporter {g} d) =
      (works refl (record { same_share = refl; exts = λ a x e. e }) (λ v. v), tt)
  Move-Effect {w} (write_state_data_of_reporter {g} f h) =
      let k = ReporterGuard-state_data_mut g w f h in (works k.same_mutex k.leaves k.keeps, tt)
  Move-Effect {w} {w'} (write_index {g = g} i p indexed) =
      let r = ReporterGuard-my_index_mut g w i p in (works r.same_mutex r.leaves (λ _. indexed), tt)
  Move-Effect {w} {w'} (reporter_stops {g = g} i p) =
      to_idle w w' i (ReporterBusy-swap_state g w i p)
  Move-Effect {w} {w'} (reporter_stops_by {g = g} f p) =
      let (b, _, s) = ReporterBusy-to_idle g w f p in to_idle w w' (f b) s
  Move-Effect {w} {w'} (reporter_removes {g = g} i p) =
      stays w w' (BusyGroup-remove_slot _ w i (sym ((ReporterBusy-as_group g w).0 i) ∙ p))
  Move-Effect {w} {w'} (reporter_writes_slots {g = g} heap slots exts indexed p) = stays w w' (
      BusyGroup-slots_mut _ w heap slots exts indexed
        (sym (ReporterBusy-slots_mut g (record w { heap = heap }) slots) ∙ p))
  Move-Effect {w} raw_reporter_busy = (same w, tt)
  Move-Effect {w} {w'} (reporter_starts {g = g} b v p) =
      to_busy w w' b v (ReporterIdle-swap_state g w b p)
  Move-Effect {w} {w'} (reporter_starts_by {g = g} f v p) =
      let (i, _, s) = ReporterIdle-to_busy g w f p in to_busy w w' (f i) (v i) s
  Move-Effect {w} raw_reporter_idle = (same w, tt)

  pub Hire-effect :
      {w w' : World E L} {r : Reporter} {h : Handle}
      → Hire E L w w' r h
      → (holds_lock h ≡ true) × StaysBusy w w' × (Knows w h → Knows w' h)
  Hire-effect {w} {w'} (by_group {g} ext inlock p) =
      let s = BusyGroup-new_reporter g w ext inlock p in (refl, s, λ _. s.still_busy)
  Hire-effect {w} {w'} (by_reporter {g} ext inlock p) =
      let s =
        BusyGroup-new_reporter _ w ext inlock
          (sym ((ReporterBusy-as_group g w).1 ext inlock) ∙ p) in
      (refl, s, λ _. s.still_busy)
