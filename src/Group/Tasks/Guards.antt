-- ===== src/Group/Tasks/Guards.antt =====
-- What the guards do with the lock of the group, and what they say of its state.
use rs_dtool.Base.{
  sym, ◌∙◌, ◌>>=◌, Exec, true, ◌≡◌, refl, returns, >>=-eq-returns, returns-injective, ap, arith,
}
use rs_dtool.Family.{Lockable}
use rs_dtool.Group.Slots.{GroupExt, Reporter}
use rs_dtool.Group.Shared.{is_idle, acquire, release, State, World, state_of, is_busy}
use rs_dtool.Group.Handles.{
  DownloadGroup, GroupGuard, ReporterGuard, BusyGroup, IdleGroup, ReporterBusy, ReporterIdle,
}
use rs_dtool.Group.GroupGuard
use rs_dtool.Group.ReporterGuard

module _ {E : GroupExt} {L : Lockable} where
  -- Taking the lock and giving it back, by either guard.
  returned :
      {A : Type 0} (m : Exec (World E L)) (f : World E L → A × World E L)
      → ((v : World E L) → (f v).1 ≡ v)
      → {t : A × World E L} → (m >>= λ v. returns (f v)) ≡ returns t
      → m ≡ returns t.1
  returned m f keep h =
      let (v, e, q) = >>=-eq-returns m (λ u. returns (f u)) h in
      e ∙ ap returns (sym (keep v) ∙ ap (λ u. u.1) (returns-injective q))

  pub GroupGuard-lock :
      (g : DownloadGroup) (w : World E L) {g' : GroupGuard} {w' : World E L}
      → GroupGuard.lock g w ≡ returns (g', w')
      → acquire w ≡ returns w'
  unfolding GroupGuard.lock
  GroupGuard-lock g w h = returned (acquire w) _ (λ _. refl) h

  pub ReporterGuard-lock :
      (r : Reporter) (w : World E L) {g : ReporterGuard} {w' : World E L}
      → ReporterGuard.lock r w ≡ returns (g, w')
      → acquire w ≡ returns w'
  unfolding ReporterGuard.lock
  ReporterGuard-lock r w h = returned (acquire w) _ (λ _. refl) h

  pub GroupGuard-release_lock :
      (g : GroupGuard) (w : World E L) {g' : DownloadGroup} {w' : World E L}
      → GroupGuard.release_lock g w ≡ returns (g', w')
      → release w ≡ returns w'
  unfolding GroupGuard.release_lock
  GroupGuard-release_lock g w h = returned (release w) _ (λ _. refl) h

  pub ReporterGuard-release_lock :
      (g : ReporterGuard) (w : World E L) {r : Reporter} {w' : World E L}
      → ReporterGuard.release_lock g w ≡ returns (r, w')
      → release w ≡ returns w'
  unfolding ReporterGuard.release_lock
  ReporterGuard-release_lock g w h = returned (release w) _ (λ _. refl) h

  -- `get_state` tells the truth.
  pub GroupGuard-get_state :
      (g : GroupGuard) (w : World E L)
      → ((b : BusyGroup) → GroupGuard.get_state g w ≡ State.busy b → is_busy (state_of w) ≡ true)
        × ((i : IdleGroup) → GroupGuard.get_state g w ≡ State.idle i → is_idle (state_of w) ≡ true)
  unfolding GroupGuard.get_state is_busy is_idle
  GroupGuard-get_state g w = (λ b h. ground arith, λ i h. ground arith)

  pub ReporterGuard-get_state :
      (g : ReporterGuard) (w : World E L)
      → ((b : ReporterBusy)
          → ReporterGuard.get_state g w ≡ State.busy b
          → is_busy (state_of w) ≡ true)
        × ((i : ReporterIdle)
            → ReporterGuard.get_state g w ≡ State.idle i
            → is_idle (state_of w) ≡ true)
  unfolding ReporterGuard.get_state is_busy is_idle
  ReporterGuard-get_state g w = (λ b h. ground arith, λ i h. ground arith)
