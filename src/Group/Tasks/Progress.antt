-- ===== src/Group/Tasks/Progress.antt =====
-- The tasks of a group of Dtool_impl/src/downloader/download_group.rs that ask for the lock, and the way
-- by which its holder gives it back.
use rs_dtool.Base.{ℕ, ◌≡◌, ◌≢◌, ◌⊎◌, returns}
use rs_dtool.Family.{Lockable, Excludes}
use rs_dtool.Group.Slots.{GroupExt, Reporter}
use rs_dtool.Group.Shared.{World, acquire, release}
use rs_dtool.Group.Handles.{DownloadGroup, GroupGuard, ReporterGuard}
use rs_dtool.Group.GroupGuard
use rs_dtool.Group.ReporterGuard
use rs_dtool.Group.Tasks.{
  Handle, group, reporter, group_guard, reporter_guard, System, update, Reach,
}

-- A lock that lets a task in when it is free, and that its holder can release.
pub record LetsIn {L : Lockable} (X : Excludes L) : Type 0 where
  pub acquires : (l : L.Lock) → ¬ X.Held l → (l' : L.Lock) × (L.acquire l ≡ returns l')
  pub releases : (l : L.Lock) → X.Held l → (l' : L.Lock) × (L.release l ≡ returns l')

-- A task that asks for the lock.
abbrev pub AsksForLock : Handle → Type 0
AsksForLock h = ((g : DownloadGroup) × (h ≡ group g)) ⊎ ((r : Reporter) × (h ≡ reporter r))

abbrev IsGuard : Handle → Type 0
IsGuard h =
    ((g : GroupGuard) × (h ≡ group_guard g)) ⊎ ((g : ReporterGuard) × (h ≡ reporter_guard g))

module _ {E : GroupExt} {L : Lockable} where
  abbrev after : System E L → ℕ → World E L → Handle → System E L
  after t i w h = record { world = w; pc = update t.pc i h }

  -- The holder `i` has its guard, and no other task nor the memory has changed.
  record Lowered (s t : System E L) (i : ℕ) : Type 0 where
    to : System E L
    reach : Reach E L s to
    same : to.world ≡ t.world
    guard : IsGuard (to.pc i)
    others : (k : ℕ) → i ≢ k → to.pc k ≡ t.pc k

  -- The lock is free, and no task but the one that held it has changed.
  record Freed (X : Excludes L) (s t : System E L) (i : ℕ) : Type 0 where
    to : System E L
    reach : Reach E L s to
    free : ¬ X.Held to.world.shared.mutex
    others : (k : ℕ) → i ≢ k → to.pc k ≡ t.pc k
