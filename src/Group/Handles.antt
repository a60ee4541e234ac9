-- ===== src/Group/Handles.antt =====
-- Dtool_impl/src/downloader/download_group.rs: what a task holds of a group. Each handle carries the
-- address of the group, and that of a reporter the address of its slot's cell too.
use rs_dtool.Base.{ℕ}
use rs_dtool.Group.Shared.{State}

pub record DownloadGroup : Type 0 where
  pub group : ℕ

-- A `GroupGuard` or a `ReporterGuard` stands for the lock.
pub record GroupGuard : Type 0 where
  pub group : ℕ

pub record ReporterGuard : Type 0 where
  pub slot : ℕ
  pub group : ℕ

-- The guards of a task that knows the state.
pub record BusyGroup : Type 0 where
  pub guard : GroupGuard

pub record IdleGroup : Type 0 where
  pub guard : GroupGuard

pub record ReporterBusy : Type 0 where
  pub guard : ReporterGuard

pub record ReporterIdle : Type 0 where
  pub guard : ReporterGuard

abbrev pub GroupGuardState : Type 0
GroupGuardState = State BusyGroup IdleGroup

abbrev pub ReporterGuardState : Type 0
ReporterGuardState = State ReporterBusy ReporterIdle
