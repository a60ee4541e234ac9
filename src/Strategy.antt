-- ===== src/Strategy.antt =====
-- Dtool_impl/src/downloader/strategy.rs: `Auto`, which suggests a new task from what has been downloaded since the
-- number of tasks last changed. `f32`, `Instant` and `Duration` are parameters. `Auto::new` has no
-- value for most of the fields, and a second `fn` in its block has no name; neither is here.
mod Counts
mod Suggest
mod Tests
use rs_dtool.Base.{ℕ, Bool, Exec, returns, ◌>>=◌, Build, add_u64}

-- `from_u64` is `as f32`, and `since` the difference of two instants, in seconds as an `f32`.
pub record Float : Type 1 where
  pub F32 : Type 0
  pub Instant : Type 0
  pub one : F32
  pub add : F32 → F32 → F32
  pub mul : F32 → F32 → F32
  pub div : F32 → F32 → F32
  pub gt : F32 → F32 → Bool
  pub from_u64 : ℕ → F32
  pub since : Instant → Instant → F32

-- The trait, of a `Self` that the methods change; `Span` is `Duration`.
pub record Strategy (N : Float) (Span Self : Type 0) : Type 0 where
  pub report_progress : Build → Self → ℕ → Exec Self
  pub report_task_count : Self → ℕ → N.Instant → Self
  pub create_task_suggest : Self → N.Instant → (Bool × Span) × Self

module _ (N : Float) where
  pub record Auto : Type 0 where
    pub thr : N.F32
    pub ace : N.F32
    pub min_task_count : ℕ
    pub scaling : N.F32
    pub scaling_arce : N.F32
    pub prev_task_count : ℕ
    pub prev_downloaded : ℕ
    pub prev_arce : N.F32
    pub last_start : N.Instant
    pub last_downloaded : ℕ
    pub last_task_count : ℕ

  unfoldable pub report_progress : Build → Auto → ℕ → Exec Auto
  report_progress b self chunk_len = do
    last_downloaded ← add_u64 b self.last_downloaded chunk_len
    returns (record self { last_downloaded = last_downloaded })

  -- The last test of the function has an empty body.
  unfoldable pub report_task_count : Auto → ℕ → N.Instant → Auto
  report_task_count self task_count now = record self {
    prev_task_count = self.last_task_count;
    last_task_count = task_count;
    prev_downloaded = self.last_downloaded;
    last_downloaded = 0;
    prev_arce = N.div N.one (N.since now self.last_start);
    last_start = now;
  }

  unfoldable pub how_to_name_this : N.F32 → N.F32 → N.F32 → N.F32 → N.F32 → Bool
  how_to_name_this scaling last_speed_per_new_thread thold ace second =
      N.gt (N.mul last_speed_per_new_thread second)
        (N.add (N.mul (N.mul thold second) scaling) (N.mul ace scaling))

  -- The Boolean that the impl gives; the trait asks for a `Duration` beside it.
  unfoldable pub create_task_suggest : Auto → N.Instant → Bool
  unfolding how_to_name_this
  create_task_suggest self now =
      let second = N.since now self.last_start in
      let last_speed_per_new_thread =
        N.div (N.div (N.from_u64 self.last_downloaded) second) (N.from_u64 self.last_task_count) in
      how_to_name_this self.scaling last_speed_per_new_thread self.thr self.ace second
