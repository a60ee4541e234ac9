-- ===== src/Strategy/Suggest.antt =====
-- The suggestion of `Auto` of Dtool_impl/src/downloader/strategy.rs, as more is downloaded.
use rs_dtool.Base.{
  ℕ, ◌+◌, ◌≤◌, ◌<◌, ◌≡◌, true, ap, sym, List, returns, returns-injective, Build, u64_mod, arith,
  ◌∙◌,
}
use rs_dtool.Strategy.{Float, Auto, report_task_count, how_to_name_this, create_task_suggest}
use rs_dtool.Strategy.Counts.{sum, report_each, report_each-sum}

-- What IEEE 754 documents of `f32`, whose operations round: `Le` is `<=`, which no NaN meets, and a
-- `Positive` number is above 0 and finite.
pub record Monotone (N : Float) : Type 1 where
  pub Le : N.F32 → N.F32 → Type 0
  pub Positive : N.F32 → Type 0
  pub from_u64-Le : (m n : ℕ) → m ≤ n → Le (N.from_u64 m) (N.from_u64 n)
  pub from_u64-Positive : (n : ℕ) → 0 < n → n < u64_mod → Positive (N.from_u64 n)
  pub div-Le : (x y z : N.F32) → Positive z → Le x y → Le (N.div x z) (N.div y z)
  pub mul-Le : (x y z : N.F32) → Positive z → Le x y → Le (N.mul x z) (N.mul y z)
  pub gt-Le : (x y z : N.F32) → Le x y → N.gt x z ≡ true → N.gt y z ≡ true

module _ (N : Float) (M : Monotone N) where
  suggests_more :
      (self : Auto N) (now : N.Instant) (total : ℕ)
      → 0 < self.last_task_count
      → self.last_task_count < u64_mod
      → M.Positive (N.since now self.last_start)
      → self.last_downloaded ≤ total
      → create_task_suggest N self now ≡ true
      → create_task_suggest N (record self { last_downloaded = total }) now ≡ true
  unfolding create_task_suggest how_to_name_this
  suggests_more self now total some_task fits passed more suggested =
      let second = N.since now self.last_start in
      M.gt-Le _ _ _
        (M.mul-Le _ _ second passed (
          M.div-Le _ _ (N.from_u64 self.last_task_count)
            (M.from_u64-Positive self.last_task_count some_task fits)
            (M.div-Le _ _ second passed (M.from_u64-Le self.last_downloaded total more))))
        suggested

  -- Once `create_task_suggest` says that a task is worth adding, at some instant after a change of the
  -- number of tasks, it says so at that instant however many chunks more are reported. There is a
  -- task, time has passed, what is reported is together a `u64`, and `f32` is as documented.
  pub create_task_suggest-report_each :
      (b : Build) (self before : Auto N) (tasks : ℕ) (start now : N.Instant) (ns more : List ℕ)
      → 0 < tasks
      → tasks < u64_mod
      → M.Positive (N.since now start)
      → sum ns + sum more < u64_mod
      → report_each N b (report_task_count N self tasks start) ns ≡ returns before
      → create_task_suggest N before now ≡ true
      → (after : Auto N) × (report_each N b before more ≡ returns after)
        × (create_task_suggest N after now ≡ true)
  unfolding report_task_count
  create_task_suggest-report_each b self before tasks start now ns more some_task small passed fits
        reported suggested =
      let counted : Auto N = record (report_task_count N self tasks start) {
        last_downloaded = sum ns;
      } in
      let same : counted ≡ before = returns-injective (
        sym (
          report_each-sum N b (report_task_count N self tasks start) ns (sum ns) (omega arith)
            (omega arith))
        ∙ reported) in
      (
        record counted { last_downloaded = sum ns + sum more },
        sym (ap (λ s. report_each N b s more) same)
            ∙ report_each-sum N b counted more (sum ns + sum more) (omega arith) fits,
        suggests_more counted now (sum ns + sum more) some_task small passed (omega arith)
            (ap (λ s. create_task_suggest N s now) same ∙ suggested),
      )
