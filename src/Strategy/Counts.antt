-- ===== src/Strategy/Counts.antt =====
-- What `Auto` of Dtool_impl/src/downloader/strategy.rs counts between two changes of the number of tasks.
use rs_dtool.Base.{
  ℕ, ◌+◌, ◌<◌, ◌≡◌, ap, refl, List, [], ◌∷◌, Exec, returns, ◌>>=◌, >>=-returns, Build, u64_mod,
  add_u64_lem, arith, ◌∙◌,
}
use rs_dtool.Strategy.{Float, Auto, report_progress, report_task_count}

abbrev pub sum : List ℕ → ℕ
sum [] = 0
sum (n ∷ ns) = n + sum ns

module _ (N : Float) (b : Build) where
  -- A report for each chunk.
  unfoldable pub report_each : Auto N → List ℕ → Exec (Auto N)
  report_each self [] = returns self
  report_each self (n ∷ ns) = do self' ← report_progress N b self n; report_each self' ns

  pub report_each-sum :
      (self : Auto N) (ns : List ℕ) (total : ℕ)
      → self.last_downloaded + sum ns ≡ total
      → total < u64_mod
      → report_each self ns ≡ returns (record self { last_downloaded = total })
  unfolding report_each report_progress
  report_each-sum self [] total e fits =
      let e' : self.last_downloaded ≡ total = omega arith in
      ap (λ t. returns (record self { last_downloaded = t })) e'
  report_each-sum self (n ∷ ns) total e fits =
      >>=-returns _ (>>=-returns _ (add_u64_lem b self.last_downloaded n (omega arith)))
      ∙ report_each-sum (record self { last_downloaded = self.last_downloaded + n }) ns total
          (omega arith) fits

  -- From one change of the number of tasks to the next, the chunks that are reported are counted: at
  -- the second change their sum is what had been downloaded with the first number of tasks, the
  -- count begins again at 0, and the numbers are the two. The sum is a `u64`.
  pub report_task_count-report_each :
      (self : Auto N) (first second : ℕ) (at later : N.Instant) (ns : List ℕ)
      → sum ns < u64_mod
      → (self' : Auto N) × (report_each (report_task_count N self first at) ns ≡ returns self')
        × ((report_task_count N self' second later).prev_downloaded ≡ sum ns)
        × ((report_task_count N self' second later).prev_task_count ≡ first)
        × ((report_task_count N self' second later).last_task_count ≡ second)
        × ((report_task_count N self' second later).last_downloaded ≡ 0)
        × ((report_task_count N self' second later).prev_arce ≡ N.div N.one (N.since later at))
  unfolding report_task_count
  report_task_count-report_each self first second at later ns fits = (
    record (report_task_count N self first at) { last_downloaded = sum ns },
    report_each-sum (report_task_count N self first at) ns (sum ns) (omega arith) fits,
    refl,
    refl,
    refl,
    refl,
    refl,
  )
