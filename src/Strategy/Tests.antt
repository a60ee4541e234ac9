-- ===== src/Strategy/Tests.antt =====
-- Examples for Dtool_impl/src/downloader/strategy.rs: numbers without a fraction, and instants in seconds.
use rs_dtool.Base.{ℕ, ◌+◌, ◌*◌, ◌/◌, ◌-◌, ◌≡◌, true, refl, arith, [], ◌∷◌, returns, debug, ltb}
use rs_dtool.Strategy.{Float, Auto, report_progress, report_task_count, create_task_suggest}
use rs_dtool.Strategy.Counts.{report_each, report_task_count-report_each}
use rs_dtool.Strategy.Suggest.{Monotone, create_task_suggest-report_each}
use native.Mathlib.Nat.{le-div_iff_mul-le, div-mul-le_self, mul-le-mul_right}
use rs_dtool.Base.{ℕ, ◌≤◌, ◌<◌}

abbrev whole : Float
whole = record {
  F32 = ℕ;
  Instant = ℕ;
  one = 1;
  add = λ x y. x + y;
  mul = λ x y. x * y;
  div = λ x y. x / y;
  gt = λ x y. ltb y x;
  from_u64 = λ n. n;
  since = λ later earlier. later - earlier;
}

abbrev idle_auto : Auto whole
idle_auto = record {
  thr = 1;
  ace = 2;
  min_task_count = 1;
  scaling = 10;
  scaling_arce = 0;
  prev_task_count = 0;
  prev_downloaded = 0;
  prev_arce = 0;
  last_start = 0;
  last_downloaded = 0;
  last_task_count = 0;
}

-- 400 bytes in 10 seconds by two tasks.
abbrev downloaded : Auto whole
downloaded = record idle_auto { last_downloaded = 400; last_task_count = 2 }

suggests_task : create_task_suggest whole downloaded 10 ≡ true
unfolding create_task_suggest
suggests_task = refl

report_task_count-report_each_test :
    (self' : Auto whole) × (report_each whole debug
        (report_task_count whole idle_auto 2 5)
        (30 ∷ 12 ∷ [])
      ≡ returns self')
    × ((report_task_count whole self' 3 9).prev_downloaded ≡ 42)
    × ((report_task_count whole self' 3 9).prev_task_count ≡ 2)
    × ((report_task_count whole self' 3 9).last_task_count ≡ 3)
    × ((report_task_count whole self' 3 9).last_downloaded ≡ 0)
    × ((report_task_count whole self' 3 9).prev_arce ≡ 1 / 4)
report_task_count-report_each_test =
    report_task_count-report_each whole debug idle_auto 2 3 5 9 (30 ∷ 12 ∷ []) (omega arith)

whole_div-Le : (x y z : ℕ) → 0 < z → x ≤ y → x / z ≤ y / z
whole_div-Le x y z above less = (le-div_iff_mul-le above).1 (omega (arith, div-mul-le_self x z))

whole_mul-Le : (x y z : ℕ) → 0 < z → x ≤ y → x * z ≤ y * z
whole_mul-Le x y z above less = mul-le-mul_right z less

whole_gt-Le : (x y z : ℕ) → x ≤ y → ltb z x ≡ true → ltb z y ≡ true
whole_gt-Le x y z less above = ground arith

abbrev whole_Monotone : Monotone whole
whole_Monotone = record {
  Le = λ x y. x ≤ y;
  Positive = λ x. 0 < x;
  from_u64-Le = λ m n less. less;
  from_u64-Positive = λ n above small. above;
  div-Le = whole_div-Le;
  mul-Le = whole_mul-Le;
  gt-Le = whole_gt-Le;
}

-- 400 bytes in two reports, and then 50 more; the number of tasks became 2 at the start.
create_task_suggest-report_each_example :
    (after : Auto whole) × (report_each whole debug downloaded (50 ∷ []) ≡ returns after)
    × (create_task_suggest whole after 10 ≡ true)
unfolding create_task_suggest report_task_count report_each report_progress
create_task_suggest-report_each_example =
    create_task_suggest-report_each whole whole_Monotone debug idle_auto downloaded 2 0 10
      (300 ∷ 100 ∷ []) (50 ∷ []) (omega arith) (omega arith) (omega arith) (omega arith) refl refl
