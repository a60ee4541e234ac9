-- ===== src/Segment/Times.antt =====
-- `Segment::split_by_times` of Dtool_impl/src/downloader/segment.rs.
use native.Mathlib.Nat.{div-add-mod, div-eq_of_lt, div-eq-sub-div}
use rs_dtool.Base.{
  ℕ, ◌+◌, ◌*◌, ◌/◌, ◌%◌, ◌≤◌, ◌<◌, ◌≡◌, refl, some, returns, panics, Build, debug, release, u64_mod,
  add_u64_lem, non_zero_lem, arith,
}
use rs_dtool.Segment.{Segment, new_iter, split_by_times}
use rs_dtool.Segment.Tiles.{Taken, Taken-steps}

-- The step is the quotient rounded up past itself, so that `times` steps reach over the range.
abbrev pub step_of : Segment → ℕ → ℕ
step_of s times = (s.remain + times) / times

step_of_pos : (s : Segment) (times : ℕ) → 0 < times → 0 < step_of s times
step_of_pos s times pos =
    rw (div-eq-sub-div {m = times} {n = s.remain + times} pos (omega arith)) (omega arith)

step_of_reaches : (s : Segment) (times : ℕ) → 0 < times → s.remain ≤ times * step_of s times
step_of_reaches s times pos = grind (arith, div-add-mod (s.remain + times) times)

split_by_times-returns :
    (b : Build) (s : Segment) (times : ℕ)
    → 0 < times
    → s.remain + times < u64_mod
    → split_by_times b s times ≡ returns (new_iter s.start (some s.remain) (step_of s times))
unfolding split_by_times
split_by_times-returns b s times pos fits =
    rw (add_u64_lem b s.remain times fits, non_zero_lem _ (step_of_pos s times pos))

-- `split_by_times` returns in either build, and the iterator gives at most `times` segments, which
-- tile the range and exhaust it; the division neither overflows nor meets a zero step, if the end
-- of the range and `remain + times` are `u64`s.
pub split_by_times-Tiles :
    (b : Build) (s : Segment) (times : ℕ)
    → 0 < times
    → 0 < s.remain
    → s.start + s.remain < u64_mod
    → s.remain + times < u64_mod
    → (split_by_times b s times ≡ returns (new_iter s.start (some s.remain) (step_of s times)))
      × Taken b times s.start s.remain (step_of s times) (s.start + s.remain)
split_by_times-Tiles b s times pos some_left ends fits = (
  split_by_times-returns b s times pos fits,
  Taken-steps b times s.start s.remain (step_of s times) (s.start + s.remain)
      (step_of_pos s times pos) some_left (step_of_reaches s times pos) refl ends,
)

-- Where `remain + times` is no `u64`, the call panics in both builds: in `debug` by the overflow
-- check, in `release` because the sum wraps below `times`, so that the step is 0.
pub split_by_times_overflow :
    (b : Build) (s : Segment) (times : ℕ)
    → s.remain < u64_mod
    → times < u64_mod
    → u64_mod ≤ s.remain + times
    → split_by_times b s times ≡ panics
unfolding split_by_times
split_by_times_overflow debug s times small few over = ground arith
split_by_times_overflow release s times small few over =
    let wraps : (s.remain + times) % u64_mod < times = omega arith in rw (div-eq_of_lt wraps)
