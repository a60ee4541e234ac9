-- ===== src/Transfer/Parallel/Tests.antt =====
-- Examples for tasks that take turns: two segments of a file, the second first.
use rs_dtool.Base.{
  ℕ, zero, suc, ◌+◌, ◌≤◌, ◌<◌, ◌≡◌, List, [], ◌∷◌, some, none, returns, debug, refl, arith,
  get_elem?,
}
use rs_dtool.Error.{ok}
use rs_dtool.Segment.{Segment, SegmentIter, split_by_times, take_next}
use rs_dtool.Transfer.{new, split_chunk, record_writed, write_all}
use rs_dtool.Transfer.Fetch.{round}
use rs_dtool.Transfer.Examples.{
  write_at, setting_at, content, serve, blank, hundred, bytes_at_accepts, bytes_at_laws, served,
  first_within,
}
use rs_dtool.Transfer.Parallel.{Fetcher, System, turn, take_turn, Reach, here, later, total}
use rs_dtool.Transfer.Parallel.Weight.{Reach-total}
use rs_dtool.Transfer.Parallel.Steps.{Outside}
use rs_dtool.Transfer.Parallel.Outcome.{fetcher_of, start_of, Ended, Served, Ended-file}
use rs_dtool.Transfer.Parallel.Split.{Complete, Tiles-Served, split_by_times-Complete}

abbrev pub first : Segment
first = record { start = 7; remain = 2 }

abbrev pub second : Segment
second = record { start = 9; remain = 1 }

abbrev pub both : List Segment
both = first ∷ second ∷ []

pub both_served : Served setting_at debug bytes_at_accepts bytes_at_laws content serve blank both
both_served =
    Tiles-Served setting_at debug bytes_at_accepts bytes_at_laws content serve blank 2 7 10 both
      (omega arith, refl, refl, (omega arith, refl, refl, refl)) (omega arith) (omega arith) served
      first_within

-- A task that has written its segment, before and after it has seen the end of its stream.
abbrev written_task : Segment → Fetcher setting_at
written_task s = record {
  segment = s;
  stream = [];
  process = s.start + s.remain;
  remain = record { remain = 0; cache = 0 };
  result = none;
}

abbrev ended_task : Segment → Fetcher setting_at
ended_task s = record (written_task s) { result = some (ok tt) }

abbrev disk_second : ℕ → ℕ
disk_second = write_at blank 9 (14 ∷ [])

abbrev disk_both : ℕ → ℕ
disk_both = write_at disk_second 7 (12 ∷ 13 ∷ [])

abbrev after_second : System setting_at
after_second = record {
  disk = disk_second;
  fetchers = fetcher_of setting_at debug serve first ∷ written_task second ∷ [];
}

abbrev after_both : System setting_at
after_both = record { disk = disk_both; fetchers = ended_task first ∷ ended_task second ∷ [] }

second_first : Reach setting_at debug (start_of setting_at debug serve blank both) 1 after_second
unfolding turn round split_chunk write_all record_writed new
second_first = later here (take_turn 1 refl refl refl)

both_turns : Reach setting_at debug (start_of setting_at debug serve blank both) 4 after_both
unfolding turn round split_chunk write_all record_writed new
both_turns =
    later (later (later second_first (take_turn 0 refl refl refl)) (take_turn 0 refl refl refl))
      (take_turn 1 refl refl refl)

both-Ended : Ended after_both.fetchers
both-Ended zero f h e = absurd cc
both-Ended (suc zero) f h e = absurd cc
both-Ended (suc (suc i)) f h e = absurd cc

-- Four turns, two of each.
Reach-total_test : 4 + total after_both.fetchers ≤ 4
Reach-total_test =
    Reach-total setting_at debug (start_of setting_at debug serve blank both) both_turns

Ended-file_example :
    ((i : ℕ) (f : Fetcher setting_at)
      → get_elem? after_both.fetchers i ≡ some f
      → f.result ≡ some (ok tt))
    × ((i : ℕ) (s : Segment) (p : ℕ)
        → get_elem? both i ≡ some s
        → s.start ≤ p
        → p < s.start + s.remain
        → after_both.disk p ≡ content p)
    × ((p : ℕ) → Outside both p → after_both.disk p ≡ 0)
unfolding bytes_at_laws
Ended-file_example =
    Ended-file setting_at debug bytes_at_accepts bytes_at_laws content serve blank both both_served
      both_turns both-Ended

split_by_times-Complete_example :
    (iter : SegmentIter) × (last : SegmentIter) × (parts : List Segment) × (split_by_times debug
        hundred 3
      ≡ returns iter)
    × (take_next debug 3 iter ≡ returns (parts, last))
    × (last.remain ≡ none)
    × Complete setting_at debug bytes_at_accepts bytes_at_laws content serve blank parts 7 107
split_by_times-Complete_example =
    split_by_times-Complete setting_at debug bytes_at_accepts bytes_at_laws content serve blank
      hundred 3 (omega arith) (omega arith) (omega arith) (omega arith) (omega arith) served
      first_within
