-- ===== src/Segment/Tests.antt =====
-- Segments at concrete ranges.
use rs_dtool.Base.{
  ◌≤◌, ◌≤◌, length, List, ◌-◌, ◌≡◌, refl, some, none, [], ◌∷◌, returns, panics, debug, release,
  u64_mod, arith,
}
use rs_dtool.Segment.{
  split_by_step, SegmentIter, Segment, full, end, new_iter, split_by_times, split_at, take_next,
  next,
}
use rs_dtool.Segment.Tiles.{Taken, Tiles, take_next-split_by_step}
use rs_dtool.Segment.Times.{split_by_times-Tiles, split_by_times_overflow}
use rs_dtool.Segment.SplitAt.{split_at-panics}

abbrev ten : Segment
ten = record { start = 100; remain = 10 }

ten_by_four :
    take_next release 3 (new_iter 100 (some 10) 4)
    ≡ returns (
      record { start = 100; remain = 4 }
          ∷ record { start = 104; remain = 4 }
          ∷ record { start = 108; remain = 2 }
          ∷ [],
      record { step = 4; remain = none; start = 108 },
    )
unfolding take_next next new_iter
ten_by_four = refl

take_next-split_by_step_example :
    (parts : List Segment) × (last : SegmentIter) × (take_next debug 3
        (split_by_step (record { start = 100; remain = 10 }) 4)
      ≡ returns (parts, last))
    × (last.remain ≡ none)
    × (length parts ≤ 3)
    × Tiles 4 100 110 parts
take_next-split_by_step_example =
    take_next-split_by_step debug 3 (record { start = 100; remain = 10 }) 4 (omega arith)
      (omega arith) (omega arith) (omega arith)

split_by_times-Tiles_example :
    (split_by_times debug ten 3 ≡ returns (new_iter 100 (some 10) 4)) × Taken debug 3 100 10 4 110
split_by_times-Tiles_example =
    split_by_times-Tiles debug ten 3 (omega arith) (omega arith) (omega arith) (omega arith)

abbrev huge : Segment
huge = record { start = 0; remain = u64_mod - 1 }

split_by_times_overflow_example : split_by_times release huge 8 ≡ panics
split_by_times_overflow_example =
    split_by_times_overflow release huge 8 (omega arith) (omega arith) (omega arith)

split_at-panics_test : split_at debug ten 4 ≡ panics
split_at-panics_test = split_at-panics debug ten 4 (omega arith) (omega arith)

end_of_full : end debug (full 7) ≡ returns 7
unfolding end full
end_of_full = refl
