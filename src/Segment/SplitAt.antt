-- ===== src/Segment/SplitAt.antt =====
-- `Segment::split_at` of Dtool_impl/src/downloader/segment.rs.
use native.Mathlib.Decide.{dec_lt}
use rs_dtool.Base.{ℕ, ◌+◌, ◌<◌, ◌≡◌, panics, Build, u64_mod, arith}
use rs_dtool.Segment.{Segment, split_at, split_by_step}
use rs_dtool.Segment.Tiles.{next_middle, next_last}

-- `split_at` panics on every segment, however long the first part is to be: the rest of the iterator
-- goes through a conversion that is not written. The end of the segment is to be a `u64`.
pub split_at-panics :
    (b : Build) (s : Segment) (first_remain : ℕ)
    → 0 < first_remain
    → s.start + s.remain < u64_mod
    → split_at b s first_remain ≡ panics
unfolding split_at split_by_step
split_at-panics b s first_remain pos ends = elim (dec_lt first_remain s.remain) [
  | yes lt ↦ rw (next_middle b s.start s.remain first_remain pos lt ends)
  | no ge ↦ rw (next_last b s.start s.remain first_remain (omega arith))
]
