-- ===== src/Segment.antt =====
-- Dtool_impl/src/downloader/segment.rs: byte ranges and their division. `u64` and `NonZeroU64` are
-- numbers; that they are below 2 ^ 64, and not 0, is said where it is needed.
pub mod Tiles
pub mod Times
mod Resume
mod SplitAt
mod Tests
use rs_dtool.Base.{
  ℕ, zero, suc, ◌/◌, Option, none, some, List, [], ◌∷◌, Exec, returns, panics, ◌>>=◌, Build,
  add_u64, sub_u64, non_zero, unwrap, ltb, if◌then◌else◌,
}

pub record Segment : Type 0 where
  pub start : ℕ
  pub remain : ℕ

pub record SegmentIter : Type 0 where
  pub step : ℕ
  pub remain : Option ℕ
  pub start : ℕ

-- `Segment::new`
pub new : ℕ → ℕ → Segment
new start remain = record { start = start; remain = remain }

pub full : ℕ → Segment
unfolding new
full size = new 0 size

pub end : Build → Segment → Exec ℕ
end b s = add_u64 b s.start s.remain

-- `SegmentIter::new`
pub new_iter : ℕ → Option ℕ → ℕ → SegmentIter
new_iter start remain step = record { step = step; remain = remain; start = start }

pub split_by_step : Segment → ℕ → SegmentIter
unfolding new_iter
split_by_step s step = new_iter s.start (some s.remain) step

-- The quotient becomes a `NonZeroU64` by `try_into().unwrap()`.
pub split_by_times : Build → Segment → ℕ → Exec SegmentIter
unfolding split_by_step
split_by_times b s times = do
  fix_remain ← add_u64 b s.remain times
  step ← unwrap (non_zero (fix_remain / times))
  returns (split_by_step s step)

-- `Iterator::next`: the item, and the iterator that it leaves.
pub next : Build → SegmentIter → Exec (Option Segment × SegmentIter)
unfolding new
next b it = elim it.remain [
  | none ↦ returns (none, it)
  | some remain ↦
      if ltb it.step remain
      then (do
        rest ← sub_u64 b remain it.step
        start ← add_u64 b it.start it.step
        returns (some (new it.start it.step), record it { remain = non_zero rest; start = start }))
      else returns (some (new it.start remain), record it { remain = none })
]

-- `todo!()`
pub try_from : SegmentIter → Exec (Option Segment)
try_from it = panics

-- `(iter.next().unwrap(), iter.try_into().ok())`
pub split_at : Build → Segment → ℕ → Exec (Segment × Option Segment)
unfolding next split_by_step try_from
split_at b s first_remain = do
  (item, iter) ← next b (split_by_step s first_remain)
  first ← unwrap item
  second ← try_from iter
  returns (first, second)

-- `iter.take(n)`: the items of the first `n` calls of `next`, and the iterator after them.
pub take_next : Build → ℕ → SegmentIter → Exec (List Segment × SegmentIter)
take_next b zero it = returns ([], it)
take_next b (suc n) it = do
  (item, it') ← next b it
  elim item [
    | none ↦ returns ([], it')
    | some s ↦ do (rest, last) ← take_next b n it'; returns (s ∷ rest, last)
  ]
