-- ===== src/Transfer/Whole.antt =====
-- A segment of a file, split and fetched: `split_by_times` of Dtool_impl/src/downloader/segment.rs with a task
-- of Dtool_impl/src/downloader/subcontext.rs for each part. The code's own driver is not written (`run` of
-- `CanResume` is a `todo!()`); here the tasks run one after the other, and each has called `flash_cache`
-- first, as a driver may; Transfer/Parallel has tasks that have not.
use mathlib.Core.List.{flatten}
use native.Mathlib.Decide.{dec_lt}
use rs_dtool.Base.{
  ℕ, ◌+◌, ◌-◌, ◌^◌, ◌≤◌, ◌<◌, ◌≡◌, ◌⊎◌, inl, subst, List, [], ◌∷◌, map, some, none, returns, Exec,
  ◌>>=◌, >>=-returns, Build, u64_mod, get_elem?, arith, ◌∙◌, refl,
}
use rs_dtool.Error.{Result, ok, err, SubError}
use rs_dtool.Segment.{new_iter, Segment, SegmentIter, split_by_times, take_next}
use rs_dtool.Segment.Tiles.{Tiles}
use rs_dtool.Segment.Times.{step_of, split_by_times-Tiles}
use rs_dtool.Transfer.{Bytes, RemainWriter, new, flash_cache}
use rs_dtool.Transfer.Fetch.{Context, fetch_stream}
use rs_dtool.Transfer.Clip.{Accepts}
use rs_dtool.Transfer.File.{FileLaws, fetch_stream-file}

module _ (C : Context) (b : Build) (streams : Segment → List Bytes) where
  -- The task of one segment, with its cache read from the counter.
  abbrev pub task_of_segment : C.W.Disk → Segment → RemainWriter C.W
  task_of_segment disk s = record {
    writer = record { disk = disk; process = s.start };
    remain = flash_cache (new s.remain);
  }

  -- The tasks of the segments, one after the other, until one ends with an error.
  unfoldable pub fetch_segments :
      C.W.Disk → List Segment → Exec (Result (Unit {0}) (SubError C.S C.W.Error) × C.W.Disk)
  fetch_segments disk [] = returns (ok tt, disk)
  fetch_segments disk (s ∷ ss) = do
    (r, t) ← fetch_stream C b (task_of_segment disk s) (map ok (streams s))
    elim r [ ok _ ↦ fetch_segments t.writer.disk ss | err e ↦ returns (err e, t.writer.disk) ]

module _ (C : Context) (b : Build) (accepts : Accepts C.W) (laws : FileLaws C.W)
    (file : ℕ → ℕ) where
  -- What the tasks of the segments from `a` to `e` leave.
  pub record Fetched (streams : Segment → List Bytes) (disk : C.W.Disk) (a e : ℕ)
      (ss : List Segment) : Type 0 where
    pub disk' : C.W.Disk
    pub ran : fetch_segments C b streams disk ss ≡ returns (ok tt, disk')
    pub holds : (p : ℕ) → a ≤ p → p < e → laws.read disk' p ≡ file p
    pub kept : (p : ℕ) → (p < a) ⊎ (e ≤ p) → laws.read disk' p ≡ laws.read disk p

  Fetched-Tiles :
      (streams : Segment → List Bytes) (disk : C.W.Disk) (step a e : ℕ) (ss : List Segment)
      → Tiles step a e ss
      → a ≤ e
      → e < u64_mod
      → e < a + 2 ^ 63
      → ((s : Segment) (i : ℕ)
          → i < s.remain
          → get_elem? (flatten (streams s)) i ≡ some (file (s.start + i)))
      → Fetched streams disk a e ss
  unfolding fetch_segments new
  Fetched-Tiles streams disk step a e [] tiles le fits small serves = record {
    disk' = disk;
    ran = refl;
    holds = λ p low high. absurd (omega arith);
    kept = λ p out. refl;
  }
  Fetched-Tiles streams disk step a e (s ∷ ss) tiles le fits small serves =
      let (lt, at, len, more) = tiles in
      let (disk1, ran1, holds1, kept1) =
        fetch_stream-file C b accepts laws file disk s.start s.remain (streams s) (omega arith)
          (omega arith) (λ i h. serves s i h) in
      let f : Fetched streams disk1 (a + s.remain) e ss =
        Fetched-Tiles streams disk1 step (a + s.remain) e ss more (omega arith) fits (omega arith)
          serves in
      record {
        disk' = f.disk';
        ran = >>=-returns _ ran1 ∙ f.ran;
        holds = λ p low high. elim (dec_lt p (a + s.remain)) [
          | yes below ↦
              let e' : s.start + (p - a) ≡ p = omega arith in
              f.kept p (inl below)
              ∙ subst (λ q. laws.read disk1 q ≡ file q) e' (holds1 (p - a) (omega arith))
          | no above ↦ f.holds p (omega arith) high
        ];
        kept = λ p out.
            let out' : (p < a + s.remain) ⊎ (e ≤ p) = ground arith in
            let out1 : (p < s.start) ⊎ (s.start + s.remain ≤ p) = ground arith in
            f.kept p out' ∙ kept1 p out1;
      }

  -- A segment is split into parts for a number of tasks, which then run one after the other, each on
  -- its part, whose stream begins with the part's bytes of a file: `split_by_times`, the iterator and
  -- every task return with no error, the iterator is exhausted after as many parts at most, and the
  -- segment's positions hold the bytes of the file, every other position what it held. Each task has
  -- called `flash_cache` first. The writer
  -- takes every write, into a file; the segment is not empty, its length is an `i64`, and its end and
  -- the sum of its length and the number are `u64`s.
  pub split_by_times-fetch_segments :
      (streams : Segment → List Bytes) (disk : C.W.Disk) (s : Segment) (times : ℕ)
      → 0 < times
      → 0 < s.remain
      → s.remain < 2 ^ 63
      → s.start + s.remain < u64_mod
      → s.remain + times < u64_mod
      → ((p : Segment) (i : ℕ)
          → i < p.remain
          → get_elem? (flatten (streams p)) i ≡ some (file (p.start + i)))
      → (iter : SegmentIter) × (last : SegmentIter) × (parts : List Segment) × (disk' : C.W.Disk)
        × (split_by_times b s times ≡ returns iter)
        × (take_next b times iter ≡ returns (parts, last))
        × (last.remain ≡ none)
        × (fetch_segments C b streams disk parts ≡ returns (ok tt, disk'))
        × ((p : ℕ) → s.start ≤ p → p < s.start + s.remain → laws.read disk' p ≡ file p)
        × ((p : ℕ)
            → (p < s.start) ⊎ (s.start + s.remain ≤ p)
            → laws.read disk' p ≡ laws.read disk p)
  split_by_times-fetch_segments streams disk s times pos some_left small ends fits serves =
      let (split, t) = split_by_times-Tiles b s times pos some_left ends fits in
      let f : Fetched streams disk s.start (s.start + s.remain) t.items =
        Fetched-Tiles streams disk (step_of s times) s.start (s.start + s.remain) t.items t.tiles
          (omega arith) ends (omega arith) serves in
      (
        new_iter s.start (some s.remain) (step_of s times),
        t.last,
        t.items,
        f.disk',
        split,
        t.ran,
        t.done,
        f.ran,
        f.holds,
        f.kept,
      )
