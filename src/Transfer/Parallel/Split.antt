-- ===== src/Transfer/Parallel/Split.antt =====
-- A segment of a file, split by `split_by_times` of Dtool_impl/src/downloader/segment.rs, with a task of
-- Dtool_impl/src/downloader/subcontext.rs for each part; the tasks take turns in any order.
use native.Mathlib.Decide.{dec_lt}
use mathlib.Core.Option.{some-injective}
use mathlib.Core.List.{flatten}
use rs_dtool.Base.{
  ℕ, zero, suc, ◌+◌, ◌^◌, ◌≤◌, ◌<◌, ◌≡◌, ◌⊎◌, inl, inr, ap, List, [], ◌∷◌, some, none, returns,
  Build, u64_mod, get_elem?, arith, refl,
}
use rs_dtool.Segment.{new_iter, Segment, SegmentIter, split_by_times, take_next}
use rs_dtool.Segment.Tiles.{Tiles}
use rs_dtool.Segment.Times.{step_of, split_by_times-Tiles}
use rs_dtool.Transfer.{Bytes}
use rs_dtool.Transfer.Fetch.{Context}
use rs_dtool.Transfer.Clip.{Accepts}
use rs_dtool.Transfer.File.{FileLaws}
use rs_dtool.Transfer.Parallel.{System, Reach}
use rs_dtool.Transfer.Parallel.Invariant.{FirstWithin}
use rs_dtool.Transfer.Parallel.Steps.{Disjoint}
use rs_dtool.Transfer.Parallel.Outcome.{Ended, start_of, Served, Ended-file, Reach-Ended}

Tiles-within :
    (step a e : ℕ) (ss : List Segment) (i : ℕ) (s : Segment)
    → Tiles step a e ss
    → get_elem? ss i ≡ some s
    → (a ≤ s.start) × (s.start + s.remain ≤ e)
Tiles-within step a e [] i s tiles at = absurd cc
Tiles-within step a e (p ∷ ps) zero s (lt, from, len, more) at =
    let e1 : p.start ≡ s.start = ap (λ q. q.start) (some-injective p s at) in
    let e2 : p.remain ≡ s.remain = ap (λ q. q.remain) (some-injective p s at) in
    (omega arith, omega arith)
Tiles-within step a e (p ∷ ps) (suc i) s (lt, from, len, more) at =
    let (low, high) = Tiles-within step (a + p.remain) e ps i s more at in (omega arith, high)

Tiles-Disjoint : (step a e : ℕ) (ss : List Segment) → Tiles step a e ss → Disjoint ss
Tiles-Disjoint step a e [] tiles i j s t at_s at_t ne = absurd cc
Tiles-Disjoint step a e (p ∷ ps) tiles zero zero s t at_s at_t ne = absurd (ne refl)
Tiles-Disjoint step a e (p ∷ ps) (lt, from, len, more) zero (suc j) s t at_s at_t ne =
    let e1 : p.start ≡ s.start = ap (λ q. q.start) (some-injective p s at_s) in
    let e2 : p.remain ≡ s.remain = ap (λ q. q.remain) (some-injective p s at_s) in
    inl (omega (arith, Tiles-within step (a + p.remain) e ps j t more at_t))
Tiles-Disjoint step a e (p ∷ ps) (lt, from, len, more) (suc i) zero s t at_s at_t ne =
    let e1 : p.start ≡ t.start = ap (λ q. q.start) (some-injective p t at_t) in
    let e2 : p.remain ≡ t.remain = ap (λ q. q.remain) (some-injective p t at_t) in
    inr (omega (arith, Tiles-within step (a + p.remain) e ps i s more at_s))
Tiles-Disjoint step a e (p ∷ ps) (lt, from, len, more) (suc i) (suc j) s t at_s at_t ne =
    Tiles-Disjoint step (a + p.remain) e ps more i j s t at_s at_t (λ q. ne (ap suc q))

Tiles-covers :
    (step a e : ℕ) (ss : List Segment) (p : ℕ)
    → Tiles step a e ss
    → a ≤ p
    → p < e
    → (i : ℕ) × (s : Segment) × (get_elem? ss i ≡ some s) × (s.start ≤ p) × (p < s.start + s.remain)
Tiles-covers step a e [] p tiles low high = absurd (omega arith)
Tiles-covers step a e (s ∷ ss) p (lt, from, len, more) low high = elim (dec_lt p (a + s.remain)) [
  | yes below ↦ (0, s, refl, omega arith, omega arith)
  | no above ↦
      let (i, t, at, low', high') =
        Tiles-covers step (a + s.remain) e ss p more (omega arith) high in
      (suc i, t, at, low', high')
]

module _ (C : Context) (b : Build) (accepts : Accepts C.W) (laws : FileLaws C.W) (file : ℕ → ℕ)
    (streams : Segment → List Bytes) (disk : C.W.Disk) where
  -- What a run of the tasks of `parts` gives for the positions from `a` to `e`.
  pub record Complete (parts : List Segment) (a e : ℕ) : Type 0 where
    pub some_run :
        (n : ℕ) × (t : System C) × Reach C b (start_of C b streams disk parts) n t
        × Ended t.fetchers
    pub every_run :
        (n : ℕ) (t : System C)
        → Reach C b (start_of C b streams disk parts) n t
        → Ended t.fetchers
        → ((p : ℕ) → a ≤ p → p < e → laws.read t.disk p ≡ file p)
          × ((p : ℕ) → (p < a) ⊎ (e ≤ p) → laws.read t.disk p ≡ laws.read disk p)

  pub Tiles-Served :
      (step a e : ℕ) (ss : List Segment)
      → Tiles step a e ss
      → e < u64_mod
      → e < a + 2 ^ 63
      → ((p : Segment) (i : ℕ)
          → i < p.remain
          → get_elem? (flatten (streams p)) i ≡ some (file (p.start + i)))
      → ((p : Segment) → FirstWithin p.remain (streams p))
      → Served C b accepts laws file streams disk ss
  Tiles-Served step a e ss tiles ends small serves first = record {
    disjoint = Tiles-Disjoint step a e ss tiles;
    small = λ i s at. omega (arith, Tiles-within step a e ss i s tiles at);
    ends = λ i s at. omega (arith, Tiles-within step a e ss i s tiles at);
    serves = λ i s k at h. serves s k h;
    first = λ i s at. first s;
  }

  Tiles-Complete :
      (step a e : ℕ) (ss : List Segment)
      → Tiles step a e ss
      → Served C b accepts laws file streams disk ss
      → Complete ss a e
  Tiles-Complete step a e ss tiles served = record {
    some_run =
        let (n, t, _, reach, ended) =
          Reach-Ended C b accepts laws file streams disk ss served Reach.here in
        (n, t, reach, ended);
    every_run = λ n t reach ended.
        let (_, holds, kept) =
          Ended-file C b accepts laws file streams disk ss served reach ended in
        (
          λ p low high.
              let (i, s, at, low', high') = Tiles-covers step a e ss p tiles low high in
              holds i s p at low' high',
          λ p out.
              kept p
                (λ i s at. let (low, high) = Tiles-within step a e ss i s tiles at in ground arith),
        );
  }

  -- A segment is split into parts for a number of tasks, which take turns in any order: `split_by_times`
  -- and the iterator return, the iterator is exhausted after as many parts at most, some run ends
  -- every task, and after every run that has ended every task the segment's positions hold the bytes
  -- of the file, every other position what it held. Each task starts with what `Remain::new` makes of
  -- its counter; the stream of each part begins with the part's bytes of the file, in a first chunk
  -- that is no longer than the part, and the writer takes every write, into a file; there is a task,
  -- the segment is not empty, its length is an `i64`, and its end and the sum of its length and the
  -- number are `u64`s.
  pub split_by_times-Complete :
      (s : Segment) (times : ℕ)
      → 0 < times
      → 0 < s.remain
      → s.remain < 2 ^ 63
      → s.start + s.remain < u64_mod
      → s.remain + times < u64_mod
      → ((p : Segment) (i : ℕ)
          → i < p.remain
          → get_elem? (flatten (streams p)) i ≡ some (file (p.start + i)))
      → ((p : Segment) → FirstWithin p.remain (streams p))
      → (iter : SegmentIter) × (last : SegmentIter) × (parts : List Segment) × (split_by_times b s
            times
          ≡ returns iter)
        × (take_next b times iter ≡ returns (parts, last))
        × (last.remain ≡ none)
        × Complete parts s.start (s.start + s.remain)
  split_by_times-Complete s times pos some_left small ends fits serves first =
      let (split, t) = split_by_times-Tiles b s times pos some_left ends fits in
      (
        new_iter s.start (some s.remain) (step_of s times),
        t.last,
        t.items,
        split,
        t.ran,
        t.done,
        Tiles-Complete (step_of s times) s.start (s.start + s.remain) t.items t.tiles (
            Tiles-Served (step_of s times) s.start (s.start + s.remain) t.items t.tiles ends
              (omega arith) serves first),
      )
