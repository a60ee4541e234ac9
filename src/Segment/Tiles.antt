-- ===== src/Segment/Tiles.antt =====
-- What the segments of one division cover, over `SegmentIter` of
-- Dtool_impl/src/downloader/segment.rs.
use native.Mathlib.Decide.{dec_lt}
use rs_dtool.Base.{
  ℕ, zero, suc, ◌+◌, ◌-◌, ◌*◌, ◌≤◌, ◌<◌, min, ◌≡◌, refl, none, some, List, [], ◌∷◌, returns, Build,
  u64_mod, add_u64_lem, sub_u64_lem, non_zero_lem, lt→ltb, le→ltb, arith, length,
}
use rs_dtool.Segment.{split_by_step, Segment, SegmentIter, new, new_iter, next, take_next}

-- The list runs from `a` to `e` with no gap and no overlap. Each segment is as long as `step`
-- allows.
abbrev pub Tiles : ℕ → ℕ → ℕ → List Segment → Type 0
Tiles step a e [] = a ≡ e
Tiles step a e (p ∷ ps) =
    (a < e) × (p.start ≡ a) × (p.remain ≡ min step (e - a)) × Tiles step (a + p.remain) e ps

-- One call of `next`, in the middle and at the end.
pub next_middle :
    (b : Build) (start remain step : ℕ)
    → 0 < step
    → step < remain
    → start + remain < u64_mod
    → next b (new_iter start (some remain) step)
      ≡ returns (some (new start step), new_iter (start + step) (some (remain - step)) step)
unfolding next new new_iter
next_middle b start remain step pos lt fits = rw (
  lt→ltb step remain lt,
  sub_u64_lem b remain step (omega arith) (omega arith),
  add_u64_lem b start step (omega arith),
  non_zero_lem (remain - step) (omega arith),
)

pub next_last :
    (b : Build) (start remain step : ℕ)
    → remain ≤ step
    → next b (new_iter start (some remain) step)
      ≡ returns (some (new start remain), new_iter start none step)
unfolding next new new_iter
next_last b start remain step le = rw (le→ltb step remain le)

-- What a caller gets who takes `n` items: tiles of the range, and an iterator that is done.
pub record Taken (b : Build) (n start remain step stop : ℕ) : Type 0 where
  pub items : List Segment
  pub last : SegmentIter
  pub ran : take_next b n (new_iter start (some remain) step) ≡ returns (items, last)
  pub done : last.remain ≡ none
  pub few : length items ≤ n
  pub tiles : Tiles step start stop items

take_done :
    (b : Build) (n start step : ℕ)
    → take_next b n (new_iter start none step) ≡ returns ([], new_iter start none step)
unfolding take_next next new_iter
take_done b zero start step = refl
take_done b (suc n) start step = refl

Taken-last :
    (b : Build) (n start remain step stop : ℕ)
    → 0 < remain
    → remain ≤ step
    → start + remain ≡ stop
    → Taken b (suc n) start remain step stop
unfolding take_next new
Taken-last b n start remain step stop some_left le ends = record {
  items = new start remain ∷ [];
  last = new_iter start none step;
  ran = rw (next_last b start remain step le, take_done b n start step);
  done = unfold new_iter in refl;
  few = omega arith;
  tiles = (omega arith, refl, omega arith, omega arith);
}

Taken-middle :
    (b : Build) (n start remain step stop : ℕ)
    → 0 < step
    → step < remain
    → start + remain ≡ stop
    → start + remain < u64_mod
    → Taken b n (start + step) (remain - step) step stop
    → Taken b (suc n) start remain step stop
unfolding take_next new
Taken-middle b n start remain step stop pos lt ends fits t = record {
  items = new start step ∷ t.items;
  last = t.last;
  ran = rw (next_middle b start remain step pos lt fits, t.ran);
  done = t.done;
  few = omega (arith, t.few);
  tiles = (omega arith, refl, omega arith, t.tiles);
}

-- Where `n` steps reach over the range, `n` items are taken from an iterator over it.
pub Taken-steps :
    (b : Build) (n start remain step stop : ℕ)
    → 0 < step
    → 0 < remain
    → remain ≤ n * step
    → start + remain ≡ stop
    → stop < u64_mod
    → Taken b n start remain step stop
Taken-steps b zero start remain step stop pos some_left enough ends fits = absurd (omega arith)
Taken-steps b (suc n) start remain step stop pos some_left enough ends fits =
    elim (dec_lt step remain) [
      | yes lt ↦ Taken-middle b n start remain step stop pos lt ends (omega arith) (
          Taken-steps b n (start + step) (remain - step) step stop pos (omega arith) (grind arith)
            (omega arith) fits)
      | no ge ↦ Taken-last b n start remain step stop some_left (omega arith) ends
    ]

-- If `n` steps reach over a segment, taking `n` items from the iterator that `split_by_step` makes
-- of it returns in either build and exhausts the iterator; they are at most `n` segments, which
-- tile the segment in order, each of them `step` long but for a shorter last one. The step is not
-- 0, the segment is not empty, and its end is a `u64`.
pub take_next-split_by_step :
    (b : Build) (n : ℕ) (s : Segment) (step : ℕ)
    → 0 < step
    → 0 < s.remain
    → s.remain ≤ n * step
    → s.start + s.remain < u64_mod
    → (parts : List Segment) × (last : SegmentIter) × (take_next b n (split_by_step s step)
        ≡ returns (parts, last))
      × (last.remain ≡ none)
      × (length parts ≤ n)
      × Tiles step s.start (s.start + s.remain) parts
unfolding split_by_step
take_next-split_by_step b n s step pos some_left enough fits =
    let t : Taken b n s.start s.remain step (s.start + s.remain) =
      Taken-steps b n s.start s.remain step (s.start + s.remain) pos some_left enough refl fits in
    (t.items, t.last, t.ran, t.done, t.few, t.tiles)
